-- ===== src/Nodes/Index.antt =====
-- `ensure_index_cap`: the directory grows by doubling until the id fits.
use native.Mathlib.Nat.{pow-suc}
use resonance.Prelude.{
  ap, ◌∙◌, [], ◌∷◌, ℕ, zero, suc, ◌+◌, ◌-◌, ◌*◌, ◌/◌, ◌^◌, ◌≤◌, ◌<◌, ◌≡◌, ◌⊎◌, refl, inl, inr, Bool,
  true, false, Option, none, some, List, ◌++◌, arith, ltb, leb, length, get_or, replicate, size_max,
  u64_mod, ok, out_of_bounds, Returns, returns, Returns-if, Returns-bind, Returns-map, Returns-inv,
  Option-cases, length-append, length-replicate, ◌==◌, if◌then◌else◌,
}
use resonance.Nodes.{allocated, index_size, double_until, fill_unused, ensure_index_cap}

-- The entry of an id, SIZE_MAX for an id past the end.
abbrev pub slot : List ℕ → ℕ → ℕ
slot by_id id = get_or by_id id size_max

-- What the doubling loop returns: a capacity above `id` and at most twice it, or it gave up since
-- the capacity has passed half of SIZE_MAX and `id` lies above that.
abbrev pub Doubled : ℕ → ℕ → Option ℕ → Type 0
Doubled new_cap id none = size_max / 2 < id
Doubled new_cap id (some n) = (id < n) × (new_cap ≤ n) × ((n ≡ new_cap) ⊎ (n ≤ 2 * id))

pub double_until-Doubled :
    (k new_cap id : ℕ)
    → 0 < new_cap
    → id < new_cap * 2 ^ k
    → Returns (Doubled new_cap id) (double_until (suc k) new_cap id)
unfolding double_until
double_until-Doubled zero new_cap id pos room =
    Returns-if (leb new_cap id) (λ low. absurd (ground arith))
      (λ high. returns (ground arith, ground arith, inl refl))
double_until-Doubled (suc k) new_cap id pos room =
    Returns-if (leb new_cap id)
      (λ low.
        Returns-if (ltb (size_max / 2) new_cap) (λ big. returns (ground arith))
          (λ small.
            Returns-map
              (double_until-Doubled k (new_cap * 2) id (ground arith)
                (omega (arith, ap (λ (t : ℕ). new_cap * t) (pow-suc 2 k))))
              λ r d. weaken r (ground arith) d))
      (λ high. returns (ground arith, ground arith, inl refl))
  where
    weaken : (r : Option ℕ) → new_cap ≤ id → Doubled (new_cap * 2) id r → Doubled new_cap id r
    weaken none low d = d
    weaken (some n) low d = (d.0, omega arith, inr (omega arith))

pub slot-append_unused :
    (by_id : List ℕ) (n k : ℕ) → slot (by_id ++ replicate n size_max) k ≡ slot by_id k
slot-append_unused [] zero k = refl
slot-append_unused [] (suc n) zero = refl
slot-append_unused [] (suc n) (suc k) = slot-append_unused [] n k
slot-append_unused (x ∷ by_id) n zero = refl
slot-append_unused (x ∷ by_id) n (suc k) = slot-append_unused by_id n k

-- A directory that covers the id and maps every id as before; or a refusal, since `realloc` has
-- failed where the directory had to grow.
unfoldable pub Ensured : Bool → List ℕ → ℕ → Option (List ℕ) → Type 0
Ensured realloc_ok by_id id none = (realloc_ok ≡ false) × (length by_id ≤ id)
Ensured realloc_ok by_id id (some grown) =
    (id < length grown) × (length by_id ≤ length grown) × ((k : ℕ) → slot grown k ≡ slot by_id k)

fill_unused-Ensured :
    (by_id : List ℕ) (id new_cap : ℕ)
    → length by_id ≤ new_cap
    → id < new_cap
    → new_cap ≤ size_max / index_size
    → Returns (Ensured true by_id id) (fill_unused by_id new_cap)
unfolding fill_unused Ensured
fill_unused-Ensured by_id id new_cap old room fits =
    let extra = replicate (new_cap - length by_id) size_max in
    let size =
      length-append by_id extra
      ∙ ap (λ n. length by_id + n) (length-replicate (new_cap - length by_id) size_max) in
    Returns-if (ltb (allocated new_cap index_size) new_cap) (λ wraps. absurd (ground arith))
      (λ fine. returns (omega (arith, size), omega (arith, size), slot-append_unused by_id _))

grown-Ensured :
    (realloc_ok : Bool) (by_id : List ℕ) (id start : ℕ) (r : Option ℕ)
    → id < 2 ^ 60
    → length by_id ≤ id
    → length by_id ≤ start
    → start ≤ id + 1
    → Doubled start id r
    → Returns (Ensured realloc_ok by_id id) (elim r [
      | none ↦ ok none
      | some new_cap ↦ if realloc_ok then fill_unused by_id new_cap else ok none
    ])
unfolding Ensured
grown-Ensured realloc_ok by_id id start none small past old low d = absurd (omega arith)
grown-Ensured false by_id id start (some n) small past old low d = returns (refl, past)
grown-Ensured true by_id id start (some n) small past old low d =
    fill_unused-Ensured by_id id n (omega arith) (omega arith) (omega arith)

-- For an id below 2 ^ 60 `ensure_index_cap` returns: the growth loop ends, and nothing is written
-- past the block. A directory that it returns covers the id and maps every id as before; it
-- refuses only if the directory has to grow and `realloc` fails.
pub ensure_index_cap-Ensured :
    (realloc_ok : Bool) (by_id : List ℕ) (id : ℕ)
    → id < 2 ^ 60
    → Returns (Ensured realloc_ok by_id id) (ensure_index_cap realloc_ok by_id id)
unfolding ensure_index_cap Ensured
ensure_index_cap-Ensured realloc_ok by_id id small =
    Returns-if (leb size_max id) (λ big. absurd (ground arith))
      (λ _.
        Returns-if (ltb id (length by_id)) (λ there. returns (ground arith, omega arith, λ k. refl))
          (λ past.
            let start : ℕ = if length by_id == 0 then 1 else length by_id in
            let first : (0 < start) × (length by_id ≤ start) × (start ≤ id + 1) = ground arith in
            Returns-bind (double_until-Doubled 64 start id first.0 (omega arith)) λ r d.
              grown-Ensured realloc_ok by_id id start r small (ground arith) first.1 first.2 d))

-- For an id below 2 ^ 63 the loop never gives up.
doubled-some :
    (start id : ℕ)
    → 0 < start
    → start ≤ id
    → id < 2 ^ 63
    → (n : ℕ) × (double_until 65 start id ≡ ok (some n))
doubled-some start id some_room low word =
    let (out, e, d) = Returns-inv (double_until-Doubled 64 start id some_room (omega arith)) in
    elim (Option-cases out) [
      | inl gave_up ↦ absurd (omega (arith, rw gave_up at d))
      | inr (n, found) ↦ (n, e ∙ ap ok found)
    ]

doubled-at-least :
    (k new_cap id : ℕ) {n : ℕ}
    → double_until k new_cap id ≡ ok (some n)
    → new_cap < u64_mod
    → (id < n) × (n < u64_mod)
unfolding double_until
doubled-at-least zero new_cap id e w = cc
doubled-at-least (suc k) new_cap id {n} e w =
    ground (arith, doubled-at-least k (new_cap * 2) id {n = n})

-- The size of the directory in bytes is not checked: for an id from 2 ^ 61 up to 2 ^ 63 - 1, past
-- the end of the directory, a successful `realloc` is followed by writes past the block it
-- returned.
pub ensure_index_cap_wraps :
    (by_id : List ℕ) (id : ℕ)
    → 2 ^ 61 ≤ id
    → id < 2 ^ 63
    → length by_id ≤ id
    → ensure_index_cap true by_id id ≡ out_of_bounds
unfolding ensure_index_cap fill_unused
ensure_index_cap_wraps by_id id big word past =
    let start : ℕ = if length by_id == 0 then 1 else length by_id in
    let (new_cap, e) = doubled-some start id (ground arith) (ground arith) word in
    let above = doubled-at-least 65 start id e (ground arith) in
    rw (e, ensure_index_cap) (ground arith)
