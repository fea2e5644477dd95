-- ===== src/Tun/Table.antt =====
-- Tables whose entries are looked up by a test and removed by a swap with the last one.
use mathlib.Core.List.{Mem, Permᴰ, mem-cons_self, mem-cons_of_mem, not-mem-nil, forall_mem-cons}
use mathlib.Core.Logic.{∥∥₁_elim}
use mathlib.Core.Bool.{Bool-set}
use mathlib.Core.List.Perm
use mathlib.Core.Path.{ap₂}
use resonance.Prelude.{
  ℕ, zero, suc, ◌-◌, ◌<◌, ◌≡◌, refl, ◌∙◌, Bool, true, false, ◌||◌, none, some, List, [], ◌∷◌, ◌++◌,
  Perm, arith, length, get_elem?, get_or, set, take, get_elem?-get_or, set-perm, append-perm,
  take-append-last, length-set, get_or-set, Bool-cases, Option-cases, inl, inr,
}
use resonance.Tun.{index_of, remove_swap, any}

module _ {ℓ} {A : Type ℓ} where
  -- What `index_of` finds passes the test, and is in the list.
  pub index_of-some :
      (test : A → Bool) (xs : List A) (i : ℕ)
      → index_of test xs ≡ some i
      → (x : A) × (get_elem? xs i ≡ some x) × (test x ≡ true) × (i < length xs)
  unfolding index_of
  index_of-some test [] i e = cc
  index_of-some test (x ∷ xs) i e = elim (Bool-cases (test x)) [
    | inl here ↦ (x, ground arith, here, ground arith)
    | inr no_hit ↦ elim (Option-cases (index_of test xs)) [
      | inl none_left ↦ absurd (ground arith)
      | inr (j, found) ↦
          let (y, there, passes, inside) = index_of-some test xs j found in
          let next : i ≡ suc j = ground arith in (y, rw next there, passes, rw next (omega arith))
    ]
  ]

  pub index_of-none :
      (test : A → Bool) (xs : List A) → index_of test xs ≡ none → any test xs ≡ false
  unfolding index_of
  index_of-none test [] e = refl
  index_of-none test (x ∷ xs) e = ground (arith, index_of-none test xs)

  last_first :
      (ys : List A) (n : ℕ) (last d : A)
      → length ys ≡ suc n
      → get_or ys n d ≡ last
      → Perm ys (last ∷ take n ys)
  last_first ys n last d size e =
      let whole = take-append-last n ys d size in
      rw e at (rw whole at (append-perm (take n ys) (get_or ys n d)))

  -- Removing an entry leaves the others.
  pub remove_swap-perm :
      (xs : List A) (i : ℕ) (x : A)
      → get_elem? xs i ≡ some x
      → i < length xs
      → Perm (x ∷ remove_swap xs i) xs
  unfolding remove_swap
  remove_swap-perm xs i x e h =
      let n = length xs - 1 in
      let last = get_or xs n x in
      let size : length xs ≡ suc n = omega arith in
      let entry : get_or xs i x ≡ x = ground (arith, get_elem?-get_or xs i x) in
      let tail : get_or (set xs i last) n x ≡ last = get_or-set xs i n last x h ∙ ground arith in
      let split = last_first (set xs i last) n last x (length-set xs i last ∙ size) tail in
      let traded : Perm (x ∷ set xs i last) (last ∷ xs) = rw entry at (set-perm xs i last x h) in
      let swapped = Perm.trans (Perm.cons x split) (Perm.swap last x _) in
      let rest : Perm (x ∷ take n (set xs i last)) xs =
        Perm.cons_inv (Perm.trans (Perm.symm swapped) traded) in
      rw (get_elem?-get_or xs n x (omega arith), remove_swap) rest

  any-permᴰ : (test : A → Bool) {xs ys : List A} → Permᴰ xs ys → any test xs ≡ any test ys
  any-permᴰ test (Permᴰ.trans before after) = any-permᴰ test before ∙ any-permᴰ test after
  any-permᴰ test (Permᴰ.swap x y) = ground arith
  any-permᴰ test (Permᴰ.cons same rest) = ap₂ (λ x b. test x || b) same (any-permᴰ test rest)
  any-permᴰ test Permᴰ.nil = refl

  pub any-perm : (test : A → Bool) {xs ys : List A} → Perm xs ys → any test xs ≡ any test ys
  any-perm test same = ∥∥₁_elim same (Bool-set _ _) λ p. any-permᴰ test p

  pub any-false :
      (test : A → Bool) (xs : List A) → ((x : A) → Mem x xs → test x ≡ false) → any test xs ≡ false
  any-false test [] h = refl
  any-false test (x ∷ xs) h =
      rw (h x (mem-cons_self {l = xs}), any-false test xs λ y m. h y (mem-cons_of_mem x m)) refl

  pub any-append :
      (test : A → Bool) (xs : List A) (x : A) → any test (xs ++ x ∷ []) ≡ any test xs || test x
  any-append test [] x = ground arith
  any-append test (y ∷ xs) x = ground (arith, any-append test xs x)

  pub any-miss :
      (test : A → Bool) (xs : List A) → any test xs ≡ false → (x : A) → Mem x xs → test x ≡ false
  any-miss test [] e = λ x m. absurd (not-mem-nil m)
  any-miss test (x ∷ xs) e =
      (forall_mem-cons λ y. Bool-set _ _).1 (ground arith, any-miss test xs (ground arith))

  pub any-hit :
      (test : A → Bool) (xs : List A) (i : ℕ) (x : A)
      → get_elem? xs i ≡ some x
      → test x ≡ true
      → any test xs ≡ true
  any-hit test [] i x e hit = cc
  any-hit test (y ∷ xs) zero x e hit = let same : y ≡ x = ground arith in rw (same, hit) refl
  any-hit test (y ∷ xs) (suc i) x e hit = rw (any-hit test xs i x e hit) (ground arith)

  pub any-member :
      (test : A → Bool) (xs : List A) (x : A) → Mem x xs → test x ≡ true → any test xs ≡ true
  any-member test xs x m hit = elim (Bool-cases (any test xs)) [
    | inl found ↦ found
    | inr miss ↦ let no_hit = any-miss test xs miss x m in absurd (cc)
  ]
