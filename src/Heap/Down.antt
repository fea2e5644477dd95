-- ===== src/Heap/Down.antt =====
-- The loop of `heap_pop`: the event put at the root sinks below those that go first.
use mathlib.Core.List.Perm
use resonance.Prelude.{
  ℕ, zero, suc, ◌+◌, ◌*◌, ◌<◌, ◌≡◌, ◌≢◌, ◌⊎◌, refl, inl, inr, true, List, arith, ◌==◌, length, ltb,
  Returns, returns, Returns-if, Returns-bind, Returns-map, Bool-cases, ℕ_discrete, ◌∙◌,
}
use resonance.Heap.{Event, event_before, parent, pick, smallest_of, sift_down}
use resonance.Heap.Order.{
  at, NotAfter, NotAfter-refl, NotAfter-trans, event_before_asym, Sifted, swapped, load-ok, swap-ok,
  length-swapped, at-swapped, Sifted-swapped,
}

-- Only the edges below `i` may be out of order.
pub record SinksFrom (a : List Event) (i : ℕ) : Type 0 where
  pub edges : (c : ℕ) → 0 < c → c < length a → parent c ≢ i → NotAfter (at a (parent c)) (at a c)
  pub bridged :
      (c : ℕ) → 0 < c → c < length a → parent c ≡ i → 0 < i → NotAfter (at a (parent i)) (at a c)

-- What one of the loop's two tests does: it goes over to the child if that goes first.
record Picked (a : List Event) (child s m : ℕ) : Type 0 where
  inside : m < length a
  place : (m ≡ s) ⊎ (m ≡ child)
  first : NotAfter (at a m) (at a s)
  before_child : child < length a → NotAfter (at a m) (at a child)
  strict : (m ≡ s) ⊎ (event_before (at a m) (at a s) ≡ true)

pick-Picked :
    (a : List Event) (child s : ℕ) → s < length a → Returns (Picked a child s) (pick a child s)
unfolding pick
pick-Picked a child s hs =
    Returns-if (ltb child (length a))
      (λ there.
        let hc : child < length a = ground arith in
        rw (load-ok a child hc, load-ok a s hs)
          (elim (Bool-cases (event_before (at a child) (at a s))) [
            | inl e ↦ rw e (
                returns (record {
                  inside = hc;
                  place = inr refl;
                  first = event_before_asym (at a child) (at a s) e;
                  before_child = λ _. NotAfter-refl (at a child);
                  strict = inr e;
                }))
            | inr e ↦ rw e (
                returns (record {
                  inside = hs;
                  place = inl refl;
                  first = NotAfter-refl (at a s);
                  before_child = λ _. e;
                  strict = inl refl;
                }))
          ]))
      (λ gone. returns (record {
        inside = hs;
        place = inl refl;
        first = NotAfter-refl (at a s);
        before_child = λ h. absurd (ground arith);
        strict = inl refl;
      }))

-- `m` goes first among `i` and its children.
pub record IsSmallest (a : List Event) (i m : ℕ) : Type 0 where
  pub inside : m < length a
  pub place : (m ≡ i) ⊎ ((0 < m) × (parent m ≡ i))
  pub first : NotAfter (at a m) (at a i)
  pub least : (c : ℕ) → 0 < c → c < length a → parent c ≡ i → NotAfter (at a m) (at a c)

smallest_of-IsSmallest :
    (a : List Event) (i : ℕ) → i < length a → Returns (IsSmallest a i) (smallest_of a i)
unfolding smallest_of
smallest_of-IsSmallest a i h = Returns-bind (pick-Picked a (2 * i + 1) i h) λ l p.
    Returns-map (pick-Picked a (2 * i + 2) l p.inside) λ m q. record {
      inside = q.inside;
      place = elim q.place [
        | inl e ↦ elim p.place [ inl e' ↦ inl (e ∙ e') | inr e' ↦ inr (omega arith) ]
        | inr e ↦ inr (omega arith)
      ];
      first = NotAfter-trans (at a m) (at a l) (at a i) q.first p.first;
      least = λ c pos hc e. elim (ℕ_discrete c (2 * i + 1)) [
        | yes left ↦ rw left (
            NotAfter-trans (at a m) (at a l) (at a (2 * i + 1)) q.first
              (p.before_child (omega arith)))
        | no right ↦ let e' : c ≡ 2 * i + 2 = omega arith in rw e' (q.before_child (omega arith))
      ];
    }

swapped-SinksFrom :
    (a : List Event) (i m : ℕ)
    → i < length a
    → SinksFrom a i
    → IsSmallest a i m
    → m ≢ i
    → SinksFrom (swapped a i m) m
swapped-SinksFrom a i m hi v s n =
    let size = length-swapped a i m in
    let read = at-swapped a i m hi s.inside in
    let child : (0 < m) × (parent m ≡ i) = omega (arith, s.place) in
    record {
      edges = λ c p q r.
          ground (
            arith,
            read c,
            read (parent c),
            v.edges c,
            v.bridged m,
            s.least c,
            s.first,
            v.bridged c,
          );
      bridged = λ c p q e r. ground (arith, read c, read (parent m), v.edges c);
    }

pub sift_down-Sifted :
    (k : ℕ) (a : List Event) (i : ℕ)
    → i < length a
    → length a < i + k
    → SinksFrom a i
    → Returns (Sifted a) (sift_down k a i)
unfolding sift_down
sift_down-Sifted zero a i hi f v = absurd (omega arith)
sift_down-Sifted (suc k) a i hi f v = Returns-bind (smallest_of-IsSmallest a i hi) λ m s.
    Returns-if (m == i)
      (λ stays. returns (
        λ c p q. elim (ℕ_discrete (parent c) i) [
          | yes e ↦ let e' : m ≡ i = ground arith in rw (e, ← e') (s.least c p q e)
          | no n ↦ v.edges c p q n
        ],
        Perm.rfl,
      ))
      (λ moves.
        let n : m ≢ i = ground arith in
        rw (swap-ok a i m hi s.inside) (
          Sifted-swapped a i m hi s.inside (
            sift_down-Sifted k (swapped a i m) m (omega (arith, length-swapped a i m, s.inside))
              (omega (arith, length-swapped a i m, s.place)) (swapped-SinksFrom a i m hi v s n))))
