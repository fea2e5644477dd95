-- ===== src/Heap/Up.antt =====
-- The loop of `heap_push`: an event that is out of place rises to where it belongs.
use mathlib.Core.List.Perm
use resonance.Prelude.{
  ℕ, zero, suc, ◌<◌, ◌≡◌, ◌≢◌, true, List, arith, length, ltb, Returns, returns, Returns-if,
}
use resonance.Heap.{Event, event_before, parent, sift_up}
use resonance.Heap.Order.{
  at, NotAfter, NotAfter-trans, event_before_asym, Sifted, swapped, load-ok, swap-ok,
  length-swapped, at-swapped, Sifted-swapped,
}

-- Only the edge above `i` may be out of order.
pub record RisesFrom (a : List Event) (i : ℕ) : Type 0 where
  pub inside : i < length a
  pub edges : (c : ℕ) → 0 < c → c < length a → c ≢ i → NotAfter (at a (parent c)) (at a c)
  pub bridged :
      (c : ℕ) → 0 < c → c < length a → parent c ≡ i → 0 < i → NotAfter (at a (parent i)) (at a c)

swapped-RisesFrom :
    (a : List Event) (i : ℕ)
    → RisesFrom a i
    → 0 < i
    → event_before (at a i) (at a (parent i)) ≡ true
    → RisesFrom (swapped a i (parent i)) (parent i)
swapped-RisesFrom a i v pos below =
    let above : parent i < length a = omega arith in
    let size = length-swapped a i (parent i) in
    let read = at-swapped a i (parent i) v.inside above in
    let turned = event_before_asym (at a i) (at a (parent i)) below in
    record {
      inside = omega arith;
      edges = λ c p q n. ground (
        arith,
        read c,
        read (parent c),
        v.edges c,
        v.bridged c,
        turned,
        NotAfter-trans (at a i) (at a (parent i)) (at a c),
      );
      bridged = λ c p q e r. ground (
        arith,
        read c,
        read (parent (parent i)),
        v.edges c,
        v.edges (parent i),
        NotAfter-trans (at a (parent (parent i))) (at a (parent i)) (at a c),
      );
    }

pub sift_up-Sifted :
    (k : ℕ) (a : List Event) (i : ℕ) → i < k → RisesFrom a i → Returns (Sifted a) (sift_up k a i)
unfolding sift_up
sift_up-Sifted zero a i f v = absurd (omega arith)
sift_up-Sifted (suc k) a i f v =
    let above : parent i < length a = omega arith in
    rw (load-ok a i v.inside, load-ok a (parent i) above, swap-ok a i (parent i) v.inside above)
      (Returns-if (ltb 0 i)
        (λ pos.
          Returns-if (event_before (at a i) (at a (parent i)))
            (λ below. Sifted-swapped a i (parent i) v.inside above (
              sift_up-Sifted k (swapped a i (parent i)) (parent i) (ground arith)
                (swapped-RisesFrom a i v (ground arith) below)))
            (λ settled. returns (λ c p q. ground (arith, v.edges c), Perm.rfl)))
        (λ root. returns (λ c p q. v.edges c p q (ground arith), Perm.rfl)))
