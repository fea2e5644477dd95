-- ===== src/Heap/Order.antt =====
-- The order of events by time and sequence number, and what it is for an array to be a heap.
use mathlib.Core.List.Perm
use resonance.Prelude.{
  ℕ, zero, suc, ◌<◌, ◌≡◌, true, false, none, List, Perm, arith, ◌==◌, if◌then◌else◌, length, get_or,
  set, get_elem?-get_or, get_or-set, set-perm, length-set, ok, Returns, Returns-map, Run,
}
use resonance.Heap.{Event, event_before, load, swap, parent}

-- The entry of a read whose bound is known; never seen by the code.
abbrev pub no_event : Event
no_event = record {
  executed_at = 0;
  callback_func = 0;
  sequence_number = 0;
  payload = none;
  payload_len = 0;
  from_id = 0;
  to_id = 0;
  src_port = 0;
  dst_port = 0;
}

abbrev pub at : List Event → ℕ → Event
at a i = get_or a i no_event

-- `x` does not come after `y`.
abbrev pub NotAfter : Event → Event → Type 0
NotAfter x y = event_before y x ≡ false

pub NotAfter-refl : (x : Event) → NotAfter x x
unfolding event_before
NotAfter-refl x = ground arith

pub NotAfter-trans : (x y z : Event) → NotAfter x y → NotAfter y z → NotAfter x z
unfolding event_before
NotAfter-trans x y z p q = ground arith

pub event_before_asym : (x y : Event) → event_before x y ≡ true → NotAfter x y
unfolding event_before
event_before_asym x y p = ground arith

-- Every event but the root stays behind its parent.
abbrev pub IsHeap : List Event → Type 0
IsHeap a = (c : ℕ) → 0 < c → c < length a → NotAfter (at a (parent c)) (at a c)

-- `b` is a heap of the events of `a`.
abbrev pub Sifted : List Event → List Event → Type 0
Sifted a b = IsHeap b × Perm b a

-- The array after a swap of two entries.
abbrev pub swapped : List Event → ℕ → ℕ → List Event
swapped a i j = set (set a i (at a j)) j (at a i)

pub load-ok : (a : List Event) (i : ℕ) → i < length a → load a i ≡ ok (at a i)
unfolding load
load-ok a i h = rw (get_elem?-get_or a i no_event h)

pub length-swapped : (a : List Event) (i j : ℕ) → length (swapped a i j) ≡ length a
length-swapped a i j = simp length-set

module _ (a : List Event) (i j : ℕ) (hi : i < length a) (hj : j < length a) where
  pub swap-ok : swap a i j ≡ ok (swapped a i j)
  unfolding swap
  swap-ok = rw (load-ok a i hi, load-ok a j hj)

  pub at-swapped :
      (c : ℕ)
      → at (swapped a i j) c ≡ (if j == c then at a i else if i == c then at a j else at a c)
  at-swapped c = rw (
    get_or-set (set a i (at a j)) j c (at a i) no_event (rw length-set hj),
    get_or-set a i c (at a j) no_event hi,
  )

  pub swapped-perm : Perm (swapped a i j) a
  swapped-perm =
      let b = set a i (at a j) in
      let kept : at b j ≡ at a j = ground (arith, get_or-set a i j (at a j) no_event) in
      let second = rw kept at (set-perm b j (at a i) no_event (rw length-set hj)) in
      Perm.cons_inv (Perm.trans second (set-perm a i (at a j) no_event hi))

  pub Sifted-swapped :
      {r : Run (List Event)} → Returns (Sifted (swapped a i j)) r → Returns (Sifted a) r
  Sifted-swapped run = Returns-map run λ b s. (s.0, Perm.trans s.1 swapped-perm)

-- Induction on a bound of the index.
root_first_below :
    (k : ℕ) (a : List Event) (i : ℕ) → IsHeap a → i < k → i < length a → NotAfter (at a 0) (at a i)
root_first_below zero a i h f p = absurd (omega arith)
root_first_below (suc k) a zero h f p = NotAfter-refl (at a 0)
root_first_below (suc k) a (suc i) h f p =
    NotAfter-trans (at a 0) (at a (parent (suc i))) (at a (suc i))
      (root_first_below k a (parent (suc i)) h (omega arith) (omega arith))
      (h (suc i) (omega arith) p)

-- No event of a heap comes before its root.
pub root_first : (a : List Event) (i : ℕ) → IsHeap a → i < length a → NotAfter (at a 0) (at a i)
root_first a i h p = root_first_below (suc i) a i h (omega arith) p
