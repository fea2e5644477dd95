-- ===== src/Heap/Drain.antt =====
-- Draining the heap, the loop of `context_free` in shared/context.c: in which order events leave.
use mathlib.Core.Bool.{Bool-set}
use mathlib.Core.Path.{ap₂, subst}
use native.Mathlib.Nat.{ℕ_set}
use mathlib.Core.Logic.Or
use mathlib.Core.List.{
  Mem, Pairwise, mem-cons, Pairwise-cons, rel_of_Pairwise-cons, mem-cons_self, mem-cons_of_mem,
}
use mathlib.Core.List.Perm
use resonance.Prelude.{
  ℕ, zero, suc, ◌<◌, ◌≡◌, ◌≢◌, sym, ap, Option, none, some, List, [], ◌∷◌, Perm, arith, length, Run,
  ok, out_of_bounds, overflow, out_of_fuel, ◌>>=◌, Returns, returns, Returns-inv, Returns-bind,
  length-perm,
}
use resonance.Heap.{Event, MinHeap, event_before, heap_pop}
use resonance.Heap.Order.{NotAfter, NotAfter-refl}
use resonance.Heap.Queue.{IsValid, Popped, taken, nothing, heap_pop-Popped}

-- The events whose payloads are freed, in order.
unfoldable pub drain : ℕ → Option MinHeap → Run (List Event)
drain zero h = out_of_fuel
drain (suc k) h = elim (heap_pop h) [
  | ok (some ev, h') ↦ drain k h' >>= λ rest. ok (ev ∷ rest)
  | ok (none, h') ↦ ok []
  | out_of_bounds ↦ out_of_bounds
  | overflow ↦ overflow
  | out_of_fuel ↦ out_of_fuel
]

abbrev pub InOrder : List Event → Type 0
InOrder = Pairwise NotAfter

-- All sequence numbers differ.
abbrev pub Unique : List Event → Type 0
Unique = Pairwise (λ x y. x.sequence_number ≢ y.sequence_number)

-- An event put before a drained rest.
drained-cons :
    (e : Event) (a b rest : List Event)
    → Perm (e ∷ b) a
    → ((t : Event) → Mem t a → NotAfter e t)
    → InOrder rest × Perm rest b
    → InOrder (e ∷ rest) × Perm (e ∷ rest) a
drained-cons e a b rest same first (sorted, perm) =
    let all = Perm.trans (Perm.cons e perm) same in
    (Pairwise.cons (λ t m. first t ((Perm.mem_iff all).0 (mem-cons_of_mem e m))) sorted, all)

abbrev Drains : ℕ → MinHeap → Type 0
Drains k h = Returns (λ out. InOrder out × Perm out h.data_) (drain k (some h))

-- One round, after `heap_pop` has returned `r`.
drain_round :
    (k : ℕ) (h : MinHeap) {r : Option Event × Option MinHeap}
    → length h.data_ < suc k
    → heap_pop (some h) ≡ ok r
    → Popped h r
    → ((g : MinHeap) → length g.data_ < k → IsValid g → Drains k g)
    → Drains (suc k) h
unfolding drain
drain_round k h f e (nothing left) ih = rw (e, drain, left) (returns (Pairwise.nil, Perm.nil))
drain_round k h f e (taken {e = ev} {g} v same first kept) ih =
    rw (e, drain)
      (Returns-bind (ih g (omega (arith, length-perm same)) v)
        λ rest d. returns (drained-cons ev h.data_ g.data_ rest same first d))

-- A valid heap drains, with fuel for its size, into all of its events in the order of
-- (time, sequence number).
pub drain-InOrder : (k : ℕ) (h : MinHeap) → length h.data_ < k → IsValid h → Drains k h
drain-InOrder zero h f v = absurd (omega arith)
drain-InOrder (suc k) h f v =
    let (r, e, p) = Returns-inv (heap_pop-Popped h v) in
    drain_round k h f e p λ g room valid. drain-InOrder k g room valid

Event-set : IsSet Event
Event-set = hlevel ℕ_set

-- Neither comes before the other only if time and sequence number agree.
tied-sequence : (x y : Event) → NotAfter x y → NotAfter y x → x.sequence_number ≡ y.sequence_number
unfolding event_before
tied-sequence x y p q = ground arith

first_agrees :
    (x y : Event) (xs : List Event)
    → InOrder (x ∷ xs)
    → Unique (x ∷ xs)
    → NotAfter y x
    → Mem y (x ∷ xs)
    → x ≡ y
first_agrees x y xs sorted distinct first m =
    Or.elim (Event-set x y) (mem-cons.0 m) (λ e. sym e)
      λ later. absurd (
        rel_of_Pairwise-cons distinct later
          (tied-sequence x y (rel_of_Pairwise-cons sorted later) first))

-- There is one way only to put events with different sequence numbers in order.
InOrder-Unique : (xs ys : List Event) → InOrder xs → InOrder ys → Unique xs → Perm ys xs → xs ≡ ys
InOrder-Unique [] ys p q u same = sym (Perm.eq-nil same)
InOrder-Unique (x ∷ xs) [] p q u same = sym (Perm.nil-eq same)
InOrder-Unique (x ∷ xs) (y ∷ ys) p q u same =
    let x_there = (Perm.mem_iff same).1 (mem-cons_self {l = xs}) in
    let first : NotAfter y x =
      Or.elim (Bool-set _ _) (mem-cons.0 x_there) (λ e. rw e (NotAfter-refl y))
        (λ m. rel_of_Pairwise-cons q m) in
    let heads = first_agrees x y xs p u first ((Perm.mem_iff same).0 (mem-cons_self {l = ys})) in
    let tails = Perm.cons_inv (subst (λ z. Perm (z ∷ ys) (x ∷ xs)) (sym heads) same) in
    ap₂ ◌∷◌ heads
      (InOrder-Unique xs ys (Pairwise-cons.0 p).1 (Pairwise-cons.0 q).1 (Pairwise-cons.0 u).1 tails)

-- The order in which a valid heap drains depends only on which events it holds, if their sequence
-- numbers differ: not on the order in which they were pushed, nor on the shape of the array.
pub drain_deterministic :
    (k : ℕ) (g h : MinHeap)
    → IsValid g
    → IsValid h
    → Unique g.data_
    → Perm h.data_ g.data_
    → length g.data_ < k
    → drain k (some g) ≡ drain k (some h)
drain_deterministic k g h v w u same f =
    let (xs, ex, (sx, px)) = Returns-inv (drain-InOrder k g f v) in
    let (ys, ey, (sy, py)) = Returns-inv (drain-InOrder k h (omega (arith, length-perm same)) w) in
    let distinct = Perm.pairwise (λ a b. hlevel) (λ a b n e. n (sym e)) (Perm.symm px) u in
    rw (ex, ey)
      (ap ok (InOrder-Unique xs ys sx sy distinct (Perm.trans py (Perm.trans same (Perm.symm px)))))
