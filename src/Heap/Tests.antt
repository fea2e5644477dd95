-- ===== src/Heap/Tests.antt =====
-- Runs of the event queue on small heaps.
use mathlib.Core.List.{Pairwise, not-mem-nil, forall_mem-cons}
use mathlib.Core.List.Perm
use resonance.Prelude.{
  ℕ, ◌+◌, ◌<◌, ◌≡◌, refl, true, false, some, [], ◌∷◌, Perm, arith, ◌^◌, ok, out_of_bounds, Returns,
}
use resonance.Heap.{
  Event, MinHeap, event_before, load, swap, heap_create, grown_capacity, reserve, sift_up,
  store_last, heap_push, pick, smallest_of, sift_down, remove_root, heap_pop,
}
use resonance.Heap.Order.{no_event}
use resonance.Heap.Queue.{IsValid, Pushed, heap_push-Pushed, Popped, heap_pop-Popped}
use resonance.Heap.Drain.{drain, drain_deterministic, Unique}
use resonance.Heap.Capacity.{heap_create_wraps}

abbrev event : ℕ → ℕ → Event
event t seq = record no_event { executed_at = t; callback_func = 1; sequence_number = seq }

abbrev three : MinHeap
three = record { data_ = event 10 1 ∷ event 30 0 ∷ event 10 2 ∷ []; capacity = 3; slots = 3 }

-- The same events, in another order.
abbrev other : MinHeap
other = record { data_ = event 10 1 ∷ event 10 2 ∷ event 30 0 ∷ []; capacity = 4; slots = 4 }

three-IsValid : IsValid three
unfolding event_before
three-IsValid = record {
  order = λ c p q. ground arith;
  bounded = omega arith;
  backed = omega arith;
  fits = omega arith;
}

other-IsValid : IsValid other
unfolding event_before
other-IsValid = record {
  order = λ c p q. ground arith;
  bounded = omega arith;
  backed = omega arith;
  fits = omega arith;
}

three-Unique : Unique three.data_
three-Unique =
    Pairwise.cons
      ((forall_mem-cons λ t. hlevel).1
        (omega arith, (forall_mem-cons λ t. hlevel).1 (omega arith, λ t m. absurd (not-mem-nil m))))
      (Pairwise.cons ((forall_mem-cons λ t. hlevel).1 (omega arith, λ t m. absurd (not-mem-nil m)))
        (Pairwise.cons (λ t m. absurd (not-mem-nil m)) Pairwise.nil))

three-Perm : Perm other.data_ three.data_
three-Perm = Perm.cons _ (Perm.swap _ _ _)

pop_takes_the_first :
    heap_pop (some three)
    ≡ ok (some (event 10 1), some (record three { data_ = event 10 2 ∷ event 30 0 ∷ [] }))
unfolding heap_pop load remove_root sift_down smallest_of pick swap event_before
pop_takes_the_first = refl

push_grows :
    heap_push true (some three) (event 5 3)
    ≡ ok (
      true,
      some (record {
        data_ = event 5 3 ∷ event 10 1 ∷ event 10 2 ∷ event 30 0 ∷ [];
        capacity = 6;
        slots = 6;
      }),
    )
unfolding heap_push reserve grown_capacity store_last sift_up load swap event_before
push_grows = refl

push_refuses : heap_push false (some three) (event 5 3) ≡ ok (false, some three)
unfolding heap_push reserve grown_capacity
push_refuses = refl

drain_in_order : drain 4 (some three) ≡ ok (event 10 1 ∷ event 10 2 ∷ event 30 0 ∷ [])
unfolding drain heap_pop load remove_root sift_down smallest_of pick swap event_before
drain_in_order = refl

heap_pop-Popped_example : Returns (Popped three) (heap_pop (some three))
heap_pop-Popped_example = heap_pop-Popped three three-IsValid

heap_push-Pushed_example :
    Returns (Pushed true three (event 5 3)) (heap_push true (some three) (event 5 3))
heap_push-Pushed_example = heap_push-Pushed true three (event 5 3) three-IsValid

drain_deterministic_example : drain 4 (some three) ≡ drain 4 (some other)
drain_deterministic_example =
    drain_deterministic 4 three other three-IsValid other-IsValid three-Unique three-Perm
      (omega arith)

heap_create_wraps_example :
    (1 < 2 ^ 58 + 1)
    × (heap_push true
          (some (record { data_ = event 1 0 ∷ []; capacity = 2 ^ 58 + 1; slots = 1 }))
          (event 5 3)
        ≡ out_of_bounds)
unfolding heap_create
heap_create_wraps_example =
    heap_create_wraps true (2 ^ 58 + 1)
      {h = record { data_ = []; capacity = 2 ^ 58 + 1; slots = 1 }} (event 1 0 ∷ []) (event 5 3)
      (omega arith) (omega arith) refl refl
