-- ===== src/Heap/Capacity.antt =====
-- What `heap_create` allocates: nothing guards the product `capacity * sizeof(Event)`.
use resonance.Prelude.{
  ℕ, ◌/◌, ◌≤◌, ◌<◌, ◌≡◌, Bool, true, some, List, [], arith, length, size_max, out_of_bounds,
}
use resonance.Heap.{Event, MinHeap, event_size, heap_create, heap_push, reserve, store_last}
use resonance.Heap.Queue.{IsValid}

-- What `heap_create` returns is an empty, valid heap of the capacity asked for, if that many
-- events fit in the address space.
pub heap_create-IsValid :
    (malloc_ok : Bool) (capacity : ℕ) {h : MinHeap}
    → capacity ≤ size_max / event_size
    → heap_create malloc_ok capacity ≡ some h
    → IsValid h × (h.data_ ≡ []) × (h.capacity ≡ capacity)
unfolding heap_create
heap_create-IsValid malloc_ok capacity b e = (
  record {
    order = λ c p q. ground arith;
    bounded = ground arith;
    backed = ground arith;
    fits = ground arith;
  },
  ground arith,
  ground arith,
)

-- With a larger capacity the product wraps: the heap has fewer slots than its capacity says, and
-- a push into the heap once those are full writes out of bounds.
pub heap_create_wraps :
    (malloc_ok : Bool) (capacity : ℕ) {h : MinHeap} (full : List Event) (value : Event)
    → size_max / event_size < capacity
    → capacity ≤ size_max
    → heap_create malloc_ok capacity ≡ some h
    → length full ≡ h.slots
    → (h.slots < h.capacity)
      × (heap_push true (some (record h { data_ = full })) value ≡ out_of_bounds)
unfolding heap_create heap_push reserve store_last
heap_create_wraps malloc_ok capacity full value big word e filled = ground arith
