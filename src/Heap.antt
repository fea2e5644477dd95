-- ===== src/Heap.antt =====
-- heap/heap.c and heap/heap.h: the event queue, a binary min-heap in an array. `data` is the live
-- part of the C array, so its length is `size`; `slots` is the number of events that the
-- allocated block really holds, against which a write is checked. An allocation's outcome is an
-- argument. A read or write out of bounds, or a loop past its fuel, is a fault.
pub mod Order
pub mod Up
pub mod Down
pub mod Queue
pub mod Drain
pub mod Capacity
mod Tests
use resonance.Prelude.{
  ℕ, zero, suc, ◌+◌, ◌-◌, ◌*◌, ◌/◌, ◌%◌, Bool, true, false, Option, none, some, List, [], ◌∷◌, ◌++◌,
  if◌then◌else◌, ltb, ◌==◌, length, get_elem?, set, take, u64_mod, size_max, Run, ok, out_of_bounds,
  out_of_fuel, ◌>>=◌, in_bounds,
}

-- `Event` of shared/events.h. A callback is an address, 0 for `nullptr`; a payload is its bytes,
-- `none` for `nullptr`.
pub record Event : Type 0 where
  pub executed_at : ℕ
  pub callback_func : ℕ
  pub sequence_number : ℕ
  pub payload : Option (List ℕ)
  pub payload_len : ℕ
  pub from_id : ℕ
  pub to_id : ℕ
  pub src_port : ℕ
  pub dst_port : ℕ

-- `sizeof(Event)` on a 64-bit target: seven words and two ports, padded to a word.
abbrev pub event_size : ℕ
event_size = 64

pub record MinHeap : Type 0 where
  pub data_ : List Event
  pub capacity : ℕ
  pub slots : ℕ

unfoldable pub event_before : Event → Event → Bool
event_before a b =
    if a.executed_at == b.executed_at
    then ltb a.sequence_number b.sequence_number
    else ltb a.executed_at b.executed_at

pub load : List Event → ℕ → Run Event
load a i = in_bounds (get_elem? a i)

pub swap : List Event → ℕ → ℕ → Run (List Event)
unfolding load
swap a i j = do temp ← load a i; other ← load a j; ok (set (set a i other) j temp)

-- The product in `malloc(capacity * sizeof)` wraps.
unfoldable pub heap_create : Bool → ℕ → Option MinHeap
heap_create malloc_ok capacity =
    if malloc_ok
    then some (record {
      data_ = [];
      capacity = capacity;
      slots = (capacity * event_size) % u64_mod / event_size;
    })
    else none

-- The capacity to grow to; `none` where `heap_push` gives up.
pub grown_capacity : ℕ → Option ℕ
grown_capacity capacity =
    if capacity == 0
    then fitting 1
    else if ltb (size_max / 2) capacity
    then none
    else fitting (capacity * 2)
  where
    fitting : ℕ → Option ℕ
    fitting n = if ltb (size_max / event_size) n then none else some n

-- Room for one more event, or `none`.
pub reserve : Bool → MinHeap → Option MinHeap
reserve realloc_ok h =
    if ltb (length h.data_) h.capacity then some h else elim (grown_capacity h.capacity) [
      | none ↦ none
      | some n ↦ if realloc_ok then some (record h { capacity = n; slots = n }) else none
    ]

abbrev pub parent : ℕ → ℕ
parent index = (index - 1) / 2

pub sift_up : ℕ → List Event → ℕ → Run (List Event)
sift_up zero a index = out_of_fuel
sift_up (suc k) a index =
    let rise = swap a index (parent index) >>= λ b. sift_up k b (parent index) in
    let step : Run (List Event) = do
      child ← load a index
      above ← load a (parent index)
      if event_before child above then rise else ok a
    in if ltb 0 index then step else ok a

-- `h->data[h->size] = value`
pub store_last : MinHeap → Event → Run (List Event)
store_last h value =
    if ltb (length h.data_) h.slots then ok (h.data_ ++ value ∷ []) else out_of_bounds

unfoldable pub heap_push : Bool → Option MinHeap → Event → Run (Bool × Option MinHeap)
unfolding reserve grown_capacity store_last sift_up swap load event_before
heap_push realloc_ok none value = ok (false, none)
heap_push realloc_ok (some h) value = elim (reserve realloc_ok h) [
  | none ↦ ok (false, some h)
  | some g ↦ do
    a ← store_last g value
    b ← sift_up (length g.data_ + 1) a (length g.data_)
    ok (true, some (record g { data_ = b }))
]

-- One of the two tests of the loop: the child replaces `smallest` if it exists and goes before it.
pub pick : List Event → ℕ → ℕ → Run ℕ
pick a child smallest =
    if ltb child (length a)
    then (do
      x ← load a child
      y ← load a smallest
      ok (if event_before x y then child else smallest))
    else ok smallest

pub smallest_of : List Event → ℕ → Run ℕ
smallest_of a index = do m ← pick a (2 * index + 1) index; pick a (2 * index + 2) m

pub sift_down : ℕ → List Event → ℕ → Run (List Event)
sift_down zero a index = out_of_fuel
sift_down (suc k) a index = do
  smallest ← smallest_of a index
  let sink = swap a index smallest >>= λ b. sift_down k b smallest
  if smallest == index then ok a else sink

-- `size--`, then the last event goes to the root and sinks, unless none is left.
pub remove_root : List Event → Run (List Event)
remove_root a =
    let n = length a - 1 in
    if n == 0 then ok [] else (do last ← load a n; sift_down (n + 1) (set (take n a) 0 last) 0)

unfoldable pub heap_pop : Option MinHeap → Run (Option Event × Option MinHeap)
unfolding load remove_root sift_down smallest_of pick swap event_before
heap_pop none = ok (none, none)
heap_pop (some h) = if length h.data_ == 0 then ok (none, some h) else (do
  min_event ← load h.data_ 0
  b ← remove_root h.data_
  ok (some min_event, some (record h { data_ = b })))
