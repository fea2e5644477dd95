-- ===== src/Context/Enqueue.antt =====
-- `enqueue` of shared/context.c, which every way of adding an event goes through.
use resonance.Prelude.{
  ℕ, ◌≤◌, ◌<◌, ◌≡◌, refl, inl, inr, Bool, true, false, not, ◌&&◌, Option, none, some, List, arith,
  ltb, ◌==◌, if◌then◌else◌, length, take, size_max, ok, Returns, returns, Returns-if, Returns-map,
  Returns-option, Bool-cases, Option-cases,
}
use resonance.Heap.{MinHeap}
use resonance.Context.{Context, Request, event_of, copy_payload, is_refused, enqueue}
use resonance.Context.Invariant.{QueueIsValid, Queued, push_event-Queued}

-- The payload as it is copied; the bytes behind the pointer suffice.
abbrev pub copied : Request → Option (List ℕ)
copied r =
    if r.payload_len == 0
    then none
    else elim r.payload [ none ↦ none | some bytes ↦ some (take r.payload_len bytes) ]

abbrev pub IsReadable : Request → Type 0
IsReadable r = (bytes : List ℕ) → r.payload ≡ some bytes → r.payload_len ≤ length bytes

-- Why a request is turned down before the queue is touched.
pub data Refusal (malloc_ok : Bool) (ctx : Context) (r : Request) : Type 0 where
  no_callback : r.cb ≡ 0 → Refusal malloc_ok ctx r
  in_the_past : r.t < ctx.clock → Refusal malloc_ok ctx r
  no_payload : 0 < r.payload_len → r.payload ≡ none → Refusal malloc_ok ctx r
  no_memory : 0 < r.payload_len → malloc_ok ≡ false → Refusal malloc_ok ctx r

-- The ends of `enqueue`: a request turned down, with the context as it was, or a push into the
-- queue of an event that is not in the past and carries the next sequence number.
pub data Enqueued (malloc_ok realloc_ok : Bool) (ctx : Context) (h : MinHeap) (r : Request)
    : Bool × Context → Type 0 where
  turned_down : Refusal malloc_ok ctx r → Enqueued malloc_ok realloc_ok ctx h r (false, ctx)
  pushed :
      {out : Bool × Context} {copy : Option (List ℕ)}
      → (0 < r.cb)
      → (ctx.clock ≤ r.t)
      → copy_payload r.payload r.payload_len ≡ ok copy
      → Queued realloc_ok ctx h (event_of r copy ctx.next_seq) out
      → Enqueued malloc_ok realloc_ok ctx h r out

refused-Refusal :
    (malloc_ok : Bool) (ctx : Context) (r : Request)
    → is_refused ctx r ≡ true
    → Refusal malloc_ok ctx r
unfolding is_refused
refused-Refusal malloc_ok ctx r e = elim (Bool-cases (r.cb == 0)) [
  | inl bare ↦ no_callback (ground arith)
  | inr set ↦ elim (Bool-cases (ltb r.t ctx.clock)) [
    | inl past ↦ in_the_past (ground arith)
    | inr now ↦ no_payload (ground arith) (ground arith)
  ]
]

kept-checks :
    (ctx : Context) (r : Request) → is_refused ctx r ≡ false → (0 < r.cb) × (ctx.clock ≤ r.t)
unfolding is_refused
kept-checks ctx r e = ground arith

copy_payload-copied :
    (ctx : Context) (r : Request)
    → is_refused ctx r ≡ false
    → IsReadable r
    → copy_payload r.payload r.payload_len ≡ ok (copied r)
unfolding copy_payload is_refused
copy_payload-copied ctx r e readable = elim (Bool-cases (r.payload_len == 0)) [
  | inl empty ↦ rw (empty, copy_payload)
  | inr long ↦ elim (Option-cases r.payload) [
    | inl null ↦ absurd (ground arith)
    | inr (bytes, there) ↦ ground (arith, readable bytes)
  ]
]

unmalloced :
    (malloc_ok : Bool) (r : Request)
    → ltb 0 r.payload_len && not malloc_ok ≡ true
    → (0 < r.payload_len) × (malloc_ok ≡ false)
unmalloced malloc_ok r e = ground arith

pub enqueue-Enqueued :
    (malloc_ok realloc_ok : Bool) (ctx : Context) (h : MinHeap) (r : Request)
    → QueueIsValid ctx h
    → ctx.next_seq < size_max
    → IsReadable r
    → Returns (Enqueued malloc_ok realloc_ok ctx h r) (enqueue malloc_ok realloc_ok ctx r)
unfolding enqueue
enqueue-Enqueued malloc_ok realloc_ok ctx h r v room readable =
    Returns-option ctx.heap (λ e. absurd (ground (arith, v.held)))
      λ g e.
        Returns-if (is_refused ctx r)
          (λ no_go. returns (turned_down (refused-Refusal malloc_ok ctx r no_go)))
          (λ fine.
            Returns-if (ltb 0 r.payload_len && not malloc_ok)
              (λ starved.
                let why = unmalloced malloc_ok r starved in
                returns (turned_down (no_memory why.0 why.1)))
              (λ _.
                let (cb, on_time) = kept-checks ctx r fine in
                let copy = copy_payload-copied ctx r fine readable in
                rw copy (
                  Returns-map
                    (push_event-Queued realloc_ok ctx h (event_of r (copied r) ctx.next_seq) v refl
                      on_time room)
                    λ out q. pushed cb on_time copy q)))
