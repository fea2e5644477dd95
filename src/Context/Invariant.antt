-- ===== src/Context/Invariant.antt =====
-- What holds of the clock, the event queue and the sequence counter between calls.
use mathlib.Core.List.{Mem, Pairwise, Pairwise-cons, mem-cons, mem-cons_self, mem-cons_of_mem}
use mathlib.Core.Path.{subst}
use mathlib.Core.List.Perm
use mathlib.Core.Logic.Or
use native.Mathlib.Bridge.{le_prop}
use resonance.Prelude.{
  ℕ, ◌*◌, ◌/◌, ◌≤◌, ◌<◌, ◌≡◌, ◌⊎◌, refl, sym, Bool, true, false, Option, none, some, [], ◌∷◌, Perm,
  arith, length, size_max, add64, ok, Returns, returns, Returns-bind, ltb, if◌then◌else◌,
}
use resonance.Heap.{Event, MinHeap, event_size, event_before, heap_push, heap_pop}
use resonance.Heap.Order.{NotAfter}
use resonance.Heap.Queue.{
  IsValid, Pushed, stored, refused, heap_push-Pushed, Popped, taken, nothing, heap_pop-Popped,
}
use resonance.Heap.Drain.{Unique}
use resonance.Context.{Context, push_event, next_event}

-- The queue is a valid heap; no event in it is due before the clock; each has a sequence number of
-- its own, below the next one.
pub record QueueIsValid (ctx : Context) (h : MinHeap) : Type 0 where
  pub held : ctx.heap ≡ some h
  pub heap : IsValid h
  pub due : (e : Event) → Mem e h.data_ → ctx.clock ≤ e.executed_at
  pub numbered : (e : Event) → Mem e h.data_ → e.sequence_number < ctx.next_seq
  pub distinct : Unique h.data_

-- The two ends of a push: the event joins the queue and the counter moves on; or nothing changes,
-- since the heap is full and cannot be grown.
pub data Queued (realloc_ok : Bool) (ctx : Context) (h : MinHeap) (ev : Event)
    : Bool × Context → Type 0 where
  added :
      {g : MinHeap}
      → QueueIsValid (record ctx { heap = some g; next_seq = add64 ctx.next_seq 1 }) g
      → Perm g.data_ (ev ∷ h.data_)
      → Queued realloc_ok ctx h ev
          (true, record ctx { heap = some g; next_seq = add64 ctx.next_seq 1 })
  full :
      length h.data_ ≡ h.capacity
      → (realloc_ok ≡ false) ⊎ (size_max / event_size < h.capacity * 2)
      → Queued realloc_ok ctx h ev (false, record ctx { heap = some h })

module _ (ctx : Context) (h g : MinHeap) (ev : Event) (v : QueueIsValid ctx h)
    (same : Perm g.data_ (ev ∷ h.data_)) (next : ev.sequence_number ≡ ctx.next_seq)
    (on_time : ctx.clock ≤ ev.executed_at) (room : ctx.next_seq < size_max) where
  new_due : (e : Event) → Mem e g.data_ → ctx.clock ≤ e.executed_at
  new_due e m =
      Or.elim le_prop (mem-cons.0 ((Perm.mem_iff same).0 m)) (λ is_new. rw is_new on_time) (v.due e)

  new_numbered : (e : Event) → Mem e g.data_ → e.sequence_number < add64 ctx.next_seq 1
  new_numbered e m =
      Or.elim le_prop (mem-cons.0 ((Perm.mem_iff same).0 m)) (λ is_new. rw is_new (omega arith))
        (λ old. omega (arith, v.numbered e old))

  new_distinct : Unique g.data_
  new_distinct =
      Perm.pairwise (λ a b. hlevel) (λ a b n e. n (sym e)) (Perm.symm same)
        (Pairwise.cons (λ e m. omega (arith, v.numbered e m)) v.distinct)

  queued-IsValid :
      IsValid g → QueueIsValid (record ctx { heap = some g; next_seq = add64 ctx.next_seq 1 }) g
  queued-IsValid valid = record {
    held = refl;
    heap = valid;
    due = new_due;
    numbered = new_numbered;
    distinct = new_distinct;
  }

pub push_event-Queued :
    (realloc_ok : Bool) (ctx : Context) (h : MinHeap) (ev : Event)
    → QueueIsValid ctx h
    → ev.sequence_number ≡ ctx.next_seq
    → ctx.clock ≤ ev.executed_at
    → ctx.next_seq < size_max
    → Returns (Queued realloc_ok ctx h ev) (push_event realloc_ok ctx ev)
unfolding push_event
push_event-Queued realloc_ok ctx h ev v next on_time room = Returns-bind pushed λ r p. after r p
  where
    pushed : Returns (Pushed realloc_ok h ev) (heap_push realloc_ok ctx.heap ev)
    pushed = rw v.held (heap_push-Pushed realloc_ok h ev v.heap)

    after :
        (r : Bool × Option MinHeap)
        → Pushed realloc_ok h ev r
        → Returns (Queued realloc_ok ctx h ev) (
            ok (
              if r.0
              then (true, record ctx { heap = r.1; next_seq = add64 ctx.next_seq 1 })
              else (false, record ctx { heap = r.1 })))
    after _ (stored {g} valid same) =
        returns (added (queued-IsValid ctx h g ev v same next on_time room valid) same)
    after _ (refused filled why) = returns (full filled why)

-- The two ends of a round's start: an event that no other precedes leaves the queue, and the clock
-- stands at its time, which is not before what it was; or the queue is empty.
pub data NextEvent (ctx : Context) (h : MinHeap) : Option Event × Context → Type 0 where
  due_now :
      {g : MinHeap} (ev : Event)
      → ctx.clock ≤ ev.executed_at
      → Perm (ev ∷ g.data_) h.data_
      → ((t : Event) → Mem t g.data_ → NotAfter ev t)
      → ev.sequence_number < ctx.next_seq
      → QueueIsValid (record ctx { heap = some g; clock = ev.executed_at }) g
      → NextEvent ctx h (some ev, record ctx { heap = some g; clock = ev.executed_at })
  drained : h.data_ ≡ [] → NextEvent ctx h (none, record ctx { heap = some h })

NotAfter-due : (ev t : Event) → NotAfter ev t → ev.executed_at ≤ t.executed_at
unfolding event_before
NotAfter-due ev t h = ground arith

clock_moves : (clock at : ℕ) → clock ≤ at → (if ltb clock at then at else clock) ≡ at
clock_moves clock at h = ground arith

module _ (ctx : Context) (h g : MinHeap) (ev : Event) (v : QueueIsValid ctx h) (valid : IsValid g)
    (same : Perm (ev ∷ g.data_) h.data_) (first : (t : Event) → Mem t h.data_ → NotAfter ev t) where
  was_held : (t : Event) → Mem t g.data_ → Mem t h.data_
  was_held t m = (Perm.mem_iff same).0 (mem-cons_of_mem ev m)

  popped-IsValid : QueueIsValid (record ctx { heap = some g; clock = ev.executed_at }) g
  popped-IsValid = record {
    held = refl;
    heap = valid;
    due = λ t m. NotAfter-due ev t (first t (was_held t m));
    numbered = λ t m. v.numbered t (was_held t m);
    distinct =
        (Pairwise-cons.0
          (Perm.pairwise (λ a b. hlevel) (λ a b n e. n (sym e)) (Perm.symm same) v.distinct)).1;
  }

  popped-NextEvent : NextEvent ctx h (
    some ev,
    record ctx {
      heap = some g;
      clock = if ltb ctx.clock ev.executed_at then ev.executed_at else ctx.clock;
    },
  )
  popped-NextEvent =
      let was = (Perm.mem_iff same).0 (mem-cons_self {l = g.data_}) in
      let on_time = v.due ev was in
      subst (λ t. NextEvent ctx h (some ev, record ctx { heap = some g; clock = t }))
        (sym (clock_moves ctx.clock ev.executed_at on_time))
        (due_now ev on_time same (λ t m. first t (was_held t m)) (v.numbered ev was) popped-IsValid)

-- With a valid queue the start of a round of `context_run` always returns: the clock moves to the
-- time of the event taken, never back, no event left goes before that one, and the queue stays
-- valid; or the queue is empty and nothing changes.
pub next_event-NextEvent :
    (ctx : Context) (h : MinHeap) → QueueIsValid ctx h → Returns (NextEvent ctx h) (next_event ctx)
unfolding next_event
next_event-NextEvent ctx h v = Returns-bind popped λ r p. after r p
  where
    popped : Returns (Popped h) (heap_pop ctx.heap)
    popped = rw v.held (heap_pop-Popped h v.heap)

    after :
        (r : Option Event × Option MinHeap)
        → Popped h r
        → Returns (NextEvent ctx h) (
            ok (elim r.0 [
              | none ↦ (none, record ctx { heap = r.1 })
              | some ev ↦ (
                some ev,
                record ctx {
                  heap = r.1;
                  clock = if ltb ctx.clock ev.executed_at then ev.executed_at else ctx.clock;
                },
              )
            ]))
    after _ (taken {e} {g} valid same first kept) =
        returns (popped-NextEvent ctx h g e v valid same first)
    after _ (nothing left) = returns (drained left)
