-- ===== src/Context/Rounds.antt =====
-- `context_run`: rounds of popping an event and calling its handler. A handler is code of the
-- program's user; here it makes any calls that the interface offers, in any order.
use mathlib.Core.List.{Mem, Pairwise, mem-cons, mem-cons_self}
use mathlib.Core.List.Perm
use mathlib.Core.Logic.Or
use mathlib.Core.Bool.{Bool-set}
use mathlib.Core.List.{not-mem-nil}
use mathlib.Core.Path.{subst, subst₂}
use resonance.Nodes.{nodelist_push, nodelist_remove_by_id}
use resonance.Context.AddNode.{new_node}
use resonance.Prelude.{
  ℕ, ◌≤◌, ◌<◌, ◌≡◌, refl, Bool, Option, some, List, [], ◌∷◌, Perm, arith, size_max, ok, Returns-inv,
  bind-returns, ◌∙◌, sym,
}
use resonance.Prelude.Int.{ℤ}
use resonance.Rng.{rng_u64}
use resonance.Heap.{Event, MinHeap, event_before}
use resonance.Heap.Order.{NotAfter, NotAfter-trans}
use resonance.Heap.Drain.{InOrder}
use resonance.Context.{
  Context, UdpBind, Request, event_of, enqueue, context_add_node, context_remove_node, next_event,
}
use resonance.Context.Invariant.{
  QueueIsValid, Queued, added, full, NextEvent, due_now, drained, next_event-NextEvent,
}
use resonance.Context.Enqueue.{IsReadable, Enqueued, turned_down, pushed, enqueue-Enqueued}

-- One call of the interface that returns.
pub data Call (c : Context) (d : Context) : Type 0 where
  queue :
      (malloc_ok realloc_ok : Bool) (r : Request) (b : Bool)
      → IsReadable r
      → c.next_seq < size_max
      → enqueue malloc_ok realloc_ok c r ≡ ok (b, d)
      → Call c d
  add_node :
      (index_ok data_ok : Bool) (x_nm y_nm vx vy : ℤ) (out : Option ℕ)
      → context_add_node index_ok data_ok c x_nm y_nm vx vy ≡ ok (out, d)
      → Call c d
  remove_node : (id : ℕ) (b : Bool) → context_remove_node c id ≡ ok (b, d) → Call c d
  draw : d ≡ record c { rng = (rng_u64 c.rng).1 } → Call c d
  bind : (binds : List UdpBind) → d ≡ record c { udp_binds = binds } → Call c d

pub data Calls (c : Context) : Context → Type 0 where
  none_made : Calls c c
  then_call : {d e : Context} → Calls c d → Call d e → Calls c e

-- `context_run`, from one state of the context to another, with the events that it has run.
pub data Rounds : Context → List Event → Context → Type 0 where
  over : {c : Context} → Rounds c [] c
  round :
      {c d e f : Context} {ev : Event} {rest : List Event}
      → next_event c ≡ ok (some ev, d)
      → Calls d e
      → Rounds e rest f
      → Rounds c (ev ∷ rest) f

-- The queue while the handler of `last` runs and after it: nothing in it goes before `last`.
pub record Ran (last : Event) (c : Context) (h : MinHeap) : Type 0 where
  pub queue : QueueIsValid c h
  pub now : c.clock ≡ last.executed_at
  pub earlier : last.sequence_number < c.next_seq
  pub behind : (t : Event) → Mem t h.data_ → NotAfter last t

abbrev pub StillRan : Event → Context → Type 0
StillRan last d = (g : MinHeap) × Ran last d g

later-NotAfter :
    (last ev : Event)
    → last.executed_at ≤ ev.executed_at
    → last.sequence_number < ev.sequence_number
    → NotAfter last ev
unfolding event_before
later-NotAfter last ev p q = ground arith

-- A context with the same queue, clock and counter.
abbrev SameQueue : Context → Context → Type 0
SameQueue c d = (d.heap ≡ c.heap) × (d.clock ≡ c.clock) × (d.next_seq ≡ c.next_seq)

Ran-same :
    (last : Event) (c d : Context) (h : MinHeap) → Ran last c h → SameQueue c d → StillRan last d
Ran-same last c d h r (heap, clock, seq) = (
  h,
  record {
    queue = record {
      held = heap ∙ r.queue.held;
      heap = r.queue.heap;
      due = λ e m. rw clock (r.queue.due e m);
      numbered = λ e m. rw seq (r.queue.numbered e m);
      distinct = r.queue.distinct;
    };
    now = clock ∙ r.now;
    earlier = rw seq r.earlier;
    behind = r.behind;
  },
)

add_node-SameQueue :
    (index_ok data_ok : Bool) (c d : Context) (x_nm y_nm vx vy : ℤ) (out : Option ℕ)
    → context_add_node index_ok data_ok c x_nm y_nm vx vy ≡ ok (out, d)
    → SameQueue c d
unfolding context_add_node
add_node-SameQueue index_ok data_ok c d x_nm y_nm vx vy out e =
    let (r, e', _) =
      bind-returns (nodelist_push index_ok data_ok c.nodes (new_node c x_nm y_nm vx vy)) _ e in
    ground arith

remove_node-SameQueue :
    (c d : Context) (id : ℕ) (b : Bool) → context_remove_node c id ≡ ok (b, d) → SameQueue c d
unfolding context_remove_node
remove_node-SameQueue c d id b e =
    let (r, e', _) = bind-returns (nodelist_remove_by_id c.nodes id) _ e in ground arith

module _ (last : Event) (c : Context) (h : MinHeap) (ran : Ran last c h) where
  joined :
      (ev : Event) (g : MinHeap)
      → c.clock ≤ ev.executed_at
      → ev.sequence_number ≡ c.next_seq
      → Perm g.data_ (ev ∷ h.data_)
      → (t : Event) → Mem t g.data_
      → NotAfter last t
  joined ev g on_time next same t m =
      Or.elim (Bool-set _ _) (mem-cons.0 ((Perm.mem_iff same).0 m))
        (λ is_new.
          rw is_new (later-NotAfter last ev (omega (arith, ran.now)) (omega (arith, ran.earlier))))
        (ran.behind t)

  Queued-StillRan :
      (realloc_ok : Bool) (ev : Event) {out : Bool × Context}
      → c.clock ≤ ev.executed_at
      → ev.sequence_number ≡ c.next_seq
      → c.next_seq < size_max
      → Queued realloc_ok c h ev out
      → StillRan last out.1
  Queued-StillRan realloc_ok ev on_time next room (added {g} valid same) = (
    g,
    record {
      queue = valid;
      now = ran.now;
      earlier = omega (arith, ran.earlier);
      behind = joined ev g on_time next same;
    },
  )
  Queued-StillRan realloc_ok ev on_time next room (full filled why) =
      Ran-same last c (record c { heap = some h }) h ran (sym ran.queue.held, refl, refl)

  Enqueued-StillRan :
      (malloc_ok realloc_ok : Bool) (r : Request) {out : Bool × Context}
      → c.next_seq < size_max
      → Enqueued malloc_ok realloc_ok c h r out
      → StillRan last out.1
  Enqueued-StillRan malloc_ok realloc_ok r room (turned_down why) = (h, ran)
  Enqueued-StillRan malloc_ok realloc_ok r room (pushed {copy} set on_time copied q) =
      Queued-StillRan realloc_ok (event_of r copy c.next_seq) on_time refl room q

  Call-StillRan : {d : Context} → Call c d → StillRan last d
  Call-StillRan {d} (queue malloc_ok realloc_ok r b readable room e) =
      let (out, e', q) =
        Returns-inv (enqueue-Enqueued malloc_ok realloc_ok c h r ran.queue room readable) in
      let same : out ≡ (b, d) = ground arith in
      subst (λ (o : Bool × Context). StillRan last o.1) same
        (Enqueued-StillRan malloc_ok realloc_ok r room q)
  Call-StillRan {d} (add_node index_ok data_ok x_nm y_nm vx vy out e) =
      Ran-same last c d h ran (add_node-SameQueue index_ok data_ok c d x_nm y_nm vx vy out e)
  Call-StillRan {d} (remove_node id b e) =
      Ran-same last c d h ran (remove_node-SameQueue c d id b e)
  Call-StillRan {d} (draw e) = Ran-same last c d h ran (ground arith)
  Call-StillRan {d} (bind binds e) = Ran-same last c d h ran (ground arith)

Calls-StillRan : (last : Event) {c d : Context} → Calls c d → StillRan last c → StillRan last d
Calls-StillRan last none_made r = r
Calls-StillRan last (then_call {d = m} made last_call) r =
    let (g, ran) = Calls-StillRan last made r in Call-StillRan last m g ran last_call

-- The event of a round was in the queue, and the round's handler starts behind it.
Begun : Context → MinHeap → Event → Context → Type 0
Begun c h ev d = StillRan ev d × Mem ev h.data_

begun :
    (c d : Context) (h : MinHeap) (ev : Event) {r : Option Event × Context}
    → NextEvent c h r
    → r ≡ (some ev, d)
    → Begun c h ev d
unfolding Begun
begun c d h ev (due_now {g} first on_time same behind numbered valid) e =
    let same_event : first ≡ ev = ground arith in
    let same_context : record c { heap = some g; clock = first.executed_at } ≡ d = ground arith in
    let start : StillRan first (record c { heap = some g; clock = first.executed_at }) =
      (g, record { queue = valid; now = refl; earlier = numbered; behind = behind }) in
    subst₂ (Begun c h) same_event same_context
      (start, (Perm.mem_iff same).0 (mem-cons_self {l = g.data_}))
begun c d h ev (drained left) e = cc

round-Begun :
    (c d : Context) (h : MinHeap) (ev : Event)
    → QueueIsValid c h
    → next_event c ≡ ok (some ev, d)
    → Begun c h ev d
round-Begun c d h ev v e =
    let (r, e', n) = Returns-inv (next_event-NextEvent c h v) in begun c d h ev n (ground arith)

-- What is known of the rounds that follow the handler of `last`.
Follows : Event → List Event → Type 0
Follows last events = ((t : Event) → Mem t events → NotAfter last t) × InOrder events

Rounds-Follows :
    {c f : Context} {events : List Event}
    → Rounds c events f
    → (last : Event) → StillRan last c
    → Follows last events
unfolding Follows Begun
Rounds-Follows over last r = (λ t m. absurd (not-mem-nil m), Pairwise.nil)
Rounds-Follows (round {c} {d} {ev} e made rest) last (h, ran) =
    let begins = round-Begun c d h ev ran.queue e in
    let then = Rounds-Follows rest ev (Calls-StillRan ev made begins.0) in
    let first = ran.behind ev begins.1 in
    (
      λ t m.
          Or.elim (Bool-set _ _) (mem-cons.0 m) (λ is. rw is first)
            λ old. NotAfter-trans last ev t first (then.0 t old),
      Pairwise.cons then.0 then.1,
    )

-- From a context whose queue is valid, `context_run` runs events in the order of time, and of
-- sequence number at one time: no event that a handler adds goes before one that has been run.
-- The handlers make any calls that enqueue (with a readable payload, and before the sequence
-- counter wraps), add or remove nodes, draw numbers or bind listeners, in any order, and the
-- allocations succeed or fail in any way.
pub Rounds-InOrder :
    (c f : Context) (h : MinHeap) (events : List Event)
    → QueueIsValid c h
    → Rounds c events f
    → InOrder events
unfolding Follows Begun
Rounds-InOrder c f h events v over = Pairwise.nil
Rounds-InOrder c f h events v (round {d} {ev} e made rest) =
    let begins = round-Begun c d h ev v e in
    let then = Rounds-Follows rest ev (Calls-StillRan ev made begins.0) in
    Pairwise.cons then.0 then.1
