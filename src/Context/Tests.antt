-- ===== src/Context/Tests.antt =====
-- Runs of the context on small queues and node lists.
use mathlib.Core.List.{Pairwise, not-mem-nil, forall_mem-cons}
use native.Mathlib.Bridge.{le_prop}
use mathlib.Core.List.{Perm}
use resonance.Prelude.{ℕ, ◌≡◌, refl, true, none, some, [], ◌∷◌, arith, size_max, Returns, replicate}
use resonance.Prelude.Int.{pos}
use resonance.Heap.{Event, MinHeap, event_before, heap_push, heap_pop}
use resonance.Heap.Order.{no_event}
use resonance.Heap.Queue
use resonance.Heap.Drain.{InOrder}
use resonance.Nodes.{NodeList}
use resonance.Nodes.Invariant
use resonance.Nodes.Invariant.{node_of}
use resonance.World.{air}
use resonance.Context.{
  Context, fresh_context, Request, enqueue, is_refused, push_event, copy_payload, next_event,
  context_init, context_add_node, zeroed_grid, default_cell_nm,
}
use resonance.Context.Invariant.{QueueIsValid}
use resonance.Context.AddNode.{NodesAreValid, NodeAdded, new_node, context_add_node-NodeAdded}
use resonance.Context.Rounds.{
  Calls, none_made, then_call, queue, Rounds, over, round, Rounds-InOrder,
}
use resonance.Context.Free.{context_free, context_free-frees}
use resonance.Context.Init.{IsValid, context_init-IsValid}

abbrev event : ℕ → ℕ → Event
event t seq = record no_event { executed_at = t; callback_func = 1; sequence_number = seq }

abbrev waiting : MinHeap
waiting = record { data_ = event 10 1 ∷ event 30 0 ∷ []; capacity = 3; slots = 3 }

-- Nodes 2 and 0 are live, 1 has been removed.
abbrev two : NodeList
two = record {
  data_ =
      record { id = 2; x_nm = pos 5; y_nm = pos 7; vx_nm_per_ns = pos 0; vy_nm_per_ns = pos 0 }
      ∷ record { id = 0; x_nm = pos 6; y_nm = pos 7; vx_nm_per_ns = pos 0; vy_nm_per_ns = pos 0 }
      ∷ [];
  cap = 2;
  slots = 2;
  by_id = 1 ∷ size_max ∷ 0 ∷ size_max ∷ [];
}

abbrev state : ℕ → MinHeap → ℕ → Context
state clock heap next_seq = record {
  clock = clock;
  heap = some heap;
  rng = record { s0 = 1; s1 = 2; s2 = 3; s3 = 4 };
  next_seq = next_seq;
  next_node_id = 3;
  nodes = two;
  grid = zeroed_grid;
  range_nm = 1000;
  udp_binds = [];
}

abbrev begin : Context
begin = state 4 waiting 2

abbrev later : ℕ → Request
later t = record {
  t = t;
  cb = 1;
  payload = none;
  payload_len = 0;
  from_id = 0;
  to_id = 0;
  src_port = 0;
  dst_port = 0;
}

waiting-IsValid : Queue.IsValid waiting
unfolding event_before
waiting-IsValid = record {
  order = λ c p q. ground arith;
  bounded = omega arith;
  backed = omega arith;
  fits = omega arith;
}

begin-QueueIsValid : QueueIsValid begin waiting
begin-QueueIsValid = record {
  held = refl;
  heap = waiting-IsValid;
  due =
      (forall_mem-cons λ t. le_prop).1 (
        omega arith,
        (forall_mem-cons λ t. le_prop).1 (omega arith, λ t m. absurd (not-mem-nil m)),
      );
  numbered =
      (forall_mem-cons λ t. le_prop).1 (
        omega arith,
        (forall_mem-cons λ t. le_prop).1 (omega arith, λ t m. absurd (not-mem-nil m)),
      );
  distinct =
      Pairwise.cons ((forall_mem-cons λ t. hlevel).1 (omega arith, λ t m. absurd (not-mem-nil m)))
        (Pairwise.cons (λ t m. absurd (not-mem-nil m)) Pairwise.nil);
}

two-IsValid : Invariant.IsValid two
two-IsValid = record {
  entry = λ i p. ground arith;
  live = λ k p. ground arith;
  bounded = omega arith;
  backed = omega arith;
  fits = omega arith;
}

begin-NodesAreValid : NodesAreValid begin
unfolding node_of
begin-NodesAreValid = record { list = two-IsValid; fresh = λ k p. ground arith }

-- The handler of the first event adds one at its own time.
abbrev rest_first : MinHeap
rest_first = record waiting { data_ = event 30 0 ∷ [] }

abbrev after_handler : MinHeap
after_handler = record waiting { data_ = event 10 2 ∷ event 30 0 ∷ [] }

handled : Calls (state 10 rest_first 2) (state 10 after_handler 3)
unfolding enqueue copy_payload is_refused push_event heap_push event_before
handled =
    then_call none_made
      (queue true true (later 10) true (λ bytes e. omega arith) (omega arith) refl)

two-Rounds : Rounds begin (event 10 1 ∷ event 10 2 ∷ []) (state 10 rest_first 3)
unfolding next_event heap_pop event_before
two-Rounds =
    round {d = state 10 rest_first 2} refl handled
      (round {d = state 10 rest_first 3} refl none_made over)

Rounds-InOrder_example : InOrder (event 10 1 ∷ event 10 2 ∷ [])
Rounds-InOrder_example =
    Rounds-InOrder begin (state 10 rest_first 3) waiting (event 10 1 ∷ event 10 2 ∷ [])
      begin-QueueIsValid two-Rounds

context_add_node-NodeAdded_example :
    Returns
      (NodeAdded true true begin (new_node begin (pos 1) (pos 2) (pos 0) (pos 0)))
      (context_add_node true true begin (pos 1) (pos 2) (pos 0) (pos 0))
context_add_node-NodeAdded_example =
    context_add_node-NodeAdded true true begin (pos 1) (pos 2) (pos 0) (pos 0) begin-NodesAreValid
      (omega arith)

abbrev context_at_start : Context
context_at_start =
    fresh_context (record { data_ = []; capacity = 16; slots = 16 })
      (record { data_ = []; cap = 8; slots = 8; by_id = [] })
      (record zeroed_grid {
        cell_nm = default_cell_nm;
        nx = 8;
        ny = 8;
        cells = some (replicate 64 air);
      })
      7

context_init-IsValid_example :
    (h : MinHeap) × IsValid (context_at_start) h
    × (h.data_ ≡ [])
    × (context_at_start.nodes.data_ ≡ [])
    × (context_at_start.udp_binds ≡ [])
    × (context_at_start.clock ≡ 0)
unfolding context_init
context_init-IsValid_example =
    context_init-IsValid true true true 16 7 {ctx = context_at_start} (omega arith) refl

context_free-frees_example :
    Returns
      (λ r.
        Perm r.0 waiting.data_
        × (r.1.heap ≡ none)
        × (r.1.nodes.data_ ≡ [])
        × (r.1.nodes.by_id ≡ [])
        × (r.1.grid.cells ≡ none))
      (context_free 3 begin)
context_free-frees_example = context_free-frees 3 begin waiting begin-QueueIsValid (omega arith)
