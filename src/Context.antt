-- ===== src/Context.antt =====
-- shared/context.c and shared/context.h: the object that holds the clock, the event queue, the
-- generator, the nodes and the map, and the operations on it. `heap` is `none` for a null pointer;
-- the guard on `ctx` itself is left out, since every caller passes the address of an object. The
-- outcome of each allocation is an argument. `udp_binds` is the used part of the table.
pub mod Invariant
pub mod Enqueue
pub mod AddNode
pub mod Init
pub mod Free
mod Tests
pub mod Rounds
use resonance.Prelude.{
  ℕ, zero, suc, ◌+◌, ◌-◌, ◌*◌, ◌%◌, ◌<◌, Bool, true, false, ◌&&◌, ◌||◌, Option, none, some, List,
  [], not, if◌then◌else◌, ltb, ◌==◌, length, take, add64, Run, ok, out_of_bounds, ◌>>=◌,
}
use resonance.Prelude.Int.{ℤ, pos}
use resonance.Heap.{Event, MinHeap, heap_create, heap_push, heap_pop}
use resonance.Nodes.{
  Node, NodeList, nodelist_init, nodelist_push, nodelist_find, nodelist_remove_by_id,
}
use resonance.World.{MediumGrid, RadioPath, air, mediumgrid_init, mediumgrid_free, radio_path}
use resonance.Rng.{Rng, rng_seed}

-- A port's listener; the callback is an address.
pub record UdpBind : Type 0 where
  pub node_id : ℕ
  pub port : ℕ
  pub cb : ℕ

pub record Context : Type 0 where
  pub clock : ℕ
  pub heap : Option MinHeap
  pub rng : Rng
  pub next_seq : ℕ
  pub next_node_id : ℕ
  pub nodes : NodeList
  pub grid : MediumGrid
  pub range_nm : ℕ
  pub udp_binds : List UdpBind

abbrev pub default_cell_nm : ℕ
default_cell_nm = 1000000000

abbrev pub default_grid_n : ℕ
default_grid_n = 8

abbrev pub default_range_nm : ℕ
default_range_nm = 2500000000

abbrev pub zeroed_grid : MediumGrid
zeroed_grid = record {
  origin_x_nm = pos 0;
  origin_y_nm = pos 0;
  cell_nm = 0;
  nx = 0;
  ny = 0;
  cells = none;
}

-- The fields as `context_init` sets them.
abbrev pub fresh_context : MinHeap → NodeList → MediumGrid → ℕ → Context
fresh_context heap nodes grid seed = record {
  clock = 0;
  heap = some heap;
  rng = rng_seed seed;
  next_seq = 0;
  next_node_id = 0;
  nodes = nodes;
  grid = grid;
  range_nm = default_range_nm;
  udp_binds = [];
}

-- `none` if one of the three allocations fails.
unfoldable pub context_init :
    (heap_ok nodes_ok grid_ok : Bool) → (heap_capacity seed : ℕ) → Option Context
unfolding heap_create nodelist_init mediumgrid_init
context_init heap_ok nodes_ok grid_ok heap_capacity seed =
    elim (heap_create heap_ok heap_capacity) [
      | none ↦ none
      | some heap ↦ elim (nodelist_init nodes_ok 8) [
        | none ↦ none
        | some nodes ↦
            elim (mediumgrid_init grid_ok zeroed_grid (pos 0) (pos 0) default_cell_nm default_grid_n
              default_grid_n air) [
                | none ↦ none
                | some grid ↦ some (fresh_context heap nodes grid seed)
              ]
      ]
    ]

-- The id given out is that of the node pushed; `next_node_id` moves on only then.
unfoldable pub context_add_node :
    (index_ok data_ok : Bool) → Context → (x_nm y_nm vx vy : ℤ) → Run (Option ℕ × Context)
context_add_node index_ok data_ok ctx x_nm y_nm vx vy = do
  let node : Node = record {
    id = ctx.next_node_id;
    x_nm = x_nm;
    y_nm = y_nm;
    vx_nm_per_ns = vx;
    vy_nm_per_ns = vy;
  }
  (pushed, nodes) ← nodelist_push index_ok data_ok ctx.nodes node
  ok (
      if pushed
      then (some node.id, record ctx { nodes = nodes; next_node_id = add64 ctx.next_node_id 1 })
      else (none, record ctx { nodes = nodes }))

unfoldable pub context_find_node : Context → ℕ → Run (Option Node)
context_find_node ctx id = nodelist_find ctx.nodes id

unfoldable pub context_remove_node : Context → ℕ → Run (Bool × Context)
context_remove_node ctx id = do
  (removed, nodes) ← nodelist_remove_by_id ctx.nodes id
  ok (removed, record ctx { nodes = nodes })

-- The copy of the payload: `memcpy` of `payload_len` bytes.
pub copy_payload : Option (List ℕ) → ℕ → Run (Option (List ℕ))
copy_payload payload payload_len = if payload_len == 0 then ok none else elim payload [
  | none ↦ out_of_bounds
  | some bytes ↦
      if ltb (length bytes) payload_len then out_of_bounds else ok (some (take payload_len bytes))
]

abbrev is_null : Option (List ℕ) → Bool
is_null none = true
is_null (some bytes) = false

-- The arguments of `enqueue` behind the context and the allocations.
pub record Request : Type 0 where
  pub t : ℕ
  pub cb : ℕ
  pub payload : Option (List ℕ)
  pub payload_len : ℕ
  pub from_id : ℕ
  pub to_id : ℕ
  pub src_port : ℕ
  pub dst_port : ℕ

abbrev pub event_of : Request → Option (List ℕ) → ℕ → Event
event_of r copy seq = record {
  executed_at = r.t;
  callback_func = r.cb;
  sequence_number = seq;
  payload = copy;
  payload_len = r.payload_len;
  from_id = r.from_id;
  to_id = r.to_id;
  src_port = r.src_port;
  dst_port = r.dst_port;
}

-- Is the request refused before anything is allocated?
pub is_refused : Context → Request → Bool
is_refused ctx r = r.cb == 0 || ltb r.t ctx.clock || (ltb 0 r.payload_len && is_null r.payload)

-- The end of `enqueue`: the push, and the sequence number that moves on if it succeeds.
pub push_event : Bool → Context → Event → Run (Bool × Context)
push_event realloc_ok ctx ev = do
  (pushed, heap) ← heap_push realloc_ok ctx.heap ev
  ok (
      if pushed
      then (true, record ctx { heap = heap; next_seq = add64 ctx.next_seq 1 })
      else (false, record ctx { heap = heap }))

unfoldable pub enqueue : (malloc_ok realloc_ok : Bool) → Context → Request → Run (Bool × Context)
enqueue malloc_ok realloc_ok ctx r = elim ctx.heap [
  | none ↦ ok (false, ctx)
  | some h ↦
      if is_refused ctx r
      then ok (false, ctx)
      else if ltb 0 r.payload_len && not malloc_ok
      then ok (false, ctx)
      else (do
        copy ← copy_payload r.payload r.payload_len
        push_event realloc_ok ctx (event_of r copy ctx.next_seq))
]

unfoldable pub context_schedule : Bool → Context → (nanoseconds cb to_id : ℕ) → Run (Bool × Context)
context_schedule realloc_ok ctx nanoseconds cb to_id = enqueue true realloc_ok ctx (record {
  t = nanoseconds;
  cb = cb;
  payload = none;
  payload_len = 0;
  from_id = 0;
  to_id = to_id;
  src_port = 0;
  dst_port = 0;
})

abbrev pub context_enqueue :
    (malloc_ok realloc_ok : Bool) → Context → Request → Run (Bool × Context)
context_enqueue = enqueue

-- The part that `context_send` and `udp_send` share: both nodes, and the path between them.
unfoldable pub path_of : Context → (from_id to_id : ℕ) → Run (Bool × RadioPath)
path_of ctx from_id to_id = do
  from ← context_find_node ctx from_id
  to ← context_find_node ctx to_id
  elim from [
    | none ↦ ok (false, record { reachable = false; delay_ns = 0 })
    | some a ↦ elim to [
      | none ↦ ok (false, record { reachable = false; delay_ns = 0 })
      | some b ↦ radio_path ctx.grid ctx.range_nm a.x_nm a.y_nm b.x_nm b.y_nm
    ]
  ]

unfoldable pub context_send :
    (malloc_ok realloc_ok : Bool)
    → Context
    → (from_id to_id : ℕ) → Option (List ℕ)
    → (payload_len on_recv : ℕ) → Run (Bool × Context)
context_send malloc_ok realloc_ok ctx from_id to_id payload payload_len on_recv =
    if on_recv == 0 then ok (false, ctx) else (do
      (heard, path) ← path_of ctx from_id to_id
      if heard
          then enqueue malloc_ok realloc_ok ctx (record {
            t = add64 ctx.clock path.delay_ns;
            cb = on_recv;
            payload = payload;
            payload_len = payload_len;
            from_id = from_id;
            to_id = to_id;
            src_port = 0;
            dst_port = 0;
          })
          else ok (false, ctx))

-- The top of a round of `context_run`: the next event leaves the heap and the clock moves up to it;
-- `none` if the heap is empty. The handler's calls follow.
unfoldable pub next_event : Context → Run (Option Event × Context)
next_event ctx = do
  (popped, heap) ← heap_pop ctx.heap
  ok (elim popped [
    | none ↦ (none, record ctx { heap = heap })
    | some ev ↦ (
      some ev,
      record ctx {
        heap = heap;
        clock = if ltb ctx.clock ev.executed_at then ev.executed_at else ctx.clock;
      },
    )
  ])
