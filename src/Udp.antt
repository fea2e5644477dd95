-- ===== src/Udp.antt =====
-- udp/udp.c and udp/udp.h: in-process UDP over the simulated radio. A callback is an address, 0 for
-- `nullptr`; the callback that `udp_send` enqueues is the demultiplexer `on_udp_datagram`, whose
-- address is a parameter of the operations that enqueue it.
pub mod Binds
mod Tests
use resonance.Prelude.{
  ℕ, zero, suc, ◌+◌, Bool, true, false, ◌&&◌, ◌||◌, Option, none, some, List, [], ◌∷◌, ◌++◌,
  if◌then◌else◌, leb, ◌==◌, length, add64, Run, ok, ◌>>=◌,
}
use resonance.Heap.{Event}
use resonance.Nodes.{Node}
use resonance.Context.{Context, UdpBind, Request, enqueue, context_find_node, path_of}

abbrev pub udp_bind_max : ℕ
udp_bind_max = 16

-- The listener of a node's port, 0 if there is none.
pub bind_of : List UdpBind → (node_id port : ℕ) → ℕ
bind_of [] node_id port = 0
bind_of (b ∷ binds) node_id port =
    if b.node_id == node_id && b.port == port then b.cb else bind_of binds node_id port

-- The callback that a delivered datagram is handed to, 0 if nobody listens.
pub on_udp_datagram : Context → Event → ℕ
on_udp_datagram ctx ev = bind_of ctx.udp_binds ev.to_id ev.dst_port

-- The end of `udp_bind`, once the node is known to be there.
pub add_bind : Context → (node_id port cb : ℕ) → Bool × Context
add_bind ctx node_id port cb =
    if bind_of ctx.udp_binds node_id port == 0
    then (if leb udp_bind_max (length ctx.udp_binds) then (false, ctx) else (
      true,
      record ctx {
        udp_binds = ctx.udp_binds ++ record { node_id = node_id; port = port; cb = cb } ∷ [];
      },
    ))
    else (false, ctx)

unfoldable pub udp_bind : Context → (node_id port cb : ℕ) → Run (Bool × Context)
udp_bind ctx node_id port cb = if cb == 0 || port == 0 then ok (false, ctx) else (do
  node ← context_find_node ctx node_id
  ok (elim node [ none ↦ (false, ctx) | some _ ↦ add_bind ctx node_id port cb ]))

-- A datagram's arguments, the sender's side first.
pub record Datagram : Type 0 where
  pub from_id : ℕ
  pub src_port : ℕ
  pub dst_port : ℕ
  pub buf : Option (List ℕ)
  pub len : ℕ

abbrev pub request_of : (demux t to_id : ℕ) → Datagram → Request
request_of demux t to_id d = record {
  t = t;
  cb = demux;
  payload = d.buf;
  payload_len = d.len;
  from_id = d.from_id;
  to_id = to_id;
  src_port = d.src_port;
  dst_port = d.dst_port;
}

unfoldable pub udp_send :
    (demux : ℕ) (malloc_ok realloc_ok : Bool)
    → Context
    → (to_id : ℕ) → Datagram
    → Run (Bool × Context)
udp_send demux malloc_ok realloc_ok ctx to_id d =
    if d.src_port == 0 || d.dst_port == 0 then ok (false, ctx) else (do
      (heard, path) ← path_of ctx d.from_id to_id
      if heard
          then enqueue malloc_ok realloc_ok ctx
              (request_of demux (add64 ctx.clock path.delay_ns) to_id d)
          else ok (false, ctx))

-- The loop of `udp_mcast` over the nodes, which no `udp_send` changes. The sends' results are
-- dropped; `allocs i` says how the allocations of the i-th turn go.
pub send_all : (demux : ℕ) → (ℕ → Bool × Bool) → ℕ → List Node → Context → Datagram → Run Context
send_all demux allocs i [] ctx d = ok ctx
send_all demux allocs i (n ∷ ns) ctx d = do
  let (malloc_ok, realloc_ok) = allocs i
  (sent, next) ←
      if n.id == d.from_id then ok (false, ctx) else udp_send demux malloc_ok realloc_ok ctx n.id d
  send_all demux allocs (i + 1) ns next d

unfoldable pub udp_mcast :
    (demux : ℕ) → (ℕ → Bool × Bool) → Context → Datagram → Run (Bool × Context)
udp_mcast demux allocs ctx d = if d.src_port == 0 || d.dst_port == 0 then ok (false, ctx) else (do
  from ← context_find_node ctx d.from_id
  elim from [
    | none ↦ ok (false, ctx)
    | some _ ↦ send_all demux allocs 0 ctx.nodes.data_ ctx d >>= λ next. ok (true, next)
  ])
