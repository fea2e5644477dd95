-- ===== src/Udp/Tests.antt =====
-- Runs of the table of listeners.
use resonance.Prelude.{◌≡◌, refl, false, none, [], ◌∷◌, arith, ok, Returns}
use resonance.Prelude.Int.{pos}
use resonance.Heap.Order.{no_event}
use resonance.Nodes.{NodeList, nodelist_find}
use resonance.Nodes.Invariant.{IsValid}
use resonance.Context.{Context, zeroed_grid, context_find_node}
use resonance.Udp.{bind_of, on_udp_datagram, add_bind, udp_bind}
use resonance.Udp.Binds.{TableIsValid, Bound, udp_bind-Bound}

abbrev one : NodeList
one = record {
  data_ =
      record { id = 0; x_nm = pos 6; y_nm = pos 7; vx_nm_per_ns = pos 0; vy_nm_per_ns = pos 0 }
      ∷ [];
  cap = 2;
  slots = 2;
  by_id = 0 ∷ [];
}

-- A callback at 900 listens on port 53 of node 0.
abbrev ctx : Context
ctx = record {
  clock = 0;
  heap = none;
  rng = record { s0 = 1; s1 = 2; s2 = 3; s3 = 4 };
  next_seq = 0;
  next_node_id = 1;
  nodes = one;
  grid = zeroed_grid;
  range_nm = 1000;
  udp_binds = record { node_id = 0; port = 53; cb = 900 } ∷ [];
}

one-IsValid : IsValid one
one-IsValid = record {
  entry = λ i p. ground arith;
  live = λ k p. ground arith;
  bounded = omega arith;
  backed = omega arith;
  fits = omega arith;
}

table-IsValid : TableIsValid ctx.udp_binds
table-IsValid = record { bounded = omega arith; set = (omega arith, tt) }

port_taken : udp_bind ctx 0 53 901 ≡ ok (false, ctx)
unfolding udp_bind add_bind bind_of context_find_node nodelist_find
port_taken = refl

delivered : on_udp_datagram ctx (record no_event { to_id = 0; dst_port = 53 }) ≡ 900
unfolding on_udp_datagram bind_of
delivered = refl

udp_bind-Bound_example : Returns (Bound ctx 0 54 901) (udp_bind ctx 0 54 901)
udp_bind-Bound_example = udp_bind-Bound ctx 0 54 901 table-IsValid one-IsValid
