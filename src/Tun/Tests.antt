-- ===== src/Tun/Tests.antt =====
-- Runs of the switch on two devices. Floating point numbers stand in as naturals.
use mathlib.Core.List.{Pairwise, not-mem-nil}
use resonance.Prelude.{
  ℕ, ◌*◌, ◌/◌, ◌≡◌, refl, true, false, some, List, [], ◌∷◌, arith, ltb, leb, Returns,
}
use resonance.Prelude.Int.{pos, pos_part, ◌-ℤ◌}
use resonance.Nodes.{NodeList}
use resonance.Nodes.Invariant.{node_of}
use resonance.Nodes.Invariant
use resonance.World.{air}
use resonance.Tun.{TunQos, TunMap, no_flow, index_of, remove_swap, dhas, tun_drop_set}
use resonance.Tun.Drops.{DropsAreValid, DropSet, tun_drop_set-DropSet}
use resonance.Tun.Shaping.{Doubles, qbucket, Spent, qbucket-Spent}
use resonance.Tun.Pump.{Switch, Air, pump}
use resonance.Tun.Pump.Sent.{AirIsReady, Turned}
use resonance.Tun.Pump.Turn.{IsTarget, pump-Turned}

abbrev naturals : Doubles ℕ
naturals = record {
  of_u64 = λ n. n;
  of_int = pos_part;
  to_u64 = λ x. x;
  le = leb;
  lt = ltb;
  mul = λ x y. x * y;
  div = λ x y. x / y;
}

abbrev shaping : TunQos ℕ
shaping = record {
  loss01 = 0;
  base_delay_ns = 0;
  jitter_ns = 0;
  kbps = 64;
  dup_pct = pos 0;
  slow_secs = pos 0;
  seed = 1;
}

abbrev devices : TunMap ℕ
devices = record {
  slot =
      record { fd = pos 3; ip = 10 ∷ 0 ∷ 0 ∷ 1 ∷ []; node_id = 0 }
      ∷ record { fd = pos 4; ip = 10 ∷ 0 ∷ 0 ∷ 2 ∷ []; node_id = 1 }
      ∷ [];
  qos = [];
  drop = record { from_fd = pos 3; to_fd = pos 4 } ∷ [];
  flow = λ fi ti. no_flow;
}

devices-DropsAreValid : DropsAreValid devices.drop
devices-DropsAreValid = record {
  bounded = omega arith;
  distinct = Pairwise.cons (λ t m. absurd (not-mem-nil m)) Pairwise.nil;
}

edge_restored : dhas (tun_drop_set devices (pos 3) (pos 4) false).drop (pos 3) (pos 4) ≡ false
unfolding tun_drop_set index_of remove_swap dhas
edge_restored = refl

tun_drop_set-DropSet_example :
    DropSet devices (pos 3) (pos 4) false (tun_drop_set devices (pos 3) (pos 4) false)
tun_drop_set-DropSet_example =
    tun_drop_set-DropSet devices (pos 3) (pos 4) false devices-DropsAreValid

qbucket-Spent_example : Spent naturals 64 100 5 9 60 (qbucket naturals 64 100 5 9 60)
qbucket-Spent_example = qbucket-Spent naturals 64 100 5 9 60

abbrev two : NodeList
two = record {
  data_ =
      record { id = 0; x_nm = pos 1; y_nm = pos 1; vx_nm_per_ns = pos 0; vy_nm_per_ns = pos 0 }
      ∷ record { id = 1; x_nm = pos 2; y_nm = pos 1; vx_nm_per_ns = pos 0; vy_nm_per_ns = pos 0 }
      ∷ [];
  cap = 2;
  slots = 2;
  by_id = 0 ∷ 1 ∷ [];
}

abbrev here : Air
here = record {
  grid = record {
    origin_x_nm = pos 0;
    origin_y_nm = pos 0;
    cell_nm = 600;
    nx = 1;
    ny = 1;
    cells = some (air ∷ []);
  };
  range_nm = 100;
  nodes = two;
}

two-IsValid : Invariant.IsValid two
two-IsValid = record {
  entry = λ i p. ground arith;
  live = λ k p. ground arith;
  bounded = omega arith;
  backed = omega arith;
  fits = omega arith;
}

here-AirIsReady : AirIsReady here (air ∷ [])
unfolding node_of ◌-ℤ◌
here-AirIsReady = record {
  map = record { stored = refl; size = refl; small = omega arith; wide = omega arith };
  nodes = two-IsValid;
  near = λ k n e. ground arith;
}

-- A packet of the second device for the first one.
abbrev packet : List ℕ
packet = 0x45 ∷ 0 ∷ 0 ∷ 20 ∷ 0 ∷ 0 ∷ 0 ∷ 0 ∷ 64 ∷ 17 ∷ 0 ∷ 0 ∷ 10 ∷ 0 ∷ 0 ∷ 2 ∷ 10 ∷ 0 ∷ 0 ∷ 1 ∷ []

abbrev idle : Switch ℕ
idle = record { map = devices; sent = [] }

pump-Turned_example :
    Returns
      (Turned (IsTarget devices.slot devices.drop (pos 4) true packet) packet idle)
      (pump naturals (λ n. true) here (pos 0) 0 true idle (pos 4) packet)
pump-Turned_example =
    pump-Turned (λ n. true) here (air ∷ []) here-AirIsReady naturals (pos 0) 0 true idle (pos 4)
      packet
