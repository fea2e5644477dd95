-- ===== src/Tun/Pump.antt =====
-- One turn of the pump of tun/tun.c: a packet is read from a device and written to its peers. The
-- kernel's part is an argument: the packet that `read` gives (at most 2048 bytes, none on an
-- error), the two clocks, and whether the n-th `write` takes the whole packet. What is written is
-- recorded, the last write first.
pub mod Sent
pub mod Turn
use Prim.Native.Nat.{bit_and}
use resonance.Prelude.{
  ℕ, zero, suc, ◌+◌, ◌-◌, ◌*◌, ◌/◌, ◌%◌, ◌^◌, Bool, true, false, not, ◌&&◌, ◌||◌, Option, none,
  some, List, [], ◌∷◌, if◌then◌else◌, ltb, leb, ◌==◌, length, get_elem?, get_or, set, u64_mod,
  add64, Run, ok, ◌>>=◌, in_bounds,
}
use resonance.Prelude.Int.{ℤ, pos, leb_ℤ}
use resonance.Nodes.{Node, NodeList, nodelist_find}
use resonance.World.{MediumGrid, RadioPath, radio_path}
use resonance.Tun.{
  TunSlot, TunQos, TunQosSlot, TunMap, TunDropEnt, is_fd, is_negative, slot_of_fd, slot_of_ip,
  qfind, dhas,
}
use resonance.Tun.Shaping.{Doubles, qloss, qbucket, qdup, qslow, flow_fwd, flow_radio, flow_policy}

abbrev pub ipv4_min_n : ℕ
ipv4_min_n = 20

-- What a turn changes.
pub record Switch (F : Type 0) : Type 0 where
  pub map : TunMap F
  pub sent : List (ℤ × List ℕ)

-- The air between the devices.
pub record Air : Type 0 where
  pub grid : MediumGrid
  pub range_nm : ℕ
  pub nodes : NodeList

abbrev pub byte : List ℕ → ℕ → ℕ
byte buf i = get_or buf i 0

abbrev pub is_multicast : List ℕ → Bool
is_multicast buf = bit_and (byte buf 16) 0xF0 == 0xE0

abbrev pub is_broadcast : List ℕ → Bool
is_broadcast buf = byte buf 16 == 10 && byte buf 17 == 0 && byte buf 18 == 0 && byte buf 19 == 255

abbrev pub dest_ip : List ℕ → List ℕ
dest_ip buf = byte buf 16 ∷ byte buf 17 ∷ byte buf 18 ∷ byte buf 19 ∷ []

module _ (accepts : ℕ → Bool) (air : Air) where
  -- The writes after the call come with its result.
  pub tun_forward : List (ℤ × List ℕ) → ℤ → List ℕ → Node → Node → Run (Bool × List (ℤ × List ℕ))
  tun_forward sent to_fd buf a b =
      if is_negative to_fd || length buf == 0 then ok (false, sent) else (do
        (heard, path) ← radio_path air.grid air.range_nm a.x_nm a.y_nm b.x_nm b.y_nm
        ok (if heard then (accepts (length sent), (to_fd, buf) ∷ sent) else (false, sent)))

  module _ {F : Type 0} where
    pub fwd_counted : Switch F → (fi ti : ℕ) → ℤ → List ℕ → Node → Node → Run (Switch F)
    fwd_counted s fi ti to_fd buf a b = do
      (written, sent) ← tun_forward s.sent to_fd buf a b
      ok (record {
        map = if written then flow_fwd s.map fi ti (length buf) else flow_radio s.map fi ti;
        sent = sent;
      })

    -- The body of the two loops over the peers, and the loops: `i` counts the slots.
    pub fan_out : ℤ → ℕ → Node → List ℕ → List TunSlot → ℕ → Switch F → Run (Switch F)
    fan_out from_fd fi a buf [] i s = ok s
    fan_out from_fd fi a buf (peer ∷ peers) i s = do
      next ← if is_fd peer.fd from_fd then ok s else (do
        found ← nodelist_find air.nodes peer.node_id
        elim found [ none ↦ ok s | some b ↦ fwd_counted s fi i peer.fd buf a b ])
      fan_out from_fd fi a buf peers (i + 1) next

    -- The end of `qsend`: the write, and perhaps a second one.
    pub send_shaped : Switch F → (fi ti : ℕ) → Bool → ℤ → List ℕ → Node → Node → Run (Switch F)
    send_shaped s fi ti twice to_fd buf a b = do
      once ← fwd_counted s fi ti to_fd buf a b
      if twice then fwd_counted once fi ti to_fd buf a b else ok once

-- The QoS entry at `qi`.
abbrev pub with_qos : {F : Type 0} → Switch F → ℕ → TunQosSlot F → Switch F
with_qos s qi q = record s { map = record s.map { qos = set s.map.qos qi q } }

-- The gate before the read: the new stamp, or `none` if the device has to wait.
pub slow_gate : {F : Type 0} → ℤ → TunQosSlot F → Option (TunQosSlot F)
slow_gate time qs =
    if leb_ℤ qs.q.slow_secs (pos 0)
    then some qs
    else if qslow qs.last_slow time qs.q.slow_secs
    then some (record qs { last_slow = time })
    else none

module _ {F : Type 0} (doubles : Doubles F) (accepts : ℕ → Bool) (air : Air) where
  -- `now` is what the monotonic clock gives. The delay is computed and dropped.
  pub qsend :
      ℕ → Switch F → (fi ti qi : ℕ) → TunQosSlot F → ℤ → List ℕ → Node → Node → Run (Switch F)
  qsend now s fi ti qi qs to_fd buf a b =
      let c = qs.ctr in
      let counted = record qs { ctr = add64 c 1 } in
      let s1 = with_qos s qi counted in
      if qloss doubles qs.q.loss01 qs.q.seed c
      then ok (record s1 { map = flow_policy s1.map fi ti })
      else (let (passed, toks, stamp) =
            qbucket doubles qs.q.kbps qs.toks qs.last_ns now (length buf) in
          let s2 = with_qos s qi (record counted { toks = toks; last_ns = stamp }) in
          if passed
          then send_shaped accepts air s2 fi ti (qdup doubles qs.q.dup_pct qs.q.seed c) to_fd buf a
              b
          else ok (record s2 { map = flow_policy s2.map fi ti }))

  -- A packet for one peer, at the slot `ti`.
  pub unicast : ℕ → Switch F → ℤ → ℕ → Node → List ℕ → ℕ → TunSlot → Run (Switch F)
  unicast now s from_fd fi a buf ti to =
      if dhas s.map.drop from_fd to.fd then ok (record s { map = flow_policy s.map fi ti }) else (do
        found ← nodelist_find air.nodes to.node_id
        elim found [
          | none ↦ ok s
          | some b ↦ elim (qfind s.map from_fd) [
            | none ↦ fwd_counted accepts air s fi ti to.fd buf a b
            | some qi ↦ do
              qs ← in_bounds (get_elem? s.map.qos qi)
              qsend now s fi ti qi qs to.fd buf a b
          ]
        ])

  -- The packet goes to all peers, to none, or to one.
  pub route : ℕ → Bool → Switch F → ℤ → ℕ → Node → List ℕ → Run (Switch F)
  route now drop_mcast s from_fd fi a buf =
      if is_multicast buf
      then (if drop_mcast then ok s else fan_out accepts air from_fd fi a buf s.map.slot 0 s)
      else if is_broadcast buf
      then fan_out accepts air from_fd fi a buf s.map.slot 0 s
      else elim (slot_of_ip s.map (dest_ip buf) from_fd) [
        | none ↦ ok s
        | some ti ↦
            in_bounds (get_elem? s.map.slot ti) >>= λ to. unicast now s from_fd fi a buf ti to
      ]

  -- The pump once `read` has given a packet.
  pub pump_packet : ℕ → Bool → Switch F → ℤ → List ℕ → Run (Switch F)
  pump_packet now drop_mcast s from_fd buf =
      if ltb (length buf) ipv4_min_n || not (byte buf 0 / 16 == 4)
      then ok s
      else elim (slot_of_fd s.map from_fd) [
        | none ↦ ok s
        | some fi ↦ do
          from ← in_bounds (get_elem? s.map.slot fi)
          found ← nodelist_find air.nodes from.node_id
          elim found [ none ↦ ok s | some a ↦ route now drop_mcast s from_fd fi a buf ]
      ]

  pub pump : (time : ℤ) (now : ℕ) (drop_mcast : Bool) → Switch F → ℤ → List ℕ → Run (Switch F)
  pump time now drop_mcast s from_fd buf = elim (qfind s.map from_fd) [
    | none ↦ pump_packet now drop_mcast s from_fd buf
    | some qi ↦ do
      qs ← in_bounds (get_elem? s.map.qos qi)
      elim (slow_gate time qs) [
        | none ↦ ok s
        | some stamped ↦ pump_packet now drop_mcast (with_qos s qi stamped) from_fd buf
      ]
  ]

  pub tun_pump_fd : ℤ → ℕ → Switch F → ℤ → List ℕ → Run (Switch F)
  tun_pump_fd time now = pump time now false

  pub tun_pump_fd_nomcast : ℤ → ℕ → Switch F → ℤ → List ℕ → Run (Switch F)
  tun_pump_fd_nomcast time now = pump time now true
