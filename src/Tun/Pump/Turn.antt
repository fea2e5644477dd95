-- ===== src/Tun/Pump/Turn.antt =====
-- A whole turn of the pump: it returns, and no packet goes where it must not.
use mathlib.Core.List.{Mem, mem-cons_self, mem-cons_of_mem}
use resonance.Prelude.{
  ℕ, ◌+◌, ◌/◌, ◌≡◌, refl, Bool, true, false, not, ◌&&◌, ◌||◌, none, some, List, [], ◌∷◌, arith,
  if◌then◌else◌, ltb, ◌==◌, length, set, ok, ◌>>=◌, Returns, returns, Returns-if, Returns-bind,
  Returns-map, Returns-option,
}
use resonance.Prelude.Int.{ℤ}
use resonance.Nodes.{Node, nodelist_find}
use resonance.Nodes.Invariant.{node_of, nodelist_find-node_of}
use resonance.World.{Material}
use resonance.Tun.{
  TunSlot, TunQosSlot, TunDropEnt, is_fd, same_ip, any, index_of, slot_of_fd, slot_of_ip, qfind,
  dhas,
}
use resonance.Tun.Table.{index_of-some, any-hit, any-member}
use resonance.Tun.Shaping.{Doubles, policy_kept, qloss, qbucket}
use resonance.Tun.Pump.{
  Switch, Air, ipv4_min_n, byte, is_multicast, is_broadcast, dest_ip, fwd_counted, fan_out,
  with_qos, qsend, unicast, route, pump_packet, slow_gate, pump,
}
use resonance.Tun.Pump.Sent.{
  AirIsReady, Near, Turned, Turned-refl, Turned-trans, same-Turned, fwd_counted-Turned,
  send_shaped-Turned,
}

-- Where a packet may go: to a device of the map, never back to the one that it came from, not at
-- all if it is a multicast and those are dropped, and, unless it goes to all, not along an edge
-- that is dropped.
pub record IsTarget (slots : List TunSlot) (drops : List TunDropEnt) (from_fd : ℤ)
    (drop_mcast : Bool) (buf : List ℕ) (fd : ℤ) : Type 0 where
  pub held : any (λ s. is_fd s.fd fd) slots ≡ true
  pub other : is_fd fd from_fd ≡ false
  pub heeded : drop_mcast && is_multicast buf ≡ false
  pub open_edge : (is_multicast buf || is_broadcast buf) || not (dhas drops from_fd fd) ≡ true

is_fd_refl : (a : ℤ) → is_fd a a ≡ true
is_fd_refl a = ground arith

module _ (accepts : ℕ → Bool) (air : Air) (cells : List Material) (ready : AirIsReady air cells)
    {F : Type 0} (Allowed : ℤ → Type 0) (buf : List ℕ) (a : Node)
    (near_a : Near accepts air cells ready a) where
  fan_out-Turned :
      (from_fd : ℤ) (fi i : ℕ) (peers : List TunSlot) (s : Switch F)
      → ((p : TunSlot) → Mem p peers → is_fd p.fd from_fd ≡ false → Allowed p.fd)
      → Returns (Turned Allowed buf s) (fan_out accepts air from_fd fi a buf peers i s)
  unfolding fan_out
  fan_out-Turned from_fd fi i [] s may = returns (Turned-refl Allowed buf s)
  fan_out-Turned from_fd fi i (peer ∷ peers) s may = Returns-bind one_peer λ t first.
      Returns-map (fan_out-Turned from_fd fi (i + 1) peers t λ p m. may p (mem-cons_of_mem peer m))
        λ u rest. Turned-trans Allowed buf first rest
    where
      one_peer : Returns (Turned Allowed buf s) (
          if is_fd peer.fd from_fd then ok s else (do
            found ← nodelist_find air.nodes peer.node_id
            elim found [ none ↦ ok s | some b ↦ fwd_counted accepts air s fi i peer.fd buf a b ]))
      one_peer =
          Returns-if (is_fd peer.fd from_fd) (λ self. returns (Turned-refl Allowed buf s))
            (λ other. rw (nodelist_find-node_of air.nodes peer.node_id ready.nodes) (
              Returns-option (node_of air.nodes.data_ peer.node_id)
                (λ gone. returns (Turned-refl Allowed buf s))
                (λ b there.
                  fwd_counted-Turned accepts air cells ready Allowed buf s fi i peer.fd a b near_a
                    (ready.near peer.node_id b there)
                    (may peer (mem-cons_self {l = peers}) other))))

  module _ (doubles : Doubles F) (now : ℕ) (fi ti : ℕ) where
    qsend-Turned :
        (s : Switch F) (qi : ℕ) (qs : TunQosSlot F) (to_fd : ℤ) (b : Node)
        → Near accepts air cells ready b
        → Allowed to_fd
        → Returns (Turned Allowed buf s) (qsend doubles accepts air now s fi ti qi qs to_fd buf a b)
    unfolding qsend
    qsend-Turned s qi qs to_fd b near_b may =
        Returns-if (qloss doubles qs.q.loss01 qs.q.seed qs.ctr)
          (λ lost.
            let kept = policy_kept (record s.map { qos = set s.map.qos qi _ }) fi ti in
            returns (same-Turned Allowed buf s _ refl kept.0 kept.1))
          (λ _.
            Returns-if (qbucket doubles qs.q.kbps qs.toks qs.last_ns now (length buf)).0
              (λ passed.
                Returns-map
                  (send_shaped-Turned accepts air cells ready Allowed buf (with_qos s qi _) fi ti _
                    to_fd a b near_a near_b may)
                  λ t sent.
                    Turned-trans Allowed buf
                      (same-Turned Allowed buf s (with_qos s qi _) refl refl refl) sent)
              (λ denied.
                let kept = policy_kept (record s.map { qos = set s.map.qos qi _ }) fi ti in
                returns (same-Turned Allowed buf s _ refl kept.0 kept.1)))

    unicast-Turned :
        (s : Switch F) (from_fd : ℤ) (to : TunSlot)
        → (dhas s.map.drop from_fd to.fd ≡ false → Allowed to.fd)
        → Returns (Turned Allowed buf s) (unicast doubles accepts air now s from_fd fi a buf ti to)
    unfolding unicast qfind
    unicast-Turned s from_fd to may =
        Returns-if (dhas s.map.drop from_fd to.fd)
          (λ dropped.
            let kept = policy_kept s.map fi ti in
            returns (same-Turned Allowed buf s _ refl kept.0 kept.1))
          (λ free. rw (nodelist_find-node_of air.nodes to.node_id ready.nodes) (
            Returns-option (node_of air.nodes.data_ to.node_id)
              (λ gone. returns (Turned-refl Allowed buf s))
              (λ b there.
                let near_b = ready.near to.node_id b there in
                Returns-option (index_of (λ q. is_fd q.fd from_fd) s.map.qos)
                  (λ plain.
                    fwd_counted-Turned accepts air cells ready Allowed buf s fi ti to.fd a b near_a
                      near_b (may free))
                  (λ qi found.
                    let (qs, at_qi, hit, inside) =
                      index_of-some (λ q. is_fd q.fd from_fd) s.map.qos qi found in
                    rw at_qi (qsend-Turned s qi qs to.fd b near_b (may free))))))

module _ (accepts : ℕ → Bool) (air : Air) (cells : List Material) (ready : AirIsReady air cells)
    {F : Type 0} (doubles : Doubles F) (now : ℕ) (drop_mcast : Bool) (s : Switch F) (from_fd : ℤ)
    (buf : List ℕ) where
  abbrev Target : ℤ → Type 0
  Target = IsTarget s.map.slot s.map.drop from_fd drop_mcast buf

  to_all :
      (fi : ℕ) (a : Node)
      → Near accepts air cells ready a
      → drop_mcast && is_multicast buf ≡ false
      → is_multicast buf || is_broadcast buf ≡ true
      → Returns (Turned Target buf s) (fan_out accepts air from_fd fi a buf s.map.slot 0 s)
  to_all fi a near_a heeded all =
      fan_out-Turned accepts air cells ready Target buf a near_a from_fd fi 0 s.map.slot s
        λ p m other. record {
          held = any-member (λ q. is_fd q.fd p.fd) s.map.slot p m (is_fd_refl p.fd);
          other = other;
          heeded = heeded;
          open_edge = rw all refl;
        }

  route-Turned :
      (fi : ℕ) (a : Node)
      → Near accepts air cells ready a
      → Returns (Turned Target buf s) (route doubles accepts air now drop_mcast s from_fd fi a buf)
  unfolding route slot_of_ip
  route-Turned fi a near_a =
      Returns-if (is_multicast buf)
        (λ multicast.
          Returns-if drop_mcast (λ blind. returns (Turned-refl Target buf s))
            (λ seen. to_all fi a near_a (rw seen refl) (rw multicast refl)))
        (λ single.
          Returns-if (is_broadcast buf)
            (λ broadcast. to_all fi a near_a (ground arith) (rw (single, broadcast) refl))
            (λ one.
              Returns-option
                (index_of (λ p. not (is_fd p.fd from_fd) && same_ip p.ip (dest_ip buf)) s.map.slot)
                (λ unknown. returns (Turned-refl Target buf s))
                (λ ti found.
                  let (to, at_ti, hit, inside) =
                    index_of-some (λ p. not (is_fd p.fd from_fd) && same_ip p.ip (dest_ip buf))
                      s.map.slot ti found in
                  rw at_ti (
                    unicast-Turned accepts air cells ready Target buf a near_a doubles now fi ti s
                      from_fd to
                      λ free. record {
                        held =
                            any-hit (λ q. is_fd q.fd to.fd) s.map.slot ti to at_ti
                              (is_fd_refl to.fd);
                        other = ground arith;
                        heeded = ground arith;
                        open_edge = rw (single, one, free) refl;
                      }))))

  pump_packet-Turned :
      Returns (Turned Target buf s) (pump_packet doubles accepts air now drop_mcast s from_fd buf)
  unfolding pump_packet slot_of_fd
  pump_packet-Turned =
      Returns-if (ltb (length buf) ipv4_min_n || not (byte buf 0 / 16 == 4))
        (λ ignored. returns (Turned-refl Target buf s))
        (λ _.
          Returns-option (index_of (λ p. is_fd p.fd from_fd) s.map.slot)
            (λ unknown. returns (Turned-refl Target buf s))
            (λ fi found.
              let (from, at_fi, hit, inside) =
                index_of-some (λ p. is_fd p.fd from_fd) s.map.slot fi found in
              rw (at_fi, nodelist_find-node_of air.nodes from.node_id ready.nodes)
                (Returns-option (node_of air.nodes.data_ from.node_id)
                  (λ gone. returns (Turned-refl Target buf s))
                  (λ a there. route-Turned fi a (ready.near from.node_id a there)))))

-- A turn of the pump on a ready air always returns, whatever the QoS entries and the kernel do. All
-- that it writes are copies of the packet that was read, each to a device of the map other than
-- the one it came from; none if multicasts are dropped and it is one; and, unless the packet goes
-- to all, none along a dropped edge. The devices and the dropped edges stay as they were.
pub pump-Turned :
    (accepts : ℕ → Bool) (air : Air) (cells : List Material)
    → AirIsReady air cells
    → {F : Type 0} (doubles : Doubles F) (time : ℤ) (now : ℕ) (drop_mcast : Bool) (s : Switch F)
      (from_fd : ℤ) (buf : List ℕ)
    → Returns
        (Turned (IsTarget s.map.slot s.map.drop from_fd drop_mcast buf) buf s)
        (pump doubles accepts air time now drop_mcast s from_fd buf)
unfolding pump qfind
pump-Turned accepts air cells ready doubles time now drop_mcast s from_fd buf =
    Returns-option (index_of (λ q. is_fd q.fd from_fd) s.map.qos)
      (λ plain. pump_packet-Turned accepts air cells ready doubles now drop_mcast s from_fd buf)
      (λ qi found.
        let (qs, at_qi, hit, inside) = index_of-some (λ q. is_fd q.fd from_fd) s.map.qos qi found in
        rw at_qi (
          Returns-option (slow_gate time qs)
            (λ waits.
              returns (Turned-refl (IsTarget s.map.slot s.map.drop from_fd drop_mcast buf) buf s))
            (λ stamped _.
              Returns-map
                (pump_packet-Turned accepts air cells ready doubles now drop_mcast
                  (with_qos s qi stamped) from_fd buf)
                λ t turned. record {
                  sent = turned.sent;
                  slots = turned.slots;
                  drops = turned.drops;
                })))
