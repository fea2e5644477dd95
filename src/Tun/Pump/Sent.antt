-- ===== src/Tun/Pump/Sent.antt =====
-- Where the packets of a turn of the pump go.
use resonance.Prelude.{
  ℕ, ◌≡◌, ◌⊎◌, refl, ◌∙◌, Bool, true, false, ◌||◌, some, List, ◌∷◌, if◌then◌else◌, ◌==◌, length, ok,
  Returns, returns, Returns-if, Returns-bind, Returns-map, inl, inr,
}
use resonance.Prelude.Int.{ℤ}
use resonance.Nodes.{Node}
use resonance.Nodes.Invariant.{IsValid, node_of}
use resonance.World.{Material}
use resonance.World.Cells.{IsMap, IsNear}
use resonance.World.Paths.{radio_path-Reception}
use resonance.Tun.{is_negative}
use resonance.Tun.Shaping.{fwd_kept, radio_kept, flow_fwd, flow_radio}
use resonance.Tun.Pump.{Switch, Air, tun_forward, fwd_counted, send_shaped}

-- A map, a valid list of nodes, and no node so far away that an offset overflows.
pub record AirIsReady (air : Air) (cells : List Material) : Type 0 where
  pub map : IsMap air.grid cells
  pub nodes : IsValid air.nodes
  pub near : (k : ℕ) (n : Node) → node_of air.nodes.data_ k ≡ some n → IsNear air.grid n.x_nm n.y_nm

-- The writes `new` are `old` and after them copies of the packet, to descriptors that are allowed.
pub data Grown (Allowed : ℤ → Type 0) (buf : List ℕ) (old : List (ℤ × List ℕ))
    : List (ℤ × List ℕ) → Type 0 where
  no_more : Grown Allowed buf old old
  one_more :
      {new : List (ℤ × List ℕ)} (fd : ℤ)
      → Allowed fd
      → Grown Allowed buf old new
      → Grown Allowed buf old ((fd, buf) ∷ new)

-- From one state of the switch to a later one: only such writes, the same devices and edges.
pub record Turned {F : Type 0} (Allowed : ℤ → Type 0) (buf : List ℕ) (s t : Switch F) : Type 0 where
  pub sent : Grown Allowed buf s.sent t.sent
  pub slots : t.map.slot ≡ s.map.slot
  pub drops : t.map.drop ≡ s.map.drop

module _ (Allowed : ℤ → Type 0) (buf : List ℕ) where
  Grown-trans :
      {a b c : List (ℤ × List ℕ)}
      → Grown Allowed buf a b
      → Grown Allowed buf b c
      → Grown Allowed buf a c
  Grown-trans g no_more = g
  Grown-trans g (one_more fd may h) = one_more fd may (Grown-trans g h)

module _ {F : Type 0} (Allowed : ℤ → Type 0) (buf : List ℕ) where
  pub Turned-refl : (s : Switch F) → Turned Allowed buf s s
  Turned-refl s = record { sent = no_more; slots = refl; drops = refl }

  pub Turned-trans :
      {s t u : Switch F} → Turned Allowed buf s t → Turned Allowed buf t u → Turned Allowed buf s u
  Turned-trans a b = record {
    sent = Grown-trans Allowed buf a.sent b.sent;
    slots = b.slots ∙ a.slots;
    drops = b.drops ∙ a.drops;
  }

  -- A change of the counters or of the QoS entries alone.
  pub same-Turned :
      (s t : Switch F)
      → t.sent ≡ s.sent
      → t.map.slot ≡ s.map.slot
      → t.map.drop ≡ s.map.drop
      → Turned Allowed buf s t
  same-Turned s t e slots drops = record { sent = rw e no_more; slots = slots; drops = drops }

module _ (accepts : ℕ → Bool) (air : Air) (cells : List Material)
    (ready : AirIsReady air cells) where
  abbrev pub Near : Node → Type 0
  Near n = IsNear air.grid n.x_nm n.y_nm

  forwarded :
      (sent : List (ℤ × List ℕ)) (to_fd : ℤ) (buf : List ℕ) (a b : Node)
      → Near a
      → Near b
      → Returns
          (λ r. (r.1 ≡ sent) ⊎ (r.1 ≡ (to_fd, buf) ∷ sent))
          (tun_forward accepts air sent to_fd buf a b)
  unfolding tun_forward
  forwarded sent to_fd buf a b near_a near_b =
      Returns-if (is_negative to_fd || length buf == 0) (λ bad. returns (inl refl))
        (λ fine.
          Returns-bind
            (radio_path-Reception air.grid cells air.range_nm a.x_nm a.y_nm b.x_nm b.y_nm ready.map
              near_a near_b)
            λ r heard. either r.0)
    where
      either :
          (heard : Bool)
          → Returns
              (λ (r : Bool × List (ℤ × List ℕ)). (r.1 ≡ sent) ⊎ (r.1 ≡ (to_fd, buf) ∷ sent))
              (ok (if heard then (accepts (length sent), (to_fd, buf) ∷ sent) else (false, sent)))
      either true = returns (inr refl)
      either false = returns (inl refl)

  module _ {F : Type 0} (Allowed : ℤ → Type 0) (buf : List ℕ) where
    pub fwd_counted-Turned :
        (s : Switch F) (fi ti : ℕ) (to_fd : ℤ) (a b : Node)
        → Near a
        → Near b
        → Allowed to_fd
        → Returns (Turned Allowed buf s) (fwd_counted accepts air s fi ti to_fd buf a b)
    unfolding fwd_counted
    fwd_counted-Turned s fi ti to_fd a b near_a near_b may =
        Returns-bind (forwarded s.sent to_fd buf a b near_a near_b) λ r grown.
          returns
            (record { sent = grows r.1 grown; slots = (counted r.0).0; drops = (counted r.0).1 })
      where
        grows :
            (sent : List (ℤ × List ℕ))
            → (sent ≡ s.sent) ⊎ (sent ≡ (to_fd, buf) ∷ s.sent)
            → Grown Allowed buf s.sent sent
        grows sent (inl e) = rw e no_more
        grows sent (inr e) = rw e (one_more to_fd may no_more)

        counted :
            (written : Bool)
            → ((if written then flow_fwd s.map fi ti (length buf) else flow_radio s.map fi ti).slot
                ≡ s.map.slot)
              × ((if written
                    then flow_fwd s.map fi ti (length buf)
                    else flow_radio s.map fi ti).drop
                  ≡ s.map.drop)
        counted true = fwd_kept s.map fi ti (length buf)
        counted false = radio_kept s.map fi ti

    pub send_shaped-Turned :
        (s : Switch F) (fi ti : ℕ) (twice : Bool) (to_fd : ℤ) (a b : Node)
        → Near a
        → Near b
        → Allowed to_fd
        → Returns (Turned Allowed buf s) (send_shaped accepts air s fi ti twice to_fd buf a b)
    unfolding send_shaped
    send_shaped-Turned s fi ti twice to_fd a b near_a near_b may =
        Returns-bind (fwd_counted-Turned s fi ti to_fd a b near_a near_b may) λ once first.
          Returns-if twice
            (λ _.
              Returns-map (fwd_counted-Turned once fi ti to_fd a b near_a near_b may)
                λ t second. Turned-trans Allowed buf first second)
            (λ _. returns first)
