-- ===== src/Udp/Binds.antt =====
-- The table of listeners: one for each node and port, the first to come, 16 at most.
use resonance.Prelude.{
  ℕ, ◌≤◌, ◌≡◌, ◌≢◌, ◌⊎◌, refl, inl, inr, Bool, true, false, ◌&&◌, ◌||◌, Option, none, some, List,
  [], ◌∷◌, ◌++◌, arith, leb, ◌==◌, if◌then◌else◌, length, length-append, Returns, returns,
  Returns-if, Bool-cases,
}
use resonance.Nodes.{Node}
use resonance.Nodes.Invariant.{IsValid, node_of, nodelist_find-node_of}
use resonance.Context.{Context, UdpBind, context_find_node}
use resonance.Udp.{udp_bind_max, bind_of, add_bind, udp_bind}

-- No entry holds a null callback.
abbrev pub AllSet : List UdpBind → Type 0
AllSet [] = Unit {0}
AllSet (b ∷ binds) = (b.cb ≢ 0) × AllSet binds

-- The table is no longer than its array, and holds no null callback.
pub record TableIsValid (binds : List UdpBind) : Type 0 where
  pub bounded : length binds ≤ udp_bind_max
  pub set : AllSet binds

-- Why `udp_bind` refuses.
pub data Refusal (ctx : Context) (node_id port cb : ℕ) : Type 0 where
  invalid : (cb ≡ 0) ⊎ (port ≡ 0) → Refusal ctx node_id port cb
  no_node : node_of ctx.nodes.data_ node_id ≡ none → Refusal ctx node_id port cb
  taken : bind_of ctx.udp_binds node_id port ≢ 0 → Refusal ctx node_id port cb
  full : udp_bind_max ≤ length ctx.udp_binds → Refusal ctx node_id port cb

-- The two ends of a bind: the callback listens on the port of a live node that had no listener
-- there, and every other port keeps its own; or nothing changes.
pub data Bound (ctx : Context) (node_id port cb : ℕ) : Bool × Context → Type 0 where
  listens :
      {binds : List UdpBind}
      → node_of ctx.nodes.data_ node_id ≢ none
      → bind_of ctx.udp_binds node_id port ≡ 0
      → TableIsValid binds
      → ((n p : ℕ)
          → bind_of binds n p
            ≡ (if node_id == n && port == p then cb else bind_of ctx.udp_binds n p))
      → Bound ctx node_id port cb (true, record ctx { udp_binds = binds })
  refused : Refusal ctx node_id port cb → Bound ctx node_id port cb (false, ctx)

bind_of-append :
    (binds : List UdpBind) (node_id port cb n p : ℕ)
    → AllSet binds
    → bind_of binds node_id port ≡ 0
    → bind_of (binds ++ record { node_id = node_id; port = port; cb = cb } ∷ []) n p
      ≡ (if node_id == n && port == p then cb else bind_of binds n p)
unfolding bind_of
bind_of-append [] node_id port cb n p set free = refl
bind_of-append (b ∷ binds) node_id port cb n p set free =
    ground (arith, set, bind_of-append binds node_id port cb n p set.1)

AllSet-append :
    (binds : List UdpBind) (b : UdpBind) → AllSet binds → b.cb ≢ 0 → AllSet (binds ++ b ∷ [])
AllSet-append [] b set h = (h, tt)
AllSet-append (a ∷ binds) b set h = (set.0, AllSet-append binds b set.1 h)

module _ (ctx : Context) (node_id port cb : ℕ) (table : TableIsValid ctx.udp_binds)
    (there : node_of ctx.nodes.data_ node_id ≢ none) (set : cb ≢ 0) where
  abbrev entry : UdpBind
  entry = record { node_id = node_id; port = port; cb = cb }

  add_bind-Bound : Bound ctx node_id port cb (add_bind ctx node_id port cb)
  unfolding add_bind
  add_bind-Bound = elim (Bool-cases (bind_of ctx.udp_binds node_id port == 0)) [
    | inr used ↦ rw used (refused (taken (ground arith)))
    | inl free ↦ elim (Bool-cases (leb udp_bind_max (length ctx.udp_binds))) [
      | inl no_room ↦ rw (free, no_room) (refused (full (ground arith)))
      | inr room ↦
          rw (free, room)
            (let unbound : bind_of ctx.udp_binds node_id port ≡ 0 = ground arith in
              listens there unbound
                (record {
                  bounded = ground (arith, length-append ctx.udp_binds (entry ∷ []));
                  set = AllSet-append ctx.udp_binds entry table.set set;
                })
                λ n p. bind_of-append ctx.udp_binds node_id port cb n p table.set unbound)
    ]
  ]

-- `udp_bind` on a valid table and node list always returns: it makes the callback the listener of
-- the live node's port, which had none, and of no other; or refuses and changes nothing, for an
-- invalid argument, a node that is not there, a port that is taken, or a full table.
pub udp_bind-Bound :
    (ctx : Context) (node_id port cb : ℕ)
    → TableIsValid ctx.udp_binds
    → IsValid ctx.nodes
    → Returns (Bound ctx node_id port cb) (udp_bind ctx node_id port cb)
unfolding udp_bind context_find_node
udp_bind-Bound ctx node_id port cb table nodes =
    Returns-if (cb == 0 || port == 0) (λ bad. returns (refused (invalid (ground arith))))
      (λ fine.
        rw (nodelist_find-node_of ctx.nodes node_id nodes)
          (returns (after (node_of ctx.nodes.data_ node_id) refl (ground arith))))
  where
    after :
        (o : Option Node)
        → node_of ctx.nodes.data_ node_id ≡ o
        → cb ≢ 0
        → Bound ctx node_id port cb
            (elim o [ none ↦ (false, ctx) | some _ ↦ add_bind ctx node_id port cb ])
    after none e set = refused (no_node e)
    after (some n) e set = add_bind-Bound ctx node_id port cb table (λ absent. cc) set
