-- ===== src/Context/AddNode.antt =====
-- `context_add_node` and `context_remove_node`: ids are given out once, in order.
use resonance.Prelude.{
  ℕ, ◌+◌, ◌^◌, ◌≤◌, ◌<◌, ◌≡◌, ◌⊎◌, ◌∙◌, refl, inl, inr, Bool, false, Option, none, some, arith,
  ◌==◌, if◌then◌else◌, add64, size_max, ok, Returns, returns, Returns-bind, ◌*◌, ◌/◌,
}
use resonance.Prelude.Int.{ℤ}
use resonance.Nodes.{Node, NodeList, node_size}
use resonance.Nodes.Invariant.{IsValid, node_of}
use resonance.Nodes.Push.{
  Pushed, added, refused, Refusal, id_taken, no_index, no_room, nodelist_push-Pushed,
}
use resonance.Nodes.Remove.{RemovedById, removed, absent, nodelist_remove_by_id-RemovedById}
use resonance.Context.{Context, context_add_node, context_remove_node}

-- The node list is valid, and no id from `next_node_id` on has been given out.
pub record NodesAreValid (ctx : Context) : Type 0 where
  pub list : IsValid ctx.nodes
  pub fresh : (k : ℕ) → ctx.next_node_id ≤ k → node_of ctx.nodes.data_ k ≡ none

abbrev pub new_node : Context → (x_nm y_nm vx vy : ℤ) → Node
new_node ctx x_nm y_nm vx vy = record {
  id = ctx.next_node_id;
  x_nm = x_nm;
  y_nm = y_nm;
  vx_nm_per_ns = vx;
  vy_nm_per_ns = vy;
}

-- The two ends: the node is found under a new id and all others as before; or the live nodes are
-- as they were, since an array had to grow and could not.
pub data NodeAdded (index_ok data_ok : Bool) (ctx : Context) (n : Node)
    : Option ℕ × Context → Type 0 where
  node_added :
      {d : Context}
      → NodesAreValid d
      → ((k : ℕ)
          → node_of d.nodes.data_ k ≡ (if n.id == k then some n else node_of ctx.nodes.data_ k))
      → node_of ctx.nodes.data_ n.id ≡ none
      → d.next_node_id ≡ n.id + 1
      → NodeAdded index_ok data_ok ctx n (some n.id, d)
  not_added :
      {d : Context}
      → NodesAreValid d
      → d.nodes.data_ ≡ ctx.nodes.data_
      → (index_ok ≡ false) ⊎ (data_ok ≡ false) ⊎ (size_max / node_size < ctx.nodes.cap * 2)
      → d.next_node_id ≡ ctx.next_node_id
      → NodeAdded index_ok data_ok ctx n (none, d)

-- `context_add_node` with valid nodes always returns, while fewer than 2 ^ 60 ids have been given
-- out: the new node is found under a fresh id and the others as before, or the call fails for lack
-- of memory, never since the id is taken. The nodes stay valid.
pub context_add_node-NodeAdded :
    (index_ok data_ok : Bool) (ctx : Context) (x_nm y_nm vx vy : ℤ)
    → NodesAreValid ctx
    → ctx.next_node_id < 2 ^ 60
    → Returns
        (NodeAdded index_ok data_ok ctx (new_node ctx x_nm y_nm vx vy))
        (context_add_node index_ok data_ok ctx x_nm y_nm vx vy)
unfolding context_add_node
context_add_node-NodeAdded index_ok data_ok ctx x_nm y_nm vx vy v small =
    Returns-bind (nodelist_push-Pushed index_ok data_ok ctx.nodes n v.list small) λ r p. after r p
  where
    n : Node
    n = new_node ctx x_nm y_nm vx vy

    why :
        Refusal index_ok data_ok ctx.nodes n
        → (index_ok ≡ false) ⊎ (data_ok ≡ false) ⊎ (size_max / node_size < ctx.nodes.cap * 2)
    why (id_taken used) = absurd (used (v.fresh ctx.next_node_id (omega arith)))
    why (no_index failed past) = inl failed
    why (no_room filled reason) = inr reason

    after :
        (r : Bool × NodeList)
        → Pushed index_ok data_ok ctx.nodes n r
        → Returns (NodeAdded index_ok data_ok ctx n) (
            ok (
              if r.0
              then (some n.id, record ctx { nodes = r.1; next_node_id = add64 ctx.next_node_id 1 })
              else (none, record ctx { nodes = r.1 })))
    after _ (added {m} valid free map appended) = returns (
        node_added (record { list = valid; fresh = λ k h. map k ∙ ground (arith, v.fresh k) }) map
          free (omega arith))
    after _ (refused {m} valid same reason) = returns (
        not_added (record { list = valid; fresh = λ k h. rw same (v.fresh k h) }) same (why reason)
          refl)

-- `context_remove_node` with valid nodes always returns: the nodes stay valid, no live node has the
-- id any more, and no id is given back.
pub context_remove_node-NodesAreValid :
    (ctx : Context) (id : ℕ)
    → NodesAreValid ctx
    → Returns
        (λ r.
          NodesAreValid r.1
          × (node_of r.1.nodes.data_ id ≡ none)
          × (r.1.next_node_id ≡ ctx.next_node_id))
        (context_remove_node ctx id)
unfolding context_remove_node
context_remove_node-NodesAreValid ctx id v =
    Returns-bind (nodelist_remove_by_id-RemovedById ctx.nodes id v.list) λ r p. after r p
  where
    after :
        (r : Bool × NodeList)
        → RemovedById ctx.nodes id r
        → Returns
            (λ (s : Bool × Context).
              NodesAreValid s.1
              × (node_of s.1.nodes.data_ id ≡ none)
              × (s.1.next_node_id ≡ ctx.next_node_id))
            (ok (r.0, record ctx { nodes = r.1 }))
    after _ (removed {m} there cut) = returns (
      record { list = cut.valid; fresh = λ k h. cut.others k ∙ ground (arith, v.fresh k) },
      cut.others id ∙ ground arith,
      refl,
    )
    after _ (absent gone) = returns (record { list = v.list; fresh = v.fresh }, gone, refl)
