-- ===== src/Nodes/Tests.antt =====
-- Runs of the node list on small lists.
use resonance.Prelude.{
  ℕ, ◌^◌, ◌≡◌, refl, true, [], ◌∷◌, arith, size_max, ok, out_of_bounds, Returns,
}
use resonance.Prelude.Int.{pos}
use resonance.Nodes.{
  Node, NodeList, ensure_index_cap, double_until, fill_unused, reserve, place, place_grown,
  nodelist_push, nodelist_find, write_index, fill_gap, nodelist_remove_unordered,
  nodelist_remove_by_id,
}
use resonance.Nodes.Index.{ensure_index_cap_wraps}
use resonance.Nodes.Invariant.{IsValid, node_of, nodelist_find-node_of}
use resonance.Nodes.Push.{Pushed, nodelist_push-Pushed}
use resonance.Nodes.Remove.{RemovedById, nodelist_remove_by_id-RemovedById}

abbrev node : ℕ → Node
node id = record { id = id; x_nm = pos 5; y_nm = pos 7; vx_nm_per_ns = pos 0; vy_nm_per_ns = pos 0 }

-- Nodes 2 and 0 are live, 1 and 3 are not.
abbrev two : NodeList
two = record {
  data_ = node 2 ∷ node 0 ∷ [];
  cap = 2;
  slots = 2;
  by_id = 1 ∷ size_max ∷ 0 ∷ size_max ∷ [];
}

two-IsValid : IsValid two
two-IsValid = record {
  entry = λ i p. ground arith;
  live = λ k p. ground arith;
  bounded = omega arith;
  backed = omega arith;
  fits = omega arith;
}

push_grows :
    nodelist_push true true two (node 4)
    ≡ ok (
      true,
      record {
        data_ = node 2 ∷ node 0 ∷ node 4 ∷ [];
        cap = 4;
        slots = 4;
        by_id = 1 ∷ size_max ∷ 0 ∷ size_max ∷ 2 ∷ size_max ∷ size_max ∷ size_max ∷ [];
      },
    )
unfolding nodelist_push ensure_index_cap double_until fill_unused place_grown reserve place
push_grows = refl

remove_moves_the_last :
    nodelist_remove_by_id two 2
    ≡ ok (true, record two { data_ = node 0 ∷ []; by_id = 0 ∷ size_max ∷ size_max ∷ size_max ∷ [] })
unfolding nodelist_remove_by_id nodelist_remove_unordered write_index fill_gap
remove_moves_the_last = refl

nodelist_push-Pushed_example :
    Returns (Pushed true true two (node 4)) (nodelist_push true true two (node 4))
nodelist_push-Pushed_example = nodelist_push-Pushed true true two (node 4) two-IsValid (omega arith)

nodelist_remove_by_id-RemovedById_example :
    Returns (RemovedById two 2) (nodelist_remove_by_id two 2)
nodelist_remove_by_id-RemovedById_example = nodelist_remove_by_id-RemovedById two 2 two-IsValid

nodelist_find-node_of_example : nodelist_find two 0 ≡ ok (node_of two.data_ 0)
nodelist_find-node_of_example = nodelist_find-node_of two 0 two-IsValid

ensure_index_cap_wraps_example : ensure_index_cap true [] (2 ^ 61) ≡ out_of_bounds
ensure_index_cap_wraps_example =
    ensure_index_cap_wraps [] (2 ^ 61) (omega arith) (omega arith) (omega arith)
