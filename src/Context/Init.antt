-- ===== src/Context/Init.antt =====
-- `context_init`: what a new context is.
use resonance.Prelude.{
  ℕ, ◌*◌, ◌/◌, ◌≤◌, ◌≡◌, refl, inl, inr, Bool, some, [], arith, size_max, replicate, Option-cases,
}
use resonance.Prelude.Int.{pos}
use mathlib.Core.List.{Pairwise, not-mem-nil}
use resonance.Heap.{MinHeap, event_size, heap_create}
use resonance.Heap.Capacity.{heap_create-IsValid}
use resonance.Nodes.{NodeList, nodelist_init}
use resonance.Nodes.Invariant.{node_of}
use resonance.Nodes.Push.{nodelist_init-IsValid}
use resonance.World.{MediumGrid, air, mediumgrid_init}
use resonance.World.Cells.{IsMap, mediumgrid_init-IsMap}
use resonance.Udp.Binds.{TableIsValid}
use resonance.Context.{
  Context, context_init, fresh_context, default_cell_nm, default_grid_n, zeroed_grid,
}
use resonance.Context.Invariant.{QueueIsValid}
use resonance.Context.AddNode.{NodesAreValid}

-- A context in which every part satisfies its invariant.
pub record IsValid (ctx : Context) (h : MinHeap) : Type 0 where
  pub queue : QueueIsValid ctx h
  pub nodes : NodesAreValid ctx
  pub map : IsMap ctx.grid (replicate (default_grid_n * default_grid_n) air)
  pub table : TableIsValid ctx.udp_binds

context_init-parts :
    (heap_ok nodes_ok grid_ok : Bool) (heap_capacity seed : ℕ) {ctx : Context}
    → context_init heap_ok nodes_ok grid_ok heap_capacity seed ≡ some ctx
    → (h : MinHeap) × (l : NodeList) × (g : MediumGrid) × (heap_create heap_ok heap_capacity
        ≡ some h)
      × (nodelist_init nodes_ok 8 ≡ some l)
      × (mediumgrid_init grid_ok zeroed_grid
            (pos 0)
            (pos 0)
            default_cell_nm
            default_grid_n
            default_grid_n
            air
          ≡ some g)
      × (ctx ≡ fresh_context h l g seed)
unfolding context_init
context_init-parts heap_ok nodes_ok grid_ok heap_capacity seed e =
    elim (Option-cases (heap_create heap_ok heap_capacity)) [
      | inl failed ↦ absurd (ground (arith, failed))
      | inr (h, made_heap) ↦ elim (Option-cases (nodelist_init nodes_ok 8)) [
        | inl failed ↦ absurd (ground (arith, made_heap, failed))
        | inr (l, made_nodes) ↦
            elim (Option-cases (
              mediumgrid_init grid_ok zeroed_grid (pos 0) (pos 0) default_cell_nm default_grid_n
                default_grid_n air)) [
                  | inl failed ↦ absurd (ground (arith, made_heap, made_nodes, failed))
                  | inr (g, made_grid) ↦ (h, l, g, made_heap, made_nodes, made_grid, ground arith)
                ]
      ]
    ]

-- `context_init`, when it succeeds, gives a context in which every part satisfies its invariant,
-- at time 0, with no event, no node and no listener, and a map of air. The capacity of the queue
-- must be one whose size in bytes does not wrap.
pub context_init-IsValid :
    (heap_ok nodes_ok grid_ok : Bool) (heap_capacity seed : ℕ) {ctx : Context}
    → heap_capacity ≤ size_max / event_size
    → context_init heap_ok nodes_ok grid_ok heap_capacity seed ≡ some ctx
    → (h : MinHeap) × IsValid ctx h
      × (h.data_ ≡ [])
      × (ctx.nodes.data_ ≡ [])
      × (ctx.udp_binds ≡ [])
      × (ctx.clock ≡ 0)
unfolding node_of
context_init-IsValid heap_ok nodes_ok grid_ok heap_capacity seed {ctx} small e =
    let (h, l, g, made_heap, made_nodes, made_grid, same) =
      context_init-parts heap_ok nodes_ok grid_ok heap_capacity seed e in
    let (heap, no_event, _) = heap_create-IsValid heap_ok heap_capacity small made_heap in
    let (nodes, no_node) = nodelist_init-IsValid nodes_ok 8 (omega arith) made_nodes in
    let map =
      mediumgrid_init-IsMap grid_ok zeroed_grid (pos 0) (pos 0) default_cell_nm default_grid_n
        default_grid_n air (λ _. omega arith) made_grid in
    (
      h,
      rw same (record {
        queue = record {
          held = refl;
          heap = heap;
          due = λ t m. omega arith;
          numbered = λ t m. absurd (not-mem-nil (rw no_event at m));
          distinct = rw no_event Pairwise.nil;
        };
        nodes = record { list = nodes; fresh = λ k p. rw no_node refl };
        map = map;
        table = record { bounded = omega arith; set = tt };
      }),
      no_event,
      rw same no_node,
      rw same refl,
      rw same refl,
    )
