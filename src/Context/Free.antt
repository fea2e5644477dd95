-- ===== src/Context/Free.antt =====
-- `context_free`: the payloads that it frees, and what it leaves.
use resonance.Prelude.{
  ℕ, ◌<◌, ◌≡◌, refl, none, some, List, [], Perm, length, Run, ok, ◌>>=◌, Returns, returns,
  Returns-bind,
}
use resonance.Heap.{Event, MinHeap}
use resonance.Heap.Drain.{drain, drain-InOrder}
use resonance.Nodes.{nodelist_free}
use resonance.World.{mediumgrid_free}
use resonance.Context.{Context}
use resonance.Context.Invariant.{QueueIsValid}

abbrev pub freed : Context → Context
freed ctx = record ctx {
  heap = none;
  nodes = nodelist_free ctx.nodes;
  grid = mediumgrid_free ctx.grid;
}

-- With the events whose payloads are freed, in order.
unfoldable pub context_free : ℕ → Context → Run (List Event × Context)
context_free k ctx = elim ctx.heap [
  | none ↦ ok ([], freed ctx)
  | some h ↦ drain k (some h) >>= λ gone. ok (gone, freed ctx)
]

-- `context_free` returns, with fuel for the size of the queue: it frees the payload of each queued
-- event once and of nothing else, and leaves no queue, no node and no map.
pub context_free-frees :
    (k : ℕ) (ctx : Context) (h : MinHeap)
    → QueueIsValid ctx h
    → length h.data_ < k
    → Returns
        (λ r.
          Perm r.0 h.data_
          × (r.1.heap ≡ none)
          × (r.1.nodes.data_ ≡ [])
          × (r.1.nodes.by_id ≡ [])
          × (r.1.grid.cells ≡ none))
        (context_free k ctx)
unfolding context_free nodelist_free mediumgrid_free
context_free-frees k ctx h v room =
    rw v.held
      (Returns-bind (drain-InOrder k h room v.heap) λ gone d. returns (d.1, refl, refl, refl, refl))
