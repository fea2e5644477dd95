-- ===== src/Nodes/Invariant.antt =====
-- The two stores of a node list agree; what a client sees of them is a finite map from ids.
use resonance.Prelude.{
  ap, sym, ◌∙◌, ℕ, zero, suc, ◌/◌, ◌≤◌, ◌<◌, ◌≡◌, ◌≢◌, refl, Option, none, some, List, [], ◌∷◌,
  arith, ◌==◌, if◌then◌else◌, length, get_or, size_max, ok, get_elem?-get_or, ℕ_discrete,
}
use resonance.Prelude.Int.{pos}
use resonance.Nodes.{Node, NodeList, node_size, nodelist_find}
use resonance.Nodes.Index.{slot}

-- The entry of a read whose bound is known; never seen by the code.
abbrev pub no_node : Node
no_node = record { id = 0; x_nm = pos 0; y_nm = pos 0; vx_nm_per_ns = pos 0; vy_nm_per_ns = pos 0 }

abbrev pub at : List Node → ℕ → Node
at data_ i = get_or data_ i no_node

-- Every live node is found through the directory, every entry leads to the live node of its id,
-- and the array fits its block, whose size does not wrap.
pub record IsValid (l : NodeList) : Type 0 where
  pub entry : (i : ℕ) → i < length l.data_ → slot l.by_id (at l.data_ i).id ≡ i
  pub live :
      (k : ℕ)
      → slot l.by_id k ≢ size_max
      → (slot l.by_id k < length l.data_) × ((at l.data_ (slot l.by_id k)).id ≡ k)
  pub bounded : length l.data_ ≤ l.cap
  pub backed : l.cap ≤ l.slots
  pub fits : l.cap ≤ size_max / node_size

-- The specification: the node of an id among the live nodes, by searching them all.
unfoldable pub node_of : List Node → ℕ → Option Node
node_of [] k = none
node_of (n ∷ ns) k = if n.id == k then some n else node_of ns k

pub node_of-none :
    (ns : List Node) (k : ℕ) → ((i : ℕ) → i < length ns → (at ns i).id ≢ k) → node_of ns k ≡ none
unfolding node_of
node_of-none [] k h = refl
node_of-none (n ∷ ns) k h = ground (arith, h 0, node_of-none ns k λ i p. h (suc i) (omega arith))

pub node_of-some :
    (ns : List Node) (i : ℕ)
    → i < length ns
    → ((j : ℕ) → j < length ns → (at ns j).id ≡ (at ns i).id → j ≡ i)
    → node_of ns (at ns i).id ≡ some (at ns i)
unfolding node_of
node_of-some [] i p h = absurd (omega arith)
node_of-some (n ∷ ns) zero p h = ground arith
node_of-some (n ∷ ns) (suc i) p h =
    ground (
      arith,
      h 0,
      node_of-some ns i (omega arith) λ j q e. omega (arith, h (suc j) (omega arith) e),
    )

-- The directory's answer.
abbrev pub by_directory : NodeList → ℕ → Option Node
by_directory l k = if slot l.by_id k == size_max then none else some (at l.data_ (slot l.by_id k))

pub slot_unused : (by_id : List ℕ) (k : ℕ) → length by_id ≤ k → slot by_id k ≡ size_max
slot_unused [] k h = refl
slot_unused (x ∷ by_id) zero h = absurd (omega arith)
slot_unused (x ∷ by_id) (suc k) h = slot_unused by_id k (omega arith)

pub node_of-directory : (l : NodeList) (k : ℕ) → IsValid l → node_of l.data_ k ≡ by_directory l k
node_of-directory l k v = elim (ℕ_discrete (slot l.by_id k) size_max) [
  | yes unused ↦
      let absent =
        node_of-none l.data_ k
          λ i p e. omega (arith, v.entry i p, ap (slot l.by_id) e, v.bounded, v.fits) in
      rw (absent, unused)
  | no used ↦
      let (room, named) = v.live k used in
      let unique =
        node_of-some l.data_ (slot l.by_id k) room
          λ j q e. sym (v.entry j q) ∙ ap (slot l.by_id) (e ∙ named) in
      rw named at unique ∙ ground arith
]

-- `nodelist_find` on a valid list returns the live node with the id, and nullptr if there is none.
pub nodelist_find-node_of :
    (l : NodeList) (k : ℕ) → IsValid l → nodelist_find l k ≡ ok (node_of l.data_ k)
unfolding nodelist_find
nodelist_find-node_of l k v = rw (node_of-directory l k v) (
    ground (
      arith,
      slot_unused l.by_id k,
      get_elem?-get_or l.by_id k size_max,
      get_elem?-get_or l.data_ (slot l.by_id k) no_node,
      v.live k,
    ))
