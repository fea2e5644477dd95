-- ===== src/Nodes/Remove.antt =====
-- `nodelist_remove_by_id` and `nodelist_remove_unordered`: an id leaves the map, and nothing else
-- changes, though the last node moves into the gap.
use mathlib.Core.Path.{subst}
use resonance.Prelude.{
  ap, sym, ◌∙◌, ℕ, suc, ◌-◌, ◌<◌, ◌≡◌, ◌≢◌, refl, Bool, true, false, none, List, arith, ◌==◌,
  if◌then◌else◌, leb, length, set, take, size_max, ok, get_elem?-get_or, get_or-set, get_or-take,
  length-take, length-set, ℕ_discrete, dec_lt, Returns, returns, Returns-if, Returns-map,
}
use resonance.Nodes.{
  NodeList, write_index, fill_gap, nodelist_remove_unordered, nodelist_remove_by_id,
}
use resonance.Nodes.Index.{slot}
use resonance.Nodes.Invariant.{no_node, at, IsValid, node_of, node_of-directory, slot_unused}

-- The two stores once the node at `index` is gone and the last one has taken its place.
record Cut (l m : NodeList) (index last : ℕ) : Type 0 where
  size : suc last ≡ length l.data_
  there : index < suc last
  shorter : length m.data_ ≡ last
  reads : (j : ℕ) → j < last → at m.data_ j ≡ (if j == index then at l.data_ last else at l.data_ j)
  slots_of :
      (k : ℕ)
      → slot m.by_id k ≡ (
          if (at l.data_ index).id == k
          then size_max
          else if (at l.data_ last).id == k
          then index
          else slot l.by_id k)
  same_cap : m.cap ≡ l.cap
  same_block : m.slots ≡ l.slots

module _ (l m : NodeList) (index last : ℕ) (v : IsValid l) (c : Cut l m index last) where
  cut-entry : (j : ℕ) → j < last → slot m.by_id (at m.data_ j).id ≡ j
  cut-entry j p = elim (ℕ_discrete j index) [
    | yes e ↦
        let moved : at m.data_ j ≡ at l.data_ last = ground (arith, c.reads j p) in
        rw moved (
          ground (
            arith,
            c.slots_of (at l.data_ last).id,
            v.entry index (omega (arith, c.size, c.there)),
            v.entry last (omega (arith, c.size)),
            ap (slot l.by_id),
          ))
    | no n ↦
        let kept : at m.data_ j ≡ at l.data_ j = ground (arith, c.reads j p) in
        rw kept (
          ground (
            arith,
            c.slots_of (at l.data_ j).id,
            v.entry index (omega (arith, c.size, c.there)),
            v.entry last (omega (arith, c.size)),
            v.entry j (omega (arith, c.size)),
          ))
  ]

  cut-live :
      (k : ℕ)
      → slot m.by_id k ≢ size_max
      → (slot m.by_id k < length m.data_) × ((at m.data_ (slot m.by_id k)).id ≡ k)
  cut-live k used = ground (
    arith,
    c.slots_of k,
    c.size,
    c.there,
    c.shorter,
    c.reads index,
    c.reads (slot l.by_id k),
    v.live k,
    v.entry last (omega (arith, c.size)),
    v.entry index (omega (arith, c.size, c.there)),
  )

  cut-IsValid : IsValid m
  cut-IsValid = record {
    entry = λ j p. cut-entry j (omega (arith, c.shorter));
    live = cut-live;
    bounded = omega (arith, c.size, c.shorter, c.same_cap, v.bounded);
    backed = omega (arith, c.same_cap, c.same_block, v.backed);
    fits = omega (arith, c.same_cap, v.fits);
  }

  cut-node_of :
      (k : ℕ) → node_of m.data_ k ≡ (if (at l.data_ index).id == k then none else node_of l.data_ k)
  cut-node_of k =
      rw (node_of-directory m k cut-IsValid, node_of-directory l k v)
        (ground (
          arith,
          c.slots_of k,
          c.size,
          c.there,
          c.reads index,
          c.reads (slot l.by_id k),
          v.live k,
          v.entry last (omega (arith, c.size)),
          v.entry index (omega (arith, c.size, c.there)),
          v.bounded,
          v.fits,
        ))

-- The id has left the map, which is otherwise as it was; the list is valid and one shorter.
pub record Removed (l : NodeList) (id : ℕ) (m : NodeList) : Type 0 where
  pub valid : IsValid m
  pub others : (k : ℕ) → node_of m.data_ k ≡ (if id == k then none else node_of l.data_ k)
  pub shorter : suc (length m.data_) ≡ length l.data_
  pub same_cap : m.cap ≡ l.cap

Cut-Removed :
    (l m : NodeList) (index last : ℕ)
    → IsValid l
    → Cut l m index last
    → Removed l (at l.data_ index).id m
Cut-Removed l m index last v c = record {
  valid = cut-IsValid l m index last v c;
  others = cut-node_of l m index last v c;
  shorter = ap suc c.shorter ∙ c.size;
  same_cap = c.same_cap;
}

write_index-ok :
    (by_id : List ℕ) (id i : ℕ) → id < length by_id → write_index by_id id i ≡ ok (set by_id id i)
unfolding write_index
write_index-ok by_id id i h = ground arith

module _ (l : NodeList) (index last : ℕ) (v : IsValid l) (size : length l.data_ ≡ suc last)
    (there : index < suc last) where
  abbrev gone : ℕ
  gone = (at l.data_ index).id

  abbrev cleared : List ℕ
  cleared = set l.by_id gone size_max

  covered : (i : ℕ) → i < suc last → (at l.data_ i).id < length l.by_id
  covered i p = elim (dec_lt (at l.data_ i).id (length l.by_id)) [
    | yes h ↦ h
    | no h ↦ absurd (
        omega (
          arith,
          slot_unused l.by_id (at l.data_ i).id,
          v.entry i (omega arith),
          v.bounded,
          v.fits,
        ))
  ]

  at_end-Cut :
      index ≡ last → Cut l (record l { data_ = take last l.data_; by_id = cleared }) index last
  at_end-Cut e = record {
    size = sym size;
    there = there;
    shorter = omega (arith, length-take last l.data_);
    reads = λ j p. ground (arith, get_or-take last l.data_ j no_node);
    slots_of = λ k. ground (
      arith,
      get_or-set l.by_id gone k size_max size_max,
      covered index,
      ap (λ i. (at l.data_ i).id) e,
    );
    same_cap = refl;
    same_block = refl;
  }

  moved-Cut :
      index ≢ last
      → Cut l
          (record l {
            data_ = take last (set l.data_ index (at l.data_ last));
            by_id = set cleared (at l.data_ last).id index;
          })
          index
          last
  moved-Cut n = record {
    size = sym size;
    there = there;
    shorter = omega (
      arith,
      length-take last (set l.data_ index (at l.data_ last)),
      length-set l.data_ index (at l.data_ last),
    );
    reads = λ j p. ground (
      arith,
      get_or-take last (set l.data_ index (at l.data_ last)) j no_node,
      get_or-set l.data_ index j (at l.data_ last) no_node,
    );
    slots_of = λ k. ground (
      arith,
      get_or-set cleared (at l.data_ last).id k index size_max,
      get_or-set l.by_id gone k size_max size_max,
      length-set l.by_id gone size_max,
      covered index,
      covered last,
      v.entry index,
      v.entry last,
    );
    same_cap = refl;
    same_block = refl;
  }

  write_cleared-ok :
      write_index cleared (at l.data_ last).id index ≡ ok (set cleared (at l.data_ last).id index)
  write_cleared-ok =
      write_index-ok cleared _ index (omega (arith, covered last, length-set l.by_id gone size_max))

  fill_gap-Removed :
      Returns (λ r. (r.0 ≡ true) × Removed l gone r.1) (fill_gap l index last cleared)
  unfolding fill_gap
  fill_gap-Removed =
      Returns-if (index == last)
        (λ e. returns (refl, Cut-Removed l _ index last v (at_end-Cut (ground arith))))
        (λ n.
          rw (get_elem?-get_or l.data_ last no_node (omega arith), write_cleared-ok)
            (returns (refl, Cut-Removed l _ index last v (moved-Cut (ground arith)))))

-- `nodelist_remove_unordered` on a valid list, at an index of a live node, removes that node.
pub nodelist_remove_unordered-Removed :
    (l : NodeList) (index : ℕ)
    → IsValid l
    → index < length l.data_
    → Returns
        (λ r. (r.0 ≡ true) × Removed l (at l.data_ index).id r.1)
        (nodelist_remove_unordered l index)
unfolding nodelist_remove_unordered
nodelist_remove_unordered-Removed l index v there =
    let last = length l.data_ - 1 in
    let size : length l.data_ ≡ suc last = omega arith in
    Returns-if (leb (length l.data_) index) (λ past. absurd (ground arith))
      (λ _.
        let inside = covered l index last v size (omega arith) index (omega arith) in
        rw (get_elem?-get_or l.data_ index no_node there, write_index-ok l.by_id _ size_max inside)
          (fill_gap-Removed l index last v size (omega arith)))

-- The two ends of a removal by id.
pub data RemovedById (l : NodeList) (id : ℕ) : Bool × NodeList → Type 0 where
  removed : {m : NodeList} → node_of l.data_ id ≢ none → Removed l id m → RemovedById l id (true, m)
  absent : node_of l.data_ id ≡ none → RemovedById l id (false, l)

-- `nodelist_remove_by_id` on a valid list always returns: it takes the node with the id out of the
-- map and changes no other id, or leaves the list alone, exactly if no live node has the id.
pub nodelist_remove_by_id-RemovedById :
    (l : NodeList) (id : ℕ) → IsValid l → Returns (RemovedById l id) (nodelist_remove_by_id l id)
unfolding nodelist_remove_by_id
nodelist_remove_by_id-RemovedById l id v =
    let answer = node_of-directory l id v in
    Returns-if (leb (length l.by_id) id)
      (λ past. returns (absent (answer ∙ ground (arith, slot_unused l.by_id id))))
      (λ covers. rw (get_elem?-get_or l.by_id id size_max (ground arith)) (
        Returns-if (slot l.by_id id == size_max)
          (λ unused. returns (absent (answer ∙ ground arith)))
          (λ used.
            let (inside, named) = v.live id (ground arith) in
            Returns-map (nodelist_remove_unordered-Removed l (slot l.by_id id) v inside) λ r s.
              subst (λ b. RemovedById l id (b, r.1)) (sym s.0)
                (removed (λ e. ground (arith, answer)) (rw named at s.1)))))
