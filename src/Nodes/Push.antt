-- ===== src/Nodes/Push.antt =====
-- `nodelist_push`: a new id is added to the map, and nothing else changes.
use resonance.Prelude.{
  ap, sym, ◌∙◌, ℕ, ◌*◌, ◌/◌, ◌^◌, ◌≤◌, ◌<◌, ◌≡◌, ◌≢◌, ◌⊎◌, refl, inl, inr, Bool, true, false,
  Option, none, some, List, [], ◌∷◌, ◌++◌, arith, ◌==◌, if◌then◌else◌, length, get_elem?, set,
  size_max, ok, ◌>>=◌, in_bounds, get_elem?-get_or, get_or-set, get_or-append, get_or-append_last,
  length-append, ℕ_discrete, Returns, returns, Returns-if, Returns-inv, Option-cases,
}
use resonance.Nodes.{
  Node, NodeList, node_size, reserve, place, place_grown, nodelist_push, nodelist_init,
}
use resonance.Nodes.Index.{slot, Ensured, ensure_index_cap-Ensured}
use resonance.Nodes.Invariant.{no_node, at, IsValid, node_of, node_of-directory}

-- Why a push is refused.
pub data Refusal (index_ok data_ok : Bool) (l : NodeList) (n : Node) : Type 0 where
  id_taken : node_of l.data_ n.id ≢ none → Refusal index_ok data_ok l n
  no_index : index_ok ≡ false → length l.by_id ≤ n.id → Refusal index_ok data_ok l n
  no_room :
      length l.data_ ≡ l.cap
      → (data_ok ≡ false) ⊎ (size_max / node_size < l.cap * 2)
      → Refusal index_ok data_ok l n

-- The two ends of a push: the list is valid, and the map has the new node under its id, which was
-- free; or the live nodes are what they were, for one of three reasons.
pub data Pushed (index_ok data_ok : Bool) (l : NodeList) (n : Node) : Bool × NodeList → Type 0 where
  added :
      {m : NodeList}
      → IsValid m
      → node_of l.data_ n.id ≡ none
      → ((k : ℕ) → node_of m.data_ k ≡ (if n.id == k then some n else node_of l.data_ k))
      → m.data_ ≡ l.data_ ++ n ∷ []
      → Pushed index_ok data_ok l n (true, m)
  refused :
      {m : NodeList}
      → IsValid m
      → m.data_ ≡ l.data_
      → Refusal index_ok data_ok l n
      → Pushed index_ok data_ok l n (false, m)

-- What `nodelist_init` returns is a valid list with no node, if as many nodes as asked for fit in
-- the address space.
pub nodelist_init-IsValid :
    (malloc_ok : Bool) (initial_cap : ℕ) {l : NodeList}
    → initial_cap ≤ size_max / node_size
    → nodelist_init malloc_ok initial_cap ≡ some l
    → IsValid l × (l.data_ ≡ [])
unfolding nodelist_init
nodelist_init-IsValid malloc_ok initial_cap b e = (
  record {
    entry = λ i p. ground arith;
    live = λ k p. ground arith;
    bounded = ground arith;
    backed = ground arith;
    fits = ground arith;
  },
  ground arith,
)

-- A grown directory serves the same list.
indexed-IsValid :
    (l : NodeList) (grown : List ℕ)
    → IsValid l
    → ((k : ℕ) → slot grown k ≡ slot l.by_id k)
    → IsValid (record l { by_id = grown })
indexed-IsValid l grown v same = record {
  entry = λ i p. same (at l.data_ i).id ∙ v.entry i p;
  live = λ k p. rw (same k) (v.live k λ e. p (same k ∙ e));
  bounded = v.bounded;
  backed = v.backed;
  fits = v.fits;
}

reserve-some :
    (data_ok : Bool) (l : NodeList) {m : NodeList}
    → IsValid l
    → reserve data_ok l ≡ some m
    → (m.data_ ≡ l.data_)
      × (m.by_id ≡ l.by_id)
      × (length l.data_ < m.cap)
      × (m.cap ≤ m.slots)
      × (m.cap ≤ size_max / node_size)
unfolding reserve
reserve-some data_ok l v e = ground arith

reserve-none :
    (data_ok : Bool) (l : NodeList)
    → IsValid l
    → reserve data_ok l ≡ none
    → (length l.data_ ≡ l.cap) × ((data_ok ≡ false) ⊎ (size_max / node_size < l.cap * 2))
unfolding reserve
reserve-none data_ok l v e = ground arith

module _ (l : NodeList) (n : Node) (v : IsValid l) (covers : n.id < length l.by_id)
    (free : slot l.by_id n.id ≡ size_max) where
  abbrev placed_index : List ℕ
  placed_index = set l.by_id n.id (length l.data_)

  abbrev placed_data : List Node
  placed_data = l.data_ ++ n ∷ []

  slot-placed :
      (k : ℕ) → slot placed_index k ≡ (if n.id == k then length l.data_ else slot l.by_id k)
  slot-placed k = get_or-set l.by_id n.id k (length l.data_) size_max covers

  at-placed : (i : ℕ) → i < length l.data_ → at placed_data i ≡ at l.data_ i
  at-placed i p = get_or-append l.data_ (n ∷ []) i no_node p

  placed-IsValid :
      (m : NodeList)
      → m.data_ ≡ placed_data
      → m.by_id ≡ placed_index
      → length l.data_ < m.cap
      → m.cap ≤ m.slots
      → m.cap ≤ size_max / node_size
      → IsValid m
  placed-IsValid m ed ei room backed fits =
      let size = length-append l.data_ (n ∷ []) in
      let last = get_or-append_last l.data_ n no_node in
      record {
        entry =
            rw (ed, ei)
              λ i p. elim (ℕ_discrete i (length l.data_)) [
                | yes e ↦ rw (e, last) (ground (arith, slot-placed n.id))
                | no ne ↦
                    let p' : i < length l.data_ = omega arith in
                    rw (at-placed i p')
                      (ground (arith, slot-placed (at l.data_ i).id, v.entry i p'))
              ];
        live =
            rw (ed, ei)
              λ k used. elim (ℕ_discrete n.id k) [
                | yes e ↦
                    let end : slot placed_index k ≡ length l.data_ =
                      ground (arith, slot-placed k) in
                    rw (end, last) (omega (arith, size), e)
                | no ne ↦
                    let kept : slot placed_index k ≡ slot l.by_id k =
                      ground (arith, slot-placed k) in
                    let (inside, named) = v.live k (λ u. used (kept ∙ u)) in
                    rw (kept, at-placed _ inside) (omega (arith, size), named)
              ];
        bounded = omega (arith, size, ap length ed);
        backed = backed;
        fits = fits;
      }

node_of-append :
    (ns : List Node) (n : Node) (k : ℕ)
    → node_of ns n.id ≡ none
    → node_of (ns ++ n ∷ []) k ≡ (if n.id == k then some n else node_of ns k)
unfolding node_of
node_of-append [] n k free = refl
node_of-append (x ∷ ns) n k free = ground (arith, node_of-append ns n k)

place-ok :
    (m : NodeList) (n : Node)
    → length m.data_ < m.slots
    → place m n
      ≡ ok (true, record m { data_ = m.data_ ++ n ∷ []; by_id = set m.by_id n.id (length m.data_) })
unfolding place
place-ok m n h = ground arith

module _ (data_ok : Bool) (l g : NodeList) (n : Node) (valid : IsValid g) (same : g.data_ ≡ l.data_)
    (room : l.cap ≡ g.cap) (covers : n.id < length g.by_id)
    (free : slot g.by_id n.id ≡ size_max) where
  place_grown-Pushed :
      (index_ok : Bool) → Returns (Pushed index_ok data_ok l n) (place_grown data_ok g n)
  unfolding place_grown
  place_grown-Pushed index_ok = elim (Option-cases (reserve data_ok g)) [
    | inl e ↦
        let why = reserve-none data_ok g valid e in
        rw (e, place_grown)
          (returns (
            refused valid same (no_room (ap length (sym same) ∙ why.0 ∙ sym room) (rw room why.1))))
    | inr (m, e) ↦
        let (kept, index, fits_in, backed, fits) = reserve-some data_ok g valid e in
        let absent : node_of g.data_ n.id ≡ none = node_of-directory g n.id valid ∙ ground arith in
        rw (e, place_grown, place-ok m n (omega (arith, ap length kept)))
          (returns (
            added
              (placed-IsValid g n valid covers free _ (ap (λ d. d ++ n ∷ []) kept)
                (rw (index, kept)) fits_in backed fits)
              (rw same at absent)
              (rw (kept, same) (λ k. node_of-append l.data_ n k (rw same at absent)))
              (ap (λ d. d ++ n ∷ []) (kept ∙ same))))
  ]

-- `nodelist_push` on a valid list, for an id below 2 ^ 60, always returns: it adds the node under
-- its id, which was free, or leaves the live nodes as they were, which happens only if the id is
-- taken, or an array had to grow and could not. The list stays valid.
pub nodelist_push-Pushed :
    (index_ok data_ok : Bool) (l : NodeList) (n : Node)
    → IsValid l
    → n.id < 2 ^ 60
    → Returns (Pushed index_ok data_ok l n) (nodelist_push index_ok data_ok l n)
unfolding nodelist_push Ensured
nodelist_push-Pushed index_ok data_ok l n v small =
    let (r, e, grown) = Returns-inv (ensure_index_cap-Ensured index_ok l.by_id n.id small) in
    rw (e, nodelist_push) (pushed_after r grown)
  where
    pushed_after :
        (r : Option (List ℕ))
        → Ensured index_ok l.by_id n.id r
        → Returns (Pushed index_ok data_ok l n) (elim r [
          | none ↦ ok (false, l)
          | some by_id ↦ in_bounds (get_elem? by_id n.id) >>= λ slot.
              if slot == size_max
              then place_grown data_ok (record l { by_id = by_id }) n
              else ok (false, record l { by_id = by_id })
        ])
    pushed_after none (failed, past) = returns (refused v refl (no_index failed past))
    pushed_after (some by_id) (covers, longer, agrees) =
        let valid = indexed-IsValid l by_id v agrees in
        rw (get_elem?-get_or by_id n.id size_max covers) (
          Returns-if (slot by_id n.id == size_max)
            (λ unused.
              place_grown-Pushed data_ok l (record l { by_id = by_id }) n valid refl refl covers
                (ground arith) index_ok)
            (λ used. returns (
              refused valid refl
                (id_taken λ e. ground (arith, node_of-directory l n.id v, agrees n.id)))))
