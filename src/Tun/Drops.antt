-- ===== src/Tun/Drops.antt =====
-- The dropped edges: `tun_drop_set`, `tun_drop_clear` and `dhas` as a set of directed edges.
use mathlib.Core.List.{Pairwise, Pairwise-cons}
use mathlib.Core.Bool.{Bool-set}
use mathlib.Core.List.Perm
use resonance.Prelude.{
  ℕ, ◌<◌, ◌≤◌, ◌≡◌, refl, sym, ◌∙◌, Bool, true, false, ◌&&◌, ◌||◌, some, List, [], ◌∷◌, ◌++◌, Perm,
  arith, length, if◌then◌else◌, leb, leb→le, Bool-cases, Option-cases, inl, inr, length-append,
  length-perm, append-perm,
}
use resonance.Prelude.Int.{ℤ}
use resonance.Tun.{
  TunMap, TunDropEnt, tun_map_max, is_fd, is_negative, is_edge, any, index_of, remove_swap, dhas,
  add_drop, tun_drop_set, tun_drop_clear,
}
use resonance.Tun.Table.{
  index_of-some, index_of-none, remove_swap-perm, any-perm, any-false, any-append, any-miss,
  any-hit,
}

-- No edge is stored twice, and the table is no longer than its array.
pub record DropsAreValid (drops : List TunDropEnt) : Type 0 where
  pub bounded : length drops ≤ tun_map_max
  pub distinct : Pairwise (λ x y. is_edge x.from_fd x.to_fd y ≡ false) drops

-- The two ends: the edge is in the set exactly if it was asked for, and every other edge is as it
-- was; or nothing changes, for a bad descriptor or since the table is full.
pub data DropSet {F : Type 0} (m : TunMap F) (from to : ℤ) (drop : Bool) : TunMap F → Type 0 where
  stored :
      {drops : List TunDropEnt}
      → DropsAreValid drops
      → ((a b : ℤ)
          → dhas drops a b ≡ (if is_fd from a && is_fd to b then drop else dhas m.drop a b))
      → DropSet m from to drop (record m { drop = drops })
  bad_fd : is_negative from || is_negative to ≡ true → DropSet m from to drop m
  full :
      drop ≡ true
      → dhas m.drop from to ≡ false
      → length m.drop ≡ tun_map_max
      → DropSet m from to drop m

is_fd-eq : (a b : ℤ) → is_fd a b ≡ true → a ≡ b
is_fd-eq a b e = ground arith

is_fd-sym : (a b : ℤ) → is_fd a b ≡ is_fd b a
is_fd-sym a b = ground arith

edge-sym : (x y : TunDropEnt) → is_edge x.from_fd x.to_fd y ≡ is_edge y.from_fd y.to_fd x
edge-sym x y = rw (is_fd-sym y.from_fd x.from_fd, is_fd-sym y.to_fd x.to_fd) refl

-- An entry with the edge `from → to`.
module _ (from to : ℤ) (x : TunDropEnt) (is : is_edge from to x ≡ true) where
  is_from : x.from_fd ≡ from
  is_from = is_fd-eq x.from_fd from (ground arith)

  is_to : x.to_fd ≡ to
  is_to = is_fd-eq x.to_fd to (ground arith)

  module _ (drops rest : List TunDropEnt) (v : DropsAreValid drops)
      (same : Perm (x ∷ rest) drops) where
    apart : Pairwise (λ (y z : TunDropEnt). is_edge y.from_fd y.to_fd z ≡ false) (x ∷ rest)
    apart =
        Perm.pairwise (λ y z. Bool-set _ _) (λ y z h. edge-sym z y ∙ h) (Perm.symm same) v.distinct

    removed-IsValid : DropsAreValid rest
    removed-IsValid = record {
      bounded = omega (arith, length-perm same, v.bounded);
      distinct = (Pairwise-cons.0 apart).1;
    }

    gone : any (is_edge from to) rest ≡ false
    gone =
        any-false (is_edge from to) rest
          λ y m. rw (is_from, is_to) at ((Pairwise-cons.0 apart).0 y m)

    left_dhas :
        (a b : ℤ)
        → any (is_edge a b) rest
          ≡ (if is_fd from a && is_fd to b then false else any (is_edge a b) drops)
    left_dhas a b =
        let all = sym (any-perm (is_edge a b) same) in
        elim (Bool-cases (is_fd from a && is_fd to b)) [
          | inl hit ↦
              let ea : from ≡ a = is_fd-eq from a (ground arith) in
              let eb : to ≡ b = is_fd-eq to b (ground arith) in rw hit (rw (ea, eb) at gone)
          | inr miss ↦
              let other : is_edge a b x ≡ false = rw (is_from, is_to) miss in
              rw (miss, all, other) refl
        ]

-- What is said of the edge itself, said of all edges.
as_before :
    (drops : List TunDropEnt) (from to : ℤ) (has : Bool)
    → any (is_edge from to) drops ≡ has
    → (a b : ℤ)
    → any (is_edge a b) drops
      ≡ (if is_fd from a && is_fd to b then has else any (is_edge a b) drops)
as_before drops from to has e a b = elim (Bool-cases (is_fd from a && is_fd to b)) [
  | inl hit ↦
      let ea : from ≡ a = is_fd-eq from a (ground arith) in
      let eb : to ≡ b = is_fd-eq to b (ground arith) in rw hit (rw (ea, eb) at e)
  | inr miss ↦ rw miss refl
]

added_dhas :
    (drops : List TunDropEnt) (from to a b : ℤ)
    → any (is_edge a b) (drops ++ record { from_fd = from; to_fd = to } ∷ [])
      ≡ (if is_fd from a && is_fd to b then true else any (is_edge a b) drops)
added_dhas drops from to a b =
    rw (any-append (is_edge a b) drops (record { from_fd = from; to_fd = to })) (ground arith)

added-IsValid :
    (drops : List TunDropEnt) (from to : ℤ)
    → DropsAreValid drops
    → any (is_edge from to) drops ≡ false
    → length drops < tun_map_max
    → DropsAreValid (drops ++ record { from_fd = from; to_fd = to } ∷ [])
added-IsValid drops from to v absent room = record {
  bounded = omega (arith, length-append drops (record { from_fd = from; to_fd = to } ∷ []));
  distinct =
      Perm.pairwise (λ y z. Bool-set _ _) (λ y z h. edge-sym z y ∙ h)
        (Perm.symm (append-perm drops _))
        (Pairwise.cons (λ y m. any-miss (is_edge from to) drops absent y m) v.distinct);
}

-- `tun_drop_set` on a valid set of edges makes the edge dropped or not dropped, as asked, and
-- changes no other edge; or it changes nothing, for a negative descriptor, or since a new edge
-- has to be stored and the table is full.
pub tun_drop_set-DropSet :
    {F : Type 0} (m : TunMap F) (from to : ℤ) (drop : Bool)
    → DropsAreValid m.drop
    → DropSet m from to drop (tun_drop_set m from to drop)
unfolding tun_drop_set dhas
tun_drop_set-DropSet m from to drop v = elim (Bool-cases (is_negative from || is_negative to)) [
  | inl bad ↦ rw bad (bad_fd bad)
  | inr fine ↦ elim (Option-cases (index_of (is_edge from to) m.drop)) [
    | inl absent ↦ rw (fine, absent) (new_edge drop (index_of-none (is_edge from to) m.drop absent))
    | inr (i, found) ↦ rw (fine, found) (old_edge drop i found)
  ]
]
  where
    new_edge :
        (drop : Bool)
        → any (is_edge from to) m.drop ≡ false
        → DropSet m from to drop (if drop then record m { drop = add_drop m.drop from to } else m)
    new_edge false absent = stored {drops = m.drop} v (as_before m.drop from to false absent)
    new_edge true absent = elim (Bool-cases (leb tun_map_max (length m.drop))) [
      | inl no_room ↦ rw no_room (full refl absent (omega (arith, v.bounded, leb→le _ _ no_room)))
      | inr room ↦ rw room (
          stored (added-IsValid m.drop from to v absent (ground arith))
            λ a b. added_dhas m.drop from to a b)
    ]

    old_edge :
        (drop : Bool) (i : ℕ)
        → index_of (is_edge from to) m.drop ≡ some i
        → DropSet m from to drop (if drop then m else record m { drop = remove_swap m.drop i })
    old_edge true i found =
        let (x, there, is, inside) = index_of-some (is_edge from to) m.drop i found in
        stored {drops = m.drop} v
          (as_before m.drop from to true (any-hit (is_edge from to) m.drop i x there is))
    old_edge false i found =
        let (x, there, is, inside) = index_of-some (is_edge from to) m.drop i found in
        let same = remove_swap-perm m.drop i x there inside in
        stored (removed-IsValid from to x is m.drop (remove_swap m.drop i) v same)
          (left_dhas from to x is m.drop (remove_swap m.drop i) v same)

-- `tun_drop_clear` on a valid set of edges takes the edge out of the set, if it is there, and changes
-- no other edge, whatever its flag says; or changes nothing, for a negative descriptor.
pub tun_drop_clear-DropSet :
    {F : Type 0} (m : TunMap F) (from to : ℤ) (flag : Bool)
    → DropsAreValid m.drop
    → DropSet m from to false (tun_drop_clear m from to flag)
unfolding tun_drop_clear tun_drop_set
tun_drop_clear-DropSet m from to flag v = tun_drop_set-DropSet m from to false v
