-- ===== src/Suite/Tree/Queries.antt =====
-- The queries of suite/parse.h on maps and lists as they are built.
use resonance.Prelude.{
  ℕ, zero, suc, ◌≡◌, refl, true, false, none, some, [], ◌∷◌, if◌then◌else◌, ◌==◌, arith, Bool-cases,
  inl, inr,
}
use resonance.Suite.{
  Bytes, SuiteNode, map, list, Entries, Items, no_entries, no_items, entry, item, same_bytes,
  add_entry, add_item, map_has,
}
use resonance.Suite.Tree.{find_entry, suite_map_find, suite_list_len, suite_list_at}

pub same_bytes-eq : (s t : Bytes) → same_bytes s t ≡ true → s ≡ t
same_bytes-eq [] [] e = refl
same_bytes-eq [] (b ∷ t) e = cc
same_bytes-eq (a ∷ s) [] e = cc
same_bytes-eq (a ∷ s) (b ∷ t) e =
    let head : a ≡ b = ground arith in
    let tail : same_bytes s t ≡ true = ground arith in rw (head, same_bytes-eq s t tail) refl

-- The entry that `map_put` adds is found under its key, and every other key as before.
pub suite_map_find-add_entry :
    (map_line : ℕ) (es : Entries) (key : Bytes) (line : ℕ) (value : SuiteNode) (wanted : Bytes)
    → map_has es key ≡ false
    → suite_map_find (some (map map_line (add_entry es key line value))) wanted ≡ (
        if same_bytes key wanted
        then some value
        else suite_map_find (some (map map_line es)) wanted)
unfolding suite_map_find
suite_map_find-add_entry map_line no_entries key line value wanted fresh = refl
suite_map_find-add_entry map_line (entry k l v es) key line value wanted fresh =
    let rest = suite_map_find-add_entry map_line es key line value wanted (ground arith) in
    elim (Bool-cases (same_bytes key wanted)) [
      | inr other ↦ ground (arith, rest)
      | inl same ↦
          let wanted_is : key ≡ wanted = same_bytes-eq key wanted same in
          let new : same_bytes k key ≡ false = ground arith in
          let apart : same_bytes k wanted ≡ false = rw wanted_is at new in ground (arith, rest)
    ]

find_entry-none : (es : Entries) (key : Bytes) → map_has es key ≡ false → find_entry es key ≡ none
find_entry-none no_entries key e = refl
find_entry-none (entry k l v es) key e = ground (arith, find_entry-none es key)

-- The item that `list_push` adds is the last one, and the others keep their places.
pub suite_list_at-add_item :
    (line : ℕ) (xs : Items) (x : SuiteNode) (idx : ℕ)
    → suite_list_at (some (list line (add_item xs x))) idx ≡ (
        if idx == suite_list_len (some (list line xs))
        then some x
        else suite_list_at (some (list line xs)) idx)
unfolding suite_list_at suite_list_len
suite_list_at-add_item line no_items x zero = refl
suite_list_at-add_item line no_items x (suc idx) = ground arith
suite_list_at-add_item line (item y xs) x zero = ground arith
suite_list_at-add_item line (item y xs) x (suc idx) =
    ground (arith, suite_list_at-add_item line xs x idx)
