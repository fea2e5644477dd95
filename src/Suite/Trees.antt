-- ===== src/Suite/Trees.antt =====
-- Trees that a text of `total` lines can have: a map has no key twice and none that is empty.
use resonance.Prelude.{ℕ, ◌≤◌, ◌≡◌, refl, false, [], ◌∷◌, arith, length}
use resonance.Suite.{
  Bytes, SuiteNode, Entries, Items, no_entries, no_items, entry, item, add_entry, add_item, map_has,
  same_bytes, node_line,
}

mutual
  pub data IsTree (total : ℕ) : SuiteNode → Type 0 where
    is_map :
        {line : ℕ} {es : Entries}
        → 1 ≤ line
        → line ≤ total
        → AreEntries total es
        → IsTree total (SuiteNode.map line es)
    is_list :
        {line : ℕ} {xs : Items}
        → 1 ≤ line
        → line ≤ total
        → AreItems total xs
        → IsTree total (SuiteNode.list line xs)
    is_scalar :
        {line : ℕ} {text : Bytes}
        → 1 ≤ line
        → line ≤ total
        → IsTree total (SuiteNode.scalar line text)

  pub data AreEntries (total : ℕ) : Entries → Type 0 where
    none_left : AreEntries total no_entries
    another :
        {key : Bytes} {line : ℕ} {value : SuiteNode} {es : Entries}
        → map_has es key ≡ false
        → 1 ≤ length key
        → 1 ≤ line
        → line ≤ total
        → IsTree total value
        → AreEntries total es
        → AreEntries total (entry key line value es)

  pub data AreItems (total : ℕ) : Items → Type 0 where
    nothing_left : AreItems total no_items
    one_more :
        {x : SuiteNode} {xs : Items}
        → IsTree total x
        → AreItems total xs
        → AreItems total (item x xs)

pub node_line-IsTree :
    {total : ℕ} {x : SuiteNode} → IsTree total x → (1 ≤ node_line x) × (node_line x ≤ total)
node_line-IsTree (is_map low high es) = (low, high)
node_line-IsTree (is_list low high xs) = (low, high)
node_line-IsTree (is_scalar low high) = (low, high)

same_bytes_sym : (s t : Bytes) → same_bytes s t ≡ same_bytes t s
same_bytes_sym [] [] = refl
same_bytes_sym [] (b ∷ t) = refl
same_bytes_sym (a ∷ s) [] = refl
same_bytes_sym (a ∷ s) (b ∷ t) = rw (same_bytes_sym s t) (ground arith)

map_has-add_entry :
    (es : Entries) (key other : Bytes) (line : ℕ) (value : SuiteNode)
    → map_has es other ≡ false
    → same_bytes key other ≡ false
    → map_has (add_entry es key line value) other ≡ false
map_has-add_entry no_entries key other line value h apart = rw apart refl
map_has-add_entry (entry k l v es) key other line value h apart =
    ground (arith, map_has-add_entry es key other line value)

pub add_entry-AreEntries :
    {total : ℕ} {es : Entries} (key : Bytes) {line : ℕ} {value : SuiteNode}
    → AreEntries total es
    → map_has es key ≡ false
    → 1 ≤ length key
    → 1 ≤ line
    → line ≤ total
    → IsTree total value
    → AreEntries total (add_entry es key line value)
add_entry-AreEntries key none_left fresh filled low high tree =
    another refl filled low high tree none_left
add_entry-AreEntries {es = entry k l v es} key (another new full low_k high_k tree_v rest) fresh
      filled low high tree =
    let apart : same_bytes k key ≡ false = ground arith in
    let later : map_has es key ≡ false = ground arith in
    another (map_has-add_entry es key k _ _ new (rw (same_bytes_sym key k) apart)) full low_k high_k
      tree_v (add_entry-AreEntries key rest later filled low high tree)

pub add_item-AreItems :
    {total : ℕ} {xs : Items} {x : SuiteNode}
    → AreItems total xs
    → IsTree total x
    → AreItems total (add_item xs x)
add_item-AreItems nothing_left tree = one_more tree nothing_left
add_item-AreItems (one_more first rest) tree = one_more first (add_item-AreItems rest tree)
