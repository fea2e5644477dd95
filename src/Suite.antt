-- ===== src/Suite.antt =====
-- suite/parse.c and suite/parse.h: the reader of scenario files, a small block language of maps,
-- lists and scalars. A string is the list of its bytes, without the closing NUL. The first error
-- ends the parse, so it is the result. The outcomes of the allocations are `mem`, by their number.
pub mod Text
pub mod Blocks
pub mod Document
pub mod Tree
mod Tests
pub mod Samples
pub mod Ends
pub mod Trees
use resonance.Prelude.{
  ℕ, zero, suc, ◌+◌, ◌*◌, ◌/◌, ◌%◌, Bool, true, false, ◌&&◌, ◌||◌, Option, none, some, List, [],
  ◌∷◌, if◌then◌else◌, ltb, ◌==◌, length, size_max, u64_mod,
}

abbrev pub Bytes : Type 0
Bytes = List ℕ

-- The texts of `SuiteError`'s message.
pub data Message : Type 0 where
  unterminated_quote no_memory unknown_escape trailing_text flow_style anchor alias_ tag : Message
  reserved_character unexpected_colon missing_value block_scalar directive unexpected_question :
      Message
  unexpected_dash expected_colon empty_key duplicate_key unexpected_indentation too_deep : Message
  tab_not_allowed bad_character line_too_long bad_carriage_return tab_in_indentation : Message
  nul_byte inconsistent_indentation : Message

pub record SuiteError : Type 0 where
  pub line : ℕ
  pub col : ℕ
  pub message : Message

-- A node carries the number of its line; an entry its key and that of its line.
mutual
  pub data SuiteNode : Type 0 where
    map : ℕ → Entries → SuiteNode
    list : ℕ → Items → SuiteNode
    scalar : ℕ → Bytes → SuiteNode

  pub data Entries : Type 0 where
    no_entries : Entries
    entry : Bytes → ℕ → SuiteNode → Entries → Entries

  pub data Items : Type 0 where
    no_items : Items
    item : SuiteNode → Items → Items

abbrev pub node_line : SuiteNode → ℕ
node_line (map line es) = line
node_line (list line xs) = line
node_line (scalar line text) = line

pub record Line : Type 0 where
  pub body : Bytes
  pub line : ℕ
  pub indent : ℕ

-- The lines from `pos` on, and the number of allocations so far.
pub record Cursor : Type 0 where
  pub lines : List Line
  pub allocs : ℕ

-- A value, the error that is reported, or a loop past its fuel.
pub data Parsed {ℓ} (A : Type ℓ) : Type ℓ where
  ok : A → Parsed A
  failed : SuiteError → Parsed A
  out_of_fuel : Parsed A

abbrev pub after {ℓ κ} : {A : Type ℓ} {B : Type κ} → Parsed A → (A → Parsed B) → Parsed B
after (ok a) next = next a
after (failed e) next = failed e
after out_of_fuel next = out_of_fuel

abbrev pub Parser {ℓ} : Type ℓ → Type ℓ
Parser A = Cursor → Parsed (A × Cursor)

abbrev pub pure {ℓ} : {A : Type ℓ} → A → Parser A
pure a c = ok (a, c)

infixl 5 ◌>>=◌ ◌>>◌
abbrev pub and_then {ℓ κ} :
    {A : Type ℓ} {B : Type κ} → Parsed (A × Cursor) → (A → Parser B) → Parsed (B × Cursor)
and_then (ok (a, c)) next = next a c
and_then (failed e) next = failed e
and_then out_of_fuel next = out_of_fuel

abbrev pub ◌>>=◌ {ℓ κ} : {A : Type ℓ} {B : Type κ} → Parser A → (A → Parser B) → Parser B
p >>= next = λ c. and_then (p c) next

abbrev pub ◌>>◌ {ℓ κ} : {A : Type ℓ} {B : Type κ} → Parser A → Parser B → Parser B
p >> q = p >>= λ _. q

abbrev pub fail {ℓ} : {A : Type ℓ} → ℕ → ℕ → Message → Parser A
fail line col message c = failed (record { line = line; col = col; message = message })

-- An allocation; its failure is reported at a place of the source.
pub alloc : (ℕ → Bool) → ℕ → ℕ → Parser (Unit {0})
alloc mem line col c =
    if mem c.allocs
    then ok (tt, record c { allocs = c.allocs + 1 })
    else failed (record { line = line; col = col; message = no_memory })

abbrev pub same_bytes : Bytes → Bytes → Bool
same_bytes [] [] = true
same_bytes (a ∷ as') (b ∷ bs) = a == b && same_bytes as' bs
same_bytes _ _ = false

-- `map_put` and `list_push` once there is room.
abbrev pub add_entry : Entries → Bytes → ℕ → SuiteNode → Entries
add_entry no_entries key line value = entry key line value no_entries
add_entry (entry k l v es) key line value = entry k l v (add_entry es key line value)

abbrev pub add_item : Items → SuiteNode → Items
add_item no_items x = item x no_items
add_item (item y xs) x = item y (add_item xs x)

abbrev pub entries_len : Entries → ℕ
entries_len no_entries = 0
entries_len (entry k l v es) = suc (entries_len es)

abbrev pub items_len : Items → ℕ
items_len no_items = 0
items_len (item x xs) = suc (items_len xs)

abbrev pub map_has : Entries → Bytes → Bool
map_has no_entries key = false
map_has (entry k l v es) key = same_bytes k key || map_has es key

-- `map_grow` and `list_grow`, for slots of `size` bytes: the new capacity, or `none` if it is too
-- large. The `realloc` follows.
pub grown_slots : (size cap : ℕ) → Option ℕ
grown_slots size cap =
    let want = if cap == 0 then 4 else (cap * 2) % u64_mod in
    if ltb want cap then none else if ltb (size_max / size) want then none else some want

-- Room for one more of `len` slots: the capacity after that.
pub make_room : (ℕ → Bool) → (size len cap line col : ℕ) → Parser ℕ
make_room mem size len cap line col =
    if len == cap
    then elim (grown_slots size cap) [
      | none ↦ fail line col no_memory
      | some want ↦ alloc mem line col >> pure want
    ]
    else pure cap
