-- ===== src/Suite/Tree.antt =====
-- The queries of suite/parse.h on a parsed tree. A null node is `none`; the callers pass a key
-- and a place for the result. `strtoll` is the value of the digits, refused out of range; its
-- end is the end of the text, where only digits follow the sign.
pub mod Queries
pub mod Numbers
use resonance.Prelude.{
  ℕ, zero, suc, ◌+◌, ◌-◌, ◌*◌, ◌^◌, ◌<◌, ◌≤◌, ◌≡◌, refl, Bool, true, false, ◌&&◌, ◌||◌, Option,
  none, some, List, [], ◌∷◌, if◌then◌else◌, ltb, leb, ◌==◌, arith, Bool-cases, Option-cases, inl,
  inr,
}
use resonance.Prelude.Int.{ℤ, pos, negsuc, ◌≤ℤ◌}
use resonance.Suite.{
  Bytes, SuiteNode, map, list, scalar, Entries, Items, no_entries, no_items, entry, item,
  same_bytes, add_entry, add_item, items_len, map_has,
}

abbrev pub find_entry : Entries → Bytes → Option SuiteNode
find_entry no_entries key = none
find_entry (entry k line value es) key = if same_bytes k key then some value else find_entry es key

unfoldable pub suite_map_find : Option SuiteNode → Bytes → Option SuiteNode
suite_map_find none key = none
suite_map_find (some (map line es)) key = find_entry es key
suite_map_find (some (list line xs)) key = none
suite_map_find (some (scalar line text)) key = none

unfoldable pub suite_list_len : Option SuiteNode → ℕ
suite_list_len none = 0
suite_list_len (some (list line xs)) = items_len xs
suite_list_len (some (map line es)) = 0
suite_list_len (some (scalar line text)) = 0

abbrev pub item_at : Items → ℕ → Option SuiteNode
item_at no_items idx = none
item_at (item x xs) zero = some x
item_at (item x xs) (suc idx) = item_at xs idx

unfoldable pub suite_list_at : Option SuiteNode → ℕ → Option SuiteNode
suite_list_at none idx = none
suite_list_at (some (list line xs)) idx = if leb (items_len xs) idx then none else item_at xs idx
suite_list_at (some (map line es)) idx = none
suite_list_at (some (scalar line text)) idx = none

unfoldable pub suite_scalar_str : Option SuiteNode → Option Bytes
suite_scalar_str none = none
suite_scalar_str (some (scalar line text)) = some text
suite_scalar_str (some (map line es)) = none
suite_scalar_str (some (list line xs)) = none

abbrev pub is_digit : ℕ → Bool
is_digit c = leb b'0' c && leb c b'9'

abbrev pub all_digits : Bytes → Bool
all_digits [] = true
all_digits (c ∷ cs) = is_digit c && all_digits cs

-- The number that digits stand for, behind those that make `n`.
abbrev pub digits_value : ℕ → Bytes → ℕ
digits_value n [] = n
digits_value n (c ∷ cs) = digits_value (n * 10 + (c - b'0')) cs

abbrev pub negated : ℕ → ℤ
negated zero = pos 0
negated (suc n) = negsuc n

-- `strtoll` in base 10 on digits, with whether a minus stands before them: `none` is `ERANGE`.
pub strtoll : Bool → Bytes → Option ℤ
strtoll true s = if leb (digits_value 0 s) (2 ^ 63) then some (negated (digits_value 0 s)) else none
strtoll false s = if ltb (digits_value 0 s) (2 ^ 63) then some (pos (digits_value 0 s)) else none

-- The digits behind the sign.
abbrev pub read_digits : Bool → Bytes → Option ℤ
read_digits minus [] = none
read_digits minus (c ∷ cs) = if all_digits (c ∷ cs) then strtoll minus (c ∷ cs) else none

abbrev pub read_int : Bytes → Option ℤ
read_int [] = none
read_int (c ∷ cs) =
    if c == b'-'
    then read_digits true cs
    else if c == b'+'
    then read_digits false cs
    else read_digits false (c ∷ cs)

pub suite_scalar_int : Option SuiteNode → Option ℤ
suite_scalar_int none = none
suite_scalar_int (some (scalar line text)) = read_int text
suite_scalar_int (some (map line es)) = none
suite_scalar_int (some (list line xs)) = none
