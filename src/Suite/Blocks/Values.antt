-- ===== src/Suite/Blocks/Values.antt =====
-- What the parsers of values in suite/parse.c return, and what adds them to maps and lists.
use resonance.Prelude.{
  ℕ, ◌-◌, ◌≤◌, ◌≡◌, inl, Bool, false, Option, none, some, List, [], ◌∷◌, ◌==◌, ltb, arith, length,
}
use resonance.Suite.{Bytes, SuiteNode, node_line, Line, Cursor, Parser, ◌>>=◌, map_has}
use resonance.Suite.Ends.{
  AreLines, line, HasLines, Ends, ended, refused, Ends-if, Ends-option, Ends-bind, alloc-Ends,
  make_room-Ends,
}
use resonance.Suite.Trees.{
  IsTree, is_list, AreEntries, AreItems, nothing_left, add_entry-AreEntries, add_item-AreItems,
  node_line-IsTree,
}
use resonance.Suite.Text.{skip_spaces, drop, is_empty_list}
use resonance.Suite.Text.Scalars.{parse_scalar-Ends}
use resonance.Suite.Blocks.{
  entry_size, pointer_size, MapSlots, ListSlots, peek, value_bad, nested_value, empty_list,
  parse_value, map_put, list_push, check_dedent,
}

-- A line at the cursor, with what is left behind it.
pub record AtLine (total most : ℕ) (ln : Line) (lns : List Line) (allocs : ℕ) : Type 0 where
  pub low : 1 ≤ ln.line
  pub high : ln.line ≤ total
  pub filled : 1 ≤ length ln.body
  pub some_left : 1 ≤ most
  pub here : HasLines total most (record { lines = ln ∷ lns; allocs = allocs })
  pub behind : HasLines total (most - 1) (record { lines = lns; allocs = allocs })

pub at_line :
    {total most : ℕ} (ln : Line) (lns : List Line) (allocs : ℕ)
    → HasLines total most (record { lines = ln ∷ lns; allocs = allocs })
    → AtLine total most ln lns allocs
at_line {total} {most} ln lns allocs has = go has.lines
  where
    go : AreLines total (ln ∷ lns) → AtLine total most ln lns allocs
    go (line low high filled rest) = record {
      low = low;
      high = high;
      filled = filled;
      some_left = omega (arith, has.left);
      here = has;
      behind = record { lines = rest; left = omega (arith, has.left) };
    }

pub peek-Ends {ℓ κ} :
    {total most mid : ℕ} {A : Type ℓ} {P : A → Type κ} (next : Option Line → Parser A) (c : Cursor)
    → HasLines total most c
    → Ends total mid P (next none c)
    → ((ln : Line) (lns : List Line)
        → AtLine total most ln lns c.allocs
        → Ends total mid P (next (some ln) (record { lines = ln ∷ lns; allocs = c.allocs })))
    → Ends total mid P ((peek >>= next) c)
unfolding peek
peek-Ends {total} {most} {mid} {P = P} next c has on_none on_some = go c.lines has on_none
  where
    at_c : List Line → Cursor
    at_c lns = record { lines = lns; allocs = c.allocs }

    go :
        (lns : List Line)
        → HasLines total most (at_c lns)
        → Ends total mid P (next none (at_c lns))
        → Ends total mid P ((peek >>= next) (at_c lns))
    go [] has on_none = on_none
    go (ln ∷ lns) has on_none = on_some ln lns (at_line ln lns c.allocs has)

-- What is asked of the parser of the nested blocks.
abbrev pub BlockEnds : ℕ → (Line → Parser SuiteNode) → Type 0
BlockEnds total block =
    (most : ℕ) (ln : Line) (lns : List Line) (allocs : ℕ)
    → AtLine total most ln lns allocs
    → Ends total most (IsTree total) (block ln (record { lines = ln ∷ lns; allocs = allocs }))

module _ {total : ℕ} (mem : ℕ → Bool) (block : Line → Parser SuiteNode) where
  pub check_dedent-Ends :
      {most : ℕ} (indent : ℕ) {c : Cursor}
      → HasLines total most c
      → Ends total most (λ _. Unit {0}) (check_dedent mem block indent c)
  unfolding check_dedent
  check_dedent-Ends indent {c} has = peek-Ends _ c has (ended tt has) λ ln lns at.
      Ends-if _ _ _ (ltb indent ln.indent) (λ _. refused (inl (at.low, at.high, omega arith)))
        λ _. ended tt at.here

  module _ (ends : BlockEnds total block) {most : ℕ} (ln : Line) (low : 1 ≤ ln.line)
      (high : ln.line ≤ total) where
    pub nested_value-Ends :
        (is_deep : Line → Bool) {c : Cursor}
        → HasLines total most c
        → Ends total most (IsTree total) (nested_value mem block ln is_deep c)
    unfolding nested_value
    nested_value-Ends is_deep {c} has =
        peek-Ends _ c has (refused (inl (low, high, omega arith))) λ next lns at.
          Ends-if _ _ _ (is_deep next) (λ _. ends _ next lns c.allocs at)
            λ _. refused (inl (low, high, omega arith))

    pub empty_list-Ends :
        (col : ℕ) {c : Cursor}
        → 1 ≤ col
        → HasLines total most c
        → Ends total most (IsTree total) (empty_list mem block ln.line col c)
    empty_list-Ends col right has =
        Ends-bind (alloc-Ends mem low high right has)
          λ _ _ _ has. ended (is_list low high nothing_left) has

    pub parse_value-Ends :
        (i indent : ℕ) (same : Bool) {c : Cursor}
        → HasLines total most c
        → Ends total most (IsTree total) (parse_value mem block ln i indent same c)
    unfolding parse_value
    parse_value-Ends i indent same has =
        let s = (skip_spaces i (drop i ln.body)).1 in
        Ends-if _ _ _ (length s == 0) (λ _. nested_value-Ends _ has)
          λ _.
            Ends-if _ _ _ (is_empty_list s) (λ _. empty_list-Ends _ (omega arith) has)
              λ _.
                Ends-option _ _ _ (value_bad s)
                  (λ _. parse_scalar-Ends mem low high (omega arith) s has)
                  λ _ _. refused (inl (low, high, omega arith))

  pub map_put-Ends :
      {most line col : ℕ} (slots : MapSlots) (key : Bytes) (value : SuiteNode) {c : Cursor}
      → 1 ≤ line
      → line ≤ total
      → 1 ≤ col
      → AreEntries total slots.items
      → map_has slots.items key ≡ false
      → 1 ≤ length key
      → IsTree total value
      → HasLines total most c
      → Ends total most
          (λ more. AreEntries total more.items)
          (map_put mem block slots key line col value c)
  unfolding map_put
  map_put-Ends slots key value low high right are fresh filled tree has =
      Ends-bind (make_room-Ends mem entry_size _ slots.cap low high right has)
        λ _ _ _ has. ended (add_entry-AreEntries key are fresh filled low high tree) has

  pub list_push-Ends :
      {most col : ℕ} (slots : ListSlots) (x : SuiteNode) {c : Cursor}
      → 1 ≤ col
      → AreItems total slots.items
      → IsTree total x
      → HasLines total most c
      → Ends total most
          (λ more. AreItems total more.items)
          (list_push mem block slots x (node_line x) col c)
  unfolding list_push
  list_push-Ends slots x right are tree has =
      let (low, high) = node_line-IsTree tree in
      Ends-bind (make_room-Ends mem pointer_size _ slots.cap low high right has)
        λ _ _ _ has. ended (add_item-AreItems are tree) has
