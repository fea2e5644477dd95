-- ===== src/Suite/Blocks.antt =====
-- The blocks of suite/parse.c. A function that C code calls at `p->lines[p->pos]` takes that line
-- where the caller has read it. The functions below take the parser of the nested block,
-- `block`, as an argument, and `parse_block` passes itself on one level deeper.
pub mod Values
pub mod Sound
pub mod Quoted
use resonance.Prelude.{
  ℕ, zero, suc, ◌+◌, Bool, true, false, ◌&&◌, ◌||◌, Option, none, some, List, [], ◌∷◌,
  if◌then◌else◌, ltb, ◌==◌, length,
}
use resonance.Suite.{
  Bytes, Message, missing_value, block_scalar, directive, unexpected_question, unexpected_dash,
  reserved_character, duplicate_key, unexpected_indentation, too_deep, SuiteError, SuiteNode,
  Entries, Items, map, list, no_entries, no_items, node_line, Line, Cursor, Parsed, failed,
  out_of_fuel, Parser, pure, ◌>>=◌, ◌>>◌, fail, alloc, add_entry, add_item, entries_len, items_len,
  map_has, make_room,
}
use resonance.Suite.Text.{
  head_byte, is_quote, is_space, skip_quoted, skip_spaces, drop, key_end, is_dash, is_empty_list,
  parse_scalar, read_key,
}

-- `sizeof(SuiteEntry)`, and that of a pointer.
abbrev pub entry_size : ℕ
entry_size = 24

abbrev pub pointer_size : ℕ
pointer_size = 8

-- A map that grows, with the capacity of its block.
pub record MapSlots : Type 0 where
  pub items : Entries
  pub cap : ℕ

pub record ListSlots : Type 0 where
  pub items : Items
  pub cap : ℕ

-- The line at the cursor.
unfoldable pub peek : Parser (Option Line)
peek c = elim c.lines [ [] ↦ pure none c | ln ∷ lns ↦ pure (some ln) c ]

-- `p->pos++`
unfoldable pub next_line : Parser (Unit {0})
next_line c = elim c.lines [ [] ↦ pure tt c | ln ∷ lns ↦ pure tt (record c { lines = lns }) ]

-- Is a lone `c` at the start?
abbrev pub is_lone : ℕ → Bytes → Bool
is_lone c [] = false
is_lone c (d ∷ []) = d == c
is_lone c (d ∷ e ∷ cs) = d == c && is_space e

-- What a value must not start with.
abbrev pub value_bad : Bytes → Option Message
value_bad s =
    let f = head_byte s in
    if f == b'|' || f == b'>'
    then some block_scalar
    else if f == b'%'
    then some directive
    else if is_lone b'?' s
    then some unexpected_question
    else if is_lone b'-' s
    then some unexpected_dash
    else if f == b'@' || f == b'`'
    then some reserved_character
    else none

module _ (mem : ℕ → Bool) (block : Line → Parser SuiteNode) where
  -- A nested block behind a line with no value, if the next line is `deep` enough.
  unfoldable pub nested_value : Line → (Line → Bool) → Parser SuiteNode
  nested_value ln is_deep = do
    next ← peek
    elim next [
      | none ↦ fail ln.line (ln.indent + length ln.body + 1) missing_value
      | some nx ↦
          if is_deep nx
          then block nx
          else fail ln.line (ln.indent + length ln.body + 1) missing_value
    ]

  abbrev pub empty_list : (line col : ℕ) → Parser SuiteNode
  empty_list line col = alloc mem line col >> pure (list line no_items)

  -- `c` is the index past the colon.
  unfoldable pub parse_value : Line → (c indent : ℕ) → Bool → Parser SuiteNode
  parse_value ln c indent same =
      let (i, s) = skip_spaces c (drop c ln.body) in
      if length s == 0
      then nested_value ln
          (λ nx. ltb indent nx.indent || (same && nx.indent == indent && is_dash nx.body))
      else if is_empty_list s
      then empty_list ln.line (ln.indent + i + 1)
      else elim (value_bad s) [
        | some message ↦ fail ln.line (ln.indent + i + 1) message
        | none ↦ parse_scalar mem s ln.line (ln.indent + i + 1)
      ]

  -- `map_put` at line `line`; a failure is reported at `col`.
  unfoldable pub map_put : MapSlots → Bytes → (line col : ℕ) → SuiteNode → Parser MapSlots
  map_put slots key line col value = do
    cap ← make_room mem entry_size (entries_len slots.items) slots.cap line col
    pure (record { items = add_entry slots.items key line value; cap = cap })

  unfoldable pub list_push : ListSlots → SuiteNode → (line col : ℕ) → Parser ListSlots
  list_push slots x line col = do
    cap ← make_room mem pointer_size (items_len slots.items) slots.cap line col
    pure (record { items = add_item slots.items x; cap = cap })

  unfoldable pub parse_entry : MapSlots → Line → (indent : ℕ) → Parser MapSlots
  parse_entry slots ln indent = do
    next_line
    if is_lone b'?' ln.body then fail ln.line (ln.indent + 1) unexpected_question else (do
      (key, c) ← read_key mem ln 0 (ln.indent + length ln.body + 1) ln.body
      if map_has slots.items key then fail ln.line (ln.indent + 1) duplicate_key else (do
        value ← parse_value ln c indent true
        map_put slots key ln.line (ln.indent + 1) value))

  -- The end of a block: what follows must not be deeper.
  unfoldable pub check_dedent : (indent : ℕ) → Parser (Unit {0})
  check_dedent indent = do
    next ← peek
    elim next [
      | none ↦ pure tt
      | some ln ↦
          if ltb indent ln.indent
          then fail ln.line (ln.indent + 1) unexpected_indentation
          else pure tt
    ]

  -- A turn of the loop takes a line.
  unfoldable pub map_loop : ℕ → MapSlots → (indent : ℕ) → Parser MapSlots
  map_loop zero slots indent = λ c. out_of_fuel
  map_loop (suc n) slots indent = do
    next ← peek
    elim next [
      | none ↦ pure slots
      | some ln ↦
          if ln.indent == indent
          then (if is_dash ln.body
              then fail ln.line (indent + 1) unexpected_dash
              else parse_entry slots ln indent >>= λ more. map_loop n more indent)
          else pure slots
    ]

  unfoldable pub parse_map_body : MapSlots → (indent : ℕ) → Parser MapSlots
  parse_map_body slots indent c =
      (map_loop (length c.lines + 1) slots indent >>= λ whole. check_dedent indent >> pure whole) c

  -- `ln` is the line at the cursor.
  unfoldable pub parse_map : Line → Parser SuiteNode
  parse_map ln = do
    alloc mem ln.line (ln.indent + 1)
    slots ← parse_map_body (record { items = no_entries; cap = 0 }) ln.indent
    pure (map ln.line slots.items)

  -- The lines of a map that follow its first entry, behind a dash.
  unfoldable pub rest_of_inline : MapSlots → (indent : ℕ) → Parser MapSlots
  rest_of_inline slots indent = do
    next ← peek
    elim next [
      | none ↦ pure slots
      | some nx ↦ if ltb indent nx.indent then parse_map_body slots nx.indent else pure slots
    ]

  -- `s` is the body from `i` on.
  unfoldable pub parse_inline : Line → (i indent : ℕ) → Bytes → Parser SuiteNode
  parse_inline ln i indent s = do
    alloc mem ln.line (indent + 1)
    (key, after) ← read_key mem ln i (ln.indent + i + 1) s
    value ← parse_value ln after indent false
    slots ← map_put (record { items = no_entries; cap = 0 }) key ln.line (ln.indent + i + 1) value
    whole ← rest_of_inline slots indent
    pure (map ln.line whole.items)

  -- Does a key start here?
  unfoldable pub starts_key : Bytes → Bool
  starts_key s =
      if is_quote (head_byte s)
      then elim (skip_quoted s) [
        | none ↦ false
        | some close ↦ head_byte (skip_spaces close (drop close s)).1 == b':'
      ]
      else elim (key_end 0 s) [ none ↦ false | some ke ↦ true ]

  unfoldable pub parse_item : Line → (indent : ℕ) → Parser SuiteNode
  parse_item ln indent = do
    next_line
    let (i, s) = skip_spaces 1 (drop 1 ln.body)
    if length s == 0
        then nested_value ln (λ nx. ltb indent nx.indent)
        else if is_empty_list s
        then empty_list ln.line (ln.indent + i + 1)
        else if starts_key s
        then parse_inline ln i indent s
        else parse_scalar mem s ln.line (ln.indent + i + 1)

  unfoldable pub list_loop : ℕ → ListSlots → (indent : ℕ) → Parser ListSlots
  list_loop zero slots indent = λ c. out_of_fuel
  list_loop (suc n) slots indent = do
    next ← peek
    elim next [
      | none ↦ pure slots
      | some ln ↦
          if ln.indent == indent && is_dash ln.body
          then (do
            x ← parse_item ln indent
            more ← list_push slots x (node_line x) (indent + 1)
            list_loop n more indent)
          else pure slots
    ]

  unfoldable pub parse_list_body : (indent : ℕ) → Parser ListSlots
  parse_list_body indent c =
      (list_loop (length c.lines + 1) (record { items = no_items; cap = 0 }) indent >>= λ whole.
      check_dedent indent >> pure whole)
        c

  unfoldable pub parse_list : Line → Parser SuiteNode
  parse_list ln = do
    alloc mem ln.line (ln.indent + 1)
    slots ← parse_list_body ln.indent
    pure (list ln.line slots.items)

-- The first argument is the number of levels that `kMaxDepth` leaves.
unfoldable pub parse_block : (ℕ → Bool) → ℕ → Line → Parser SuiteNode
parse_block mem zero ln = fail ln.line (ln.indent + 1) too_deep
parse_block mem (suc levels) ln =
    if is_dash ln.body
    then parse_list mem (parse_block mem levels) ln
    else parse_map mem (parse_block mem levels) ln
