-- ===== src/Suite/Blocks/Sound.antt =====
-- What the block parsers of suite/parse.c return.
use resonance.Prelude.{
  ℕ, zero, suc, ◌+◌, ◌-◌, ◌≤◌, ◌<◌, refl, inl, Bool, true, false, ◌&&◌, List, ◌∷◌, ◌==◌, ltb, arith,
  length,
}
use resonance.Suite.{Bytes, SuiteNode, Line, Cursor, Parser, map_has}
use resonance.Suite.Ends.{HasLines, Ends, ended, refused, Ends-if, Ends-bind, Ends-more, alloc-Ends}
use resonance.Suite.Trees.{IsTree, is_map, is_list, AreEntries, AreItems, none_left, nothing_left}
use resonance.Suite.Text.{skip_spaces, drop, is_dash, is_empty_list}
use resonance.Suite.Text.Scalars.{parse_scalar-Ends, read_key-Ends}
use resonance.Suite.Blocks.{
  MapSlots, ListSlots, next_line, is_lone, parse_entry, map_loop, parse_map_body, parse_map,
  rest_of_inline, parse_inline, starts_key, parse_item, list_loop, parse_list_body, parse_list,
  parse_block,
}
use resonance.Suite.Blocks.Values.{
  AtLine, peek-Ends, BlockEnds, check_dedent-Ends, nested_value-Ends, empty_list-Ends,
  parse_value-Ends, map_put-Ends, list_push-Ends,
}

module _ {total : ℕ} (mem : ℕ → Bool) (block : Line → Parser SuiteNode)
    (ends : BlockEnds total block) where
  parse_entry-Ends :
      {most : ℕ} (slots : MapSlots) (ln : Line) (lns : List Line) (allocs indent : ℕ)
      → AreEntries total slots.items
      → AtLine total most ln lns allocs
      → Ends total
          (most - 1)
          (λ more. AreEntries total more.items)
          (parse_entry mem block slots ln indent (record { lines = ln ∷ lns; allocs = allocs }))
  unfolding parse_entry next_line
  parse_entry-Ends slots ln lns allocs indent are at =
      Ends-if _ _ _ (is_lone b'?' ln.body) (λ _. refused (inl (at.low, at.high, omega arith)))
        λ _.
          Ends-bind (read_key-Ends mem ln 0 at.low at.high _ ln.body (omega arith) at.behind)
            λ key _ filled has.
              Ends-if _ _ _ (map_has slots.items key.0)
                (λ _. refused (inl (at.low, at.high, omega arith)))
                λ fresh.
                  Ends-bind
                    (parse_value-Ends mem block ends ln at.low at.high key.1 indent true has)
                    λ value _ tree has.
                      map_put-Ends mem block slots key.0 value at.low at.high (omega arith) are
                        fresh filled tree has

  map_loop-Ends :
      {most : ℕ} (n : ℕ) (slots : MapSlots) (indent : ℕ) {c : Cursor}
      → most < n
      → AreEntries total slots.items
      → HasLines total most c
      → Ends total most (λ more. AreEntries total more.items) (map_loop mem block n slots indent c)
  unfolding map_loop
  map_loop-Ends zero slots indent enough are has = absurd (omega arith)
  map_loop-Ends {most} (suc n) slots indent {c} enough are has =
      peek-Ends _ c has (ended are has) λ ln lns at.
        Ends-if _ _ _ (ln.indent == indent)
          (λ _.
            Ends-if _ _ _ (is_dash ln.body) (λ _. refused (inl (at.low, at.high, omega arith)))
              λ _.
                Ends-bind (parse_entry-Ends slots ln lns c.allocs indent are at) λ more _ are has.
                  Ends-more (omega arith) (
                    map_loop-Ends {most = most - 1} n more indent (omega (arith, at.some_left)) are
                      has))
          λ _. ended are at.here

  parse_map_body-Ends :
      {most : ℕ} (slots : MapSlots) (indent : ℕ) {c : Cursor}
      → AreEntries total slots.items
      → HasLines total most c
      → Ends total most
          (λ more. AreEntries total more.items)
          (parse_map_body mem block slots indent c)
  unfolding parse_map_body
  parse_map_body-Ends slots indent {c} are has =
      let exact : HasLines total (length c.lines) c = record {
        lines = has.lines;
        left = omega arith;
      } in
      Ends-more has.left (
        Ends-bind (map_loop-Ends (length c.lines + 1) slots indent (omega arith) are exact)
          λ whole _ are has.
            Ends-bind (check_dedent-Ends mem block indent has) λ _ _ _ has. ended are has)

  parse_map-Ends :
      (most : ℕ) (ln : Line) (lns : List Line) (allocs : ℕ)
      → AtLine total most ln lns allocs
      → Ends total most
          (IsTree total)
          (parse_map mem block ln (record { lines = ln ∷ lns; allocs = allocs }))
  unfolding parse_map
  parse_map-Ends most ln lns allocs at =
      Ends-bind (alloc-Ends mem at.low at.high (omega arith) at.here) λ _ _ _ has.
        Ends-bind (parse_map_body-Ends _ ln.indent none_left has)
          λ slots _ are has. ended (is_map at.low at.high are) has

  rest_of_inline-Ends :
      {most : ℕ} (slots : MapSlots) (indent : ℕ) {c : Cursor}
      → AreEntries total slots.items
      → HasLines total most c
      → Ends total most
          (λ more. AreEntries total more.items)
          (rest_of_inline mem block slots indent c)
  unfolding rest_of_inline
  rest_of_inline-Ends slots indent {c} are has = peek-Ends _ c has (ended are has) λ ln lns at.
      Ends-if _ _ _ (ltb indent ln.indent) (λ _. parse_map_body-Ends slots ln.indent are at.here)
        λ _. ended are at.here

  parse_inline-Ends :
      {most : ℕ} (ln : Line) (i indent : ℕ) (s : Bytes) {c : Cursor}
      → 1 ≤ ln.line
      → ln.line ≤ total
      → HasLines total most c
      → Ends total most (IsTree total) (parse_inline mem block ln i indent s c)
  unfolding parse_inline
  parse_inline-Ends ln i indent s low high has =
      Ends-bind (alloc-Ends mem low high (omega arith) has) λ _ _ _ has.
        Ends-bind (read_key-Ends mem ln i low high _ s (omega arith) has) λ key _ filled has.
          Ends-bind (parse_value-Ends mem block ends ln low high key.1 indent false has)
            λ value _ tree has.
              Ends-bind
                (map_put-Ends mem block _ key.0 value low high (omega arith) none_left refl filled
                  tree has)
                λ slots _ are has.
                  Ends-bind (rest_of_inline-Ends slots indent are has)
                    λ whole _ are has. ended (is_map low high are) has

  parse_item-Ends :
      {most : ℕ} (ln : Line) (lns : List Line) (allocs indent : ℕ)
      → AtLine total most ln lns allocs
      → Ends total
          (most - 1)
          (IsTree total)
          (parse_item mem block ln indent (record { lines = ln ∷ lns; allocs = allocs }))
  unfolding parse_item next_line
  parse_item-Ends ln lns allocs indent at =
      let (i, s) = skip_spaces 1 (drop 1 ln.body) in
      Ends-if _ _ _ (length s == 0)
        (λ _. nested_value-Ends mem block ends ln at.low at.high _ at.behind)
        λ _.
          Ends-if _ _ _ (is_empty_list s)
            (λ _. empty_list-Ends mem block ends ln at.low at.high _ (omega arith) at.behind)
            λ _.
              Ends-if _ _ _ (starts_key mem block s)
                (λ _. parse_inline-Ends ln i indent s at.low at.high at.behind)
                λ _. parse_scalar-Ends mem at.low at.high (omega arith) s at.behind

  list_loop-Ends :
      {most : ℕ} (n : ℕ) (slots : ListSlots) (indent : ℕ) {c : Cursor}
      → most < n
      → AreItems total slots.items
      → HasLines total most c
      → Ends total most (λ more. AreItems total more.items) (list_loop mem block n slots indent c)
  unfolding list_loop
  list_loop-Ends zero slots indent enough are has = absurd (omega arith)
  list_loop-Ends {most} (suc n) slots indent {c} enough are has =
      peek-Ends _ c has (ended are has) λ ln lns at.
        Ends-if _ _ _ (ln.indent == indent && is_dash ln.body)
          (λ _. Ends-bind (parse_item-Ends ln lns c.allocs indent at) λ x _ tree has.
            Ends-bind (list_push-Ends mem block slots x (omega arith) are tree has)
              λ more _ are has. Ends-more (omega arith) (
                list_loop-Ends {most = most - 1} n more indent (omega (arith, at.some_left)) are
                  has))
          λ _. ended are at.here

  parse_list-Ends :
      (most : ℕ) (ln : Line) (lns : List Line) (allocs : ℕ)
      → AtLine total most ln lns allocs
      → Ends total most
          (IsTree total)
          (parse_list mem block ln (record { lines = ln ∷ lns; allocs = allocs }))
  unfolding parse_list parse_list_body
  parse_list-Ends most ln lns allocs at =
      Ends-bind (alloc-Ends mem at.low at.high (omega arith) at.here) λ _ c _ has.
        let exact : HasLines total (length c.lines) c = record {
          lines = has.lines;
          left = omega arith;
        } in
        Ends-bind
          (Ends-more has.left (
            Ends-bind
              (list_loop-Ends (length c.lines + 1) _ ln.indent (omega arith) nothing_left exact)
              λ whole _ are has.
                Ends-bind (check_dedent-Ends mem block ln.indent has) λ _ _ _ has. ended are has))
          λ slots _ are has. ended (is_list at.low at.high are) has

pub parse_block-Ends :
    {total : ℕ} (mem : ℕ → Bool) (levels : ℕ) → BlockEnds total (parse_block mem levels)
unfolding parse_block
parse_block-Ends mem zero most ln lns allocs at = refused (inl (at.low, at.high, omega arith))
parse_block-Ends mem (suc levels) most ln lns allocs at =
    Ends-if _ _ _ (is_dash ln.body)
      (λ _.
        parse_list-Ends mem (parse_block mem levels) (parse_block-Ends mem levels) most ln lns
          allocs at)
      λ _.
        parse_map-Ends mem (parse_block mem levels) (parse_block-Ends mem levels) most ln lns allocs
          at
