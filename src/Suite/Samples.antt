-- ===== src/Suite/Samples.antt =====
-- Two small scenarios, and what suite/parse.c reads of them.
use resonance.Prelude.{ℕ, ◌≡◌, refl, Bool, true, ◌++◌, codes}
use resonance.Suite.{
  Bytes, alloc, grown_slots, make_room, ok, SuiteNode, Items, map, list, scalar, no_entries,
  no_items, entry, item,
}
use resonance.Suite.Text.{
  skip_double, skip_single, skip_quoted, decode_double, decode_single, decode, skip_spaces,
  check_plain, key_end, is_dash, is_empty_list, trim_spaces, quoted_body, check_tail, unquote,
  plain, scalar_text, parse_scalar, read_key,
}
use resonance.Suite.Blocks.{
  peek, next_line, nested_value, parse_value, map_put, list_push, parse_entry, check_dedent,
  map_loop, parse_map_body, parse_map, rest_of_inline, parse_inline, starts_key, parse_item,
  list_loop, parse_list_body, parse_list, parse_block,
}
use resonance.Suite.Document.{
  scrub_byte, scrub_loop, trim_blanks, scrub_line, chomp, find_byte, all_blank, keep_line,
  take_body, take_line, split_lines, take_lines, nul_at, parse_lines, parse_all, suite_parse,
}

-- Memory for every allocation.
abbrev pub enough : ℕ → Bool
enough n = true

abbrev pub head : Bytes
head = codes "name: a\nversion: 1\nsut: s\nnodes: 1\ntimeout_s: 9\nphases:\n"

abbrev pub first_phase : Bytes
first_phase = codes "- name: p\n  until: x\n  timeout_s: 1\n"

abbrev pub second_phase : Bytes
second_phase = codes "- name: q\n  do:\n  - submit: y\n  until: x\n  timeout_s: 1\n"

abbrev pub long_scenario : Bytes
long_scenario = head ++ (first_phase ++ second_phase)

abbrev pub short_scenario : Bytes
short_scenario = head ++ first_phase

abbrev pub first_tree : SuiteNode
first_tree = map 7 (
    entry (codes "name") 7 (scalar 7 (codes "p")) (
      entry (codes "until") 8 (scalar 8 (codes "x"))
        (entry (codes "timeout_s") 9 (scalar 9 (codes "1")) no_entries)))

abbrev pub second_steps : SuiteNode
second_steps =
    list 12 (item (map 12 (entry (codes "submit") 12 (scalar 12 (codes "y")) no_entries)) no_items)

abbrev pub second_tree : SuiteNode
second_tree = map 10 (
    entry (codes "name") 10 (scalar 10 (codes "q")) (
      entry (codes "do") 11 second_steps (
        entry (codes "until") 13 (scalar 13 (codes "x"))
          (entry (codes "timeout_s") 14 (scalar 14 (codes "1")) no_entries))))

-- The document around its phases.
abbrev pub tree_of : Items → SuiteNode
tree_of phases = map 1 (
    entry (codes "name") 1 (scalar 1 (codes "a")) (
      entry (codes "version") 2 (scalar 2 (codes "1")) (
        entry (codes "sut") 3 (scalar 3 (codes "s")) (
          entry (codes "nodes") 4 (scalar 4 (codes "1")) (
            entry (codes "timeout_s") 5 (scalar 5 (codes "9"))
              (entry (codes "phases") 6 (list 7 phases) no_entries))))))

pub suite_parse-long :
    suite_parse enough long_scenario ≡ ok (tree_of (item first_tree (item second_tree no_items)))
unfolding alloc grown_slots make_room skip_double skip_single skip_quoted decode_double
    decode_single decode skip_spaces check_plain key_end is_dash is_empty_list trim_spaces
    quoted_body check_tail unquote plain scalar_text parse_scalar read_key peek next_line
    nested_value parse_value map_put list_push parse_entry check_dedent map_loop parse_map_body
    parse_map rest_of_inline parse_inline starts_key parse_item list_loop parse_list_body parse_list
    parse_block scrub_byte scrub_loop trim_blanks scrub_line chomp find_byte all_blank keep_line
    take_body take_line split_lines take_lines nul_at parse_lines parse_all suite_parse
suite_parse-long = refl

pub suite_parse-short : suite_parse enough short_scenario ≡ ok (tree_of (item first_tree no_items))
unfolding alloc grown_slots make_room skip_double skip_single skip_quoted decode_double
    decode_single decode skip_spaces check_plain key_end is_dash is_empty_list trim_spaces
    quoted_body check_tail unquote plain scalar_text parse_scalar read_key peek next_line
    nested_value parse_value map_put list_push parse_entry check_dedent map_loop parse_map_body
    parse_map rest_of_inline parse_inline starts_key parse_item list_loop parse_list_body parse_list
    parse_block scrub_byte scrub_loop trim_blanks scrub_line chomp find_byte all_blank keep_line
    take_body take_line split_lines take_lines nul_at parse_lines parse_all suite_parse
suite_parse-short = refl
