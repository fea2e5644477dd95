-- ===== src/Suite/Tests.antt =====
-- Runs of the reader of scenario files.
use resonance.Prelude.{ℕ, Bool, true, ◌≡◌, refl, some, [], ◌∷◌, arith}
use resonance.Prelude.Int.{negsuc}
use resonance.Suite.{
  Bytes, alloc, grown_slots, make_room, ok, failed, SuiteNode, Items, map, list, scalar, no_entries,
  no_items, entry, item, expected_colon,
}
use resonance.Suite.Text.{
  skip_double, skip_single, skip_quoted, decode_double, decode_single, decode, skip_spaces,
  check_plain, key_end, is_dash, is_empty_list, trim_spaces, quoted_body, check_tail, unquote,
  plain, scalar_text, parse_scalar, read_key,
}
use resonance.Suite.Text.Quotes.{Agree, skip_quoted-decode}
use resonance.Suite.Blocks.{
  peek, next_line, nested_value, parse_value, map_put, list_push, parse_entry, check_dedent,
  map_loop, parse_map_body, parse_map, rest_of_inline, parse_inline, starts_key, parse_item,
  list_loop, parse_list_body, parse_list, parse_block,
}
use resonance.Suite.Document.{
  scrub_byte, scrub_loop, trim_blanks, scrub_line, chomp, find_byte, all_blank, keep_line,
  take_body, take_line, split_lines, take_lines, nul_at, parse_lines, parse_all, suite_parse,
  count_lines,
}
use resonance.Suite.Document.Split.{Settled}
use resonance.Suite.Document.Sound.{suite_parse-Settled}
use resonance.Suite.Document.Written.{written, suite_parse-written}
use resonance.Suite.Trees.{IsTree}
use resonance.Suite.Tree.{suite_list_at, suite_scalar_int}
use resonance.Suite.Tree.Numbers.{suite_scalar_int-print_int}

-- Memory for every allocation.
abbrev enough : ℕ → Bool
enough n = true

-- a: 1 #c
-- (an empty line)
-- b:
-- - "\n"
-- - k: v
--   l: []
abbrev document : Bytes
document =
    b'a' ∷ b':' ∷ b' ' ∷ b'1' ∷ b' ' ∷ b'#' ∷ b'c' ∷ b'\n' ∷ b'\n' ∷ b'b' ∷ b':' ∷ b'\n' ∷ b'-'
    ∷ b' ' ∷ b'"' ∷ b'\\' ∷ b'n' ∷ b'"' ∷ b'\n' ∷ b'-' ∷ b' ' ∷ b'k' ∷ b':' ∷ b' ' ∷ b'v' ∷ b'\n'
    ∷ b' ' ∷ b' ' ∷ b'l' ∷ b':' ∷ b' ' ∷ b'[' ∷ b']' ∷ b'\r' ∷ b'\n' ∷ []

abbrev inner : SuiteNode
inner =
    map 5 (
      entry (b'k' ∷ []) 5 (scalar 5 (b'v' ∷ [])) (entry (b'l' ∷ []) 6 (list 6 no_items) no_entries))

abbrev tree : SuiteNode
tree =
    map 1
      (entry (b'a' ∷ []) 1 (scalar 1 (b'1' ∷ [])) (entry (b'b' ∷ []) 3 (list 4 items) no_entries))
  where
    items : Items
    items = item (scalar 4 (b'\n' ∷ [])) (item inner no_items)

suite_parse-document : suite_parse enough document ≡ ok tree
unfolding alloc grown_slots make_room skip_double skip_single skip_quoted decode_double
    decode_single decode skip_spaces check_plain key_end is_dash is_empty_list trim_spaces
    quoted_body check_tail unquote plain scalar_text parse_scalar read_key peek next_line
    nested_value parse_value map_put list_push parse_entry check_dedent map_loop parse_map_body
    parse_map rest_of_inline parse_inline starts_key parse_item list_loop parse_list_body parse_list
    parse_block scrub_byte scrub_loop trim_blanks scrub_line chomp find_byte all_blank keep_line
    take_body take_line split_lines take_lines nul_at parse_lines parse_all suite_parse
suite_parse-document = refl

-- The line a"b: "c\ has a key with a quote in it, and so a value whose quote is not closed: the decoder takes it for the text
-- c.
suite_parse_unclosed :
    suite_parse enough (b'a' ∷ b'"' ∷ b'b' ∷ b':' ∷ b' ' ∷ b'"' ∷ b'c' ∷ b'\\' ∷ [])
    ≡ ok (map 1 (entry (b'a' ∷ b'"' ∷ b'b' ∷ []) 1 (scalar 1 (b'c' ∷ [])) no_entries))
unfolding alloc grown_slots make_room skip_double skip_single skip_quoted decode_double
    decode_single decode skip_spaces check_plain key_end is_dash is_empty_list trim_spaces
    quoted_body check_tail unquote plain scalar_text parse_scalar read_key peek next_line
    nested_value parse_value map_put list_push parse_entry check_dedent map_loop parse_map_body
    parse_map rest_of_inline parse_inline starts_key parse_item list_loop parse_list_body parse_list
    parse_block scrub_byte scrub_loop trim_blanks scrub_line chomp find_byte all_blank keep_line
    take_body take_line split_lines take_lines nul_at parse_lines parse_all suite_parse
suite_parse_unclosed = refl

suite_parse_no_space :
    suite_parse enough (b'a' ∷ b':' ∷ b'1' ∷ b'\n' ∷ b'a' ∷ b':' ∷ b' ' ∷ b'2' ∷ [])
    ≡ failed (record { line = 1; col = 4; message = expected_colon })
unfolding alloc grown_slots make_room skip_double skip_single skip_quoted decode_double
    decode_single decode skip_spaces check_plain key_end is_dash is_empty_list trim_spaces
    quoted_body check_tail unquote plain scalar_text parse_scalar read_key peek next_line
    nested_value parse_value map_put list_push parse_entry check_dedent map_loop parse_map_body
    parse_map rest_of_inline parse_inline starts_key parse_item list_loop parse_list_body parse_list
    parse_block scrub_byte scrub_loop trim_blanks scrub_line chomp find_byte all_blank keep_line
    take_body take_line split_lines take_lines nul_at parse_lines parse_all suite_parse
suite_parse_no_space = refl

suite_parse-Settled_example :
    Settled (count_lines document) (IsTree (count_lines document)) (suite_parse enough document)
suite_parse-Settled_example = suite_parse-Settled enough document

-- The text "\ is written with both bytes escaped.
abbrev text : Bytes
text = b'"' ∷ b'\\' ∷ []

skip_quoted-decode_example :
    Agree (skip_quoted (b'"' ∷ b'a' ∷ b'"' ∷ [])) (decode (b'"' ∷ b'a' ∷ b'"' ∷ []))
skip_quoted-decode_example = skip_quoted-decode b'"' (b'a' ∷ b'"' ∷ []) (ground arith)

suite_list_at_second : suite_list_at (some (list 4 (item inner (item tree no_items)))) 1 ≡ some tree
unfolding suite_list_at
suite_list_at_second = refl

-- -120
abbrev minus_120 : Bytes
minus_120 = b'-' ∷ b'1' ∷ b'2' ∷ b'0' ∷ []

suite_scalar_int-print_int_example :
    suite_scalar_int (some (scalar 3 minus_120)) ≡ some (negsuc 119)
suite_scalar_int-print_int_example =
    suite_scalar_int-print_int 3 (negsuc 119) (omega arith, omega arith)

suite_parse-written_example :
    suite_parse enough (written text) ≡ ok (map 1 (entry (b'k' ∷ []) 1 (scalar 1 text) no_entries))
suite_parse-written_example = suite_parse-written text refl (omega arith)
