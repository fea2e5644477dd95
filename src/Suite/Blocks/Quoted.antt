-- ===== src/Suite/Blocks/Quoted.antt =====
-- The block parsers of suite/parse.c on a line with the key k and a quoted value.
use resonance.Prelude.{ℕ, suc, ◌+◌, ◌≡◌, refl, true, false, [], ◌∷◌, ◌==◌, arith, length}
use resonance.Suite.{
  Parser, Bytes, Line, Cursor, ok, SuiteNode, map, scalar, entry, no_entries, alloc, make_room,
  grown_slots,
}
use resonance.Suite.Text.{
  scalar_text, read_key, plain, check_plain, key_end, trim_spaces, is_dash, is_empty_list,
  parse_scalar, skip_spaces,
}
use resonance.Suite.Blocks.{
  is_lone, parse_map, parse_map_body, map_loop, parse_entry, parse_value, map_put, check_dedent,
  peek, next_line,
}

is_lone-quote : (b : ℕ) (cs : Bytes) → (b'"' == b) ≡ false → is_lone b (b'"' ∷ cs) ≡ false
is_lone-quote b [] other = other
is_lone-quote b (c ∷ cs) other = rw other refl

-- The parse of the line, for a value `cs` behind its quote that is read as the text `s`.
module _ (s cs : Bytes)
    (reads : (c : Cursor)
      → scalar_text (λ n. true) (b'"' ∷ cs) 1 4 c
        ≡ ok (s, record c { allocs = c.allocs + 1 })) where
  abbrev whole_line : Line
  whole_line = record { body = b'k' ∷ b':' ∷ b' ' ∷ b'"' ∷ cs; line = 1; indent = 0 }

  module _ (block : Line → Parser SuiteNode) where
    parse_value-quoted :
        (c : Cursor)
        → parse_value (λ n. true) block whole_line 2 0 true c
          ≡ ok (scalar 1 s, record c { allocs = c.allocs + 1 + 1 })
    unfolding parse_value skip_spaces is_empty_list parse_scalar alloc
    parse_value-quoted c =
        let some_text : (suc (length cs) == 0) ≡ false = ground arith in
        rw (parse_value, some_text, is_lone-quote b'?' cs refl, parse_scalar, reads c) refl

    parse_entry-quoted :
        (n : ℕ)
        → parse_entry
            (λ n. true)
            block
            (record { items = no_entries; cap = 0 })
            whole_line
            0
            (record { lines = whole_line ∷ []; allocs = 3 })
          ≡ ok (
            record { items = entry (b'k' ∷ []) 1 (scalar 1 s) no_entries; cap = 4 },
            record { lines = []; allocs = 7 },
          )
    unfolding parse_entry next_line map_put make_room grown_slots read_key plain check_plain key_end
        trim_spaces alloc
    parse_entry-quoted n = rw (parse_value-quoted (record { lines = []; allocs = 4 })) refl

    pub parse_map-quoted :
        parse_map (λ n. true) block whole_line (record { lines = whole_line ∷ []; allocs = 2 })
        ≡ ok
            (map 1 (entry (b'k' ∷ []) 1 (scalar 1 s) no_entries), record { lines = []; allocs = 7 })
    unfolding parse_map parse_map_body map_loop check_dedent peek is_dash alloc
    parse_map-quoted = rw (parse_entry-quoted 0) refl
