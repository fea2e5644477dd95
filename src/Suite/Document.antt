-- ===== src/Suite/Document.antt =====
-- Whole documents of suite/parse.c: a text is split into lines, those that count are kept, and
-- the blocks are read. The guards on null pointers are left out: every caller passes a text and a
-- place for the result. The lines are read before any block is, as in the C code.
pub mod Split
pub mod Sound
pub mod Written
use resonance.Prelude.{
  ℕ, zero, suc, ◌+◌, Bool, true, false, ◌&&◌, ◌||◌, Option, none, some, List, [], ◌∷◌,
  if◌then◌else◌, ltb, ◌==◌, length, take,
}
use resonance.Suite.{
  Bytes, Message, no_memory, unterminated_quote, tab_not_allowed, bad_character, line_too_long,
  bad_carriage_return, tab_in_indentation, directive, nul_byte, inconsistent_indentation,
  SuiteError, SuiteNode, map, no_entries, Line, Cursor, Parsed, ok, failed, out_of_fuel, after,
  Parser, pure, ◌>>=◌, ◌>>◌, fail, alloc,
}
use resonance.Suite.Text.{head_byte, is_quote, skip_quoted, skip_spaces, drop}
use resonance.Suite.Blocks.{parse_block}

abbrev pub max_depth : ℕ
max_depth = 64

abbrev pub max_line : ℕ
max_line = 8192

abbrev pub is_blank : ℕ → Bool
is_blank c = c == b' ' || c == b'\t'

-- A turn of the loop of `scrub_line`: it goes on after `count` bytes, the last of them `prev`;
-- or the line ends here; or it is refused.
pub data Scrub : Type 0 where
  go_on : (count prev : ℕ) → Scrub
  cut : Scrub
  refuse : Message → Scrub

-- `prev` is the byte before, a space at the start.
unfoldable pub scrub_byte : (prev c : ℕ) → Bytes → Scrub
scrub_byte prev c cs =
    if is_quote c
    then elim (skip_quoted (c ∷ cs)) [
      | none ↦ refuse unterminated_quote
      | some close ↦ go_on close c
    ]
    else if c == b'#' && is_blank prev
    then cut
    else if c == b'\t'
    then refuse tab_not_allowed
    else if ltb c 0x20
    then refuse bad_character
    else go_on 1 c

-- The loop: the length of the line without its comment. Each turn takes a byte at least.
unfoldable pub scrub_loop : ℕ → (line indent : ℕ) → (i prev : ℕ) → Bytes → Parsed ℕ
scrub_loop zero line indent i prev s = out_of_fuel
scrub_loop (suc n) line indent i prev [] = ok i
scrub_loop (suc n) line indent i prev (c ∷ cs) = elim (scrub_byte prev c cs) [
  | cut ↦ ok i
  | refuse message ↦ failed (record { line = line; col = indent + i + 1; message = message })
  | go_on count last ↦ scrub_loop n line indent (i + count) last (drop count (c ∷ cs))
]

unfoldable pub trim_blanks : Bytes → Bytes
trim_blanks [] = []
trim_blanks (c ∷ cs) = elim (trim_blanks cs) [
  | [] ↦ if is_blank c then [] else c ∷ []
  | d ∷ ds ↦ c ∷ d ∷ ds
]

unfoldable pub scrub_line : Bytes → (line indent : ℕ) → Parsed Bytes
scrub_line body line indent =
    after (scrub_loop (length body + 1) line indent 0 b' ' body)
      λ len. ok (trim_blanks (take len body))

abbrev refused {ℓ} : {A : Type ℓ} → ℕ → ℕ → Message → Parsed A
refused line col message = failed (record { line = line; col = col; message = message })

-- A return that ends the line is dropped.
unfoldable pub chomp : Bytes → Bytes
chomp [] = []
chomp (c ∷ cs) = let rest = chomp cs in if c == b'\r' && length cs == 0 then [] else c ∷ rest

unfoldable pub find_byte : ℕ → ℕ → Bytes → Option ℕ
find_byte b i [] = none
find_byte b i (c ∷ cs) = let rest = find_byte b (i + 1) cs in if c == b then some i else rest

unfoldable pub all_blank : Bytes → Bool
all_blank [] = true
all_blank (c ∷ cs) = is_blank c && all_blank cs

-- The end of `take_line`: a scrubbed body that is not empty is a line.
unfoldable pub keep_line : Bytes → (line indent : ℕ) → Parsed (Option Line)
keep_line [] line indent = ok none
keep_line (c ∷ cs) line indent =
    if c == b'%'
    then refused line (indent + 1) directive
    else ok (some (record { body = c ∷ cs; line = line; indent = indent }))

-- `body` is the line behind its indentation.
unfoldable pub take_body : Bytes → (line indent : ℕ) → Parsed (Option Line)
take_body body line indent =
    if head_byte body == b'\t'
    then refused line (indent + 1) tab_in_indentation
    else if all_blank body
    then ok none
    else if head_byte body == b'#'
    then ok none
    else after (scrub_line body line indent) λ kept. keep_line kept line indent

unfoldable pub take_line : Bytes → (line : ℕ) → Parsed (Option Line)
take_line raw line =
    if ltb max_line (length raw)
    then refused line 1 line_too_long
    else elim (find_byte b'\r' 0 (chomp raw)) [
      | some cr ↦ refused line (cr + 1) bad_carriage_return
      | none ↦ let (indent, body) = skip_spaces 0 (chomp raw) in take_body body line indent
    ]

-- The text up to the first newline, and the lines behind it.
unfoldable pub split_lines : Bytes → Bytes × List Bytes
split_lines [] = ([], [])
split_lines (c ∷ cs) =
    let (first, rest) = split_lines cs in
    if c == b'\n' then ([], first ∷ rest) else (c ∷ first, rest)

-- The loop over the raw lines, the first of which has the number `line`.
unfoldable pub take_lines : ℕ → List Bytes → Parsed (List Line)
take_lines line [] = ok []
take_lines line (raw ∷ raws) =
    let rest = take_lines (line + 1) raws in
    after (take_line raw line)
      λ kept. elim kept [ none ↦ rest | some ln ↦ after rest λ lns. ok (ln ∷ lns) ]

-- The number of lines, `max`.
unfoldable pub count_lines : Bytes → ℕ
count_lines [] = 1
count_lines (c ∷ cs) = let rest = count_lines cs in if c == b'\n' then suc rest else rest

-- Line and column of the first NUL byte.
unfoldable pub nul_at : (line col : ℕ) → Bytes → Option (ℕ × ℕ)
nul_at line col [] = none
nul_at line col (c ∷ cs) =
    let rest =
      nul_at (if c == b'\n' then line + 1 else line) (if c == b'\n' then 1 else col + 1) cs in
    if c == 0 then some (line, col) else rest

-- The root of the document that the lines make.
unfoldable pub parse_lines : (ℕ → Bool) → List Line → Parser SuiteNode
parse_lines mem [] = alloc mem 0 0 >> pure (map 1 no_entries)
parse_lines mem (ln ∷ lns) = parse_block mem max_depth ln >>= λ root c.
    (elim c.lines as (λ _. Parser SuiteNode) [
      | [] ↦ pure root
      | left ∷ more ↦ fail left.line (left.indent + 1) inconsistent_indentation
    ])
      c

-- The same with the allocation of the document.
unfoldable pub parse_all : (ℕ → Bool) → Parser SuiteNode
parse_all mem c = (parse_lines mem c.lines >>= λ root. alloc mem 0 0 >> pure root) c

-- The tree of the document, behind the allocations of the copy and of the lines.
unfoldable pub suite_parse : (ℕ → Bool) → Bytes → Parsed SuiteNode
suite_parse mem text = elim (nul_at 1 1 text) [
  | some (line, col) ↦ refused line col nul_byte
  | none ↦
      if mem 0 && mem 1
      then (let (first, rest) = split_lines text in
          after (take_lines 1 (first ∷ rest)) λ lines.
            after (parse_all mem (record { lines = lines; allocs = 2 })) λ parsed. ok parsed.0)
      else refused 0 0 no_memory
]
