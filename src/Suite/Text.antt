-- ===== src/Suite/Text.antt =====
-- The scalars and keys of suite/parse.c: quotes, plain text, and what marks an item or a key. A
-- function on `s[i .. n)` takes the rest of the string and, where it returns or reports an
-- index, the index at which the rest starts.
pub mod Scalars
pub mod Quotes
use resonance.Prelude.{
  ℕ, zero, suc, ◌+◌, ◌-◌, Bool, true, false, ◌&&◌, ◌||◌, Option, none, some, List, [], ◌∷◌,
  if◌then◌else◌, ◌==◌, length, take,
}
use resonance.Suite.{
  Bytes, Message, unterminated_quote, unknown_escape, trailing_text, flow_style, anchor, alias_,
  tag, reserved_character, unexpected_colon, missing_value, expected_colon, empty_key, SuiteNode,
  scalar, Line, Parser, pure, ◌>>=◌, ◌>>◌, fail, alloc,
}

-- `skip_quoted` behind a double quote, with whether the byte before was a backslash: the index
-- past the closing quote.
unfoldable pub skip_double : Bool → ℕ → Bytes → Option ℕ
skip_double escaped j [] = none
skip_double true j (c ∷ cs) = skip_double false (j + 1) cs
skip_double false j (c ∷ cs) =
    let rest = skip_double (c == b'\\') (j + 1) cs in if c == b'"' then some (j + 1) else rest

-- The same behind a single quote, with whether the byte before was a quote that may be doubled.
unfoldable pub skip_single : Bool → ℕ → Bytes → Option ℕ
skip_single true j [] = some j
skip_single false j [] = none
skip_single true j (c ∷ cs) =
    let rest = skip_single false (j + 1) cs in if c == b'\'' then rest else some j
skip_single false j (c ∷ cs) = skip_single (c == b'\'') (j + 1) cs

abbrev pub head_byte : Bytes → ℕ
head_byte [] = 0
head_byte (c ∷ cs) = c

abbrev pub is_quote : ℕ → Bool
is_quote c = c == b'"' || c == b'\''

-- The quote is the first byte.
unfoldable pub skip_quoted : Bytes → Option ℕ
unfolding skip_double skip_single
skip_quoted [] = none
skip_quoted (q ∷ cs) = if q == b'"' then skip_double false 1 cs else skip_single false 1 cs

-- The decoded text with the index past the closing quote, or what is wrong.
pub data Quoted : Type 0 where
  closed : Bytes → ℕ → Quoted
  bad_escape : ℕ → Quoted
  open_ended : Quoted

abbrev pub push : ℕ → Quoted → Quoted
push c (closed text end) = closed (c ∷ text) end
push c q = q

abbrev pub unescape : ℕ → Option ℕ
unescape c =
    if c == b'n'
    then some b'\n'
    else if c == b't'
    then some b'\t'
    else if c == b'r'
    then some b'\r'
    else if c == b'\\' || c == b'"' || c == b'\''
    then some c
    else none

-- The loop on a double quote. A backslash that ends the string ends the loop as a quote does.
unfoldable pub decode_double : Bool → ℕ → Bytes → Quoted
decode_double true j [] = closed [] j
decode_double false j [] = open_ended
decode_double true j (c ∷ cs) =
    let rest = decode_double false (j + 1) cs in
    elim (unescape c) [ none ↦ bad_escape (j - 1) | some v ↦ push v rest ]
decode_double false j (c ∷ cs) =
    let rest = decode_double (c == b'\\') (j + 1) cs in
    if c == b'"' then closed [] (j + 1) else if c == b'\\' then rest else push c rest

unfoldable pub decode_single : Bool → ℕ → Bytes → Quoted
decode_single true j [] = closed [] j
decode_single false j [] = open_ended
decode_single true j (c ∷ cs) =
    let rest = decode_single false (j + 1) cs in if c == b'\'' then push c rest else closed [] j
decode_single false j (c ∷ cs) =
    let rest = decode_single (c == b'\'') (j + 1) cs in if c == b'\'' then rest else push c rest

-- `quoted_body` behind its allocation.
unfoldable pub decode : Bytes → Quoted
unfolding decode_double decode_single
decode [] = open_ended
decode (q ∷ cs) = if q == b'"' then decode_double false 1 cs else decode_single false 1 cs

abbrev pub is_space : ℕ → Bool
is_space c = c == b' '

-- The first byte that is no space, with what follows it.
unfoldable pub skip_spaces : ℕ → Bytes → ℕ × Bytes
skip_spaces i [] = (i, [])
skip_spaces i (c ∷ cs) =
    let rest = skip_spaces (i + 1) cs in if is_space c then rest else (i, c ∷ cs)

abbrev pub drop : ℕ → Bytes → Bytes
drop zero s = s
drop (suc n) [] = []
drop (suc n) (c ∷ cs) = drop n cs

-- What a plain scalar must not have at a place; `next` is what follows.
abbrev pub plain_bad : ℕ → Bytes → Option Message
plain_bad c next =
    if c == b'{' || c == b'}' || c == b'[' || c == b']'
    then some flow_style
    else if c == b'&'
    then some anchor
    else if c == b'*'
    then some alias_
    else if c == b'!'
    then some tag
    else if c == b'@' || c == b'`'
    then some reserved_character
    else if c == b':' && ends_key next
    then some unexpected_colon
    else none
  where
    ends_key : Bytes → Bool
    ends_key [] = true
    ends_key (d ∷ ds) = d == b' ' || d == b'\t'

-- The first such place.
unfoldable pub check_plain : ℕ → Bytes → Option (ℕ × Message)
check_plain i [] = none
check_plain i (c ∷ cs) =
    let rest = check_plain (i + 1) cs in
    elim (plain_bad c cs) [ some m ↦ some (i, m) | none ↦ rest ]

unfoldable pub key_end : ℕ → Bytes → Option ℕ
key_end i [] = none
key_end i (c ∷ cs) = let rest = key_end (i + 1) cs in if c == b':' && ends cs then some i else rest
  where
    ends : Bytes → Bool
    ends [] = true
    ends (d ∷ ds) = is_space d

unfoldable pub is_dash : Bytes → Bool
is_dash [] = false
is_dash (c ∷ []) = c == b'-'
is_dash (c ∷ d ∷ cs) = c == b'-' && is_space d

unfoldable pub is_empty_list : Bytes → Bool
is_empty_list [] = false
is_empty_list (c ∷ cs) = c == b'[' && closes (skip_spaces 0 cs).1
  where
    closes : Bytes → Bool
    closes [] = false
    closes (d ∷ ds) = d == b']' && ended (skip_spaces 0 ds).1
      where
        ended : Bytes → Bool
        ended [] = true
        ended (e ∷ es) = false

-- The loops that step back over spaces.
unfoldable pub trim_spaces : Bytes → Bytes
trim_spaces [] = []
trim_spaces (c ∷ cs) = elim (trim_spaces cs) [
  | [] ↦ if is_space c then [] else c ∷ []
  | d ∷ ds ↦ c ∷ d ∷ ds
]

module _ (mem : ℕ → Bool) where
  unfoldable pub quoted_body : Bytes → (line col : ℕ) → Parser (Bytes × ℕ)
  quoted_body [] line col = fail line col unterminated_quote
  quoted_body (q ∷ cs) line col = do
    alloc mem line col
    elim (decode (q ∷ cs)) [
      | closed text end ↦ pure (text, end)
      | bad_escape j ↦ fail line (col + j) unknown_escape
      | open_ended ↦ fail line col unterminated_quote
    ]

  -- Nothing but spaces may follow the quote.
  unfoldable pub check_tail : Bytes → (line col : ℕ) → ℕ → Parser (Unit {0})
  check_tail s line col end =
      let (k, rest) = skip_spaces end (drop end s) in
      elim rest [ [] ↦ pure tt | c ∷ cs ↦ fail line (col + k) trailing_text ]

  unfoldable pub unquote : Bytes → (line col : ℕ) → Parser Bytes
  unquote s line col = do (text, end) ← quoted_body s line col; check_tail s line col end; pure text

  unfoldable pub plain : Bytes → (line col : ℕ) → Parser Bytes
  plain s line col = elim (check_plain 0 s) [
    | some (i, message) ↦ fail line (col + i) message
    | none ↦ alloc mem line col >> pure s
  ]

  -- The text of a scalar, and the node.
  unfoldable pub scalar_text : Bytes → (line col : ℕ) → Parser Bytes
  scalar_text [] line col = fail line col missing_value
  scalar_text (c ∷ cs) line col =
      if is_quote c then unquote (c ∷ cs) line col else plain (c ∷ cs) line col

  unfoldable pub parse_scalar : Bytes → (line col : ℕ) → Parser SuiteNode
  parse_scalar s line col = do
    text ← scalar_text s line col
    alloc mem line col
    pure (scalar line text)

  -- A quoted key with what follows it but for spaces, and the index of that.
  abbrev pub quoted_key : Line → (i : ℕ) → Bytes → ℕ → Bytes → Parser (Bytes × ℕ)
  quoted_key ln i [] k rest = fail ln.line (ln.indent + i + 1) empty_key
  quoted_key ln i (c ∷ cs) k [] = fail ln.line (ln.indent + k + 1) expected_colon
  quoted_key ln i (c ∷ cs) k (d ∷ ds) =
      if d == b':' then pure (c ∷ cs, k + 1) else fail ln.line (ln.indent + k + 1) expected_colon

  -- A plain key in front of its colon, which is `ke` behind `i`.
  abbrev pub plain_key : Line → (i ke : ℕ) → Bytes → Parser (Bytes × ℕ)
  plain_key ln i ke [] = fail ln.line (ln.indent + i + 1) empty_key
  plain_key ln i ke (c ∷ cs) = do
    key ← plain (c ∷ cs) ln.line (ln.indent + i + 1)
    pure (key, i + ke + 1)

  -- The key at `i` in `parse_entry` and `parse_inline`, and the index past its colon. The two report a
  -- missing colon behind a plain key at different columns, `missing`.
  unfoldable pub read_key : Line → (i missing : ℕ) → Bytes → Parser (Bytes × ℕ)
  read_key ln i missing s =
      if is_quote (head_byte s)
      then (do
        (key, end) ← quoted_body s ln.line (ln.indent + i + 1)
        let (k, rest) = skip_spaces (i + end) (drop end s)
        quoted_key ln i key k rest)
      else elim (key_end 0 s) [
        | none ↦ fail ln.line missing expected_colon
        | some ke ↦ plain_key ln i ke (trim_spaces (take ke s))
      ]
