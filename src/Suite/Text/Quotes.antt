-- ===== src/Suite/Text/Quotes.antt =====
-- Quoted text of suite/parse.c: a writer of such text, and how its two readers agree.
use mathlib.Core.List.{append_assoc}
use resonance.Prelude.{
  length-append, ℕ, ◌+◌, ◌≡◌, ◌≢◌, refl, Bool, true, false, ◌||◌, Option, none, some, [], ◌∷◌, ◌++◌,
  if◌then◌else◌, ◌==◌, arith, length, Bool-cases, Option-cases, ==_iff, inl, inr,
}
use resonance.Suite.{Bytes}
use resonance.Suite.Text.{
  Quoted, closed, bad_escape, open_ended, push, unescape, skip_double, skip_single, skip_quoted,
  decode_double, decode_single, decode,
}

-- What stands for a byte between double quotes.
abbrev pub escape : ℕ → Bytes
escape c =
    if c == b'\n'
    then b'\\' ∷ b'n' ∷ []
    else if c == b'\t'
    then b'\\' ∷ b't' ∷ []
    else if c == b'\r'
    then b'\\' ∷ b'r' ∷ []
    else if c == b'\\' || c == b'"'
    then b'\\' ∷ c ∷ []
    else c ∷ []

abbrev pub escaped : Bytes → Bytes
escaped [] = []
escaped (c ∷ cs) = escape c ++ escaped cs

abbrev pub quoted : Bytes → Bytes → Bytes
quoted s rest = b'"' ∷ escaped s ++ b'"' ∷ rest

decode_double-escape :
    (j c : ℕ) (s : Bytes)
    → decode_double false j (escape c ++ s) ≡ push c (decode_double false (j + length (escape c)) s)
unfolding decode_double
decode_double-escape j c s = elim (Bool-cases (c == b'\n')) [
  | inl e ↦ rw ((==_iff c b'\n').0 e) (ground arith)
  | inr no_newline ↦ elim (Bool-cases (c == b'\t')) [
    | inl e ↦ rw ((==_iff c b'\t').0 e) (ground arith)
    | inr no_tab ↦ elim (Bool-cases (c == b'\r')) [
      | inl e ↦ rw ((==_iff c b'\r').0 e) (ground arith)
      | inr no_return ↦ elim (Bool-cases (c == b'\\')) [
        | inl e ↦ rw ((==_iff c b'\\').0 e) (ground arith)
        | inr no_backslash ↦ elim (Bool-cases (c == b'"')) [
          | inl e ↦ rw ((==_iff c b'"').0 e) (ground arith)
          | inr no_quote ↦ rw (no_newline, no_tab, no_return, no_backslash, no_quote) (ground arith)
        ]
      ]
    ]
  ]
]

decode_double-escaped :
    (j : ℕ) (s rest : Bytes)
    → decode_double false j (escaped s ++ b'"' ∷ rest) ≡ closed s (j + length (escaped s) + 1)
decode_double-escaped j [] rest = unfold decode_double in ground arith
decode_double-escaped j (c ∷ cs) rest =
    rw
      (
        append_assoc (escape c) (escaped cs) (b'"' ∷ rest),
        decode_double-escape j c (escaped cs ++ b'"' ∷ rest),
        decode_double-escaped (j + length (escape c)) cs rest,
        length-append (escape c) (escaped cs),
      )
      (ground arith)

-- Text between double quotes, escaped, is read back, and `rest` is left.
pub decode-quoted : (s rest : Bytes) → decode (quoted s rest) ≡ closed s (length (escaped s) + 2)
unfolding decode
decode-quoted s rest = ground (arith, decode_double-escaped 1 s rest)

-- The index past the closing quote is the one that the decoder reports, unless an escape is bad.
pub data Agree : Option ℕ → Quoted → Type 0 where
  both : {text : Bytes} {end : ℕ} → Agree (some end) (closed text end)
  unknown : {found : Option ℕ} {j : ℕ} → Agree found (bad_escape j)
  neither : Agree none open_ended

push-Agree : {found : Option ℕ} {q : Quoted} (c : ℕ) → Agree found q → Agree found (push c q)
push-Agree c both = both
push-Agree c unknown = unknown
push-Agree c neither = neither

-- The last byte, or `c` if there is none.
abbrev pub last_byte : ℕ → Bytes → ℕ
last_byte c [] = c
last_byte c (d ∷ ds) = last_byte d ds

double-Agree :
    (lone : Bool) (j before : ℕ) (s : Bytes)
    → last_byte before s ≢ b'\\'
    → (lone ≡ true → before ≡ b'\\')
    → Agree (skip_double lone j s) (decode_double lone j s)
unfolding skip_double decode_double
double-Agree true j before [] whole is_lone = absurd (whole (is_lone refl))
double-Agree false j before [] whole is_lone = neither
double-Agree true j before (c ∷ cs) whole is_lone =
    let rest = double-Agree false (j + 1) c cs whole λ e. absurd (cc) in
    elim (Option-cases (unescape c)) [
      | inl e ↦ rw (e, decode_double) unknown
      | inr (v, e) ↦ rw (e, decode_double) (push-Agree v rest)
    ]
double-Agree false j before (c ∷ cs) whole is_lone =
    let rest = double-Agree (c == b'\\') (j + 1) c cs whole λ e. (==_iff c b'\\').0 e in
    elim (Bool-cases (c == b'"')) [
      | inl e ↦ rw e both
      | inr no_quote ↦ elim (Bool-cases (c == b'\\')) [
        | inl e ↦ rw (no_quote, e) (rw e at rest)
        | inr no_escape ↦ rw (no_quote, no_escape) (push-Agree c (rw no_escape at rest))
      ]
    ]

single-Agree :
    (doubled : Bool) (j : ℕ) (s : Bytes)
    → Agree (skip_single doubled j s) (decode_single doubled j s)
unfolding skip_single decode_single
single-Agree true j [] = both
single-Agree false j [] = neither
single-Agree true j (c ∷ cs) = elim (Bool-cases (c == b'\'')) [
  | inl e ↦ rw e (push-Agree c (single-Agree false (j + 1) cs))
  | inr e ↦ rw e both
]
single-Agree false j (c ∷ cs) =
    let rest = single-Agree (c == b'\'') (j + 1) cs in
    elim (Bool-cases (c == b'\'')) [
      | inl e ↦ rw (e, skip_single) (rw e at rest)
      | inr e ↦ rw (e, skip_single) (push-Agree c (rw e at rest))
    ]

-- On a string that does not end in a backslash, `skip_quoted` and the decoder find the same end
-- of the quote, or none, unless an escape is bad.
pub skip_quoted-decode :
    (q : ℕ) (s : Bytes) → last_byte q s ≢ b'\\' → Agree (skip_quoted (q ∷ s)) (decode (q ∷ s))
unfolding skip_quoted decode
skip_quoted-decode q s whole = elim (Bool-cases (q == b'"')) [
  | inl e ↦ rw e (double-Agree false 1 q s whole λ e. absurd (cc))
  | inr e ↦ rw e (single-Agree false 1 s)
]
