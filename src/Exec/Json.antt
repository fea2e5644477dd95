-- ===== src/Exec/Json.antt =====
-- suite/exec.c: `json_escape`, which writes a text into a string of a timeline event.
pub mod Read
use resonance.Prelude.{
  ℕ, zero, suc, ◌+◌, ◌-◌, ◌/◌, ◌%◌, Bool, ◌||◌, Option, none, some, List, [], ◌∷◌, ◌++◌,
  if◌then◌else◌, ltb, leb, ◌==◌, length,
}
use resonance.Suite.{Bytes}

abbrev pub hex : ℕ → ℕ
hex d = if ltb d 10 then b'0' + d else b'a' + (d - 10)

-- What is written for a byte.
unfoldable pub escaped : ℕ → Bytes
escaped c =
    if c == b'"' || c == b'\\'
    then b'\\' ∷ c ∷ []
    else if c == b'\n'
    then b'\\' ∷ b'n' ∷ []
    else if c == b'\r' || c == b'\t'
    then b'\\' ∷ (if c == b'\r' then b'r' else b't') ∷ []
    else if ltb c 32
    then b'\\' ∷ b'u' ∷ b'0' ∷ b'0' ∷ hex (c / 16) ∷ hex (c % 16) ∷ []
    else c ∷ []

-- From offset `o` of `n` bytes on, up to the first byte that does not fit with the NUL.
unfoldable pub escape_from : (n o : ℕ) → Bytes → Bytes
escape_from n o [] = []
escape_from n o (c ∷ src) =
    let rest = escape_from n (o + length (escaped c)) src in
    if leb n (o + length (escaped c)) then [] else escaped c ++ rest

-- A buffer of no bytes is left alone.
unfoldable pub json_escape : Option Bytes → ℕ → Option Bytes
json_escape src zero = none
json_escape none (suc n) = some []
json_escape (some src) (suc n) = some (escape_from (suc n) 0 src)
