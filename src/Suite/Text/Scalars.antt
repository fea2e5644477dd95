-- ===== src/Suite/Text/Scalars.antt =====
-- What the scalar and key parsers of suite/parse.c return.
use resonance.Prelude.{ℕ, ◌+◌, ◌≤◌, ◌≡◌, refl, inl, Bool, [], ◌∷◌, ◌==◌, arith, length}
use resonance.Suite.{Bytes, unknown_escape, unterminated_quote, Line, Cursor, Parser, pure, fail}
use resonance.Suite.Ends.{
  HasLines, Ends, ended, refused, Ends-if, Ends-option, Ends-bind, Ends-list, Ends-map, alloc-Ends,
}
use resonance.Suite.Trees.{IsTree, is_scalar}
use resonance.Suite.Text.{
  closed, bad_escape, open_ended, head_byte, is_quote, quoted_key, plain_key, decode, skip_spaces,
  drop, check_plain, key_end, quoted_body, check_tail, unquote, plain, scalar_text, parse_scalar,
  read_key,
}

module _ {total most : ℕ} (mem : ℕ → Bool) {line col : ℕ} (low : 1 ≤ line) (high : line ≤ total)
    (right : 1 ≤ col) where
  quoted_body-Ends :
      (s : Bytes) {c : Cursor}
      → HasLines total most c
      → Ends total most (λ _. Unit {0}) (quoted_body mem s line col c)
  unfolding quoted_body
  quoted_body-Ends [] has = refused (inl (low, high, right))
  quoted_body-Ends (q ∷ cs) has = Ends-bind (alloc-Ends mem low high right has) λ _ c _ has.
      elim (decode (q ∷ cs))
        as (λ d.
          Ends total most (λ _. Unit {0})
            ((elim d as (λ _. Parser (Bytes × ℕ)) [
              | closed text end ↦ pure (text, end)
              | bad_escape j ↦ fail line (col + j) unknown_escape
              | open_ended ↦ fail line col unterminated_quote
            ])
              c)) [
                | closed text end ↦ ended tt has
                | bad_escape j ↦ refused (inl (low, high, omega arith))
                | open_ended ↦ refused (inl (low, high, right))
              ]

  check_tail-Ends :
      (s : Bytes) (end : ℕ) {c : Cursor}
      → HasLines total most c
      → Ends total most (λ _. Unit {0}) (check_tail mem s line col end c)
  unfolding check_tail
  check_tail-Ends s end has =
      Ends-list _ _ _ (skip_spaces end (drop end s)).1 (λ _. ended tt has)
        λ _ _ _. refused (inl (low, high, omega arith))

  unquote-Ends :
      (s : Bytes) {c : Cursor}
      → HasLines total most c
      → Ends total most (λ _. Unit {0}) (unquote mem s line col c)
  unfolding unquote
  unquote-Ends s has =
      Ends-bind (quoted_body-Ends s has)
        λ a c _ has. Ends-bind (check_tail-Ends s _ has) λ _ c _ has. ended tt has

  plain-Ends :
      (s : Bytes) {c : Cursor}
      → HasLines total most c
      → Ends total most (λ t. t ≡ s) (plain mem s line col c)
  unfolding plain
  plain-Ends s has =
      Ends-option _ _ _ (check_plain 0 s)
        (λ _. Ends-bind (alloc-Ends mem low high right has) λ _ _ _ has. ended refl has)
        λ _ _. refused (inl (low, high, omega arith))

  scalar_text-Ends :
      (s : Bytes) {c : Cursor}
      → HasLines total most c
      → Ends total most (λ _. Unit {0}) (scalar_text mem s line col c)
  unfolding scalar_text
  scalar_text-Ends [] has = refused (inl (low, high, right))
  scalar_text-Ends (d ∷ ds) has =
      Ends-if _ _ _ (is_quote d) (λ _. unquote-Ends (d ∷ ds) has)
        λ _. Ends-map (plain-Ends (d ∷ ds) has) λ _ _. tt

  pub parse_scalar-Ends :
      (s : Bytes) {c : Cursor}
      → HasLines total most c
      → Ends total most (IsTree total) (parse_scalar mem s line col c)
  unfolding parse_scalar
  parse_scalar-Ends s has = Ends-bind (scalar_text-Ends s has) λ text _ _ has.
      Ends-bind (alloc-Ends mem low high right has) λ _ _ _ has. ended (is_scalar low high) has

abbrev pub IsKey : Bytes × ℕ → Type 0
IsKey key = 1 ≤ length key.0

module _ {total most : ℕ} (mem : ℕ → Bool) (ln : Line) (i : ℕ) (low : 1 ≤ ln.line)
    (high : ln.line ≤ total) where
  quoted_key-Ends :
      (key : Bytes) (k : ℕ) (rest : Bytes) {c : Cursor}
      → HasLines total most c
      → Ends total most IsKey (quoted_key mem ln i key k rest c)
  quoted_key-Ends [] k rest has = refused (inl (low, high, omega arith))
  quoted_key-Ends (b ∷ bs) k [] has = refused (inl (low, high, omega arith))
  quoted_key-Ends (b ∷ bs) k (d ∷ ds) has =
      Ends-if _ _ _ (d == b':') (λ _. ended (omega arith) has)
        λ _. refused (inl (low, high, omega arith))

  plain_key-Ends :
      (ke : ℕ) (s : Bytes) {c : Cursor}
      → HasLines total most c
      → Ends total most IsKey (plain_key mem ln i ke s c)
  plain_key-Ends ke [] has = refused (inl (low, high, omega arith))
  plain_key-Ends ke (b ∷ bs) has =
      Ends-bind (plain-Ends mem low high (omega arith) (b ∷ bs) has)
        λ key _ same has. ended (rw same (omega arith)) has

  pub read_key-Ends :
      (missing : ℕ) (s : Bytes) {c : Cursor}
      → 1 ≤ missing
      → HasLines total most c
      → Ends total most IsKey (read_key mem ln i missing s c)
  unfolding read_key
  read_key-Ends missing s right has =
      Ends-if _ _ _ (is_quote (head_byte s))
        (λ _.
          Ends-bind (quoted_body-Ends mem low high (omega arith) s has)
            λ key _ _ has. quoted_key-Ends key.0 _ _ has)
        λ _.
          Ends-option _ _ _ (key_end 0 s) (λ _. refused (inl (low, high, right)))
            λ ke _. plain_key-Ends ke _ has
