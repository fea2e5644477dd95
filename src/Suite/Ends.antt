-- ===== src/Suite/Ends.antt =====
-- Runs of the parsers of suite/parse.c that return a value or an error, with rules to go
-- through one step by step.
use mathlib.Core.List.{List}
use resonance.Prelude.{
  ℕ, ◌≤◌, ◌≡◌, refl, ◌⊎◌, inl, inr, Bool, true, false, Option, none, some, [], ◌∷◌, if◌then◌else◌,
  ◌==◌, arith, length, Bool-cases,
}
use resonance.Suite.{
  no_memory, SuiteError, Line, Cursor, Parsed, ok, failed, Parser, and_then, alloc, make_room,
  grown_slots,
}

-- An error is at a line of a text of `total` lines and at a column from 1 on, or it is an allocation's
-- at no place.
abbrev pub IsPlaced : (total : ℕ) → SuiteError → Type 0
IsPlaced total e =
    (1 ≤ e.line) × (e.line ≤ total) × (1 ≤ e.col)
    ⊎ (e.line ≡ 0) × (e.col ≡ 0) × (e.message ≡ no_memory)

-- The lines are lines of a text of `total` lines, none of them empty.
pub data AreLines (total : ℕ) : List Line → Type 0 where
  ends : AreLines total []
  line :
      {ln : Line} {lns : List Line}
      → (1 ≤ ln.line)
      → (ln.line ≤ total)
      → (1 ≤ length ln.body)
      → AreLines total lns
      → AreLines total (ln ∷ lns)

-- At most `most` lines are left, all of them of the text.
pub record HasLines (total most : ℕ) (c : Cursor) : Type 0 where
  pub lines : AreLines total c.lines
  pub left : length c.lines ≤ most

pub data Ends {ℓ κ} (total most : ℕ) {A : Type ℓ} (P : A → Type κ)
    : Parsed (A × Cursor) → Type (ℓ ⊔ κ) where
  ended : {a : A} {c : Cursor} → P a → HasLines total most c → Ends total most P (ok (a, c))
  refused : {e : SuiteError} → IsPlaced total e → Ends total most P (failed e)

module _ {ℓ κ} {total most : ℕ} {A : Type ℓ} {P : A → Type κ} where
  pub Ends-if :
      (p q : Parser A) (c : Cursor) (test : Bool)
      → (test ≡ true → Ends total most P (p c))
      → (test ≡ false → Ends total most P (q c))
      → Ends total most P ((if test then p else q) c)
  Ends-if p q c true on_true on_false = on_true refl
  Ends-if p q c false on_true on_false = on_false refl

  pub Ends-option {μ} :
      {B : Type μ} (p : Parser A) (q : B → Parser A) (c : Cursor) (o : Option B)
      → (o ≡ none → Ends total most P (p c))
      → ((b : B) → o ≡ some b → Ends total most P (q b c))
      → Ends total most P ((elim o as (λ _. Parser A) [ none ↦ p | some b ↦ q b ]) c)
  Ends-option p q c none on_none on_some = on_none refl
  Ends-option p q c (some b) on_none on_some = on_some b refl

  pub Ends-list {μ} :
      {B : Type μ} (p : Parser A) (q : B → List B → Parser A) (c : Cursor) (bs : List B)
      → (bs ≡ [] → Ends total most P (p c))
      → ((b : B) (rest : List B) → bs ≡ b ∷ rest → Ends total most P (q b rest c))
      → Ends total most P ((elim bs as (λ _. Parser A) [ [] ↦ p | b ∷ rest ↦ q b rest ]) c)
  Ends-list p q c [] on_nil on_cons = on_nil refl
  Ends-list p q c (b ∷ rest) on_nil on_cons = on_cons b rest refl

pub Ends-bind {ℓ κ μ ν} :
    {total most mid : ℕ} {A : Type ℓ} {P : A → Type κ} {B : Type μ} {R : B → Type ν}
    {r : Parsed (A × Cursor)} {next : A → Parser B}
    → Ends total mid P r
    → ((a : A) (c : Cursor) → P a → HasLines total mid c → Ends total most R (next a c))
    → Ends total most R (and_then r next)
Ends-bind (ended holds has) rest = rest _ _ holds has
Ends-bind (refused placed) rest = refused placed

pub Ends-map {ℓ κ μ} :
    {total most : ℕ} {A : Type ℓ} {P : A → Type κ} {R : A → Type μ} {r : Parsed (A × Cursor)}
    → Ends total most P r
    → ((a : A) → P a → R a)
    → Ends total most R r
Ends-map (ended holds has) weaker = ended (weaker _ holds) has
Ends-map (refused placed) weaker = refused placed

pub Ends-more {ℓ κ} :
    {total most more : ℕ} {A : Type ℓ} {P : A → Type κ} {r : Parsed (A × Cursor)}
    → most ≤ more
    → Ends total most P r
    → Ends total more P r
Ends-more h (ended holds has) =
    ended holds (record { lines = has.lines; left = omega (arith, has.left) })
Ends-more h (refused placed) = refused placed

pub alloc-IsPlaced :
    {total most line col : ℕ} (mem : ℕ → Bool) {c : Cursor}
    → IsPlaced total (record { line = line; col = col; message = no_memory })
    → HasLines total most c
    → Ends total most (λ _. Unit {0}) (alloc mem line col c)
unfolding alloc
alloc-IsPlaced mem {c} placed has = elim (Bool-cases (mem c.allocs)) [
  | inl e ↦ rw e (ended tt (record { lines = has.lines; left = has.left }))
  | inr e ↦ rw e (refused placed)
]

pub alloc-Ends :
    {total most line col : ℕ} (mem : ℕ → Bool) {c : Cursor}
    → 1 ≤ line
    → line ≤ total
    → 1 ≤ col
    → HasLines total most c
    → Ends total most (λ _. Unit {0}) (alloc mem line col c)
alloc-Ends mem low high right = alloc-IsPlaced mem (inl (low, high, right))

pub make_room-Ends :
    {total most line col : ℕ} (mem : ℕ → Bool) (size len cap : ℕ) {c : Cursor}
    → 1 ≤ line
    → line ≤ total
    → 1 ≤ col
    → HasLines total most c
    → Ends total most (λ _. Unit {0}) (make_room mem size len cap line col c)
unfolding make_room
make_room-Ends mem size len cap low high right has =
    Ends-if _ _ _ (len == cap)
      (λ _.
        Ends-option _ _ _ (grown_slots size cap) (λ _. refused (inl (low, high, right)))
          λ _ _. Ends-bind (alloc-Ends mem low high right has) λ _ _ _ has. ended tt has)
      λ _. ended tt has
