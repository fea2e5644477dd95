-- ===== src/Suite/Document/Split.antt =====
-- The lines that suite/parse.c keeps of a text.
use resonance.Prelude.{
  ℕ, zero, suc, ◌+◌, ◌-◌, ◌≤◌, ◌<◌, ◌≡◌, refl, inl, inr, Bool, true, false, Option, none, some,
  List, [], ◌∷◌, if◌then◌else◌, ◌==◌, ltb, arith, length, Option-cases,
}
use resonance.Suite.{Bytes, Message, SuiteError, Line, Parsed, ok, failed, after}
use resonance.Suite.Ends.{AreLines, ends, line, IsPlaced}
use resonance.Suite.Text.{head_byte, skip_double, skip_single, skip_quoted, drop}
use resonance.Suite.Document.{
  Scrub, go_on, cut, refuse, scrub_byte, scrub_loop, scrub_line, chomp, find_byte, all_blank,
  keep_line, take_body, take_line, take_lines, max_line,
}

skip_double-le :
    (escaped : Bool) (j : ℕ) (s : Bytes) (end : ℕ) → skip_double escaped j s ≡ some end → j < end
unfolding skip_double
skip_double-le escaped j [] end e = ground arith
skip_double-le true j (c ∷ cs) end e = ground (arith, skip_double-le false (j + 1) cs end)
skip_double-le false j (c ∷ cs) end e = ground (arith, skip_double-le (c == b'\\') (j + 1) cs end)

skip_single-le :
    (escaped : Bool) (j : ℕ) (s : Bytes) (end : ℕ) → skip_single escaped j s ≡ some end → j ≤ end
unfolding skip_single
skip_single-le true j [] end e = ground arith
skip_single-le false j [] end e = ground arith
skip_single-le true j (c ∷ cs) end e = ground (arith, skip_single-le false (j + 1) cs end)
skip_single-le false j (c ∷ cs) end e = ground (arith, skip_single-le (c == b'\'') (j + 1) cs end)

-- A quote that closes takes a byte at least.
skip_quoted-le : (s : Bytes) (end : ℕ) → skip_quoted s ≡ some end → 1 ≤ end
unfolding skip_quoted
skip_quoted-le [] end e = ground arith
skip_quoted-le (q ∷ cs) end e =
    ground (arith, skip_double-le false 1 cs end, skip_single-le false 1 cs end)

-- A step over lines that gives a value, or an error at a place of the text.
pub data Settled {ℓ κ} (total : ℕ) {A : Type ℓ} (P : A → Type κ) : Parsed A → Type (ℓ ⊔ κ) where
  done : {a : A} → P a → Settled total P (ok a)
  stopped : {e : SuiteError} → IsPlaced total e → Settled total P (failed e)

pub Settled-if {ℓ κ} :
    {total : ℕ} {A : Type ℓ} {P : A → Type κ} {yes_run no_run : Parsed A} (test : Bool)
    → (test ≡ true → Settled total P yes_run)
    → (test ≡ false → Settled total P no_run)
    → Settled total P (if test then yes_run else no_run)
Settled-if true on_true on_false = on_true refl
Settled-if false on_true on_false = on_false refl

pub Settled-option {ℓ κ μ} :
    {total : ℕ} {A : Type ℓ} {P : A → Type κ} {B : Type μ} (missing : Parsed A)
    (found : B → Parsed A) (o : Option B)
    → (o ≡ none → Settled total P missing)
    → ((b : B) → o ≡ some b → Settled total P (found b))
    → Settled total P (elim o [ none ↦ missing | some b ↦ found b ])
Settled-option missing found none on_none on_some = on_none refl
Settled-option missing found (some b) on_none on_some = on_some b refl

Settled-scrub {ℓ κ} :
    {total : ℕ} {A : Type ℓ} {P : A → Type κ} (on : ℕ → ℕ → Parsed A) (stop : Parsed A)
    (bad : Message → Parsed A) (step : Scrub)
    → ((count prev : ℕ) → step ≡ go_on count prev → Settled total P (on count prev))
    → (step ≡ cut → Settled total P stop)
    → ((m : Message) → step ≡ refuse m → Settled total P (bad m))
    → Settled total P
        (elim step [ cut ↦ stop | refuse m ↦ bad m | go_on count prev ↦ on count prev ])
Settled-scrub on stop bad (go_on count prev) f g h = f count prev refl
Settled-scrub on stop bad cut f g h = g refl
Settled-scrub on stop bad (refuse m) f g h = h m refl

pub Settled-after {ℓ κ μ ν} :
    {total : ℕ} {A : Type ℓ} {P : A → Type κ} {B : Type μ} {R : B → Type ν} {r : Parsed A}
    {next : A → Parsed B}
    → Settled total P r
    → ((a : A) → P a → Settled total R (next a))
    → Settled total R (after r next)
Settled-after (done holds) rest = rest _ holds
Settled-after (stopped placed) rest = stopped placed

-- A line that is kept has the given number and is not empty.
abbrev IsKept : ℕ → Option Line → Type 0
IsKept at_line none = Unit {0}
IsKept at_line (some ln) = (ln.line ≡ at_line) × (1 ≤ length ln.body)

length-drop : (n : ℕ) (s : Bytes) → length (drop n s) ≤ length s - n
length-drop zero s = omega arith
length-drop (suc n) [] = omega arith
length-drop (suc n) (c ∷ cs) = omega (arith, length-drop n cs)

scrub_byte-count :
    (prev c : ℕ) (cs : Bytes) (count last : ℕ) → scrub_byte prev c cs ≡ go_on count last → 1 ≤ count
unfolding scrub_byte
scrub_byte-count prev c cs count last e = elim (Option-cases (skip_quoted (c ∷ cs))) [
  | inl unclosed ↦ ground arith
  | inr (close, found) ↦ ground (arith, skip_quoted-le (c ∷ cs) close found)
]

module _ {total : ℕ} (at_line indent : ℕ) (low : 1 ≤ at_line) (high : at_line ≤ total) where
  scrub_loop-Settled :
      (n i prev : ℕ) (s : Bytes)
      → length s < n
      → Settled total (λ _. Unit {0}) (scrub_loop n at_line indent i prev s)
  unfolding scrub_loop
  scrub_loop-Settled zero i prev s enough = absurd (omega arith)
  scrub_loop-Settled (suc n) i prev [] enough = done tt
  scrub_loop-Settled (suc n) i prev (c ∷ cs) enough =
      Settled-scrub _ _ _ (scrub_byte prev c cs)
        (λ count last e.
          scrub_loop-Settled n (i + count) last (drop count (c ∷ cs))
            (omega (arith, length-drop count (c ∷ cs), scrub_byte-count prev c cs count last e)))
        (λ _. done tt) λ _ _. stopped (inl (low, high, omega arith))

  scrub_line-Settled :
      (body : Bytes) → Settled total (λ _. Unit {0}) (scrub_line body at_line indent)
  unfolding scrub_line
  scrub_line-Settled body =
      Settled-after (scrub_loop-Settled (length body + 1) 0 b' ' body (omega arith)) λ _ _. done tt

  keep_line-Settled :
      (body : Bytes) → Settled total (IsKept at_line) (keep_line body at_line indent)
  unfolding keep_line
  keep_line-Settled [] = done tt
  keep_line-Settled (c ∷ cs) =
      Settled-if (c == b'%') (λ _. stopped (inl (low, high, omega arith)))
        λ _. done (refl, omega arith)

  take_body-Settled :
      (body : Bytes) → Settled total (IsKept at_line) (take_body body at_line indent)
  unfolding take_body
  take_body-Settled body =
      Settled-if (head_byte body == b'\t') (λ _. stopped (inl (low, high, omega arith)))
        λ _.
          Settled-if (all_blank body) (λ _. done tt)
            λ _.
              Settled-if (head_byte body == b'#') (λ _. done tt)
                λ _. Settled-after (scrub_line-Settled body) λ kept _. keep_line-Settled kept

take_line-Settled :
    {total : ℕ} (raw : Bytes) (at_line : ℕ)
    → 1 ≤ at_line
    → at_line ≤ total
    → Settled total (IsKept at_line) (take_line raw at_line)
unfolding take_line
take_line-Settled raw at_line low high =
    Settled-if (ltb max_line (length raw)) (λ _. stopped (inl (low, high, omega arith)))
      λ _.
        Settled-option _ _ (find_byte b'\r' 0 (chomp raw))
          (λ _. take_body-Settled at_line _ low high _)
          λ _ _. stopped (inl (low, high, omega arith))

-- The lines that are kept are lines of the text, each with its number.
pub take_lines-Settled :
    {total : ℕ} (at_line : ℕ) (raws : List Bytes)
    → 1 ≤ at_line
    → at_line + length raws ≤ total + 1
    → Settled total (AreLines total) (take_lines at_line raws)
unfolding take_lines
take_lines-Settled at_line [] low high = done ends
take_lines-Settled {total} at_line (raw ∷ raws) low high =
    let rest = take_lines-Settled {total = total} (at_line + 1) raws (omega arith) (omega arith) in
    Settled-after (take_line-Settled raw at_line low (omega arith)) λ kept.
      elim kept
        as (λ kept.
          IsKept at_line kept
          → Settled total (AreLines total) (elim kept [
            | none ↦ take_lines (at_line + 1) raws
            | some ln ↦ after (take_lines (at_line + 1) raws) λ lns. ok (ln ∷ lns)
          ])) [
            | none ↦ λ _. rest
            | some ln ↦ λ holds. Settled-after rest λ lns are.
                done (line {ln = ln} (rw holds.0 low) (rw holds.0 (omega arith)) holds.1 are)
          ]
