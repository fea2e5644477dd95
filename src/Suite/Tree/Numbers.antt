-- ===== src/Suite/Tree/Numbers.antt =====
-- The numbers that `suite_scalar_int` of suite/parse.c reads, and a writer of numbers.
use resonance.Prelude.{
  ℕ, zero, suc, ◌+◌, ◌-◌, ◌*◌, ◌/◌, ◌%◌, ◌^◌, ◌<◌, ◌≤◌, ◌≡◌, refl, sym, ap, ◌∙◌, length, Bool, true,
  false, Option, none, some, [], ◌∷◌, if◌then◌else◌, ltb, leb, ◌==◌, arith, Bool-cases, inl, inr,
}
use resonance.Prelude.Int.{ℤ, pos, negsuc, ◌≤ℤ◌}
use resonance.Suite.{Bytes, SuiteNode, scalar}
use resonance.Suite.Tree.{
  is_digit, all_digits, digits_value, negated, strtoll, read_digits, read_int, suite_scalar_int,
}

-- The range of `long long`.
abbrev pub IsLong : ℤ → Type 0
IsLong z = (negsuc (2 ^ 63 - 1) ≤ℤ z) × (z ≤ℤ pos (2 ^ 63 - 1))

strtoll-IsLong : (minus : Bool) (s : Bytes) (z : ℤ) → strtoll minus s ≡ some z → IsLong z
unfolding strtoll
strtoll-IsLong true s z e = go (digits_value 0 s) e
  where
    go : (n : ℕ) → (if leb n (2 ^ 63) then some (negated n) else none) ≡ some z → IsLong z
    go zero e = ground arith
    go (suc n) e = ground arith
strtoll-IsLong false s z e = ground arith

-- A decimal number, in front of `rest`.
abbrev digits : ℕ → ℕ → Bytes → Bytes
digits zero n rest = rest
digits (suc fuel) n rest =
    let shorter = digits fuel (n / 10) ((b'0' + n % 10) ∷ rest) in
    if ltb n 10 then (b'0' + n) ∷ rest else shorter

abbrev pub print_int : ℤ → Bytes
print_int (pos n) = digits (n + 1) n []
print_int (negsuc n) = b'-' ∷ digits (suc n + 1) (suc n) []

digits_value-digits :
    (fuel n : ℕ) (rest : Bytes)
    → n < fuel
    → digits_value 0 (digits fuel n rest) ≡ digits_value n rest
digits_value-digits zero n rest enough = absurd (omega arith)
digits_value-digits (suc fuel) n rest enough = elim (Bool-cases (ltb n 10)) [
  | inl low ↦
      let digit : 0 * 10 + (b'0' + n - b'0') ≡ n = omega arith in
      rw low (ap (λ k. digits_value k rest) digit)
  | inr high ↦
      let whole : n / 10 * 10 + (b'0' + n % 10 - b'0') ≡ n = omega arith in
      rw (high, digits_value-digits fuel (n / 10) ((b'0' + n % 10) ∷ rest) (ground arith), whole)
        refl
]

all_digits-digits :
    (fuel n : ℕ) (rest : Bytes)
    → n < fuel
    → all_digits rest ≡ true
    → all_digits (digits fuel n rest) ≡ true
all_digits-digits zero n rest enough all = absurd (omega arith)
all_digits-digits (suc fuel) n rest enough all = elim (Bool-cases (ltb n 10)) [
  | inl low ↦ let digit : is_digit (b'0' + n) ≡ true = ground arith in rw (low, digit, all) refl
  | inr high ↦
      let digit : is_digit (b'0' + n % 10) ≡ true = ground arith in
      rw
        (
          high,
          all_digits-digits fuel (n / 10) ((b'0' + n % 10) ∷ rest) (ground arith)
              (rw (digit, all) refl),
        )
        refl
]

length-digits : (fuel n : ℕ) (rest : Bytes) → n < fuel → 1 ≤ length (digits fuel n rest)
length-digits zero n rest enough = absurd (omega arith)
length-digits (suc fuel) n rest enough =
    let more : ltb n 10 ≡ false → n / 10 < fuel = λ high. ground arith in
    ground (arith, more, length-digits fuel (n / 10) ((b'0' + n % 10) ∷ rest))

read_digits-strtoll :
    (minus : Bool) (s : Bytes)
    → all_digits s ≡ true
    → 1 ≤ length s
    → read_digits minus s ≡ strtoll minus s
read_digits-strtoll minus [] all some_digit = absurd (omega arith)
read_digits-strtoll minus (c ∷ cs) all some_digit = rw all refl

read_int-read_digits : (s : Bytes) → all_digits s ≡ true → read_int s ≡ read_digits false s
read_int-read_digits [] all = refl
read_int-read_digits (c ∷ cs) all =
    let no_minus : (c == b'-') ≡ false = ground arith in
    let no_plus : (c == b'+') ≡ false = ground arith in rw (no_minus, no_plus) refl

strtoll-digits :
    (minus : Bool) (n : ℕ)
    → read_digits minus (digits (n + 1) n []) ≡ (
        if minus
        then (if leb n (2 ^ 63) then some (negated n) else none)
        else (if ltb n (2 ^ 63) then some (pos n) else none))
unfolding strtoll
strtoll-digits minus n =
    let all = all_digits-digits (n + 1) n [] (omega arith) refl in
    let value = digits_value-digits (n + 1) n [] (omega arith) in
    read_digits-strtoll minus _ all (length-digits (n + 1) n [] (omega arith)) ∙ signed minus value
  where
    signed :
        (minus : Bool)
        → digits_value 0 (digits (n + 1) n []) ≡ n
        → strtoll minus (digits (n + 1) n []) ≡ (
            if minus
            then (if leb n (2 ^ 63) then some (negated n) else none)
            else (if ltb n (2 ^ 63) then some (pos n) else none))
    signed true value = rw value refl
    signed false value = rw value refl

-- A number in the range of `long long` that is printed in decimal is read back.
pub suite_scalar_int-print_int :
    (line : ℕ) (z : ℤ) → IsLong z → suite_scalar_int (some (scalar line (print_int z))) ≡ some z
unfolding suite_scalar_int
suite_scalar_int-print_int line (pos n) (low, high) =
    let small : ltb n (2 ^ 63) ≡ true = ground arith in
    read_int-read_digits (digits (n + 1) n []) (all_digits-digits (n + 1) n [] (omega arith) refl)
    ∙ strtoll-digits false n
    ∙ rw small refl
suite_scalar_int-print_int line (negsuc n) (low, high) =
    let small : leb (suc n) (2 ^ 63) ≡ true = ground arith in
    strtoll-digits true (suc n) ∙ rw small refl

read_digits-IsLong : (minus : Bool) (s : Bytes) (z : ℤ) → read_digits minus s ≡ some z → IsLong z
read_digits-IsLong minus [] z e = cc
read_digits-IsLong minus (c ∷ cs) z e = strtoll-IsLong minus (c ∷ cs) z (ground (arith, e))

-- What `suite_scalar_int` gives is in the range of `long long`.
pub suite_scalar_int-IsLong :
    (node : Option SuiteNode) (z : ℤ) → suite_scalar_int node ≡ some z → IsLong z
unfolding suite_scalar_int
suite_scalar_int-IsLong none z e = cc
suite_scalar_int-IsLong (some (SuiteNode.map line es)) z e = cc
suite_scalar_int-IsLong (some (SuiteNode.list line xs)) z e = cc
suite_scalar_int-IsLong (some (scalar line text)) z e = go text e
  where
    go : (text : Bytes) → read_int text ≡ some z → IsLong z
    go [] e = cc
    go (c ∷ cs) e = ground (
      arith,
      e,
      read_digits-IsLong true cs z,
      read_digits-IsLong false cs z,
      read_digits-IsLong false (c ∷ cs) z,
    )

pub all_digits-print_int : (n : ℕ) → all_digits (print_int (pos n)) ≡ true
all_digits-print_int n = all_digits-digits (n + 1) n [] (omega arith) refl

pub length-print_int : (n : ℕ) → 1 ≤ length (print_int (pos n))
length-print_int n = length-digits (n + 1) n [] (omega arith)

-- Different numbers are printed differently.
pub print_int_injective : (m n : ℕ) → print_int (pos m) ≡ print_int (pos n) → m ≡ n
print_int_injective m n e =
    sym (digits_value-digits (m + 1) m [] (omega arith))
    ∙ ap (digits_value 0) e
    ∙ digits_value-digits (n + 1) n [] (omega arith)
