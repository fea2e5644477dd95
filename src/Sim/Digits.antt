-- ===== src/Sim/Digits.antt =====
-- Decimal numbers inside the names of sim/sim.c.
use resonance.Prelude.{ℕ, ◌≤◌, ◌≡◌, ◌≢◌, refl, true, false, [], ◌∷◌, ◌++◌, arith, length}
use resonance.Suite.{Bytes}
use resonance.Suite.Tree.{is_digit, all_digits}
use resonance.Suite.Tree.Numbers.{all_digits-print_int, length-print_int, print_int_injective}
use resonance.Sim.{decimal}

-- The byte is not in the text.
abbrev pub Lacks : ℕ → Bytes → Type 0
Lacks c [] = Unit {0}
Lacks c (b ∷ s) = (b ≢ c) × Lacks c s

pub digits-Lacks : (c : ℕ) (s : Bytes) → is_digit c ≡ false → all_digits s ≡ true → Lacks c s
digits-Lacks c [] apart all = tt
digits-Lacks c (b ∷ s) apart all =
    let first : is_digit b ≡ true = ground arith in
    let rest : all_digits s ≡ true = ground arith in (λ same. cc, digits-Lacks c s apart rest)

pub decimal-Lacks : (c n : ℕ) → is_digit c ≡ false → Lacks c (decimal n)
unfolding decimal
decimal-Lacks c n apart = digits-Lacks c (decimal n) apart (all_digits-print_int n)

pub decimal_injective : (m n : ℕ) → decimal m ≡ decimal n → m ≡ n
unfolding decimal
decimal_injective m n e = print_int_injective m n e

pub decimal-ne-nil : (n : ℕ) → decimal n ≢ []
unfolding decimal
decimal-ne-nil n e =
    let len : 1 ≤ length (decimal n) = length-print_int n in absurd (omega (arith, rw e at len))

-- Texts that end in the same byte, which they lack before, are the same up to it.
pub split_at :
    (c : ℕ) (s t u v : Bytes)
    → Lacks c s
    → Lacks c t
    → s ++ (c ∷ u) ≡ t ++ (c ∷ v)
    → (s ≡ t) × (u ≡ v)
split_at c [] [] u v hs ht e = (refl, cc)
split_at c [] (b ∷ t) u v hs ht e = absurd (ht.0 (cc))
split_at c (a ∷ s) [] u v hs ht e = absurd (hs.0 (cc))
split_at c (a ∷ s) (b ∷ t) u v hs ht e =
    let (same, rest) = split_at c s t u v hs.1 ht.1 (cc) in
    let head : a ≡ b = cc in (rw (head, same) refl, rest)

pub prefix_cancel : (p u v : Bytes) → p ++ u ≡ p ++ v → u ≡ v
prefix_cancel [] u v e = e
prefix_cancel (c ∷ p) u v e = prefix_cancel p u v (cc)
