-- ===== src/Prelude/Faults.antt =====
-- A C function's run: it returns a value, or it faults (an access out of bounds, a signed
-- overflow, or the model's fuel running out). The rules let a proof go through a run step by step.
use mathlib.Core.Path.{◌≡◌, refl}
use mathlib.Core.Bool.{Bool, true, false}
use mathlib.Core.Option.{Option, none, some}
use resonance.Prelude.Tests.{if◌then◌else◌}

pub data Run {ℓ} (A : Type ℓ) : Type ℓ where
  ok : A → Run A
  out_of_bounds overflow out_of_fuel : Run A

infixl 5 ◌>>=◌
abbrev pub ◌>>=◌ {ℓ κ} : {A : Type ℓ} {B : Type κ} → Run A → (A → Run B) → Run B
ok a >>= f = f a
out_of_bounds >>= f = out_of_bounds
overflow >>= f = overflow
out_of_fuel >>= f = out_of_fuel

abbrev pub in_bounds {ℓ} : {A : Type ℓ} → Option A → Run A
in_bounds (some a) = ok a
in_bounds none = out_of_bounds

-- The run returns, and what it returns satisfies `P`.
pub data Returns {ℓ κ} {A : Type ℓ} (P : A → Type κ) : Run A → Type (ℓ ⊔ κ) where
  returns : {a : A} → P a → Returns P (ok a)

-- What a run that returns has returned.
pub Returns-inv {ℓ κ} :
    {A : Type ℓ} {P : A → Type κ} {m : Run A} → Returns P m → (out : A) × (m ≡ ok out) × P out
Returns-inv (returns holds) = (_, refl, holds)

-- The next four follow the code: a branch on an option or a test, a weaker claim, a sequence.
pub Returns-option {ℓ κ μ} :
    {A : Type ℓ} {P : A → Type κ} {B : Type μ} {missing : Run A} {found : B → Run A} (o : Option B)
    → (o ≡ none → Returns P missing)
    → ((b : B) → o ≡ some b → Returns P (found b))
    → Returns P (elim o [ none ↦ missing | some b ↦ found b ])
Returns-option (some b) on_none on_some = on_some b refl
Returns-option none on_none on_some = on_none refl

pub Returns-if {ℓ κ} :
    {A : Type ℓ} {P : A → Type κ} {yes_run no_run : Run A} (test : Bool)
    → (test ≡ true → Returns P yes_run)
    → (test ≡ false → Returns P no_run)
    → Returns P (if test then yes_run else no_run)
Returns-if false on_true on_false = on_false refl
Returns-if true on_true on_false = on_true refl

pub Returns-map {ℓ κ μ} :
    {A : Type ℓ} {P : A → Type κ} {R : A → Type μ} {m : Run A}
    → Returns P m
    → ((out : A) → P out → R out)
    → Returns R m
Returns-map (returns holds) weaker = returns (weaker _ holds)

pub Returns-bind {ℓ κ μ ν} :
    {A : Type ℓ} {P : A → Type κ} {B : Type μ} {R : B → Type ν} {m : Run A} {next : A → Run B}
    → Returns P m
    → ((out : A) → P out → Returns R (next out))
    → Returns R (m >>= next)
Returns-bind (returns holds) rest = rest _ holds

-- A sequence that returns has returned twice.
pub bind-returns {ℓ κ} :
    {B : Type ℓ} {out : B} {A : Type κ} (m : Run A) (next : A → Run B)
    → (m >>= next) ≡ ok out
    → (mid : A) × (next mid ≡ ok out) × (m ≡ ok mid)
bind-returns overflow next e = cc
bind-returns out_of_fuel next e = cc
bind-returns out_of_bounds next e = cc
bind-returns (ok mid) next e = (mid, e, refl)
