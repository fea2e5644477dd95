-- ===== src/Runner/Clock.antt =====
-- Repeated calls of `run_hold` and `run_throttle` of run/run.c.
use resonance.Prelude.{
  ℕ, zero, suc, ◌+◌, ◌≤◌, ◌≡◌, refl, ap, Bool, false, List, [], ◌∷◌, if◌then◌else◌, leb, ltb, ◌==◌,
  arith, Bool-cases, inl, inr,
}
use resonance.Runner.{run_hold, run_throttle}

-- What `run_hold` answers to calls at the given readings of the clock.
unfoldable pub held : (secs t0 : ℕ) → List ℕ → List Bool
unfolding run_hold
held secs t0 [] = []
held secs t0 (now ∷ later) = let (fired, t) = run_hold t0 now secs in fired ∷ held secs t later

abbrev pub since : ℕ → List ℕ → List Bool
since t [] = []
since t (now ∷ later) = leb t now ∷ since t later

held-armed : (secs t : ℕ) (later : List ℕ) → held secs (suc t) later ≡ since (suc t + secs) later
unfolding held run_hold
held-armed secs t [] = refl
held-armed secs t (now ∷ later) =
    ap (λ rest. leb (suc t + secs) now ∷ rest) (held-armed secs t later)

-- The first call, at a reading from 1 on, arms the clock, and each later call reports whether `secs`
-- have passed since.
pub held-since :
    (secs first : ℕ) (later : List ℕ)
    → 1 ≤ first
    → held secs 0 (first ∷ later) ≡ false ∷ since (first + secs) later
unfolding held run_hold
held-since secs zero later armed = absurd (omega arith)
held-since secs (suc first) later armed = ap (λ rest. false ∷ rest) (held-armed secs first later)

-- The times at which `run_throttle` lets a call through.
unfoldable pub fired : (secs t : ℕ) → List ℕ → List ℕ
unfolding run_throttle
fired secs t [] = []
fired secs t (now ∷ later) =
    let (passed, t_next) = run_throttle t now now secs in
    let rest = fired secs t_next later in if passed then now ∷ rest else rest

-- Each time is `secs` behind the one before, the first behind `t`.
pub data Spaced (secs : ℕ) : (t : ℕ) → List ℕ → Type 0 where
  none_fired : {t : ℕ} → Spaced secs t []
  fired_at :
      {t now : ℕ} {later : List ℕ}
      → t + secs ≤ now
      → Spaced secs now later
      → Spaced secs t (now ∷ later)

pub data AllArmed : List ℕ → Type 0 where
  none_left : AllArmed []
  reading : {now : ℕ} {later : List ℕ} → 1 ≤ now → AllArmed later → AllArmed (now ∷ later)

fired-armed :
    (secs t : ℕ) (times : List ℕ) → 1 ≤ t → AllArmed times → Spaced secs t (fired secs t times)
unfolding fired run_throttle
fired-armed secs t [] armed none_left = none_fired
fired-armed secs t (now ∷ later) armed (reading some_time rest) =
    let is_armed : (t == 0) ≡ false = ground arith in
    elim (Bool-cases (ltb now (t + secs))) [
      | inl soon ↦ rw (is_armed, soon) (fired-armed secs t later armed rest)
      | inr due ↦
          rw (is_armed, due) (fired_at (ground arith) (fired-armed secs now later some_time rest))
    ]

-- At readings from 1 on, the first call passes, and from then on the calls that pass are `secs`
-- apart at least, the first of them `secs` behind that one.
pub fired-Spaced :
    (secs first : ℕ) (later : List ℕ)
    → AllArmed (first ∷ later)
    → (rest : List ℕ) × (fired secs 0 (first ∷ later) ≡ first ∷ rest) × Spaced secs first rest
unfolding fired run_throttle
fired-Spaced secs first later (reading some_time rest) =
    (fired secs first later, refl, fired-armed secs first later some_time rest)
