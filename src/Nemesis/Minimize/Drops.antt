-- ===== src/Nemesis/Minimize/Drops.antt =====
-- The trials that `nemesis_minimize` of suite/nemesis.c moves on to, one after the other.
use resonance.Prelude.{
  ℕ, zero, suc, ◌+◌, ◌≤◌, ◌≡◌, refl, ◌⊎◌, inl, inr, Option, if◌then◌else◌, leb, arith, Bool-cases,
  Option-cases,
}
use resonance.Suite.{Bytes, SuiteNode, Parsed, ok, failed, out_of_fuel}
use resonance.Suite.Document.{suite_parse}
use resonance.Suite.Tree.{suite_list_at}
use resonance.Nemesis.{max_try}
use resonance.Nemesis.Cuts.Lines.{IsCut}
use resonance.Nemesis.Minimize.{
  World, Attempt, rejected, accepted, Sweep, moved, still, onward, phase_try, step_try,
  sweep_phases, sweep_steps, phase_steps, sweep_all_steps, phases_of, swept, phases_pass,
  steps_pass,
}
use resonance.Nemesis.Minimize.Result.{Accepts, FailsAt, phase_try-Accepts, step_try-Accepts}

-- `n` steps of a relation, from one text to another.
pub data Chain (R : Bytes → Bytes → Type 0) : ℕ → Bytes → Bytes → Type 0 where
  done : {s : Bytes} → Chain R 0 s s
  step : {n : ℕ} {s t u : Bytes} → R s t → Chain R n t u → Chain R (suc n) s u

onward-moved :
    (a : Attempt) (n : ℕ) (rest : Sweep) (trial : Bytes) (t : ℕ)
    → onward a n rest ≡ moved trial t
    → (a ≡ accepted trial) ⊎ (rest ≡ moved trial t)
onward-moved Attempt.gave_up n rest trial t e = cc
onward-moved rejected n rest trial t e = inr e
onward-moved (accepted made) n rest trial t e = inl (cc)

-- A round of a sweep that moves on: by its own try or by a later one.
round-moved :
    (a : Attempt) (tries : ℕ) (rest : Sweep) (trial : Bytes) (t : ℕ)
    → (if leb max_try tries then still tries else onward a (tries + 1) rest) ≡ moved trial t
    → (a ≡ accepted trial) ⊎ (rest ≡ moved trial t)
round-moved a tries rest trial t e = elim (Bool-cases (leb max_try tries)) [
  | inl used ↦ cc (rw used at e)
  | inr left ↦ onward-moved a (tries + 1) rest trial t (rw left at e)
]

swept-moved :
    (p : Parsed SuiteNode) (sweep : Option SuiteNode → Sweep) (trial : Bytes) (t : ℕ)
    → swept p sweep ≡ moved trial t
    → (root : SuiteNode) × (p ≡ ok root) × (sweep (phases_of root) ≡ moved trial t)
swept-moved (failed err) sweep trial t e = cc
swept-moved out_of_fuel sweep trial t e = cc
swept-moved (ok root) sweep trial t e = elim (Option-cases (phases_of root)) [
  | inl gone ↦ cc (rw (swept, gone) at e)
  | inr (phs, here) ↦ (root, refl, rw here (rw (swept, here) at e))
]

module _ (w : World) where
  -- The text `trial` is `cur`, read as a document, without one of its phases behind the first; it
  -- lacks whole lines, is a valid trial, and fails.
  pub record DropsPhase (cur trial : Bytes) : Type 0 where
    tries : ℕ
    root : SuiteNode
    idx : ℕ
    t : ℕ
    read : suite_parse (w.phases_mem tries) cur ≡ ok root
    behind : 1 ≤ idx
    made : phase_try w cur (phases_of root) t idx ≡ accepted trial
    cut : IsCut cur trial
    fails : FailsAt w t trial

  -- The same without one step of a phase.
  pub record DropsStep (cur trial : Bytes) : Type 0 where
    tries : ℕ
    root : SuiteNode
    idx : ℕ
    sk : ℕ
    t : ℕ
    read : suite_parse (w.steps_mem tries) cur ≡ ok root
    made : step_try w cur (phases_of root) t idx sk ≡ accepted trial
    cut : IsCut cur trial
    fails : FailsAt w t trial

  module _ (cur : Bytes) (phs : Option SuiteNode) (trial : Bytes) where
    sweep_phases-moved :
        (j tries t : ℕ)
        → sweep_phases w cur phs j tries ≡ moved trial t
        → (idx k : ℕ) × (1 ≤ idx) × (phase_try w cur phs k idx ≡ accepted trial)
    unfolding sweep_phases
    sweep_phases-moved zero tries t e = cc
    sweep_phases-moved (suc zero) tries t e = cc
    sweep_phases-moved (suc (suc i)) tries t e = elim (round-moved _ tries _ trial t e) [
      | inl made ↦ (suc i, tries + 1, omega arith, made)
      | inr later ↦ sweep_phases-moved (suc i) (tries + 1) t later
    ]

    sweep_steps-moved :
        (idx k tries t : ℕ)
        → sweep_steps w cur phs idx k tries ≡ moved trial t
        → (sk u : ℕ) × (step_try w cur phs u idx sk ≡ accepted trial)
    unfolding sweep_steps
    sweep_steps-moved idx zero tries t e = cc
    sweep_steps-moved idx (suc k) tries t e = elim (round-moved _ tries _ trial t e) [
      | inl made ↦ (k, tries + 1, made)
      | inr later ↦ sweep_steps-moved idx k (tries + 1) t later
    ]

    chained-moved :
        (s : Sweep) (rest : ℕ → Sweep) (t : ℕ)
        → (elim s as (λ _. Sweep) [
          | Sweep.gave_up ↦ Sweep.gave_up
          | moved made u ↦ moved made u
          | still u ↦ rest u
        ])
          ≡ moved trial t
        → (s ≡ moved trial t) ⊎ ((u : ℕ) × (rest u ≡ moved trial t))
    chained-moved Sweep.gave_up rest t e = cc
    chained-moved (moved made u) rest t e = inl e
    chained-moved (still u) rest t e = inr (u, e)

    sweep_all_steps-moved :
        (j tries t : ℕ)
        → sweep_all_steps w cur phs j tries ≡ moved trial t
        → (idx sk u : ℕ) × (step_try w cur phs u idx sk ≡ accepted trial)
    unfolding sweep_all_steps
    sweep_all_steps-moved zero tries t e = cc
    sweep_all_steps-moved (suc j) tries t e =
        elim (chained-moved _ (sweep_all_steps w cur phs j) t e) [
          | inl here ↦
              let (sk, u, made) =
                sweep_steps-moved j (phase_steps w cur phs (suite_list_at phs j)) tries t here in
              (j, sk, u, made)
          | inr (v, later) ↦ sweep_all_steps-moved j v t later
        ]

  pub phases_pass-DropsPhase :
      (cur trial : Bytes) (tries t : ℕ)
      → phases_pass w cur tries ≡ moved trial t
      → DropsPhase cur trial
  unfolding phases_pass
  phases_pass-DropsPhase cur trial tries t e =
      let (root, read, swept_to) = swept-moved _ _ trial t e in
      let (idx, k, behind, made) =
        sweep_phases-moved cur (phases_of root) trial _ tries t swept_to in
      let (cut, fails) : Accepts w k cur (accepted trial) =
        rw made at (phase_try-Accepts w cur (phases_of root) k idx) in
      record {
        tries = tries;
        root = root;
        idx = idx;
        t = k;
        read = read;
        behind = behind;
        made = made;
        cut = cut;
        fails = fails;
      }

  pub steps_pass-DropsStep :
      (cur trial : Bytes) (tries t : ℕ)
      → steps_pass w cur tries ≡ moved trial t
      → DropsStep cur trial
  unfolding steps_pass
  steps_pass-DropsStep cur trial tries t e =
      let (root, read, swept_to) = swept-moved _ _ trial t e in
      let (idx, sk, u, made) =
        sweep_all_steps-moved cur (phases_of root) trial _ tries t swept_to in
      let (cut, fails) : Accepts w u cur (accepted trial) =
        rw made at (step_try-Accepts w cur (phases_of root) u idx sk) in
      record {
        tries = tries;
        root = root;
        idx = idx;
        sk = sk;
        t = u;
        read = read;
        made = made;
        cut = cut;
        fails = fails;
      }
