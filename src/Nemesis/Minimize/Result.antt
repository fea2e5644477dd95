-- ===== src/Nemesis/Minimize/Result.antt =====
-- What `nemesis_minimize` of suite/nemesis.c writes.
use resonance.Prelude.{
  ℕ, zero, suc, ◌+◌, ◌≤◌, ◌<◌, ◌≡◌, ◌≢◌, refl, ◌∙◌, ap, true, inl, inr, Option, none, some, List,
  if◌then◌else◌, leb, ◌==◌, ==_iff, arith, Bool-cases, Option-cases, length,
}
use resonance.Suite.{Bytes, SuiteNode, Parsed, ok, failed, out_of_fuel}
use resonance.Suite.Tree.{suite_list_len, suite_list_at}
use resonance.Nemesis.{max_pass, max_try}
use resonance.Nemesis.Valid.{trial_valid}
use resonance.Nemesis.Cuts.{line_starts}
use resonance.Nemesis.Cuts.Lines.{
  IsCut, IsCut-length, line_off-AtLine, no_phase-IsCut, no_step-IsCut,
}
use resonance.Nemesis.Minimize.{
  World, call_oracle, Attempt, rejected, accepted, judge, tried, attempt, Sweep, moved, still,
  onward, phase_try, step_try, sweep_phases, sweep_steps, phase_steps, sweep_all_steps, Loop,
  refused, ended, no_fuel, phases_of, swept_phases, swept, looped, failed_by, phases_pass,
  steps_pass, phases_loop, steps_loop, after_phases, nemesis_minimize,
}

-- A text reached from another by cuts of whole lines, one after the other.
pub data Shrinks (text : Bytes) : Bytes → Type 0 where
  same : Shrinks text text
  cut : {s t : Bytes} → Shrinks text s → IsCut s t → Shrinks text t

pub Shrinks-length : {text t : Bytes} → Shrinks text t → length t ≤ length text
Shrinks-length same = omega arith
Shrinks-length (cut s c) = omega (arith, Shrinks-length s, IsCut-length c)

module _ (w : World) where
  -- The text is a valid trial, and the oracle fails it, in try `t`.
  abbrev pub FailsAt : ℕ → Bytes → Type 0
  FailsAt t text = (trial_valid (w.trial_mem t) text ≡ true) × (call_oracle w t text ≡ some 1)

  -- What a try accepts.
  abbrev pub Accepts : ℕ → Bytes → Attempt → Type 0
  Accepts t cur Attempt.gave_up = Unit {0}
  Accepts t cur rejected = Unit {0}
  Accepts t cur (accepted trial) = IsCut cur trial × FailsAt t trial

  judge-Accepts :
      (t : ℕ) (cur trial : Bytes)
      → IsCut cur trial
      → trial_valid (w.trial_mem t) trial ≡ true
      → (v : Option ℕ) → call_oracle w t trial ≡ v
      → Accepts t cur (judge v trial)
  judge-Accepts t cur trial c valid none e = tt
  judge-Accepts t cur trial c valid (some v) e = elim (Bool-cases (v == 1)) [
    | inl fails ↦ rw fails (c, (valid, e ∙ ap some ((==_iff v 1).0 fails)))
    | inr other ↦ rw other tt
  ]

  tried-Accepts :
      (t : ℕ) (cur : Bytes) (made : Option Bytes)
      → ((trial : Bytes) → made ≡ some trial → IsCut cur trial)
      → Accepts t cur (tried w t made)
  unfolding tried
  tried-Accepts t cur none c = tt
  tried-Accepts t cur (some trial) c = elim (Bool-cases (trial_valid (w.trial_mem t) trial)) [
    | inl valid ↦ rw valid (judge-Accepts t cur trial (c trial refl) valid _ refl)
    | inr invalid ↦ rw invalid tt
  ]

  attempt-Accepts :
      (t : ℕ) (cur : Bytes) (make : List ℕ → Option Bytes)
      → ((tab : List ℕ)
          → line_starts (w.table_mem t) cur ≡ some tab
          → (trial : Bytes) → make tab ≡ some trial
          → IsCut cur trial)
      → Accepts t cur (attempt w t cur make)
  unfolding attempt
  attempt-Accepts t cur make c = elim (Option-cases (line_starts (w.table_mem t) cur)) [
    | inl no_room ↦ rw (attempt, no_room) tt
    | inr (tab, made) ↦ rw (attempt, made) (tried-Accepts t cur (make tab) (c tab made))
  ]

  pub phase_try-Accepts :
      (cur : Bytes) (phs : Option SuiteNode) (t idx : ℕ) → Accepts t cur (phase_try w cur phs t idx)
  phase_try-Accepts cur phs t idx = attempt-Accepts t cur _ λ tab made trial e.
      no_phase-IsCut (w.text_mem t) cur tab (line_off-AtLine (w.table_mem t) cur tab made) phs trial
        idx e

  pub step_try-Accepts :
      (cur : Bytes) (phs : Option SuiteNode) (t idx sk : ℕ)
      → Accepts t cur (step_try w cur phs t idx sk)
  step_try-Accepts cur phs t idx sk = attempt-Accepts t cur _ λ tab made trial e.
      no_step-IsCut (w.text_mem t) cur tab (line_off-AtLine (w.table_mem t) cur tab made) phs trial
        idx sk e

  -- What a sweep of `cur` behind `tries` tries comes to.
  abbrev pub Sweeps : Bytes → ℕ → Sweep → Type 0
  Sweeps cur tries Sweep.gave_up = Unit {0}
  Sweeps cur tries (still t) = (tries ≤ t) × (t ≤ max_try)
  Sweeps cur tries (moved trial t) =
      (tries < t) × (t ≤ max_try) × (IsCut cur trial × FailsAt t trial)

  Sweeps-later :
      (cur : Bytes) (tries : ℕ) (s : Sweep) → Sweeps cur (tries + 1) s → Sweeps cur tries s
  Sweeps-later cur tries Sweep.gave_up h = tt
  Sweeps-later cur tries (still t) h = (omega (arith, h.0), h.1)
  Sweeps-later cur tries (moved trial t) h = (omega (arith, h.0), h.1, h.2)

  onward-Sweeps :
      (cur : Bytes) (tries : ℕ) (a : Attempt) (rest : Sweep)
      → Accepts (tries + 1) cur a
      → tries < max_try
      → Sweeps cur (tries + 1) rest
      → Sweeps cur tries (onward a (tries + 1) rest)
  onward-Sweeps cur tries Attempt.gave_up rest h room hs = tt
  onward-Sweeps cur tries rejected rest h room hs = Sweeps-later cur tries rest hs
  onward-Sweeps cur tries (accepted trial) rest h room hs = (omega arith, omega (arith, room), h)

  -- A round of a sweep: nothing more once the tries are used up, else a try and the rest.
  round-Sweeps :
      (cur : Bytes) (tries : ℕ) (a : Attempt) (rest : Sweep)
      → tries ≤ max_try
      → Accepts (tries + 1) cur a
      → (tries + 1 ≤ max_try → Sweeps cur (tries + 1) rest)
      → Sweeps cur tries (if leb max_try tries then still tries else onward a (tries + 1) rest)
  round-Sweeps cur tries a rest h ha hs = elim (Bool-cases (leb max_try tries)) [
    | inl used ↦ rw used (omega arith, h)
    | inr left ↦
        let room : tries < max_try = ground (arith, left) in
        rw left (onward-Sweeps cur tries a rest ha room (hs (omega (arith, room))))
  ]

  module _ (cur : Bytes) (phs : Option SuiteNode) where
    sweep_phases-Sweeps :
        (j tries : ℕ) → tries ≤ max_try → Sweeps cur tries (sweep_phases w cur phs j tries)
    unfolding sweep_phases
    sweep_phases-Sweeps zero tries h = (omega arith, h)
    sweep_phases-Sweeps (suc zero) tries h = (omega arith, h)
    sweep_phases-Sweeps (suc (suc i)) tries h =
        round-Sweeps cur tries _ _ h (phase_try-Accepts cur phs (tries + 1) (suc i))
          λ more. sweep_phases-Sweeps (suc i) (tries + 1) more

    pub sweep_steps-Sweeps :
        (idx k tries : ℕ) → tries ≤ max_try → Sweeps cur tries (sweep_steps w cur phs idx k tries)
    unfolding sweep_steps
    sweep_steps-Sweeps idx zero tries h = (omega arith, h)
    sweep_steps-Sweeps idx (suc sk) tries h =
        round-Sweeps cur tries _ _ h (step_try-Accepts cur phs (tries + 1) idx sk)
          λ more. sweep_steps-Sweeps idx sk (tries + 1) more

    Sweeps-behind : (tries t : ℕ) (s : Sweep) → tries ≤ t → Sweeps cur t s → Sweeps cur tries s
    Sweeps-behind tries t Sweep.gave_up h hs = tt
    Sweeps-behind tries t (still u) h hs = (omega (arith, h, hs.0), hs.1)
    Sweeps-behind tries t (moved trial u) h hs = (omega (arith, h, hs.0), hs.1, hs.2)

    -- A sweep, and what follows it where it comes to nothing.
    chained-Sweeps :
        (tries : ℕ) (s : Sweep) (rest : ℕ → Sweep)
        → Sweeps cur tries s
        → ((t : ℕ) → t ≤ max_try → Sweeps cur t (rest t))
        → Sweeps cur tries (elim s as (λ _. Sweep) [
          | Sweep.gave_up ↦ Sweep.gave_up
          | moved trial t ↦ moved trial t
          | still t ↦ rest t
        ])
    chained-Sweeps tries Sweep.gave_up rest h hr = tt
    chained-Sweeps tries (moved trial t) rest h hr = h
    chained-Sweeps tries (still t) rest h hr = Sweeps-behind tries t (rest t) h.0 (hr t h.1)

    pub sweep_all_steps-Sweeps :
        (j tries : ℕ) → tries ≤ max_try → Sweeps cur tries (sweep_all_steps w cur phs j tries)
    unfolding sweep_all_steps
    sweep_all_steps-Sweeps zero tries h = (omega arith, h)
    sweep_all_steps-Sweeps (suc idx) tries h =
        chained-Sweeps tries _ (sweep_all_steps w cur phs idx)
          (sweep_steps-Sweeps idx (phase_steps w cur phs (suite_list_at phs idx)) tries h)
          (sweep_all_steps-Sweeps idx)

  swept_phases-Sweeps :
      (cur : Bytes) (tries : ℕ) (phs : Option SuiteNode) (sweep : Option SuiteNode → Sweep)
      → ((phs : Option SuiteNode) → Sweeps cur tries (sweep phs))
      → Sweeps cur tries (swept_phases phs sweep)
  swept_phases-Sweeps cur tries none sweep h = tt
  swept_phases-Sweeps cur tries (some phs) sweep h = h (some phs)

  swept-Sweeps :
      (cur : Bytes) (tries : ℕ) (p : Parsed SuiteNode) (sweep : Option SuiteNode → Sweep)
      → ((phs : Option SuiteNode) → Sweeps cur tries (sweep phs))
      → Sweeps cur tries (swept p sweep)
  swept-Sweeps cur tries (failed e) sweep h = tt
  swept-Sweeps cur tries out_of_fuel sweep h = tt
  swept-Sweeps cur tries (ok root) sweep h = swept_phases-Sweeps cur tries (phases_of root) sweep h

  pub phases_pass-Sweeps :
      (cur : Bytes) (tries : ℕ) → tries ≤ max_try → Sweeps cur tries (phases_pass w cur tries)
  unfolding phases_pass
  phases_pass-Sweeps cur tries h =
      swept-Sweeps cur tries _ _ λ phs. sweep_phases-Sweeps cur phs (suite_list_len phs) tries h

  pub steps_pass-Sweeps :
      (cur : Bytes) (tries : ℕ) → tries ≤ max_try → Sweeps cur tries (steps_pass w cur tries)
  unfolding steps_pass
  steps_pass-Sweeps cur tries h =
      swept-Sweeps cur tries _ _ λ phs. sweep_all_steps-Sweeps cur phs (suite_list_len phs) tries h

  -- The text, and the try in which it was seen to fail.
  abbrev pub FailedBy : ℕ → Bytes → Type 0
  FailedBy tries text = (t : ℕ) × (t ≤ tries) × FailsAt t text

  -- What a loop comes to that starts from `text`.
  abbrev Loops : Bytes → Loop → Type 0
  Loops text refused = Unit {0}
  Loops text no_fuel = ⊥
  Loops text (ended out t) = (t ≤ max_try) × (Shrinks text out × FailedBy t out)

  module _ (text : Bytes) where
    looped-Loops :
        (cur : Bytes) (tries : ℕ) (s : Sweep) (again : Bytes → ℕ → Loop)
        → Shrinks text cur
        → FailedBy tries cur
        → Sweeps cur tries s
        → ((trial : Bytes) (t : ℕ)
            → tries < t
            → t ≤ max_try
            → Shrinks text trial
            → FailedBy t trial
            → Loops text (again trial t))
        → Loops text (looped cur s again)
    looped-Loops cur tries Sweep.gave_up again sh f hs ha = tt
    looped-Loops cur tries (still t) again sh (u, below, fails) hs ha =
        (hs.1, (sh, (u, omega (arith, below, hs.0), fails)))
    looped-Loops cur tries (moved trial t) again sh f hs ha =
        ha trial t hs.0 hs.1 (cut sh hs.2.0) (t, omega arith, hs.2.1)

    phases_loop-Loops :
        (fuel : ℕ) (cur : Bytes) (tries : ℕ)
        → max_try < fuel + tries
        → tries ≤ max_try
        → Shrinks text cur
        → FailedBy tries cur
        → Loops text (phases_loop fuel w cur tries)
    unfolding phases_loop
    phases_loop-Loops zero cur tries enough h sh f = absurd (omega (arith, enough, h))
    phases_loop-Loops (suc fuel) cur tries enough h sh f = elim (Bool-cases (leb max_try tries)) [
      | inl used ↦ rw used (h, (sh, f))
      | inr left ↦ rw left (
          looped-Loops cur tries _ (phases_loop fuel w) sh f (phases_pass-Sweeps cur tries h)
            λ trial t more room sh' f'.
              phases_loop-Loops fuel trial t (omega (arith, enough, more)) room sh' f')
    ]

    steps_loop-Loops :
        (passes : ℕ) (cur : Bytes) (tries : ℕ)
        → tries ≤ max_try
        → Shrinks text cur
        → FailedBy tries cur
        → Loops text (steps_loop passes w cur tries)
    unfolding steps_loop
    steps_loop-Loops zero cur tries h sh f = (h, (sh, f))
    steps_loop-Loops (suc passes) cur tries h sh f = elim (Bool-cases (leb max_try tries)) [
      | inl used ↦ rw used (h, (sh, f))
      | inr left ↦ rw left (
          looped-Loops cur tries _ (steps_loop passes w) sh f (steps_pass-Sweeps cur tries h)
            λ trial t more room sh' f'. steps_loop-Loops passes trial t room sh' f')
    ]

    after_phases-Loops : (l : Loop) → Loops text l → Loops text (after_phases w l)
    after_phases-Loops refused h = tt
    after_phases-Loops no_fuel h = elim h [ ]
    after_phases-Loops (ended cur t) h = steps_loop-Loops max_pass cur t h.0 h.1.0 h.1.1

  failed_by-eq : (v : Option ℕ) → failed_by v ≡ true → v ≡ some 1
  failed_by-eq none e = cc
  failed_by-eq (some v) e = ap some ((==_iff v 1).0 e)

  minimized : (text : Bytes) → Loops text (nemesis_minimize w (some text))
  unfolding nemesis_minimize
  minimized text = elim (Bool-cases (trial_valid (w.trial_mem 0) text)) [
    | inr invalid ↦ rw invalid tt
    | inl valid ↦ elim (Bool-cases (failed_by (call_oracle w 0 text))) [
      | inr passes ↦ rw (valid, passes) tt
      | inl fails ↦
          let seen : FailsAt 0 text = (valid, failed_by-eq (call_oracle w 0 text) fails) in
          rw (valid, fails)
            (after_phases-Loops text _ (
              phases_loop-Loops text (suc max_try) text 0 (omega arith) (omega arith) same
                (0, omega arith, seen)))
    ]
  ]

  -- A text that is written is gained from the one that was read by cuts of whole lines, one after
  -- the other; it is a valid trial which the oracle failed in one of the tries; and there are at
  -- most 512 tries behind the first.
  pub nemesis_minimize-Shrinks :
      (text out : Bytes) (t : ℕ)
      → nemesis_minimize w (some text) ≡ ended out t
      → (t ≤ max_try) × (Shrinks text out × FailedBy t out)
  nemesis_minimize-Shrinks text out t e = rw e at (minimized text)

  -- The loops end, whatever the oracle says and whichever allocation fails.
  pub nemesis_minimize_ends : (read : Option Bytes) → nemesis_minimize w read ≢ no_fuel
  unfolding nemesis_minimize
  nemesis_minimize_ends none e = cc
  nemesis_minimize_ends (some text) e = rw e at (minimized text)
