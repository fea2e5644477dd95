-- ===== src/Nemesis/Minimize/Least.antt =====
-- What is left to drop of a text that `nemesis_minimize` of suite/nemesis.c writes.
use resonance.Prelude.{
  ℕ, zero, suc, ◌+◌, ◌≤◌, ◌<◌, ◌≡◌, refl, sym, ap, ◌⊎◌, inl, inr, Option, some, if◌then◌else◌, leb,
  arith, Bool-cases, Option-cases, dec_lt,
}
use resonance.Suite.{Bytes, SuiteNode, Parsed, ok, failed, out_of_fuel}
use resonance.Suite.Document.{suite_parse}
use resonance.Suite.Tree.{suite_list_len, suite_list_at}
use resonance.Nemesis.{max_pass, max_try}
use resonance.Nemesis.Valid.{trial_valid}
use resonance.Nemesis.Minimize.Result.{
  Sweeps, sweep_steps-Sweeps, sweep_all_steps-Sweeps, steps_pass-Sweeps, phases_pass-Sweeps,
}
use resonance.Nemesis.Minimize.Drops.{
  Chain, done, step, DropsPhase, DropsStep, phases_pass-DropsPhase, steps_pass-DropsStep,
}
use resonance.Nemesis.Minimize.{
  World, call_oracle, Attempt, rejected, accepted, Sweep, moved, still, onward, phase_try, step_try,
  sweep_phases, sweep_steps, phase_steps, sweep_all_steps, Loop, refused, ended, no_fuel, phases_of,
  swept, looped, failed_by, phases_pass, steps_pass, phases_loop, steps_loop, after_phases,
  nemesis_minimize,
}

onward-still :
    (a : Attempt) (n : ℕ) (rest : Sweep) (t : ℕ)
    → onward a n rest ≡ still t
    → (a ≡ rejected) × (rest ≡ still t)
onward-still Attempt.gave_up n rest t e = cc
onward-still rejected n rest t e = (refl, e)
onward-still (accepted trial) n rest t e = cc

-- A round of a sweep that comes to nothing before the tries are used up.
round-still :
    (a : Attempt) (tries : ℕ) (rest : Sweep) (t : ℕ)
    → (if leb max_try tries then still tries else onward a (tries + 1) rest) ≡ still t
    → t < max_try
    → (a ≡ rejected) × (rest ≡ still t)
round-still a tries rest t e less = elim (Bool-cases (leb max_try tries)) [
  | inl used ↦ let same : tries ≡ t = cc (rw used at e) in absurd (ground (arith, used, same, less))
  | inr left ↦ onward-still a (tries + 1) rest t (rw left at e)
]

module _ (w : World) where
  module _ (cur : Bytes) (phs : Option SuiteNode) where
    -- Some try without the phase, or without the step, was rejected.
    abbrev pub KeepsPhase : ℕ → Type 0
    KeepsPhase idx = (t : ℕ) × (phase_try w cur phs t idx ≡ rejected)

    abbrev pub KeepsStep : ℕ → ℕ → Type 0
    KeepsStep idx sk = (t : ℕ) × (step_try w cur phs t idx sk ≡ rejected)

    sweep_phases-KeepsPhase :
        (j tries t : ℕ)
        → sweep_phases w cur phs j tries ≡ still t
        → t < max_try
        → (idx : ℕ) → 1 ≤ idx
        → idx < j
        → KeepsPhase idx
    unfolding sweep_phases
    sweep_phases-KeepsPhase zero tries t e less idx above below = absurd (omega (arith, below))
    sweep_phases-KeepsPhase (suc zero) tries t e less idx above below =
        absurd (omega (arith, below, above))
    sweep_phases-KeepsPhase (suc (suc i)) tries t e less idx above below =
        let (here, rest) : (phase_try w cur phs (tries + 1) (suc i) ≡ rejected)
            × (sweep_phases w cur phs (suc i) (tries + 1) ≡ still t) =
          round-still _ tries _ t e less in
        elim (dec_lt idx (suc i)) [
          | yes before ↦ sweep_phases-KeepsPhase (suc i) (tries + 1) t rest less idx above before
          | no last ↦
              let same : idx ≡ suc i = omega (arith, below, last) in rw same (tries + 1, here)
        ]

    sweep_steps-KeepsStep :
        (idx k tries t : ℕ)
        → sweep_steps w cur phs idx k tries ≡ still t
        → t < max_try
        → (sk : ℕ) → sk < k
        → KeepsStep idx sk
    unfolding sweep_steps
    sweep_steps-KeepsStep idx zero tries t e less sk below = absurd (omega (arith, below))
    sweep_steps-KeepsStep idx (suc k) tries t e less sk below =
        let (here, rest) : (step_try w cur phs (tries + 1) idx k ≡ rejected)
            × (sweep_steps w cur phs idx k (tries + 1) ≡ still t) =
          round-still _ tries _ t e less in
        elim (dec_lt sk k) [
          | yes before ↦ sweep_steps-KeepsStep idx k (tries + 1) t rest less sk before
          | no last ↦ let same : sk ≡ k = omega (arith, below, last) in rw same (tries + 1, here)
        ]

    chained-still :
        (s : Sweep) (rest : ℕ → Sweep) (t : ℕ)
        → (elim s as (λ _. Sweep) [
          | Sweep.gave_up ↦ Sweep.gave_up
          | moved trial u ↦ moved trial u
          | still u ↦ rest u
        ])
          ≡ still t
        → (u : ℕ) × (s ≡ still u) × (rest u ≡ still t)
    chained-still Sweep.gave_up rest t e = cc
    chained-still (moved trial u) rest t e = cc
    chained-still (still u) rest t e = (u, refl, e)

    sweep_all_steps-KeepsStep :
        (j tries t : ℕ)
        → sweep_all_steps w cur phs j tries ≡ still t
        → tries ≤ max_try
        → t < max_try
        → (idx sk : ℕ) → idx < j
        → sk < phase_steps w cur phs (suite_list_at phs idx)
        → KeepsStep idx sk
    unfolding sweep_all_steps
    sweep_all_steps-KeepsStep zero tries t e room less idx sk below inside =
        absurd (omega (arith, below))
    sweep_all_steps-KeepsStep (suc j) tries t e room less idx sk below inside =
        let (u, here, rest) = chained-still _ (sweep_all_steps w cur phs j) t e in
        let first : (tries ≤ u) × (u ≤ max_try) = rw here at (
          sweep_steps-Sweeps w cur phs j (phase_steps w cur phs (suite_list_at phs j)) tries
            room) in
        let second : (u ≤ t) × (t ≤ max_try) =
          rw rest at (sweep_all_steps-Sweeps w cur phs j u first.1) in
        elim (dec_lt idx j) [
          | yes before ↦ sweep_all_steps-KeepsStep j u t rest first.1 less idx sk before inside
          | no last ↦
              let same : idx ≡ j = omega (arith, below, last) in
              sweep_steps-KeepsStep idx (phase_steps w cur phs (suite_list_at phs idx)) tries u
                (rw same here) (omega (arith, second.0, less)) sk inside
        ]

  -- No phase of the text but the first can be dropped: the text is read, and for each there is a
  -- try without it that was rejected.
  abbrev pub NoPhaseToDrop : Bytes → Type 0
  NoPhaseToDrop cur =
      (t : ℕ) × ((root : SuiteNode) × (suite_parse (w.phases_mem t) cur ≡ ok root)
        × ((idx : ℕ)
            → 1 ≤ idx
            → idx < suite_list_len (phases_of root)
            → KeepsPhase cur (phases_of root) idx))

  abbrev pub NoStepToDrop : Bytes → Type 0
  NoStepToDrop cur =
      (t : ℕ) × ((root : SuiteNode) × (suite_parse (w.steps_mem t) cur ≡ ok root)
        × ((idx sk : ℕ)
            → idx < suite_list_len (phases_of root)
            → sk < phase_steps w cur (phases_of root) (suite_list_at (phases_of root) idx)
            → KeepsStep cur (phases_of root) idx sk))

  swept-still :
      (p : Parsed SuiteNode) (sweep : Option SuiteNode → Sweep) (t : ℕ)
      → swept p sweep ≡ still t
      → (root : SuiteNode) × (p ≡ ok root) × (sweep (phases_of root) ≡ still t)
  swept-still (failed err) sweep t e = cc
  swept-still out_of_fuel sweep t e = cc
  swept-still (ok root) sweep t e = elim (Option-cases (phases_of root)) [
    | inl gone ↦ cc (rw (swept, gone) at e)
    | inr (phs, here) ↦ (root, refl, rw here (rw (swept, here) at e))
  ]

  phases_pass-NoPhaseToDrop :
      (cur : Bytes) (tries t : ℕ)
      → phases_pass w cur tries ≡ still t
      → t < max_try
      → NoPhaseToDrop cur
  unfolding phases_pass
  phases_pass-NoPhaseToDrop cur tries t e less =
      let (root, read, end) = swept-still _ _ t e in
      (tries, (root, read, sweep_phases-KeepsPhase cur (phases_of root) _ tries t end less))

  steps_pass-NoStepToDrop :
      (cur : Bytes) (tries t : ℕ)
      → steps_pass w cur tries ≡ still t
      → tries ≤ max_try
      → t < max_try
      → NoStepToDrop cur
  unfolding steps_pass
  steps_pass-NoStepToDrop cur tries t e room less =
      let (root, read, end) = swept-still _ _ t e in
      (tries, (root, read, sweep_all_steps-KeepsStep cur (phases_of root) _ tries t end room less))

  -- A loop ends at its text, or behind the trial that a pass accepts.
  looped-ended :
      (cur : Bytes) (s : Sweep) (again : Bytes → ℕ → Loop) (out : Bytes) (t : ℕ)
      → looped cur s again ≡ ended out t
      → ((s ≡ still t) × (cur ≡ out))
        ⊎ ((trial : Bytes) × ((u : ℕ) × (s ≡ moved trial u) × (again trial u ≡ ended out t)))
  looped-ended cur Sweep.gave_up again out t e = cc
  looped-ended cur (still u) again out t e = inl (cc, cc)
  looped-ended cur (moved trial u) again out t e = inr (trial, (u, refl, e))

  phases_loop-Chain :
      (fuel : ℕ) (cur : Bytes) (tries : ℕ) (out : Bytes) (t : ℕ)
      → phases_loop fuel w cur tries ≡ ended out t
      → t < max_try
      → NoPhaseToDrop out × ((n : ℕ) × Chain (DropsPhase w) n cur out)
  unfolding phases_loop
  phases_loop-Chain zero cur tries out t e less = cc
  phases_loop-Chain (suc fuel) cur tries out t e less = elim (Bool-cases (leb max_try tries)) [
    | inl used ↦
        let same : tries ≡ t = cc (rw used at e) in absurd (ground (arith, used, same, less))
    | inr left ↦
        elim (looped-ended cur (phases_pass w cur tries) (phases_loop fuel w) out t
          (rw left at e)) [
            | inl (end, same) ↦
                (rw (sym same) (phases_pass-NoPhaseToDrop cur tries t end less), (0, rw same done))
            | inr (trial, (u, moves, rest)) ↦
                let (least, (n, chain)) = phases_loop-Chain fuel trial u out t rest less in
                (least, (suc n, step (phases_pass-DropsPhase w cur trial tries u moves) chain))
          ]
  ]

  phases_loop-le :
      (fuel : ℕ) (cur : Bytes) (tries : ℕ) (out : Bytes) (t : ℕ)
      → phases_loop fuel w cur tries ≡ ended out t
      → tries ≤ max_try
      → t ≤ max_try
  unfolding phases_loop
  phases_loop-le zero cur tries out t e room = cc
  phases_loop-le (suc fuel) cur tries out t e room = elim (Bool-cases (leb max_try tries)) [
    | inl used ↦ let same : tries ≡ t = cc (rw used at e) in omega (arith, same, room)
    | inr left ↦
        elim (looped-ended cur (phases_pass w cur tries) (phases_loop fuel w) out t
          (rw left at e)) [
            | inl (end, same) ↦
                let swept : (tries ≤ t) × (t ≤ max_try) =
                  rw end at (phases_pass-Sweeps w cur tries room) in
                swept.1
            | inr (trial, (u, moves, rest)) ↦
                let swept : Sweeps w cur tries (moved trial u) =
                  rw moves at (phases_pass-Sweeps w cur tries room) in
                phases_loop-le fuel trial u out t rest swept.1
          ]
  ]

  steps_loop-ended :
      (passes : ℕ) (cur : Bytes) (tries : ℕ) (out : Bytes) (t : ℕ)
      → steps_loop passes w cur tries ≡ ended out t
      → tries ≤ max_try
      → t < max_try
      → (tries ≤ t)
        × ((m : ℕ) × Chain (DropsStep w) m cur out
            × (m ≤ passes)
            × (NoStepToDrop out ⊎ (m ≡ passes)))
  unfolding steps_loop
  steps_loop-ended zero cur tries out t e room less =
      let same : tries ≡ t = cc in
      let unmoved : cur ≡ out = cc in
      (omega (arith, same), (0, rw unmoved done, omega arith, inr refl))
  steps_loop-ended (suc passes) cur tries out t e room less =
      elim (Bool-cases (leb max_try tries)) [
        | inl used ↦
            let same : tries ≡ t = cc (rw used at e) in absurd (ground (arith, used, same, less))
        | inr left ↦
            elim (looped-ended cur (steps_pass w cur tries) (steps_loop passes w) out t
              (rw left at e)) [
                | inl (end, same) ↦ (
                  let swept : (tries ≤ t) × (t ≤ max_try) =
                        rw end at (steps_pass-Sweeps w cur tries room) in
                      swept.0,
                  (
                    0,
                    rw same done,
                    omega arith,
                    inl (rw (sym same) (steps_pass-NoStepToDrop cur tries t end room less)),
                  ),
                )
                | inr (trial, (u, moves, rest)) ↦
                    let swept : Sweeps w cur tries (moved trial u) =
                      rw moves at (steps_pass-Sweeps w cur tries room) in
                    let (later, (m, chain, few, ends)) =
                      steps_loop-ended passes trial u out t rest swept.1 less in
                    (
                      omega (arith, later, swept.0),
                      (
                        suc m,
                        step (steps_pass-DropsStep w cur trial tries u moves) chain,
                        omega (arith, few),
                        elim ends [ inl least ↦ inl least | inr all ↦ inr (ap suc all) ],
                      ),
                    )
              ]
      ]

  -- What the loop over the steps writes, from what the loop over the phases comes to.
  after_phases-ended :
      (l : Loop) (out : Bytes) (t : ℕ)
      → after_phases w l ≡ ended out t
      → (mid : Bytes) × ((u : ℕ) × (l ≡ ended mid u) × (steps_loop max_pass w mid u ≡ ended out t))
  after_phases-ended refused out t e = cc
  after_phases-ended no_fuel out t e = cc
  after_phases-ended (ended mid u) out t e = (mid, (u, refl, e))

  minimize-ended :
      (text out : Bytes) (t : ℕ)
      → nemesis_minimize w (some text) ≡ ended out t
      → after_phases w (phases_loop (suc max_try) w text 0) ≡ ended out t
  unfolding nemesis_minimize
  minimize-ended text out t e = elim (Bool-cases (trial_valid (w.trial_mem 0) text)) [
    | inr invalid ↦ cc (rw (nemesis_minimize, invalid) at e)
    | inl valid ↦ elim (Bool-cases (failed_by (call_oracle w 0 text))) [
      | inr passes ↦ cc (rw (nemesis_minimize, valid, passes) at e)
      | inl fails ↦ rw (nemesis_minimize, valid, fails) at e
    ]
  ]

  -- Where a text is written before the tries are used up, it comes in two rows of trials, each of
  -- which fails: the first drops a phase at a time and ends at a text of which no phase but the
  -- first can be dropped; the second drops at most four steps, one at a time, from there on, and
  -- ends at the text that is written, of which no step can be dropped unless it is the fourth.
  pub nemesis_minimize-NoStepToDrop :
      (text out : Bytes) (t : ℕ)
      → nemesis_minimize w (some text) ≡ ended out t
      → t < max_try
      → (mid : Bytes) × ((n m : ℕ) × Chain (DropsPhase w) n text mid
          × NoPhaseToDrop mid
          × Chain (DropsStep w) m mid out
          × (m ≤ max_pass)
          × (NoStepToDrop out ⊎ (m ≡ max_pass)))
  nemesis_minimize-NoStepToDrop text out t e less =
      let (mid, (u, phases, steps)) =
        after_phases-ended (phases_loop (suc max_try) w text 0) out t
          (minimize-ended text out t e) in
      let room : u ≤ max_try = phases_loop-le (suc max_try) text 0 mid u phases (omega arith) in
      let (later, (m, second, few, ends)) = steps_loop-ended max_pass mid u out t steps room less in
      let before : u < max_try = omega (arith, later, less) in
      let (least, (n, first)) = phases_loop-Chain (suc max_try) text 0 mid u phases before in
      (mid, (n, m, first, least, second, few, ends))
