-- ===== src/Nemesis/Minimize.antt =====
-- suite/nemesis.c: the minimizer, `nemesis_minimize`. What it cannot control is a `World`: the
-- outcomes of the allocations and the verdicts of the oracle, by the number of the try.
pub mod Result
pub mod Drops
pub mod Least
use resonance.Prelude.{
  codes, ℕ, zero, suc, ◌+◌, ◌-◌, Bool, true, false, Option, none, some, List, [], ◌∷◌,
  if◌then◌else◌, ltb, leb, ◌==◌,
}
use resonance.Prelude.Int.{ℤ, pos, negsuc}
use resonance.Suite.{Bytes, SuiteNode, Parsed, ok, failed, out_of_fuel}
use resonance.Suite.Document.{suite_parse}
use resonance.Suite.Tree.{suite_map_find, suite_list_len, suite_list_at}
use resonance.Nemesis.{max_pass, max_try}
use resonance.Nemesis.Valid.{trial_valid}
use resonance.Nemesis.Cuts.{line_starts, trial_no_phase, trial_no_step}

pub record World : Type 0 where
  -- The reader's allocations in a try, and when the text is read again behind that many tries.
  pub trial_mem : ℕ → ℕ → Bool
  pub phases_mem : ℕ → ℕ → Bool
  pub steps_mem : ℕ → ℕ → Bool
  -- The allocations of the table of lines and of the trial's text.
  pub table_mem : ℕ → Bool
  pub text_mem : ℕ → Bool
  -- What the oracle returns of a text in a file; `none` if the temporary file is not written.
  pub oracle : ℕ → Bytes → Option ℤ

-- A verdict is 0 for a pass, 1 for a failure and 2 for a skip.
abbrev verdict : ℤ → Option ℕ
verdict (pos v) = if ltb 2 v then none else some v
verdict (negsuc v) = none

abbrev judged : Option ℤ → Option ℕ
judged none = none
judged (some v) = verdict v

-- `none` is `*bad`.
unfoldable pub call_oracle : World → ℕ → Bytes → Option ℕ
call_oracle w t text = judged (w.oracle t text)

pub data Attempt : Type 0 where
  -- The minimizer gives up.
  gave_up : Attempt
  rejected : Attempt
  accepted : Bytes → Attempt

abbrev pub judge : Option ℕ → Bytes → Attempt
judge none trial = gave_up
judge (some v) trial = if v == 1 then accepted trial else rejected

-- Try `t` on a trial's text.
unfoldable pub tried : World → ℕ → Option Bytes → Attempt
tried w t none = rejected
tried w t (some trial) =
    if trial_valid (w.trial_mem t) trial then judge (call_oracle w t trial) trial else rejected

-- Try `t`, at a trial that is made from the table of lines.
unfoldable pub attempt : World → ℕ → Bytes → (List ℕ → Option Bytes) → Attempt
attempt w t cur make = elim (line_starts (w.table_mem t) cur) [
  | none ↦ gave_up
  | some tab ↦ tried w t (make tab)
]

-- A sweep, with the number of tries: it ends at the first trial that still fails.
pub data Sweep : Type 0 where
  gave_up : Sweep
  moved : Bytes → ℕ → Sweep
  still : ℕ → Sweep

-- Where the sweep goes on behind a try that is rejected.
abbrev pub onward : Attempt → ℕ → Sweep → Sweep
onward Attempt.gave_up tries rest = Sweep.gave_up
onward rejected tries rest = rest
onward (accepted trial) tries rest = moved trial tries

module _ (w : World) (cur : Bytes) (phs : Option SuiteNode) where
  abbrev pub phase_try : ℕ → ℕ → Attempt
  phase_try tries idx = attempt w tries cur λ tab. trial_no_phase (w.text_mem tries) cur tab phs idx

  abbrev pub step_try : ℕ → ℕ → ℕ → Attempt
  step_try tries idx sk =
      attempt w tries cur λ tab. trial_no_step (w.text_mem tries) cur tab phs idx sk

  -- The phases below `j`, last to first, but for phase 0.
  unfoldable pub sweep_phases : (j tries : ℕ) → Sweep
  sweep_phases zero tries = still tries
  sweep_phases (suc zero) tries = still tries
  sweep_phases (suc (suc i)) tries =
      let rest = sweep_phases (suc i) (tries + 1) in
      if leb max_try tries
      then still tries
      else onward (phase_try (tries + 1) (suc i)) (tries + 1) rest

  -- The steps below `k` of phase `idx`, last to first.
  unfoldable pub sweep_steps : (idx k tries : ℕ) → Sweep
  sweep_steps idx zero tries = still tries
  sweep_steps idx (suc sk) tries =
      let rest = sweep_steps idx sk (tries + 1) in
      if leb max_try tries
      then still tries
      else onward (step_try (tries + 1) idx sk) (tries + 1) rest

  abbrev pub phase_steps : Option SuiteNode → ℕ
  phase_steps none = 0
  phase_steps (some ph) = suite_list_len (suite_map_find (some ph) (codes "do"))

  -- The steps of the phases below `j`, last to first.
  unfoldable pub sweep_all_steps : (j tries : ℕ) → Sweep
  sweep_all_steps zero tries = still tries
  sweep_all_steps (suc idx) tries =
      elim (sweep_steps idx (phase_steps (suite_list_at phs idx)) tries) [
        | Sweep.gave_up ↦ Sweep.gave_up
        | moved trial t ↦ moved trial t
        | still t ↦ sweep_all_steps idx t
      ]

-- `nemesis_minimize` returns false, or has a text to write behind a number of tries.
pub data Loop : Type 0 where
  refused : Loop
  ended : Bytes → ℕ → Loop
  no_fuel : Loop

abbrev pub phases_of : SuiteNode → Option SuiteNode
phases_of root = suite_map_find (some root) (codes "phases")

abbrev pub swept_phases : Option SuiteNode → (Option SuiteNode → Sweep) → Sweep
swept_phases none sweep = Sweep.gave_up
swept_phases (some phs) sweep = sweep (some phs)

-- The text is read again, and its phases are swept.
abbrev pub swept : Parsed SuiteNode → (Option SuiteNode → Sweep) → Sweep
swept (failed e) sweep = Sweep.gave_up
swept out_of_fuel sweep = Sweep.gave_up
swept (ok root) sweep = swept_phases (phases_of root) sweep

unfoldable pub phases_pass : World → Bytes → ℕ → Sweep
phases_pass w cur tries =
    swept (suite_parse (w.phases_mem tries) cur)
      λ phs. sweep_phases w cur phs (suite_list_len phs) tries

unfoldable pub steps_pass : World → Bytes → ℕ → Sweep
steps_pass w cur tries =
    swept (suite_parse (w.steps_mem tries) cur)
      λ phs. sweep_all_steps w cur phs (suite_list_len phs) tries

-- Behind a pass over `cur`: only a trial that it accepts is swept again.
abbrev pub looped : Bytes → Sweep → (Bytes → ℕ → Loop) → Loop
looped cur Sweep.gave_up again = refused
looped cur (still t) again = ended cur t
looped cur (moved trial t) again = again trial t

-- The passes over the phases, as long as one moves: a pass that moves starts the count again.
unfoldable pub phases_loop : (fuel : ℕ) → World → Bytes → (tries : ℕ) → Loop
phases_loop zero w cur tries = no_fuel
phases_loop (suc fuel) w cur tries =
    if leb max_try tries
    then ended cur tries
    else looped cur (phases_pass w cur tries) (phases_loop fuel w)

-- At most `passes` passes over the steps.
unfoldable pub steps_loop : (passes : ℕ) → World → Bytes → (tries : ℕ) → Loop
steps_loop zero w cur tries = ended cur tries
steps_loop (suc passes) w cur tries =
    if leb max_try tries
    then ended cur tries
    else looped cur (steps_pass w cur tries) (steps_loop passes w)

abbrev pub after_phases : World → Loop → Loop
after_phases w refused = refused
after_phases w no_fuel = no_fuel
after_phases w (ended cur tries) = steps_loop max_pass w cur tries

abbrev pub failed_by : Option ℕ → Bool
failed_by none = false
failed_by (some v) = v == 1

-- `read` is the file, `none` if it is not read. The first try, number 0, is at the file itself.
unfoldable pub nemesis_minimize : World → Option Bytes → Loop
nemesis_minimize w none = refused
nemesis_minimize w (some cur) =
    if trial_valid (w.trial_mem 0) cur
    then (if failed_by (call_oracle w 0 cur)
        then after_phases w (phases_loop (suc max_try) w cur 0)
        else refused)
    else refused
