-- ===== src/Nemesis/Tests.antt =====
-- The theorems of the minimizer at a small scenario, and runs.
use resonance.Prelude.{
  codes, ℕ, ◌≤◌, ◌≡◌, ◌≢◌, refl, true, false, ◌⊎◌, none, some, List, [], ◌∷◌, ◌++◌, arith,
}
use resonance.Prelude.Int.{pos}
use resonance.Suite.{Bytes, SuiteNode, ok}
use resonance.Suite.Samples.{
  enough, long_scenario, short_scenario, suite_parse-long, suite_parse-short,
}
use resonance.Suite.Document.{suite_parse}
use resonance.Nemesis.{max_pass, max_try}
use resonance.Nemesis.Valid.{trial_valid}
use resonance.Suite.Tree.{suite_map_find, suite_list_len, suite_list_at, suite_scalar_str}
use resonance.Nemesis.Valid.{tree_valid, cond_needs, step_is}
use resonance.Nemesis.Cuts.{line_starts, line_off, trial_no_phase}
use resonance.Nemesis.Minimize.{
  World, moved, still, ended, no_fuel, phases_loop, phases_pass, sweep_phases, attempt, tried,
  call_oracle, steps_loop, steps_pass, sweep_all_steps, sweep_steps, nemesis_minimize,
}
use resonance.Nemesis.Plan.{
  NemProfile, Phase, mesh, dwell, drop, heal, kill, submit, stop, rng_next, rng_range, rng_int,
  profile_ok, sut_copy, pick_node, pick_pto, emit_submit, emit_kill, chosen, free_phase, conc_phase,
  conc_loop, gen_conc, nemesis_gen,
}
use resonance.Nemesis.Text.{nemesis_text}
use resonance.Nemesis.Plan.Budgets.{IsAllowed, nemesis_gen-IsAllowed}
use resonance.Nemesis.Plan.Faults.{Paired, nemesis_gen-Paired}
use resonance.Nemesis.Plan.Stops.{Ordered, nemesis_gen-Ordered}
use resonance.Nemesis.Valid.Sound.{IsRunnable, trial_valid-IsRunnable}
use resonance.Nemesis.Minimize.Drops.{Chain, DropsPhase, DropsStep}
use resonance.Nemesis.Minimize.Least.{NoPhaseToDrop, NoStepToDrop, nemesis_minimize-NoStepToDrop}
use resonance.Nemesis.Minimize.Result.{
  Shrinks, FailedBy, nemesis_minimize-Shrinks, nemesis_minimize_ends,
}

-- Memory for everything, and an oracle that fails each text.
abbrev failing : World
failing = record {
  trial_mem = λ t. enough;
  phases_mem = λ t. enough;
  steps_mem = λ t. enough;
  table_mem = enough;
  text_mem = enough;
  oracle = λ t text. some (pos 1);
}

valid_long : trial_valid enough long_scenario ≡ true
unfolding trial_valid tree_valid suite_map_find suite_list_len suite_list_at suite_scalar_str
    cond_needs step_is
valid_long = rw suite_parse-long

valid_short : trial_valid enough short_scenario ≡ true
unfolding trial_valid tree_valid suite_map_find suite_list_len suite_list_at suite_scalar_str
    cond_needs step_is
valid_short = rw suite_parse-short

phases_pass-long : phases_pass failing long_scenario 0 ≡ moved short_scenario 1
unfolding phases_pass sweep_phases attempt tried call_oracle line_starts line_off trial_no_phase
    suite_map_find suite_list_len suite_list_at
phases_pass-long = rw (suite_parse-long, valid_short) refl

phases_pass-short : phases_pass failing short_scenario 1 ≡ still 1
unfolding phases_pass sweep_phases suite_map_find suite_list_len
phases_pass-short = rw suite_parse-short

steps_pass-short : steps_pass failing short_scenario 1 ≡ still 1
unfolding steps_pass sweep_all_steps sweep_steps suite_map_find suite_list_len suite_list_at
steps_pass-short = rw suite_parse-short

-- The second phase is dropped, in the first try.
minimize_long : nemesis_minimize failing (some long_scenario) ≡ ended short_scenario 1
unfolding nemesis_minimize call_oracle phases_loop steps_loop
minimize_long =
    rw (nemesis_minimize, valid_long, phases_pass-long, phases_pass-short, steps_pass-short)

-- An accepted text is a document that may run.
trial_valid-IsRunnable_example :
    (root : SuiteNode) × (suite_parse enough long_scenario ≡ ok root) × IsRunnable root
trial_valid-IsRunnable_example = trial_valid-IsRunnable enough long_scenario valid_long

nemesis_minimize-Shrinks_example :
    (1 ≤ max_try) × (Shrinks long_scenario short_scenario × FailedBy failing 1 short_scenario)
nemesis_minimize-Shrinks_example =
    nemesis_minimize-Shrinks failing long_scenario short_scenario 1 minimize_long

nemesis_minimize_ends_example : nemesis_minimize failing (some long_scenario) ≢ no_fuel
nemesis_minimize_ends_example = nemesis_minimize_ends failing (some long_scenario)

nemesis_minimize-NoStepToDrop_example :
    (mid : Bytes) × ((n m : ℕ) × Chain (DropsPhase failing) n long_scenario mid
      × NoPhaseToDrop failing mid
      × Chain (DropsStep failing) m mid short_scenario
      × (m ≤ max_pass)
      × (NoStepToDrop failing short_scenario ⊎ (m ≡ max_pass)))
nemesis_minimize-NoStepToDrop_example =
    nemesis_minimize-NoStepToDrop failing long_scenario short_scenario 1 minimize_long (omega arith)

-- Three nodes, six phases, room for faults, and a workload that is submitted and stopped.
abbrev profile : NemProfile
profile = record {
  seed = 8;
  nodes = pos 3;
  nphases = pos 6;
  max_drop = pos 2;
  max_kill = pos 1;
  max_restart = pos 1;
  allow_submit = true;
  allow_stop = true;
  sut = codes "concord" ++ (0 ∷ []);
}

abbrev plan : List Phase
plan = mesh ∷ submit 2 19 ∷ drop 1 29 ∷ heal 1 28 ∷ kill 2 19 false ∷ stop 16 ∷ []

nemesis_gen-plan : nemesis_gen profile ≡ some plan
unfolding nemesis_gen profile_ok sut_copy gen_conc conc_loop conc_phase free_phase chosen pick_node
    pick_pto rng_int rng_range rng_next emit_submit emit_kill
nemesis_gen-plan = refl

nemesis_gen-IsAllowed_example : IsAllowed profile plan
nemesis_gen-IsAllowed_example = nemesis_gen-IsAllowed profile plan nemesis_gen-plan

nemesis_gen-Paired_example : Paired none plan
nemesis_gen-Paired_example = nemesis_gen-Paired profile plan nemesis_gen-plan

nemesis_gen-Ordered_example : Ordered false plan
nemesis_gen-Ordered_example = nemesis_gen-Ordered profile plan nemesis_gen-plan

-- Before a stop a drop is not healed.
nemesis_gen_unhealed :
    nemesis_gen (record profile { seed = 7 })
    ≡ some (mesh ∷ submit 1 30 ∷ dwell 35 ∷ dwell 37 ∷ drop 0 27 ∷ stop 24 ∷ [])
unfolding nemesis_gen profile_ok sut_copy gen_conc conc_loop conc_phase free_phase chosen pick_node
    pick_pto rng_int rng_range rng_next emit_submit emit_kill
nemesis_gen_unhealed = refl

abbrev texts : List Bytes → Bytes
texts [] = []
texts (t ∷ ts) = t ++ texts ts

abbrev plan_text : Bytes
plan_text = texts (
    codes "name: nemesis-c-00000008\nversion: 1\nsut: concord\nnodes: 3\n"
    ∷ codes "timeout_s: 360\nphases:\n"
    ∷ codes "  - name: mesh\n    until:\n      peers: 3\n      on: all\n"
    ∷ codes "    timeout_s: 30\n"
    ∷ codes "  - name: p01\n    do:\n      - submit:\n          node: 2\n"
    ∷ codes "          image: probe\n    until:\n      assigned:\n"
    ∷ codes "        workload: submitted\n    timeout_s: 19\n"
    ∷ codes "  - name: p02\n    do:\n      - drop:\n          - 1\n    until:\n"
    ∷ codes "      mesh_count: 3\n    timeout_s: 29\n"
    ∷ codes "  - name: p03\n    do:\n      - heal:\n          - 1\n    until:\n"
    ∷ codes "      mesh_count: 3\n    timeout_s: 28\n"
    ∷ codes "  - name: p04\n    do:\n      - kill:\n          node: 2\n"
    ∷ codes "          signal: KILL\n      - restart:\n          node: 2\n"
    ∷ codes "          durability: fresh\n    until:\n      mesh_count: 3\n"
    ∷ codes "    timeout_s: 19\n"
    ∷ codes "  - name: p05\n    do:\n      - stop:\n          workload: submitted\n"
    ∷ codes "    until:\n      absent:\n        workload: submitted\n"
    ∷ codes "        on: all\n    timeout_s: 16\n"
    ∷ [])

-- The file of the plan above.
nemesis_text-plan : nemesis_text profile ≡ some plan_text
unfolding nemesis_text sut_copy
nemesis_text-plan = rw nemesis_gen-plan
