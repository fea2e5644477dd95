-- ===== src/Nemesis/Plan/Ranges.antt =====
-- The ranges of the numbers that the plans of suite/nemesis.c draw.
use resonance.Prelude.{
  ℕ, zero, suc, ◌+◌, ◌-◌, ◌≤◌, ◌<◌, ◌≡◌, refl, Bool, true, false, ◌&&◌, inl, inr, Option, none,
  some, List, [], ◌∷◌, ltb, ◌==◌, arith, Bool-cases,
}
use resonance.Prelude.Int.{pos_part}
use resonance.Nemesis.Plan.{
  rng_range, rng_int, NemProfile, Pub, Phase, mesh, dwell, drop, heal, kill, submit, submit_stop,
  stop, pub_only, pub_drop, pub_heal, pub_kill, pick_node, pick_pto, pub_rest, emit_kill,
  emit_submit, emit_wkill, Budget, Emits, chosen, free_from, free_phase, conc_emits, weld_emits,
  at_index, conc_phase, conc_loop, weld_loop, budget_of, gen_conc, gen_weld, nemesis_gen,
  system_plan,
}
use resonance.Nemesis.Plan.Budgets.{generated, profile_bounds}

abbrev pub IsLimit : ℕ → Type 0
IsLimit limit = (10 ≤ limit) × (limit ≤ 40)

-- The nodes of a message, and its limit.
pub record IsPub (nodes : ℕ) (msg : Pub) : Type 0 where
  pub from : msg.from < nodes
  pub on : msg.on < nodes
  pub limit : IsLimit msg.limit

-- Each node is one of `nodes`, and each limit is in range.
abbrev pub InRange : (nodes : ℕ) → Phase → Type 0
InRange nodes mesh = Unit {0}
InRange nodes (dwell limit) = IsLimit limit
InRange nodes (drop node limit) = (node < nodes) × IsLimit limit
InRange nodes (heal node limit) = (node < nodes) × IsLimit limit
InRange nodes (kill node limit term) = (node < nodes) × IsLimit limit
InRange nodes (submit node limit) = (node < nodes) × IsLimit limit
InRange nodes (submit_stop limit) = IsLimit limit
InRange nodes (stop limit) = IsLimit limit
InRange nodes (pub_only msg) = IsPub nodes msg
InRange nodes (pub_drop node msg) = (node < nodes) × IsPub nodes msg
InRange nodes (pub_heal node msg) = (node < nodes) × IsPub nodes msg
InRange nodes (pub_kill node msg) = (node < nodes) × IsPub nodes msg

abbrev pub AllInRange : (nodes : ℕ) → List Phase → Type 0
AllInRange nodes [] = Unit {0}
AllInRange nodes (ph ∷ phs) = InRange nodes ph × AllInRange nodes phs

rng_range-lt : (r n : ℕ) → 0 < n → (rng_range r n).0 < n
unfolding rng_range
rng_range-lt r n h = grind arith

rng_int_bounds : (r lo hi : ℕ) → lo ≤ hi → (lo ≤ (rng_int r lo hi).0) × ((rng_int r lo hi).0 ≤ hi)
unfolding rng_int
rng_int_bounds r lo hi h = omega (arith, rng_range-lt r (hi + 1 - lo), h)

pick_pto-IsLimit : (r : ℕ) → IsLimit (pick_pto r).0
unfolding pick_pto
pick_pto-IsLimit r = rng_int_bounds r 10 40 (omega arith)

module _ (nodes : ℕ) (some_node : 0 < nodes) where
  pick_node-lt : (r : ℕ) → (pick_node r nodes).0 < nodes
  unfolding pick_node
  pick_node-lt r = omega (arith, rng_int_bounds r 0 (nodes - 1) (omega arith), some_node)

  pub_rest-IsPub : (text r : ℕ) → IsPub nodes (pub_rest text r nodes).0
  unfolding pub_rest
  pub_rest-IsPub text r = record {
    from = pick_node-lt r;
    on = pick_node-lt _;
    limit = pick_pto-IsLimit _;
  }

  emit_kill-InRange : (r : ℕ) → InRange nodes (emit_kill r nodes).0
  unfolding emit_kill
  emit_kill-InRange r = (pick_node-lt r, pick_pto-IsLimit _)

  emit_wkill-InRange : (r : ℕ) → InRange nodes (emit_wkill r nodes).0
  unfolding emit_wkill
  emit_wkill-InRange r = (pick_node-lt _, pub_rest-IsPub _ _)

  emit_submit-InRange : (r : ℕ) → InRange nodes (emit_submit r nodes).0
  unfolding emit_submit
  emit_submit-InRange r = (pick_node-lt r, pick_pto-IsLimit _)

  -- What a system emits, for a node in range.
  record Emitting (e : Emits) : Type 0 where
    calm : (r : ℕ) → InRange nodes (e.calm r).0
    dropping : (node r : ℕ) → node < nodes → InRange nodes (e.dropping node r).0
    killing : (r : ℕ) → InRange nodes (e.killing r).0
    healing : (node r : ℕ) → node < nodes → InRange nodes (e.healing node r).0

  conc-Emitting : Emitting (conc_emits nodes)
  conc-Emitting = record {
    calm = λ r. pick_pto-IsLimit r;
    dropping = λ node r h. (h, pick_pto-IsLimit r);
    killing = emit_kill-InRange;
    healing = λ node r h. (h, pick_pto-IsLimit r);
  }

  weld-Emitting : Emitting (weld_emits nodes)
  weld-Emitting = record {
    calm = λ r. pub_rest-IsPub _ _;
    dropping = λ node r h. (h, pub_rest-IsPub _ _);
    killing = emit_wkill-InRange;
    healing = λ node r h. (h, pub_rest-IsPub _ _);
  }

  abbrev Waits : Option ℕ → Type 0
  Waits none = Unit {0}
  Waits (some node) = node < nodes

  abbrev Next : Phase × Budget → Type 0
  Next next = InRange nodes next.0 × Waits next.1.pend

  module _ (e : Emits) (emits : Emitting e) where
    chosen-Next : (pick : ℕ) (b : Budget) → b.pend ≡ none → Next (chosen e nodes pick b)
    unfolding chosen
    chosen-Next pick b idle = elim (Bool-cases (pick == 0 && ltb 0 b.drops)) [
      | inl dropping ↦
          rw (chosen, dropping) (emits.dropping _ _ (pick_node-lt b.rng), pick_node-lt b.rng)
      | inr no_drop ↦ elim (Bool-cases (pick == 1 && (ltb 0 b.kills && ltb 0 b.restarts))) [
        | inl killing ↦ rw (chosen, no_drop, killing) (emits.killing b.rng, rw idle tt)
        | inr calm ↦ rw (chosen, no_drop, calm) (emits.calm b.rng, rw idle tt)
      ]
    ]

    free_from-Next :
        (pend : Option ℕ) (b : Budget)
        → b.pend ≡ pend
        → Waits pend
        → Next (free_from e nodes pend b)
    free_from-Next (some node) b waits h = (emits.healing node b.rng h, tt)
    free_from-Next none b idle h =
        chosen-Next (rng_range b.rng 4).0 (record b { rng = (rng_range b.rng 4).1 }) idle

    free_phase-Next : (b : Budget) → Waits b.pend → Next (free_phase e nodes b)
    unfolding free_phase
    free_phase-Next b h = free_from-Next b.pend b refl h

  conc_phase-Next :
      (sub_at stop_at : Option ℕ) (i : ℕ) (b : Budget)
      → Waits b.pend
      → Next (conc_phase nodes sub_at stop_at i b)
  unfolding conc_phase
  conc_phase-Next sub_at stop_at i b h = elim (Bool-cases (at_index sub_at i)) [
    | inl set ↦ rw (conc_phase, set) (emit_submit-InRange b.rng, h)
    | inr free ↦ elim (Bool-cases (at_index stop_at i)) [
      | inl set ↦ rw (conc_phase, free, set) (pick_pto-IsLimit b.rng, h)
      | inr no_stop ↦
          rw (conc_phase, free, no_stop) (free_phase-Next (conc_emits nodes) conc-Emitting b h)
    ]
  ]

  conc_loop-AllInRange :
      (sub_at stop_at : Option ℕ) (count i : ℕ) (b : Budget)
      → Waits b.pend
      → AllInRange nodes (conc_loop nodes sub_at stop_at count i b)
  unfolding conc_loop
  conc_loop-AllInRange sub_at stop_at zero i b h = tt
  conc_loop-AllInRange sub_at stop_at (suc count) i b h =
      let next : Next (conc_phase nodes sub_at stop_at i b) =
        conc_phase-Next sub_at stop_at i b h in
      (next.0, conc_loop-AllInRange sub_at stop_at count (i + 1) _ next.1)

  weld_loop-AllInRange :
      (count : ℕ) (b : Budget) → Waits b.pend → AllInRange nodes (weld_loop nodes count b)
  unfolding weld_loop
  weld_loop-AllInRange zero b h = tt
  weld_loop-AllInRange (suc count) b h =
      let next : Next (free_phase (weld_emits nodes) nodes b) =
        free_phase-Next (weld_emits nodes) weld-Emitting b h in
      (next.0, weld_loop-AllInRange count _ next.1)

system_plan-AllInRange :
    (concord : Bool) (p : NemProfile) (r : ℕ)
    → 0 < pos_part p.nodes
    → AllInRange (pos_part p.nodes) (system_plan concord p r)
unfolding gen_conc gen_weld
system_plan-AllInRange false p r h = weld_loop-AllInRange _ h _ (budget_of p r) tt
system_plan-AllInRange true p r h =
    elim (Bool-cases (p.allow_submit && p.allow_stop && pos_part p.nphases == 2)) [
      | inl tiny ↦ rw (system_plan, gen_conc, tiny) (pick_pto-IsLimit r, tt)
      | inr usual ↦
          rw (system_plan, gen_conc, usual) (conc_loop-AllInRange _ h _ _ _ 1 (budget_of p r) tt)
    ]

-- In a generated plan every node is one of the profile's, and every limit is 10 up to 40 seconds.
pub nemesis_gen-AllInRange :
    (p : NemProfile) (phs : List Phase)
    → nemesis_gen p ≡ some phs
    → AllInRange (pos_part p.nodes) phs
nemesis_gen-AllInRange p phs e =
    let (good, plan) = generated p phs e in
    let (two, five, c, d) = profile_bounds p good in
    rw plan (tt, system_plan-AllInRange _ p _ (omega (arith, two)))
