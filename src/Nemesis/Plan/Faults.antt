-- ===== src/Nemesis/Plan/Faults.antt =====
-- The order of drops and heals in the plans of suite/nemesis.c.
use resonance.Prelude.{
  ℕ, zero, suc, ◌+◌, ◌-◌, ◌≤◌, ◌≡◌, refl, sym, ◌∙◌, Bool, true, false, ◌&&◌, ◌⊎◌, inl, inr, Option,
  none, some, List, [], ◌∷◌, ltb, ◌==◌, ==_iff, arith, Bool-cases,
}
use resonance.Prelude.Int.{pos_part}
use resonance.Nemesis.Plan.{
  rng_range, NemProfile, Phase, drop, heal, stop, pub_drop, pub_heal, pick_node, emit_kill,
  emit_submit, emit_wkill, Budget, Emits, chosen, free_from, free_phase, conc_emits, weld_emits,
  at_index, conc_phase, conc_loop, weld_loop, budget_of, gen_conc, gen_weld, nemesis_gen,
  system_plan, when,
}
use resonance.Nemesis.Plan.Budgets.{generated, profile_bounds}

abbrev pub dropped_at : Phase → Option ℕ
dropped_at (drop node limit) = some node
dropped_at (pub_drop node msg) = some node
dropped_at _ = none

abbrev pub healed_at : Phase → Option ℕ
healed_at (heal node limit) = some node
healed_at (pub_heal node msg) = some node
healed_at _ = none

abbrev pub is_stop : Phase → Bool
is_stop (stop limit) = true
is_stop _ = false

-- Behind a phase that drops `pend`: its heal, or the stop that ends the plan, or nothing. No other
-- phase heals.
abbrev pub Paired : (pend : Option ℕ) → List Phase → Type 0
Paired pend [] = Unit {0}
Paired none (ph ∷ phs) = (healed_at ph ≡ none) × Paired (dropped_at ph) phs
Paired (some node) (ph ∷ phs) =
    ((healed_at ph ≡ some node) ⊎ ((is_stop ph ≡ true) × (phs ≡ []))) × Paired (dropped_at ph) phs

-- The faults of one phase.
pub record Is (dropped healed : Option ℕ) (ph : Phase) : Type 0 where
  pub drops : dropped_at ph ≡ dropped
  pub heals : healed_at ph ≡ healed
  pub no_stop : is_stop ph ≡ false

pub record AreKinds (e : Emits) : Type 0 where
  pub calm : (r : ℕ) → Is none none (e.calm r).0
  pub dropping : (node r : ℕ) → Is (some node) none (e.dropping node r).0
  pub killing : (r : ℕ) → Is none none (e.killing r).0
  pub healing : (node r : ℕ) → Is none (some node) (e.healing node r).0

pub conc-AreKinds : (nodes : ℕ) → AreKinds (conc_emits nodes)
unfolding emit_kill
conc-AreKinds nodes = record {
  calm = λ r. record { drops = refl; heals = refl; no_stop = refl };
  dropping = λ node r. record { drops = refl; heals = refl; no_stop = refl };
  killing = λ r. record { drops = refl; heals = refl; no_stop = refl };
  healing = λ node r. record { drops = refl; heals = refl; no_stop = refl };
}

pub weld-AreKinds : (nodes : ℕ) → AreKinds (weld_emits nodes)
unfolding emit_wkill
weld-AreKinds nodes = record {
  calm = λ r. record { drops = refl; heals = refl; no_stop = refl };
  dropping = λ node r. record { drops = refl; heals = refl; no_stop = refl };
  killing = λ r. record { drops = refl; heals = refl; no_stop = refl };
  healing = λ node r. record { drops = refl; heals = refl; no_stop = refl };
}

-- A free phase heals the node that waits, and leaves the node that it drops.
pub record Follows (pend : Option ℕ) (next : Phase × Budget) : Type 0 where
  pub heals : healed_at next.0 ≡ pend
  pub leaves : dropped_at next.0 ≡ next.1.pend
  pub no_stop : is_stop next.0 ≡ false

module _ (e : Emits) (kinds : AreKinds e) (nodes : ℕ) where
  chosen-Follows : (pick : ℕ) (b : Budget) → b.pend ≡ none → Follows none (chosen e nodes pick b)
  unfolding chosen
  chosen-Follows pick b idle = elim (Bool-cases (pick == 0 && ltb 0 b.drops)) [
    | inl dropping ↦
        let kind : Is _ _ _ = kinds.dropping (pick_node b.rng nodes).0 (pick_node b.rng nodes).1 in
        rw dropping (record { heals = kind.heals; leaves = kind.drops; no_stop = kind.no_stop })
    | inr no_drop ↦ elim (Bool-cases (pick == 1 && (ltb 0 b.kills && ltb 0 b.restarts))) [
      | inl killing ↦
          let kind : Is _ _ _ = kinds.killing b.rng in
          rw (no_drop, killing)
            (record { heals = kind.heals; leaves = kind.drops ∙ sym idle; no_stop = kind.no_stop })
      | inr calm ↦
          let kind : Is _ _ _ = kinds.calm b.rng in
          rw (no_drop, calm)
            (record { heals = kind.heals; leaves = kind.drops ∙ sym idle; no_stop = kind.no_stop })
    ]
  ]

  free_from-Follows :
      (pend : Option ℕ) (b : Budget) → b.pend ≡ pend → Follows pend (free_from e nodes pend b)
  free_from-Follows (some node) b waits =
      let kind : Is _ _ _ = kinds.healing node b.rng in
      record { heals = kind.heals; leaves = kind.drops; no_stop = kind.no_stop }
  free_from-Follows none b idle =
      chosen-Follows (rng_range b.rng 4).0 (record b { rng = (rng_range b.rng 4).1 }) idle

  pub free_phase-Follows : (b : Budget) → Follows b.pend (free_phase e nodes b)
  unfolding free_phase
  free_phase-Follows b = free_from-Follows b.pend b refl

cons-Paired :
    (pend : Option ℕ) (ph : Phase) (b : Budget) (phs : List Phase)
    → Follows pend (ph, b)
    → Paired b.pend phs
    → Paired pend (ph ∷ phs)
cons-Paired none ph b phs f rest = (f.heals, rw f.leaves rest)
cons-Paired (some node) ph b phs f rest = (inl f.heals, rw f.leaves rest)

weld_loop-Paired : (nodes count : ℕ) (b : Budget) → Paired b.pend (weld_loop nodes count b)
unfolding weld_loop
weld_loop-Paired nodes zero b = tt
weld_loop-Paired nodes (suc count) b =
    let next : Phase × Budget = free_phase (weld_emits nodes) nodes b in
    cons-Paired b.pend next.0 next.1 _
      (free_phase-Follows (weld_emits nodes) (weld-AreKinds nodes) nodes b)
      (weld_loop-Paired nodes count next.1)

at_index-when : (w : Bool) (at i : ℕ) → at_index (when w at) i ≡ true → (w ≡ true) × (i ≡ at)
at_index-when true at i e = (refl, (==_iff i at).0 e)
at_index-when false at i e = cc

-- The stop of a plan.
record IsStop (b : Budget) (next : Phase × Budget) : Type 0 where
  stops : is_stop next.0 ≡ true
  heals : healed_at next.0 ≡ none
  drops : dropped_at next.0 ≡ none

stop-Paired :
    (pend : Option ℕ) (b b' : Budget) (ph : Phase) → IsStop b (ph, b') → Paired pend (ph ∷ [])
stop-Paired none b b' ph h = (h.heals, tt)
stop-Paired (some node) b b' ph h = (inr (h.stops, refl), tt)

module _ (nodes : ℕ) (sub_at stop_at : Option ℕ) where
  submit-Follows :
      (i : ℕ) (b : Budget)
      → at_index sub_at i ≡ true
      → b.pend ≡ none
      → Follows none (conc_phase nodes sub_at stop_at i b)
  unfolding conc_phase emit_submit
  submit-Follows i b set idle = rw set (record { heals = refl; leaves = sym idle; no_stop = refl })

  conc_phase-Follows :
      (i : ℕ) (b : Budget)
      → at_index sub_at i ≡ false
      → at_index stop_at i ≡ false
      → Follows b.pend (conc_phase nodes sub_at stop_at i b)
  unfolding conc_phase
  conc_phase-Follows i b free no_stop =
      rw (free, no_stop) (free_phase-Follows (conc_emits nodes) (conc-AreKinds nodes) nodes b)

  conc_phase-IsStop :
      (i : ℕ) (b : Budget)
      → at_index sub_at i ≡ false
      → at_index stop_at i ≡ true
      → IsStop b (conc_phase nodes sub_at stop_at i b)
  unfolding conc_phase
  conc_phase-IsStop i b free set =
      rw (free, set) (record { stops = refl; heals = refl; drops = refl })

  -- The last phase may be a stop.
  conc_loop-Paired :
      (last : ℕ)
      → ((i : ℕ) → at_index sub_at i ≡ true → i ≡ 1)
      → ((i : ℕ) → at_index stop_at i ≡ true → i ≡ last)
      → (count i : ℕ) (b : Budget) → i + count ≡ last + 1
      → (i ≡ 1 → b.pend ≡ none)
      → 1 ≤ i
      → Paired b.pend (conc_loop nodes sub_at stop_at count i b)
  unfolding conc_loop
  conc_loop-Paired last subs stops zero i b len first one = tt
  conc_loop-Paired last subs stops (suc count) i b len first one =
      let next : Phase × Budget = conc_phase nodes sub_at stop_at i b in
      let rest : Paired next.1.pend (conc_loop nodes sub_at stop_at count (i + 1) next.1) =
        conc_loop-Paired last subs stops count (i + 1) next.1 (omega (arith, len))
          (λ e. absurd (omega (arith, e, one))) (omega arith) in
      elim (Bool-cases (at_index sub_at i)) [
        | inl submits ↦
            let idle : b.pend ≡ none = first (subs i submits) in
            paired_by idle next _ (submit-Follows i b submits idle) rest
        | inr free ↦ elim (Bool-cases (at_index stop_at i)) [
          | inr no_stop ↦
              cons-Paired b.pend next.0 next.1 _ (conc_phase-Follows i b free no_stop) rest
          | inl set ↦
              let end : count ≡ 0 = omega (arith, len, stops i set) in
              ends_by (i + 1) end (conc_phase-IsStop i b free set)
        ]
      ]
    where
      paired_by :
          {pend : Option ℕ}
          → pend ≡ none
          → (next : Phase × Budget) (phs : List Phase) → Follows none next
          → Paired next.1.pend phs
          → Paired pend (next.0 ∷ phs)
      paired_by idle next phs f rest = rw idle (cons-Paired none next.0 next.1 phs f rest)

      ends_by :
          (i : ℕ) {count : ℕ} {b : Budget} {next : Phase × Budget}
          → count ≡ 0
          → IsStop b next
          → Paired b.pend (next.0 ∷ conc_loop nodes sub_at stop_at count i next.1)
      ends_by i {b = b} {next = next} end h = rw end (stop-Paired b.pend b next.1 next.0 h)

at_when : (w : Bool) (at i : ℕ) → at_index (when w at) i ≡ true → i ≡ at
at_when w at i e = (at_index-when w at i e).1

system_plan-Paired :
    (concord : Bool) (p : NemProfile) (r : ℕ)
    → 2 ≤ pos_part p.nphases
    → Paired none (system_plan concord p r)
unfolding gen_conc gen_weld
system_plan-Paired false p r two = weld_loop-Paired _ _ (budget_of p r)
system_plan-Paired true p r two =
    elim (Bool-cases (p.allow_submit && p.allow_stop && pos_part p.nphases == 2)) [
      | inl tiny ↦ rw (system_plan, gen_conc, tiny) (refl, tt)
      | inr usual ↦
          rw (system_plan, gen_conc, usual)
            (conc_loop-Paired (pos_part p.nodes) _ _ (pos_part p.nphases - 1)
              (at_when p.allow_submit 1)
              (at_when (p.allow_submit && p.allow_stop) (pos_part p.nphases - 1))
              (pos_part p.nphases - 1) 1 (budget_of p r) (omega (arith, two)) (λ one. refl)
              (omega arith))
    ]

-- In a generated plan each drop is healed by the next phase, unless that is the stop which ends
-- the plan or there is none; and no other phase heals.
pub nemesis_gen-Paired :
    (p : NemProfile) (phs : List Phase) → nemesis_gen p ≡ some phs → Paired none phs
nemesis_gen-Paired p phs e =
    let (good, plan) = generated p phs e in
    let (a, b, two, d) = profile_bounds p good in rw plan (refl, system_plan-Paired _ p _ two)
