-- ===== src/Nemesis/Plan/Stops.antt =====
-- The submits and stops in the plans of suite/nemesis.c.
use resonance.Prelude.{
  ℕ, zero, suc, ◌+◌, ◌-◌, ◌≤◌, ◌≡◌, refl, Bool, true, false, ◌&&◌, ◌||◌, inl, inr, Option, none,
  some, List, [], ◌∷◌, ◌==◌, arith, Bool-cases,
}
use resonance.Prelude.Int.{pos_part}
use resonance.Nemesis.Plan.{
  NemProfile, Phase, submit, emit_submit, Budget, conc_emits, weld_emits, at_index, conc_phase,
  conc_loop, weld_loop, budget_of, gen_conc, gen_weld, nemesis_gen, system_plan, when,
}
use resonance.Nemesis.Plan.Budgets.{generated, profile_bounds}
use resonance.Nemesis.Plan.Faults.{
  is_stop, Follows, free_phase-Follows, conc-AreKinds, weld-AreKinds,
}

abbrev pub is_submit : Phase → Bool
is_submit (submit node limit) = true
is_submit _ = false

-- A stop comes behind a submit.
abbrev pub Ordered : (saw : Bool) → List Phase → Type 0
Ordered saw [] = Unit {0}
Ordered saw (ph ∷ phs) = (is_stop ph ≡ true → saw ≡ true) × Ordered (saw || is_submit ph) phs

no_stops-cons :
    (saw : Bool) (ph : Phase) (phs : List Phase)
    → is_stop ph ≡ false
    → Ordered (saw || is_submit ph) phs
    → Ordered saw (ph ∷ phs)
no_stops-cons saw ph phs calm rest = (λ s. cc, rest)

weld_loop-Ordered :
    (nodes count : ℕ) (b : Budget) (saw : Bool) → Ordered saw (weld_loop nodes count b)
unfolding weld_loop
weld_loop-Ordered nodes zero b saw = tt
weld_loop-Ordered nodes (suc count) b saw =
    let f : Follows b.pend _ =
      free_phase-Follows (weld_emits nodes) (weld-AreKinds nodes) nodes b in
    no_stops-cons saw _ _ f.no_stop (weld_loop-Ordered nodes count _ _)

-- Once a submit is seen, stops may follow.
seen-Ordered : (phs : List Phase) → Ordered true phs
seen-Ordered [] = tt
seen-Ordered (ph ∷ phs) = (λ s. refl, seen-Ordered phs)

conc_phase-no_stop :
    (nodes : ℕ) (sub_at : Option ℕ) (i : ℕ) (b : Budget)
    → is_stop (conc_phase nodes sub_at none i b).0 ≡ false
unfolding conc_phase emit_submit
conc_phase-no_stop nodes sub_at i b = elim (Bool-cases (at_index sub_at i)) [
  | inl set ↦ rw set refl
  | inr free ↦
      let f : Follows b.pend _ =
        free_phase-Follows (conc_emits nodes) (conc-AreKinds nodes) nodes b in
      rw free f.no_stop
]

conc_loop-Ordered :
    (nodes : ℕ) (sub_at : Option ℕ) (count i : ℕ) (b : Budget) (saw : Bool)
    → Ordered saw (conc_loop nodes sub_at none count i b)
unfolding conc_loop
conc_loop-Ordered nodes sub_at zero i b saw = tt
conc_loop-Ordered nodes sub_at (suc count) i b saw =
    no_stops-cons saw _ _ (conc_phase-no_stop nodes sub_at i b)
      (conc_loop-Ordered nodes sub_at count (i + 1) _ _)

-- The first phase submits.
submit_first-Ordered :
    (nodes : ℕ) (stop_at : Option ℕ) (count : ℕ) (b : Budget)
    → Ordered false (conc_loop nodes (some 1) stop_at (suc count) 1 b)
unfolding conc_loop conc_phase emit_submit
submit_first-Ordered nodes stop_at count b = (λ s. cc, seen-Ordered _)

usual-Ordered :
    (nodes count : ℕ) (sub want : Bool) (last : ℕ) (b : Budget)
    → Ordered false (conc_loop nodes (when sub 1) (when (sub && want) last) (suc count) 1 b)
usual-Ordered nodes count true want last b = submit_first-Ordered nodes (when want last) count b
usual-Ordered nodes count false want last b = conc_loop-Ordered nodes none (suc count) 1 b false

system_plan-Ordered :
    (concord : Bool) (p : NemProfile) (r : ℕ)
    → 2 ≤ pos_part p.nphases
    → Ordered false (system_plan concord p r)
unfolding gen_conc gen_weld
system_plan-Ordered false p r two = weld_loop-Ordered _ _ (budget_of p r) false
system_plan-Ordered true p r two =
    elim (Bool-cases (p.allow_submit && p.allow_stop && pos_part p.nphases == 2)) [
      | inl tiny ↦ rw (system_plan, gen_conc, tiny) ((λ s. cc), tt)
      | inr usual ↦
          let len : pos_part p.nphases - 1 ≡ suc (pos_part p.nphases - 2) = omega (arith, two) in
          rw (system_plan, gen_conc, usual)
            (rw len (
              usual-Ordered (pos_part p.nodes) (pos_part p.nphases - 2) p.allow_submit p.allow_stop
                _ (budget_of p r)))
    ]

-- In a generated plan each stop comes behind a submit.
pub nemesis_gen-Ordered :
    (p : NemProfile) (phs : List Phase) → nemesis_gen p ≡ some phs → Ordered false phs
nemesis_gen-Ordered p phs e =
    let (good, plan) = generated p phs e in
    let (a, b, two, d) = profile_bounds p good in rw plan ((λ s. cc), system_plan-Ordered _ p _ two)
