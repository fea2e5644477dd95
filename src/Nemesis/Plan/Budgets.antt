-- ===== src/Nemesis/Plan/Budgets.antt =====
-- The numbers in the plans of suite/nemesis.c: how many faults, which nodes, which limits.
use resonance.Prelude.{
  ℕ, zero, suc, ◌+◌, ◌-◌, ◌≤◌, ◌<◌, ◌≡◌, refl, ap, Bool, true, false, ◌&&◌, inl, inr, Option, none,
  some, List, [], ◌∷◌, ltb, ◌==◌, arith, Bool-cases, length,
}
use resonance.Prelude.Int.{ℤ, pos, negsuc, pos_part}
use resonance.Nemesis.Valid.Submits.{&&-both}
use resonance.Nemesis.Plan.{
  rng_range, NemProfile, profile_ok, Phase, mesh, drop, kill, pub_drop, pub_kill, pick_node,
  emit_kill, emit_submit, emit_wkill, Budget, Emits, chosen, free_from, free_phase, conc_emits,
  weld_emits, at_index, conc_phase, conc_loop, weld_loop, budget_of, gen_conc, gen_weld,
  nemesis_gen, known, within, sut_copy, is_concord, system_plan, rng_seed,
}

abbrev pub drops : Phase → ℕ
drops (drop node limit) = 1
drops (pub_drop node msg) = 1
drops _ = 0

abbrev pub kills : Phase → ℕ
kills (kill node limit term) = 1
kills (pub_kill node msg) = 1
kills _ = 0

abbrev pub total : (Phase → ℕ) → List Phase → ℕ
total f [] = 0
total f (ph ∷ phs) = f ph + total f phs

-- What a phase takes is gone from the budget behind it.
record Spends (b : Budget) (ph : Phase) (b' : Budget) : Type 0 where
  dropped : drops ph + b'.drops ≡ b.drops
  killed : kills ph + b'.kills ≡ b.kills
  restarted : kills ph + b'.restarts ≡ b.restarts

-- The phases that a system emits are of the kinds that their names say.
record AreKinds (e : Emits) : Type 0 where
  calm : (r : ℕ) → (drops (e.calm r).0 ≡ 0) × (kills (e.calm r).0 ≡ 0)
  dropping : (node r : ℕ) → (drops (e.dropping node r).0 ≡ 1) × (kills (e.dropping node r).0 ≡ 0)
  killing : (r : ℕ) → (drops (e.killing r).0 ≡ 0) × (kills (e.killing r).0 ≡ 1)
  healing : (node r : ℕ) → (drops (e.healing node r).0 ≡ 0) × (kills (e.healing node r).0 ≡ 0)

conc-AreKinds : (nodes : ℕ) → AreKinds (conc_emits nodes)
unfolding emit_kill
conc-AreKinds nodes = record {
  calm = λ r. (refl, refl);
  dropping = λ node r. (refl, refl);
  killing = λ r. (refl, refl);
  healing = λ node r. (refl, refl);
}

weld-AreKinds : (nodes : ℕ) → AreKinds (weld_emits nodes)
unfolding emit_wkill
weld-AreKinds nodes = record {
  calm = λ r. (refl, refl);
  dropping = λ node r. (refl, refl);
  killing = λ r. (refl, refl);
  healing = λ node r. (refl, refl);
}

module _ (e : Emits) (kinds : AreKinds e) (nodes : ℕ) where
  chosen-Spends :
      (pick : ℕ) (b : Budget) → Spends b (chosen e nodes pick b).0 (chosen e nodes pick b).1
  unfolding chosen
  chosen-Spends pick b = elim (Bool-cases (pick == 0 && ltb 0 b.drops)) [
    | inl dropping ↦
        let ph : Phase × ℕ = e.dropping (pick_node b.rng nodes).0 (pick_node b.rng nodes).1 in
        let kind : (drops ph.0 ≡ 1) × (kills ph.0 ≡ 0) = kinds.dropping _ _ in
        let some_left : 0 < b.drops = ground (arith, dropping) in
        rw dropping (omega (arith, kind, some_left))
    | inr no_drop ↦ elim (Bool-cases (pick == 1 && (ltb 0 b.kills && ltb 0 b.restarts))) [
      | inl killing ↦
          let kind : (drops (e.killing b.rng).0 ≡ 0) × (kills (e.killing b.rng).0 ≡ 1) =
            kinds.killing b.rng in
          let some_left : (0 < b.kills) × (0 < b.restarts) = ground (arith, killing) in
          rw (no_drop, killing) (omega (arith, kind, some_left))
      | inr calm ↦ rw (no_drop, calm) (omega (arith, kinds.calm b.rng))
    ]
  ]

  free_from-Spends :
      (pend : Option ℕ) (b : Budget)
      → Spends b (free_from e nodes pend b).0 (free_from e nodes pend b).1
  free_from-Spends (some node) b = omega (arith, kinds.healing node b.rng)
  free_from-Spends none b =
      let after : Budget = record b { rng = (rng_range b.rng 4).1 } in
      let spent : Spends after _ _ = chosen-Spends (rng_range b.rng 4).0 after in
      record { dropped = spent.dropped; killed = spent.killed; restarted = spent.restarted }

  free_phase-Spends : (b : Budget) → Spends b (free_phase e nodes b).0 (free_phase e nodes b).1
  unfolding free_phase
  free_phase-Spends b = free_from-Spends b.pend b

-- The plan's faults are within the budget.
record IsWithin (b : Budget) (phs : List Phase) : Type 0 where
  pub dropped : total drops phs ≤ b.drops
  pub killed : total kills phs ≤ b.kills
  pub restarted : total kills phs ≤ b.restarts

cons-IsWithin :
    (b b' : Budget) (ph : Phase) (phs : List Phase)
    → Spends b ph b'
    → IsWithin b' phs
    → IsWithin b (ph ∷ phs)
cons-IsWithin b b' ph phs s w =
    omega (arith, s.dropped, s.killed, s.restarted, w.dropped, w.killed, w.restarted)

conc_phase-Spends :
    (nodes : ℕ) (sub_at stop_at : Option ℕ) (i : ℕ) (b : Budget)
    → Spends b (conc_phase nodes sub_at stop_at i b).0 (conc_phase nodes sub_at stop_at i b).1
unfolding conc_phase emit_submit
conc_phase-Spends nodes sub_at stop_at i b = elim (Bool-cases (at_index sub_at i)) [
  | inl set ↦ rw set (omega arith)
  | inr free ↦ elim (Bool-cases (at_index stop_at i)) [
    | inl set ↦ rw (free, set) (omega arith)
    | inr none_set ↦
        rw (free, none_set) (free_phase-Spends (conc_emits nodes) (conc-AreKinds nodes) nodes b)
  ]
]

conc_loop-IsWithin :
    (nodes : ℕ) (sub_at stop_at : Option ℕ) (count i : ℕ) (b : Budget)
    → IsWithin b (conc_loop nodes sub_at stop_at count i b)
unfolding conc_loop
conc_loop-IsWithin nodes sub_at stop_at zero i b = omega arith
conc_loop-IsWithin nodes sub_at stop_at (suc count) i b =
    cons-IsWithin b _ _ _ (conc_phase-Spends nodes sub_at stop_at i b) (
      conc_loop-IsWithin nodes sub_at stop_at count (i + 1) (conc_phase nodes sub_at stop_at i b).1)

weld_loop-IsWithin : (nodes count : ℕ) (b : Budget) → IsWithin b (weld_loop nodes count b)
unfolding weld_loop
weld_loop-IsWithin nodes zero b = omega arith
weld_loop-IsWithin nodes (suc count) b =
    cons-IsWithin b _ _ _ (free_phase-Spends (weld_emits nodes) (weld-AreKinds nodes) nodes b)
      (weld_loop-IsWithin nodes count (free_phase (weld_emits nodes) nodes b).1)

length-conc_loop :
    (nodes : ℕ) (sub_at stop_at : Option ℕ) (count i : ℕ) (b : Budget)
    → length (conc_loop nodes sub_at stop_at count i b) ≡ count
unfolding conc_loop
length-conc_loop nodes sub_at stop_at zero i b = refl
length-conc_loop nodes sub_at stop_at (suc count) i b =
    ap suc (length-conc_loop nodes sub_at stop_at count (i + 1) _)

length-weld_loop : (nodes count : ℕ) (b : Budget) → length (weld_loop nodes count b) ≡ count
unfolding weld_loop
length-weld_loop nodes zero b = refl
length-weld_loop nodes (suc count) b = ap suc (length-weld_loop nodes count _)

-- As many phases as the profile asks for, and no more faults than it allows.
pub record IsAllowed (p : NemProfile) (phs : List Phase) : Type 0 where
  pub phases : length phs ≡ pos_part p.nphases
  pub dropped : total drops phs ≤ pos_part p.max_drop
  pub killed : total kills phs ≤ pos_part p.max_kill
  pub restarted : total kills phs ≤ pos_part p.max_restart

phases-IsAllowed :
    (p : NemProfile) (r : ℕ) (phs : List Phase)
    → 2 ≤ pos_part p.nphases
    → length phs ≡ pos_part p.nphases - 1
    → IsWithin (budget_of p r) phs
    → IsAllowed p (mesh ∷ phs)
phases-IsAllowed p r phs two len w = omega (arith, two, len, w.dropped, w.killed, w.restarted)

gen_conc-IsAllowed :
    (p : NemProfile) (r : ℕ) → 2 ≤ pos_part p.nphases → IsAllowed p (mesh ∷ gen_conc p r)
unfolding gen_conc
gen_conc-IsAllowed p r two =
    elim (Bool-cases (p.allow_submit && p.allow_stop && pos_part p.nphases == 2)) [
      | inl tiny ↦
          let two_phases : pos_part p.nphases ≡ 2 = ground (arith, tiny) in
          rw tiny (omega (arith, two_phases))
      | inr usual ↦ rw usual (
          phases-IsAllowed p r _ two (length-conc_loop _ _ _ _ _ _)
            (conc_loop-IsWithin _ _ _ _ _ _))
    ]

gen_weld-IsAllowed :
    (p : NemProfile) (r : ℕ) → 2 ≤ pos_part p.nphases → IsAllowed p (mesh ∷ gen_weld p r)
unfolding gen_weld
gen_weld-IsAllowed p r two =
    phases-IsAllowed p r _ two (length-weld_loop _ _ _) (weld_loop-IsWithin _ _ (budget_of p r))

within_bounds : (lo hi : ℕ) (n : ℤ) → within lo hi n ≡ true → (lo ≤ pos_part n) × (pos_part n ≤ hi)
within_bounds lo hi (pos n) e = ground arith
within_bounds lo hi (negsuc n) e = cc

-- A profile that is accepted asks for 2 up to 5 nodes and 2 up to 12 phases.
pub profile_bounds :
    (p : NemProfile)
    → profile_ok p ≡ true
    → (2 ≤ pos_part p.nodes)
      × (pos_part p.nodes ≤ 5)
      × (2 ≤ pos_part p.nphases)
      × (pos_part p.nphases ≤ 12)
unfolding profile_ok
profile_bounds p e =
    let (a, rest) = &&-both (known (sut_copy p.sut)) _ e in
    let (nodes, rest1) = &&-both (within 2 5 p.nodes) _ rest in
    let (phases, rest2) = &&-both (within 2 12 p.nphases) _ rest1 in
    let n : (2 ≤ pos_part p.nodes) × (pos_part p.nodes ≤ 5) = within_bounds 2 5 p.nodes nodes in
    let k : (2 ≤ pos_part p.nphases) × (pos_part p.nphases ≤ 12) =
      within_bounds 2 12 p.nphases phases in
    (n.0, n.1, k.0, k.1)

system_plan-IsAllowed :
    (concord : Bool) (p : NemProfile) (r : ℕ)
    → 2 ≤ pos_part p.nphases
    → IsAllowed p (mesh ∷ system_plan concord p r)
system_plan-IsAllowed true p r two = gen_conc-IsAllowed p r two
system_plan-IsAllowed false p r two = gen_weld-IsAllowed p r two

-- What a generated plan is made of, for an accepted profile.
pub generated :
    (p : NemProfile) (phs : List Phase)
    → nemesis_gen p ≡ some phs
    → (profile_ok p ≡ true)
      × (phs ≡ mesh ∷ system_plan (is_concord (sut_copy p.sut)) p (rng_seed p.seed))
unfolding nemesis_gen
generated p phs e = elim (Bool-cases (profile_ok p)) [
  | inl good ↦ (good, cc (rw (nemesis_gen, good) at e))
  | inr bad ↦ cc (rw (nemesis_gen, bad) at e)
]

-- A generated plan has as many phases as the profile asks for, and no more drops, kills and
-- restarts than it allows.
pub nemesis_gen-IsAllowed :
    (p : NemProfile) (phs : List Phase) → nemesis_gen p ≡ some phs → IsAllowed p phs
nemesis_gen-IsAllowed p phs e =
    let (good, plan) = generated p phs e in
    let (a, b, two, d) = profile_bounds p good in rw plan (system_plan-IsAllowed _ p _ two)
