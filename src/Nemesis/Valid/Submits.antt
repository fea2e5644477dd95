-- ===== src/Nemesis/Valid/Submits.antt =====
-- The steps that `trial_valid` of suite/nemesis.c accepts, and the submits behind which they stand.
use resonance.Prelude.{
  codes, ℕ, zero, suc, ◌+◌, ◌≤◌, ◌<◌, ◌≡◌, refl, ◌∙◌, ap, Bool, true, false, ◌&&◌, ◌⊎◌, inl, inr,
  Option, none, some, arith, Option-cases, dec_lt,
}
use resonance.Suite.{Bytes, SuiteNode}
use resonance.Suite.Tree.{suite_map_find, suite_list_at}
use resonance.Suite.Tree.Queries.{same_bytes-eq}
use resonance.Nemesis.{is_some, entries_of}
use resonance.Nemesis.Valid.{only_key, step_is, is_text, step_judged, step_seen, steps_seen}

pub &&-both : (a b : Bool) → (a && b) ≡ true → (a ≡ true) × (b ≡ true)
&&-both true b e = (refl, e)
&&-both false b e = cc

is_text-eq : (o : Option Bytes) (s : Bytes) → is_text o s ≡ true → o ≡ some s
is_text-eq none s e = cc
is_text-eq (some t) s e = ap some (same_bytes-eq t s e)

-- No step is both.
submit_or_stop :
    (st : Option SuiteNode)
    → step_is st (codes "submit") ≡ true
    → step_is st (codes "stop") ≡ true
    → ⊥
unfolding step_is
submit_or_stop st submit stop =
    let a : only_key (entries_of st) ≡ some (codes "submit") =
      is_text-eq _ (codes "submit") submit in
    cc (rw a at stop)

step_judged-some :
    (one_key submit stop saw seen : Bool)
    → step_judged one_key submit stop saw ≡ some seen
    → (one_key ≡ true)
      × (stop ≡ true → (submit ≡ true) ⊎ (saw ≡ true))
      × (seen ≡ true → (submit ≡ true) ⊎ (saw ≡ true))
step_judged-some false submit stop saw seen e = cc
step_judged-some true true stop saw seen e = (refl, λ _. inl refl, λ _. inl refl)
step_judged-some true false true false seen e = cc
step_judged-some true false true true seen e = (refl, λ _. inr refl, λ _. inr refl)
step_judged-some true false false saw seen e = (refl, λ s. cc, λ s. inr (cc))

module _ (phs : Option SuiteNode) where
  -- Step `k` of phase `i`.
  abbrev pub step_at : (i k : ℕ) → Option SuiteNode
  step_at i k = suite_list_at (suite_map_find (suite_list_at phs i) (codes "do")) k

  -- There is a submit before step `k` of phase `i`.
  abbrev pub Submitted : (i k : ℕ) → Type 0
  Submitted i k =
      (i' : ℕ) × ((k' : ℕ) × (((i' < i) ⊎ ((i' ≡ i) × (k' < k)))
          × (step_is (step_at i' k') (codes "submit") ≡ true)))

  -- A step is a map with one key, and a stop comes behind a submit.
  pub record IsSoundStep (i k : ℕ) : Type 0 where
    pub one_key : is_some (only_key (entries_of (step_at i k))) ≡ true
    pub stop_last : step_is (step_at i k) (codes "stop") ≡ true → Submitted i k

  Submitted-step : (i k : ℕ) → Submitted i k → Submitted i (k + 1)
  Submitted-step i k (i', (k', (inl before, is))) = (i', (k', (inl before, is)))
  Submitted-step i k (i', (k', (inr (same, before), is))) =
      (i', (k', (inr (same, omega (arith, before)), is)))

  pub Submitted-phase : (i k : ℕ) → Submitted i k → Submitted (i + 1) 0
  Submitted-phase i k (i', (k', (inl before, is))) = (i', (k', (inl (omega (arith, before)), is)))
  Submitted-phase i k (i', (k', (inr (same, before), is))) =
      (i', (k', (inl (omega (arith, same)), is)))

  step_seen-IsSound :
      (i k : ℕ) (saw seen : Bool)
      → step_seen (step_at i k) saw ≡ some seen
      → (saw ≡ true → Submitted i k)
      → IsSoundStep i k × (seen ≡ true → Submitted i (k + 1))
  step_seen-IsSound i k saw seen e before =
      let (one, stops, sees) = step_judged-some _ _ _ saw seen e in
      (
        record {
          one_key = one;
          stop_last = λ s. elim (stops s) [
            | inl submit ↦ absurd (submit_or_stop (step_at i k) submit s)
            | inr was ↦ before was
          ];
        },
        λ s. elim (sees s) [
          | inl submit ↦ (i, (k, (inr (refl, omega arith), submit)))
          | inr was ↦ Submitted-step i k (before was)
        ],
      )

  pub steps_seen-IsSound :
      (i : ℕ) (d : SuiteNode) (count k : ℕ) (saw seen : Bool)
      → suite_map_find (suite_list_at phs i) (codes "do") ≡ some d
      → steps_seen (some d) count k saw ≡ some seen
      → (saw ≡ true → Submitted i k)
      → ((k' : ℕ) → k ≤ k' → k' < k + count → IsSoundStep i k')
        × (seen ≡ true → Submitted i (k + count))
  steps_seen-IsSound i d zero k saw seen has e before = (
    λ k' above below. absurd (omega (arith, above, below)),
    λ s.
        let same : k + 0 ≡ k = omega arith in
        let saw_it : saw ≡ seen = cc in rw same (before (saw_it ∙ s)),
  )
  steps_seen-IsSound i d (suc count) k saw seen has e before =
      elim (Option-cases (step_seen (suite_list_at (some d) k) saw)) [
        | inl refused ↦ cc (rw (steps_seen, refused) at e)
        | inr (next, passed) ↦
            let step : step_seen (step_at i k) saw ≡ some next = rw has passed in
            let (here, sees) = step_seen-IsSound i k saw next step before in
            let (rest, ends) =
              steps_seen-IsSound i d count (k + 1) next seen has (rw (steps_seen, passed) at e)
                sees in
            let len : k + suc count ≡ k + 1 + count = omega arith in
            (
              λ k' above below. elim (dec_lt k k') [
                | yes later ↦ rest k' (omega (arith, later)) (omega (arith, below))
                | no first ↦ let at : k' ≡ k = omega (arith, above, first) in rw at here
              ],
              λ s. rw len (ends s),
            )
      ]
