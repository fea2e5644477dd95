-- ===== src/Nemesis/Valid/Sound.antt =====
-- What `trial_valid` of suite/nemesis.c accepts, said of the document's phases by their indices.
use resonance.Prelude.{
  codes, ℕ, zero, suc, ◌+◌, ◌≤◌, ◌<◌, ◌≡◌, ◌≢◌, refl, ◌∙◌, Bool, true, false, not, ◌||◌, inl, inr,
  Option, none, some, [], ◌∷◌, if◌then◌else◌, ◌==◌, arith, Option-cases, dec_lt,
}
use resonance.Suite.{
  Bytes, SuiteNode, map, list, scalar, same_bytes, Parsed, ok, failed, out_of_fuel,
}
use resonance.Suite.Document.{suite_parse}
use resonance.Suite.Tree.{suite_map_find, suite_list_len, suite_list_at}
use resonance.Nemesis.Valid.Submits.{
  &&-both, IsSoundStep, Submitted, Submitted-phase, steps_seen-IsSound,
}
use resonance.Nemesis.{is_some, entries_of}
use resonance.Nemesis.Valid.{
  cond_needs, name_of, is_text, is_list, do_seen, named, name_taken, differ, cond_seen, phase_seen,
  phases_seen, has_keys, required_keys, tree_valid, parsed_valid, trial_valid,
}

same_bytes_refl : (s : Bytes) → same_bytes s s ≡ true
same_bytes_refl [] = refl
same_bytes_refl (c ∷ s) = ground (arith, same_bytes_refl s)

not-true : (b : Bool) → not b ≡ true → b ≡ false
not-true true e = cc
not-true false e = refl

or-false : (a b : Bool) → (a || b) ≡ false → (a ≡ false) × (b ≡ false)
or-false true b e = cc
or-false false b e = (refl, e)

if-some :
    (b : Bool) (o : Option Bool) (seen : Bool)
    → (if b then o else none) ≡ some seen
    → (b ≡ true) × (o ≡ some seen)
if-some true o seen e = (refl, e)
if-some false o seen e = cc

differ-ne : (a b : Bool) → differ a b ≡ true → a ≢ b
differ-ne true true e = cc
differ-ne true false e = cc
differ-ne false true e = cc
differ-ne false false e = cc

module _ (phs : Option SuiteNode) where
  name_taken-ne :
      (i : ℕ) (name : Bytes)
      → name_taken phs i name ≡ false
      → (j : ℕ) → j < i
      → name_of (suite_list_at phs j) ≢ some name
  name_taken-ne zero name e j below same = absurd (omega (arith, below))
  name_taken-ne (suc i) name e j below same =
      let (before, here) =
        or-false (name_taken phs i name) (is_text (name_of (suite_list_at phs i)) name) e in
      elim (dec_lt j i) [
        | yes earlier ↦ name_taken-ne i name before j earlier same
        | no last ↦
            let at : j ≡ i = omega (arith, below, last) in
            cc (same_bytes_refl name, rw (rw at at same) at here)
      ]

  -- A phase has a name of its own, a limit of time, one condition, and sound steps; a condition on
  -- the workload comes behind a submit.
  pub record IsSoundPhase (i : ℕ) : Type 0 where
    pub is_map : is_some (entries_of (suite_list_at phs i)) ≡ true
    pub named_alone :
        (name : Bytes) × (name_of (suite_list_at phs i) ≡ some name)
        × (name ≢ [])
        × ((j : ℕ) → j < i → name_of (suite_list_at phs j) ≢ some name)
    pub one_cond :
        is_some (suite_map_find (suite_list_at phs i) (codes "until"))
        ≢ is_some (suite_map_find (suite_list_at phs i) (codes "sustain"))
    pub limited : is_some (suite_map_find (suite_list_at phs i) (codes "timeout_s")) ≡ true
    pub steps :
        (k : ℕ)
        → k < suite_list_len (suite_map_find (suite_list_at phs i) (codes "do"))
        → IsSoundStep phs i k
    pub needs : cond_needs (suite_list_at phs i) ≡ true → Submitted phs (i + 1) 0

  named-alone :
      (i : ℕ) (o : Option Bytes)
      → named phs i o ≡ true
      → (name : Bytes) × (o ≡ some name)
        × (name ≢ [])
        × ((j : ℕ) → j < i → name_of (suite_list_at phs j) ≢ some name)
  named-alone i none e = cc
  named-alone i (some []) e = cc
  named-alone i (some (c ∷ cs)) e =
      (c ∷ cs, refl, λ n. cc, name_taken-ne i (c ∷ cs) (not-true (name_taken phs i (c ∷ cs)) e))

  cond_seen-some :
      (needs : Bool) (o : Option Bool) (seen : Bool)
      → cond_seen needs o ≡ some seen
      → (o ≡ some seen) × (needs ≡ true → seen ≡ true)
  cond_seen-some needs none seen e = cc
  cond_seen-some true (some true) seen e = (e, λ n. cc)
  cond_seen-some true (some false) seen e = cc
  cond_seen-some false (some s) seen e = (e, λ n. cc)

  do_steps-IsSound :
      (i : ℕ) (o : Option SuiteNode) (saw seen : Bool)
      → suite_map_find (suite_list_at phs i) (codes "do") ≡ o
      → do_seen o saw ≡ some seen
      → (saw ≡ true → Submitted phs i 0)
      → ((k : ℕ) → k < suite_list_len o → IsSoundStep phs i k)
        × (seen ≡ true → Submitted phs (i + 1) 0)
  unfolding suite_list_len
  do_steps-IsSound i none saw seen has e before =
      let saw_it : saw ≡ seen = cc in
      (λ k below. absurd (omega (arith, below)), λ s. Submitted-phase phs i 0 (before (saw_it ∙ s)))
  do_steps-IsSound i (some (map line es)) saw seen has e before = cc
  do_steps-IsSound i (some (scalar line text)) saw seen has e before = cc
  do_steps-IsSound i (some (list line xs)) saw seen has e before =
      let count : ℕ = suite_list_len (some (list line xs)) in
      let (steps, sees) = steps_seen-IsSound phs i (list line xs) count 0 saw seen has e before in
      (
        λ k below. steps k (omega arith) (omega (arith, below)),
        λ s. Submitted-phase phs i (0 + count) (sees s),
      )

  phase_seen-IsSound :
      (i : ℕ) (saw seen : Bool)
      → phase_seen phs i saw ≡ some seen
      → (saw ≡ true → Submitted phs i 0)
      → IsSoundPhase i × (seen ≡ true → Submitted phs (i + 1) 0)
  phase_seen-IsSound i saw seen e before =
      let ph : Option SuiteNode = suite_list_at phs i in
      let steps : Option SuiteNode = suite_map_find ph (codes "do") in
      let (tests, judged) = if-some _ _ seen e in
      let (is_map, tests1) = &&-both (is_some (entries_of ph)) _ tests in
      let (own_name, tests2) = &&-both (named phs i (name_of ph)) _ tests1 in
      let (one, limit) =
        &&-both
          (differ (is_some (suite_map_find ph (codes "until")))
            (is_some (suite_map_find ph (codes "sustain"))))
          _ tests2 in
      let (all, needed) = cond_seen-some (cond_needs ph) (do_seen steps saw) seen judged in
      let (sound, sees) = do_steps-IsSound i steps saw seen refl all before in
      (
        record {
          is_map = is_map;
          named_alone = named-alone i (name_of ph) own_name;
          one_cond = differ-ne _ _ one;
          limited = limit;
          steps = sound;
          needs = λ n. sees (needed n);
        },
        sees,
      )

  phases_seen-IsSound :
      (count i : ℕ) (saw : Bool)
      → is_some (phases_seen phs count i saw) ≡ true
      → (saw ≡ true → Submitted phs i 0)
      → (i' : ℕ) → i ≤ i'
      → i' < i + count
      → IsSoundPhase i'
  phases_seen-IsSound zero i saw e before i' above below = absurd (omega (arith, above, below))
  phases_seen-IsSound (suc count) i saw e before i' above below =
      elim (Option-cases (phase_seen phs i saw)) [
        | inl refused ↦ cc (rw (phases_seen, refused) at e)
        | inr (seen, passed) ↦
            let (here, sees) = phase_seen-IsSound i saw seen passed before in
            elim (dec_lt i i') [
              | yes later ↦
                  phases_seen-IsSound count (i + 1) seen (rw (phases_seen, passed) at e) sees i'
                    (omega (arith, later)) (omega (arith, below))
              | no first ↦ let at : i' ≡ i = omega (arith, above, first) in rw at here
            ]
      ]

-- A document that may run: a map with the keys of the head, and a list of phases, each sound.
pub record IsRunnable (root : SuiteNode) : Type 0 where
  pub is_map : is_some (entries_of (some root)) ≡ true
  pub keys : has_keys (some root) required_keys ≡ true
  pub some_phase : 0 < suite_list_len (suite_map_find (some root) (codes "phases"))
  pub phases :
      (i : ℕ)
      → i < suite_list_len (suite_map_find (some root) (codes "phases"))
      → IsSoundPhase (suite_map_find (some root) (codes "phases")) i

tree_valid-IsRunnable : (root : SuiteNode) → tree_valid root ≡ true → IsRunnable root
unfolding tree_valid
tree_valid-IsRunnable root e =
    let phs : Option SuiteNode = suite_map_find (some root) (codes "phases") in
    let (is_map, rest) = &&-both (is_some (entries_of (some root))) _ e in
    let (keys, rest1) = &&-both (has_keys (some root) required_keys) _ rest in
    let (a_list, rest2) = &&-both (is_list phs) _ rest1 in
    let (more, sound) = &&-both (not (suite_list_len phs == 0)) _ rest2 in
    record {
      is_map = is_map;
      keys = keys;
      some_phase = ground (arith, more);
      phases = λ i below.
          phases_seen-IsSound phs (suite_list_len phs) 0 false sound (λ s. cc) i (omega arith)
            (omega (arith, below));
    }

parsed_valid-IsRunnable :
    (p : Parsed SuiteNode)
    → parsed_valid p ≡ true
    → (root : SuiteNode) × (p ≡ ok root) × IsRunnable root
parsed_valid-IsRunnable (ok root) e = (root, refl, tree_valid-IsRunnable root e)
parsed_valid-IsRunnable (failed err) e = cc
parsed_valid-IsRunnable out_of_fuel e = cc

-- An accepted text is a document that may run.
pub trial_valid-IsRunnable :
    (mem : ℕ → Bool) (text : Bytes)
    → trial_valid mem text ≡ true
    → (root : SuiteNode) × (suite_parse mem text ≡ ok root) × IsRunnable root
unfolding trial_valid
trial_valid-IsRunnable mem text e = parsed_valid-IsRunnable (suite_parse mem text) e
