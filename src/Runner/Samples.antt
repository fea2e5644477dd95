-- ===== src/Runner/Samples.antt =====
-- The store of samples of run/run.c.
use resonance.Prelude.{
  ℕ, zero, suc, ◌+◌, ◌-◌, ◌<◌, ◌≤◌, ◌≡◌, refl, ◌∙◌, true, false, some, List, [], ◌∷◌, ◌++◌,
  if◌then◌else◌, leb, ltb, arith, tests, length, length-append, min, max, Run, ok, Returns, returns,
  Returns-bind, Returns-map, Returns-if, ltb→lt, sym, ◌>>=◌, Bool-cases, inl, inr, ◌^◌,
}
use mathlib.Core.List.{append_assoc, append-nil}
use resonance.Prelude.Int.{ℤ}
use resonance.Runner.{
  RunState, child_at, run_sample_get, run_sample_hist, RunSample, Child, write_slot, slot_at,
  keep_sample, run_sample_cap,
}

-- A child with no sample yet.
pub data IsFresh (c : Child) : Type 0 where
  fresh : c.row ≡ [] → c.head ≡ 0 → c.count ≡ 0 → c.dropped ≡ 0 → c.peak ≡ 0 → IsFresh c

-- The samples `ss`, taken one after the other.
unfoldable pub keep_all : List RunSample → Child → Run Child
unfolding keep_sample
keep_all [] c = ok c
keep_all (s ∷ ss) c = keep_sample true s c >>= keep_all ss

abbrev pub highest : List RunSample → ℕ
highest [] = 0
highest (s ∷ ss) = max s.rss_bytes (highest ss)

-- What is kept of the samples `taken`: all of them up to the capacity; past it the last slot is
-- that of the last sample and the others are counted as dropped.
pub record Kept (taken : List RunSample) (c : Child) : Type 0 where
  pub count : c.count ≡ min (length taken) run_sample_cap
  pub head : c.head ≡ c.count
  pub slots : length c.row ≡ c.count
  pub dropped : c.dropped ≡ length taken - run_sample_cap
  pub early :
      (h : ℕ) → h + 1 < run_sample_cap → h < length taken → slot_at c.row h ≡ slot_at taken h
  pub latest : 1 ≤ length taken → slot_at c.row (c.count - 1) ≡ slot_at taken (length taken - 1)
  pub peak : c.peak ≡ highest taken

slot_at-write_same :
    (h : ℕ) (s : RunSample) (row : List RunSample) → slot_at (write_slot h s row) h ≡ s
slot_at-write_same zero s [] = refl
slot_at-write_same zero s (x ∷ row) = refl
slot_at-write_same (suc h) s [] = slot_at-write_same h s []
slot_at-write_same (suc h) s (x ∷ row) = slot_at-write_same h s row

slot_at-write_before :
    (h k : ℕ) (s : RunSample) (row : List RunSample)
    → k < h
    → slot_at (write_slot h s row) k ≡ slot_at row k
slot_at-write_before zero k s row before = absurd (omega arith)
slot_at-write_before (suc h) zero s [] before = refl
slot_at-write_before (suc h) zero s (x ∷ row) before = refl
slot_at-write_before (suc h) (suc k) s [] before = slot_at-write_before h k s [] (omega arith)
slot_at-write_before (suc h) (suc k) s (x ∷ row) before =
    slot_at-write_before h k s row (omega arith)

length-write_slot :
    (h : ℕ) (s : RunSample) (row : List RunSample)
    → h ≤ length row
    → length (write_slot h s row) ≡ max (h + 1) (length row)
length-write_slot zero s [] inside = refl
length-write_slot zero s (x ∷ row) inside = omega arith
length-write_slot (suc h) s [] inside = absurd (omega arith)
length-write_slot (suc h) s (x ∷ row) inside =
    omega (arith, length-write_slot h s row (omega arith))

slot_at-append_before :
    (h : ℕ) (xs ys : List RunSample) → h < length xs → slot_at (xs ++ ys) h ≡ slot_at xs h
slot_at-append_before h [] ys inside = absurd (omega arith)
slot_at-append_before zero (x ∷ xs) ys inside = refl
slot_at-append_before (suc h) (x ∷ xs) ys inside = slot_at-append_before h xs ys (omega arith)

slot_at-append_last : (xs : List RunSample) (s : RunSample) → slot_at (xs ++ s ∷ []) (length xs) ≡ s
slot_at-append_last [] s = refl
slot_at-append_last (x ∷ xs) s = slot_at-append_last xs s

highest-append :
    (xs : List RunSample) (s : RunSample) → highest (xs ++ s ∷ []) ≡ max (highest xs) s.rss_bytes
highest-append [] s = omega arith
highest-append (x ∷ xs) s = omega (arith, highest-append xs s)

module _ (taken : List RunSample) (s : RunSample) (c : Child) (kept : Kept taken c) where
  longer : length (taken ++ s ∷ []) ≡ length taken + 1
  longer = length-append taken (s ∷ [])

  peak_now : (if ltb c.peak s.rss_bytes then s.rss_bytes else c.peak) ≡ highest (taken ++ s ∷ [])
  peak_now =
      let top = highest-append taken s in let so_far = kept.peak in ground (arith, top, so_far)

  last_now : slot_at (taken ++ s ∷ []) (length (taken ++ s ∷ []) - 1) ≡ s
  last_now =
      let last : length (taken ++ s ∷ []) - 1 ≡ length taken = omega (arith, longer) in
      rw last (slot_at-append_last taken s)

  -- A slot in front of the one that is written.
  early_now :
      (at h : ℕ)
      → h < at
      → h + 1 < run_sample_cap
      → h < length taken
      → slot_at (write_slot at s c.row) h ≡ slot_at (taken ++ s ∷ []) h
  early_now at h before below inside =
      slot_at-write_before at h s c.row before
      ∙ kept.early h below inside
      ∙ sym (slot_at-append_before h taken (s ∷ []) inside)

  keep_in_room :
      (slot : ℕ)
      → slot ≡ c.count
      → c.count < run_sample_cap
      → Kept (taken ++ s ∷ []) (record c {
        row = write_slot slot s c.row;
        head = slot + 1;
        count = c.count + 1;
        peak = if ltb c.peak s.rss_bytes then s.rss_bytes else c.peak;
        utime = s.utime;
        stime = s.stime;
      })
  keep_in_room slot here room =
      let size : c.count ≡ length taken = omega (arith, kept.count) in
      let at_end : slot ≡ length taken = omega arith in
      record {
        count = omega (arith, longer, kept.count);
        head = omega arith;
        slots =
            length-write_slot slot s c.row (omega (arith, kept.slots)) ∙ omega (arith, kept.slots);
        dropped = omega (arith, longer, kept.dropped);
        early = λ h below inside. elim (Bool-cases (ltb h slot)) [
          | inl before ↦ early_now slot h (ltb→lt h slot before) below (omega (tests, at_end))
          | inr last ↦
              let is_slot : h ≡ slot = ground (arith, longer) in
              rw is_slot
                (slot_at-write_same slot s c.row ∙ rw at_end (sym (slot_at-append_last taken s)))
        ];
        latest = λ _.
            let last : c.count + 1 - 1 ≡ slot = omega arith in
            rw last (slot_at-write_same slot s c.row) ∙ sym last_now;
        peak = peak_now;
      }

  keep_full :
      (dropped : ℕ)
      → dropped ≡ c.dropped + 1
      → run_sample_cap ≤ c.count
      → Kept (taken ++ s ∷ []) (record c {
        row = write_slot (c.count - 1) s c.row;
        dropped = dropped;
        peak = if ltb c.peak s.rss_bytes then s.rss_bytes else c.peak;
        utime = s.utime;
        stime = s.stime;
      })
  keep_full dropped one_more full =
      let size : c.count ≡ run_sample_cap = omega (arith, kept.count) in
      let whole : run_sample_cap ≤ length taken = omega (arith, kept.count) in
      record {
        count = omega (arith, longer, kept.count);
        head = kept.head;
        slots =
            length-write_slot (c.count - 1) s c.row (omega (arith, kept.slots))
            ∙ omega (arith, kept.slots);
        dropped = omega (arith, longer, kept.dropped);
        early = λ h below inside. early_now (c.count - 1) h (omega arith) below (omega arith);
        latest = λ _. slot_at-write_same (c.count - 1) s c.row ∙ sym last_now;
        peak = peak_now;
      }

  keep_sample-Kept : length taken < 2 ^ 31 → Returns (Kept (taken ++ s ∷ [])) (keep_sample true s c)
  unfolding keep_sample
  keep_sample-Kept small =
      Returns-if (ltb c.count run_sample_cap)
        (λ room. returns (keep_in_room _ (ground (arith, room, kept.head)) (ltb→lt _ _ room)))
        λ full.
          Returns-bind
            (Returns-if {P = λ n. n ≡ c.dropped + 1} (ltb (c.dropped + 1) (2 ^ 31))
              (λ _. returns refl) λ large. absurd (ground (arith, kept.dropped)))
            λ dropped one_more. returns (keep_full dropped one_more (ground arith))

keep_all-Kept_from :
    (taken ss : List RunSample) (c : Child)
    → Kept taken c
    → length taken + length ss < 2 ^ 31
    → Returns (Kept (taken ++ ss)) (keep_all ss c)
unfolding keep_all
keep_all-Kept_from taken [] c kept small = rw (append-nil taken) (returns kept)
keep_all-Kept_from taken (s ∷ ss) c kept small =
    Returns-bind (keep_sample-Kept taken s c kept (omega arith)) λ c kept.
      Returns-map
        (keep_all-Kept_from (taken ++ s ∷ []) ss c kept
          (omega (arith, length-append taken (s ∷ []))))
        λ c kept. rw (append_assoc taken (s ∷ []) ss) at kept

-- From a child with no sample, taking fewer than 2 ^ 31 samples never fails. All are kept in order
-- up to the capacity; past it the last slot has the last sample, the slots before it stay as they
-- were and the others are counted as dropped. The peak is the highest memory of all samples.
pub keep_all-Kept :
    (ss : List RunSample) (c : Child)
    → IsFresh c
    → length ss < 2 ^ 31
    → Returns (Kept ss) (keep_all ss c)
keep_all-Kept ss c (fresh row head count dropped peak) small =
    keep_all-Kept_from [] ss c
      (record {
        count = count;
        head = head ∙ sym count;
        slots = rw (row, count) refl;
        dropped = dropped;
        early = λ h below inside. absurd (omega arith);
        latest = λ some_sample. absurd (omega arith);
        peak = peak;
      })
      (omega arith)

-- For a node of the run whose child has kept the samples taken, while the store is there, the last
-- sample taken is what `run_sample_get` gives, if it is marked valid.
pub run_sample_get-Kept :
    (r : RunState) (node : ℤ) (taken : List RunSample) (c : Child)
    → child_at r node ≡ some c
    → r.has_store ≡ true
    → Kept taken c
    → 1 ≤ length taken
    → (slot_at taken (length taken - 1)).valid ≡ true
    → run_sample_get r node ≡ ok (some (slot_at taken (length taken - 1)))
unfolding run_sample_get run_sample_hist
run_sample_get-Kept r node taken c found stored kept some_sample is_valid =
    let counted : leb c.count 0 ≡ false = ground (arith, kept.count) in
    let first : c.count - 1 - 0 ≡ c.count - 1 = omega arith in
    rw (run_sample_hist, found, counted, stored, first, kept.latest some_sample, is_valid) refl
