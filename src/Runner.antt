-- ===== src/Runner.antt =====
-- run/run.c and run/run.h: the children of one scenario run and the samples of their use of
-- processor and memory. The arrays of `Run` that are indexed by node are a list of records, one
-- for each node; `dead` is none for -1. What /proc holds, the outcomes of waitpid and the
-- readings of the clocks are arguments.
pub mod Stat
pub mod Samples
pub mod Clock
pub mod Children
pub mod Teardown
mod Tests
use resonance.Prelude.{
  ℕ, zero, suc, ◌+◌, ◌-◌, ◌*◌, ◌/◌, ◌%◌, ◌^◌, Bool, true, false, ◌&&◌, ◌||◌, not, Option, none,
  some, List, [], ◌∷◌, if◌then◌else◌, ltb, leb, ◌==◌, Run, ok, out_of_bounds, overflow, ◌>>=◌,
  length, get_elem?, set, u64_mod,
}
use resonance.Prelude.Int.{ℤ, pos, negsuc}

abbrev pub run_sample_cap : ℕ
run_sample_cap = 4096

abbrev pub run_sample_gap_ms : ℕ
run_sample_gap_ms = 250

abbrev pub page_fallback : ℕ
page_fallback = 4096

pub record RunSample : Type 0 where
  pub pid : ℕ
  pub utime : ℕ
  pub stime : ℕ
  pub rss_bytes : ℕ
  pub rchar : ℕ
  pub wchar : ℕ
  pub at : ℕ
  pub valid : Bool

-- What `calloc` leaves in a slot.
abbrev pub no_sample : RunSample
no_sample = record {
  pid = 0;
  utime = 0;
  stime = 0;
  rss_bytes = 0;
  rchar = 0;
  wchar = 0;
  at = 0;
  valid = false;
}

-- A node's part of the arrays. `row` holds the slots of `shist[i]` that were written; those
-- behind it are as `calloc` left them.
pub record Child : Type 0 where
  pub fd : ℤ
  pub logfd : ℤ
  pub pid : ℤ
  pub row : List RunSample
  pub head : ℕ
  pub count : ℕ
  pub dropped : ℕ
  pub peak : ℕ
  pub utime : ℕ
  pub stime : ℕ

-- An entry of the log half of the poll vector.
pub record PollFd : Type 0 where
  pub fd : ℤ
  pub pollin : Bool

-- `has_store` is false while `shist` is null.
pub record RunState : Type 0 where
  pub children : List Child
  pub log_polls : List PollFd
  pub dead : Option ℕ
  pub done : Bool
  pub has_store : Bool
  pub last_ms : ℕ

abbrev pub is_dead : RunState → ℕ → Bool
is_dead r i = elim r.dead [ none ↦ false | some d ↦ i == d ]

abbrev pub write_slot : ℕ → RunSample → List RunSample → List RunSample
write_slot zero s [] = s ∷ []
write_slot zero s (x ∷ xs) = s ∷ xs
write_slot (suc h) s [] = no_sample ∷ write_slot h s []
write_slot (suc h) s (x ∷ xs) = x ∷ write_slot h s xs

abbrev pub slot_at : List RunSample → ℕ → RunSample
slot_at [] h = no_sample
slot_at (x ∷ xs) zero = x
slot_at (x ∷ xs) (suc h) = slot_at xs h

-- `x++` on an `int` that is not negative.
abbrev pub int_suc : ℕ → Run ℕ
int_suc n = if ltb (n + 1) (2 ^ 31) then ok (n + 1) else overflow

-- The end of `sample_one`, where the sample is kept: in a new slot, or in place of the last one.
pub keep_sample : (has_store : Bool) → RunSample → Child → Run Child
keep_sample has_store s c =
    if not has_store
    then drop_one c.row
    else if ltb c.count run_sample_cap
    then ok (record c {
      row = write_slot slot s c.row;
      head = slot + 1;
      count = c.count + 1;
      peak = peak;
      utime = s.utime;
      stime = s.stime;
    })
    else drop_one (write_slot (c.count - 1) s c.row)
  where
    slot : ℕ
    slot = if leb run_sample_cap c.head then c.count else c.head

    peak : ℕ
    peak = if ltb c.peak s.rss_bytes then s.rss_bytes else c.peak

    drop_one : List RunSample → Run Child
    drop_one row = int_suc c.dropped >>= λ dropped.
        ok
          (record c { row = row; dropped = dropped; peak = peak; utime = s.utime; stime = s.stime })

-- A node index that a caller gives, if it is one of the run.
pub child_at : RunState → ℤ → Option Child
child_at r (negsuc i) = none
child_at r (pos i) = get_elem? r.children i

-- `none` where it returns false. A read of the store while it is null is out of bounds.
pub run_sample_hist : RunState → (node back : ℤ) → Run (Option RunSample)
run_sample_hist r node (negsuc b) = ok none
run_sample_hist r node (pos b) = elim (child_at r node) [
  | none ↦ ok none
  | some c ↦
      if leb run_sample_cap b
      then ok none
      else if leb c.count b
      then ok none
      else if not r.has_store
      then out_of_bounds
      else (let s = slot_at c.row (c.count - 1 - b) in ok (if s.valid then some s else none))
]

pub run_sample_get : RunState → (node : ℤ) → Run (Option RunSample)
unfolding run_sample_hist
run_sample_get r node = run_sample_hist r node (pos 0)

pub run_sample_count : RunState → (node : ℤ) → ℕ
run_sample_count r node = elim (child_at r node) [
  | none ↦ 0
  | some c ↦ if ltb run_sample_cap c.count then run_sample_cap else c.count
]

pub run_sample_dropped : RunState → (node : ℤ) → ℕ
run_sample_dropped r node = elim (child_at r node) [ none ↦ 0 | some c ↦ c.dropped ]

pub run_sample_peak : RunState → (node : ℤ) → Option ℕ
run_sample_peak r node = elim (child_at r node) [
  | none ↦ none
  | some c ↦ if c.count == 0 then none else some c.peak
]

pub run_sample_cpu : RunState → (node : ℤ) → Option (ℕ × ℕ)
run_sample_cpu r node = elim (child_at r node) [
  | none ↦ none
  | some c ↦ if c.count == 0 then none else some (c.utime, c.stime)
]

-- `time(nullptr)` is `now`; a clock that is not armed is 0.
pub run_hold : (t0 now secs : ℕ) → Bool × ℕ
run_hold zero now secs = (false, now)
run_hold (suc t) now secs = (leb (suc t + secs) now, suc t)

-- `now` is the first reading, and `later` the second.
pub run_throttle : (t now later secs : ℕ) → Bool × ℕ
run_throttle t now later secs =
    if not (t == 0) && ltb now (t + secs) then (false, t) else (true, later)
