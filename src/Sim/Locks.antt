-- ===== src/Sim/Locks.antt =====
-- sim/sim.c: the ids of the runs that live at once, `sim_run_acquire`. Each id has a lock file, and
-- a process holds the lock of at most one id, by its `HeldRunLock`. The scan is one step, since the
-- lock of `RUN_LOCK_PATH` is held meanwhile. A file that cannot be opened is a parameter.
pub mod Held
use resonance.Prelude.{
  ℕ, zero, suc, ◌+◌, ◌≤◌, ◌<◌, ◌≡◌, ◌≢◌, Bool, true, false, ◌&&◌, Option, none, some, if◌then◌else◌,
  leb, ◌==◌,
}
use resonance.Sim.{run_id_max}

-- The process that holds the lock of an id, and the id whose lock a process holds.
pub record Locks : Type 0 where
  pub holder : ℕ → Option ℕ
  pub held : ℕ → Option ℕ

abbrev pub is_free : Option ℕ → Bool
is_free none = true
is_free (some p) = false

-- The first id, of `count` from `id` on, whose file opens and whose lock is free.
unfoldable pub first_free : (opens : ℕ → Bool) → Locks → (count id : ℕ) → Option ℕ
first_free opens l zero id = none
first_free opens l (suc count) id =
    let rest = first_free opens l count (id + 1) in
    if opens id && is_free (l.holder id) then some id else rest

abbrev pub update : (ℕ → Option ℕ) → ℕ → Option ℕ → ℕ → Option ℕ
update f k v = λ n. if n == k then v else f n

abbrev pub release : Option ℕ → (ℕ → Option ℕ) → ℕ → Option ℕ
release none holder = holder
release (some id) holder = update holder id none

-- The lock is taken, and the one held before is closed.
abbrev pub take_lock : (p id : ℕ) → Locks → Locks
take_lock p id l = record {
  holder = update (release (l.held p) l.holder) id (some p);
  held = update l.held p (some id);
}

abbrev pub taken : (p : ℕ) → Locks → Option ℕ → Option ℕ × Locks
taken p l none = (none, l)
taken p l (some id) = (some id, take_lock p id l)

-- `scans` is whether the file of the scan opens and its lock is taken.
unfoldable pub sim_run_acquire :
    (scans : Bool) (opens : ℕ → Bool) (p : ℕ) → Locks → Option ℕ × Locks
sim_run_acquire scans opens p l =
    if scans then taken p l (first_free opens l run_id_max 1) else (none, l)

-- The end of a process closes its lock.
unfoldable pub exit_process : ℕ → Locks → Locks
exit_process p l = record { holder = release (l.held p) l.holder; held = update l.held p none }

-- A lock's holder and what a process holds agree, and ids are in range.
pub record IsConsistent (l : Locks) : Type 0 where
  pub held_by : (p id : ℕ) → l.held p ≡ some id → l.holder id ≡ some p
  pub holds : (p id : ℕ) → l.holder id ≡ some p → l.held p ≡ some id
  pub in_range : (p id : ℕ) → l.held p ≡ some id → (1 ≤ id) × (id ≤ run_id_max)

-- Processes take ids and end, in any order.
pub data Reach : Locks → Type 0 where
  start : (l : Locks) → ((n : ℕ) → l.holder n ≡ none) → ((n : ℕ) → l.held n ≡ none) → Reach l
  acquire :
      (l : Locks) (scans : Bool) (opens : ℕ → Bool) (p : ℕ)
      → Reach l
      → (l' : Locks) → l' ≡ (sim_run_acquire scans opens p l).1
      → Reach l'
  exit : (l : Locks) (p : ℕ) → Reach l → (l' : Locks) → l' ≡ exit_process p l → Reach l'
