-- ===== src/Runner/Children.antt =====
-- The waits of run/run.c for its children, and the mark of the one that stays dead.
pub mod Living
pub mod Marks
use resonance.Prelude.{
  ℕ, zero, suc, ◌+◌, Bool, true, false, Option, none, some, List, [], ◌∷◌, if◌then◌else◌, ◌==◌,
  get_elem?, set,
}
use resonance.Prelude.Int.{ℤ, pos, negsuc}
use resonance.Runner.{Child, PollFd, RunState, is_dead}

-- What `waitpid` with WNOHANG says of a child.
pub data Waited : Type 0 where
  running reaped no_child other_error : Waited

-- A turn of the loop of `run_alive`: the child is alive, its process is gone and its slot is
-- cleared, or it is passed over.
pub data Seen : Type 0 where
  alive gone passed : Seen

abbrev pub is_skipped : Option ℕ → ℕ → Bool
is_skipped none i = false
is_skipped (some s) i = i == s

abbrev pub see_pid : (ℕ → Waited) → ℤ → Seen
see_pid wait (negsuc p) = passed
see_pid wait (pos zero) = passed
see_pid wait (pos (suc p)) = elim (wait (suc p)) [
  | running ↦ alive
  | reaped ↦ gone
  | no_child ↦ gone
  | other_error ↦ alive
]

pub see : (ℕ → Waited) → (skip : Option ℕ) → (i : ℕ) → Child → Seen
see wait skip i c = if is_skipped skip i then passed else see_pid wait c.pid

-- `run_alive` from node `i` on.
pub alive_from : (ℕ → Waited) → (skip : Option ℕ) → (i : ℕ) → List Child → Bool × List Child
unfolding see
alive_from wait skip i [] = (false, [])
alive_from wait skip i (c ∷ cs) =
    let (found, rest) = alive_from wait skip (i + 1) cs in
    elim (see wait skip i c) [
      | alive ↦ (true, c ∷ cs)
      | gone ↦ (found, record c { pid = negsuc 0 } ∷ rest)
      | passed ↦ (found, c ∷ rest)
    ]

pub run_alive : (ℕ → Waited) → RunState → (skip : Option ℕ) → Bool × RunState
unfolding alive_from
run_alive wait r skip =
    let (found, children) = alive_from wait skip 0 r.children in
    (found, record r { children = children })

-- Is it the number of a process that can be waited for?
abbrev pub has_pid : ℤ → Bool
has_pid (negsuc p) = false
has_pid (pos zero) = false
has_pid (pos (suc p)) = true

abbrev pub is_open : ℤ → Bool
is_open (pos fd) = true
is_open (negsuc fd) = false

abbrev pub set_fd : List PollFd → ℕ → ℤ → List PollFd
set_fd [] i fd = []
set_fd (p ∷ ps) zero fd = record p { fd = fd } ∷ ps
set_fd (p ∷ ps) (suc i) fd = p ∷ set_fd ps i fd

-- The mark for one node that stays dead; the first holds.
pub run_note_dead : RunState → (i : ℤ) → RunState
run_note_dead r (negsuc i) = r
run_note_dead r (pos i) = elim (get_elem? r.children i) [
  | none ↦ r
  | some c ↦ elim r.dead [
    | some d ↦ r
    | none ↦ record r {
      dead = some i;
      children =
          set r.children i (record c { logfd = if is_open c.logfd then negsuc 0 else c.logfd });
      log_polls = set_fd r.log_polls i (negsuc 0);
    }
  ]
]

pub run_rearm : RunState → (i : ℤ) → RunState
run_rearm r (negsuc i) = r
run_rearm r (pos i) = elim (get_elem? r.children i) [
  | none ↦ r
  | some c ↦ record r {
    log_polls = set r.log_polls i (record { fd = c.logfd; pollin = true });
    dead = if is_dead r i then none else r.dead;
  }
]
