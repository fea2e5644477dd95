-- ===== src/Runner/Teardown.antt =====
-- `run_teardown` of run/run.c: the end of a run, as the state that it leaves and what it does to
-- the world, in order. The outcome of `sim_net_valid` is an argument, and so is that of the text of the
-- command, which has room.
pub mod Closed
pub mod Effects
use resonance.Prelude.{
  ℕ, zero, suc, ◌+◌, Bool, true, false, ◌&&◌, Option, none, some, List, [], ◌∷◌, ◌++◌,
  if◌then◌else◌, Run, ok, ◌>>=◌,
}
use resonance.Prelude.Int.{ℤ, pos, negsuc}
use resonance.Runner.{Child, RunState, is_dead}
use resonance.Runner.Stat.{Text, sample_pass}

pub data Effect : Type 0 where
  stop_child : (pid : ℕ) → Effect
  close_fd : (fd : ℕ) → Effect
  run_forensics free_context delete_netns wipe_statedir : Effect

-- An open descriptor is closed and its place set to -1.
abbrev pub close_open : ℤ → List Effect × ℤ
close_open (pos fd) = (close_fd fd ∷ [], negsuc 0)
close_open (negsuc fd) = ([], negsuc fd)

-- `teardown_wait`, for a process number above 0 only.
abbrev pub stop_pid : ℤ → List Effect × ℤ
stop_pid (negsuc p) = ([], negsuc p)
stop_pid (pos zero) = ([], pos zero)
stop_pid (pos (suc p)) = (stop_child (suc p) ∷ [], negsuc 0)

-- A turn of the loop; the dead node only has its TUN closed.
unfoldable pub end_child : (dead : Bool) → Child → List Effect × Child
end_child true c = let (closing, fd) = close_open c.fd in (closing, record c { fd = fd })
end_child false c =
    let (stopping, pid) = stop_pid c.pid in
    let (closing, fd) = close_open c.fd in
    let (closing_log, logfd) = close_open c.logfd in
    (stopping ++ (closing ++ closing_log), record c { pid = pid; fd = fd; logfd = logfd })

unfoldable pub end_children : RunState → (i : ℕ) → List Child → List Effect × List Child
unfolding end_child
end_children r i [] = ([], [])
end_children r i (c ∷ cs) =
    let (first, ended) = end_child (is_dead r i) c in
    let (later, rest) = end_children r (i + 1) cs in (first ++ later, ended ∷ rest)

module _ (stat io : ℕ → Option Text) (page_size : ℕ) where
  unfoldable pub run_teardown :
      RunState
      → (now : ℕ) → (is_failed has_forensics net_valid : Bool) → Run (List Effect × RunState)
  unfolding end_children
  run_teardown r now is_failed has_forensics net_valid =
      if r.done
      then ok ([], r)
      else sample_pass stat io page_size (record r { done = true }) now true >>= λ r.
          let (ending, children) = end_children r 0 r.children in
          ok (
            ending ++ (forensics ++ (free_context ∷ delete_netns ∷ wipe)),
            record r { children = children; has_store = false },
          )
    where
      forensics : List Effect
      forensics = if is_failed && has_forensics then run_forensics ∷ [] else []

      wipe : List Effect
      wipe = if net_valid then wipe_statedir ∷ [] else []
