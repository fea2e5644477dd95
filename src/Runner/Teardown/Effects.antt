-- ===== src/Runner/Teardown/Effects.antt =====
-- What `run_teardown` of run/run.c closes and stops.
use mathlib.Core.List.{append-nil}
use resonance.Prelude.{
  ℕ, zero, suc, ◌+◌, ◌≡◌, refl, ap, sym, Bool, true, false, List, [], ◌∷◌, ◌++◌, if◌then◌else◌,
}
use resonance.Prelude.Int.{ℤ, pos, negsuc}
use resonance.Runner.{Child, RunState, is_dead}
use resonance.Runner.Children.{is_open}
use resonance.Runner.Teardown.{
  Effect, stop_child, close_fd, run_forensics, free_context, delete_netns, wipe_statedir,
  close_open, stop_pid, end_child, end_children,
}

-- The dead child has no open log.
pub data AreQuiet (dead : ℕ → Bool) : ℕ → List Child → Type 0 where
  nothing_left : {i : ℕ} → AreQuiet dead i []
  one_more :
      {i : ℕ} {c : Child} {cs : List Child}
      → (dead i ≡ true → is_open c.logfd ≡ false)
      → AreQuiet dead (i + 1) cs
      → AreQuiet dead i (c ∷ cs)

-- The descriptors that are closed, and the processes that are stopped, in order.
abbrev pub closed : List Effect → List ℕ
closed [] = []
closed (close_fd fd ∷ es) = fd ∷ closed es
closed (stop_child pid ∷ es) = closed es
closed (run_forensics ∷ es) = closed es
closed (free_context ∷ es) = closed es
closed (delete_netns ∷ es) = closed es
closed (wipe_statedir ∷ es) = closed es

abbrev pub stopped : List Effect → List ℕ
stopped [] = []
stopped (stop_child pid ∷ es) = pid ∷ stopped es
stopped (close_fd fd ∷ es) = stopped es
stopped (run_forensics ∷ es) = stopped es
stopped (free_context ∷ es) = stopped es
stopped (delete_netns ∷ es) = stopped es
stopped (wipe_statedir ∷ es) = stopped es

-- The descriptors that children have open, and the processes that they have, but for the dead one.
abbrev opened : ℤ → List ℕ
opened (pos fd) = fd ∷ []
opened (negsuc fd) = []

abbrev pub open_fds : List Child → List ℕ
open_fds [] = []
open_fds (c ∷ cs) = (opened c.fd ++ opened c.logfd) ++ open_fds cs

abbrev process : ℤ → List ℕ
process (negsuc p) = []
process (pos zero) = []
process (pos (suc p)) = suc p ∷ []

abbrev pub processes : (dead : ℕ → Bool) → ℕ → List Child → List ℕ
processes dead i [] = []
processes dead i (c ∷ cs) = (if dead i then [] else process c.pid) ++ processes dead (i + 1) cs

pub closed-append : (xs ys : List Effect) → closed (xs ++ ys) ≡ closed xs ++ closed ys
closed-append [] ys = refl
closed-append (close_fd fd ∷ xs) ys = ap (λ fds. fd ∷ fds) (closed-append xs ys)
closed-append (stop_child pid ∷ xs) ys = closed-append xs ys
closed-append (run_forensics ∷ xs) ys = closed-append xs ys
closed-append (free_context ∷ xs) ys = closed-append xs ys
closed-append (delete_netns ∷ xs) ys = closed-append xs ys
closed-append (wipe_statedir ∷ xs) ys = closed-append xs ys

pub stopped-append : (xs ys : List Effect) → stopped (xs ++ ys) ≡ stopped xs ++ stopped ys
stopped-append [] ys = refl
stopped-append (stop_child pid ∷ xs) ys = ap (λ pids. pid ∷ pids) (stopped-append xs ys)
stopped-append (close_fd fd ∷ xs) ys = stopped-append xs ys
stopped-append (run_forensics ∷ xs) ys = stopped-append xs ys
stopped-append (free_context ∷ xs) ys = stopped-append xs ys
stopped-append (delete_netns ∷ xs) ys = stopped-append xs ys
stopped-append (wipe_statedir ∷ xs) ys = stopped-append xs ys

-- What the end of a child closes and stops, for each state of its slots.
close_open-closed : (fd : ℤ) → closed (close_open fd).0 ≡ opened fd
close_open-closed (pos fd) = refl
close_open-closed (negsuc fd) = refl

close_open-stopped : (fd : ℤ) → stopped (close_open fd).0 ≡ []
close_open-stopped (pos fd) = refl
close_open-stopped (negsuc fd) = refl

stop_pid-closed : (pid : ℤ) → closed (stop_pid pid).0 ≡ []
stop_pid-closed (negsuc p) = refl
stop_pid-closed (pos zero) = refl
stop_pid-closed (pos (suc p)) = refl

stop_pid-stopped : (pid : ℤ) → stopped (stop_pid pid).0 ≡ process pid
stop_pid-stopped (negsuc p) = refl
stop_pid-stopped (pos zero) = refl
stop_pid-stopped (pos (suc p)) = refl

opened-shut : (fd : ℤ) → is_open fd ≡ false → opened fd ≡ []
opened-shut (pos fd) e = cc
opened-shut (negsuc fd) e = refl

end_child-closed :
    (dead : Bool) (c : Child)
    → (dead ≡ true → is_open c.logfd ≡ false)
    → closed (end_child dead c).0 ≡ opened c.fd ++ opened c.logfd
unfolding end_child
end_child-closed true c quiet =
    rw (close_open-closed c.fd, opened-shut c.logfd (quiet refl)) (sym (append-nil (opened c.fd)))
end_child-closed false c quiet =
    rw
      (
        closed-append (stop_pid c.pid).0,
        stop_pid-closed c.pid,
        closed-append (close_open c.fd).0,
        close_open-closed c.fd,
        close_open-closed c.logfd,
      )
      refl

end_child-stopped :
    (dead : Bool) (c : Child) → stopped (end_child dead c).0 ≡ (if dead then [] else process c.pid)
unfolding end_child
end_child-stopped true c = close_open-stopped c.fd
end_child-stopped false c =
    rw
      (
        stopped-append (stop_pid c.pid).0,
        stop_pid-stopped c.pid,
        stopped-append (close_open c.fd).0,
        close_open-stopped c.fd,
        close_open-stopped c.logfd,
      )
      (append-nil (process c.pid))

module _ (r : RunState) where
  pub end_children-closed :
      (i : ℕ) (cs : List Child)
      → AreQuiet (is_dead r) i cs
      → closed (end_children r i cs).0 ≡ open_fds cs
  unfolding end_children
  end_children-closed i [] nothing_left = refl
  end_children-closed i (c ∷ cs) (one_more quiet rest) =
      rw
        (
          closed-append (end_child (is_dead r i) c).0,
          end_child-closed (is_dead r i) c quiet,
          end_children-closed (i + 1) cs rest,
        )
        refl

  pub end_children-stopped :
      (i : ℕ) (cs : List Child) → stopped (end_children r i cs).0 ≡ processes (is_dead r) i cs
  unfolding end_children
  end_children-stopped i [] = refl
  end_children-stopped i (c ∷ cs) =
      rw
        (
          stopped-append (end_child (is_dead r i) c).0,
          end_child-stopped (is_dead r i) c,
          end_children-stopped (i + 1) cs,
        )
        refl
