-- ===== src/Runner/Children/Living.antt =====
-- What `run_alive` of run/run.c answers.
use resonance.Prelude.{
  ℕ, zero, suc, ◌+◌, ◌≡◌, ◌≢◌, refl, ap, sym, Bool, true, false, Option, none, some, List, [], ◌∷◌,
  arith, Bool-cases, ==_iff, inl, inr,
}
use resonance.Prelude.Int.{ℤ, pos, negsuc}
use resonance.Runner.{Child, RunState}
use resonance.Runner.Children.{
  has_pid, see, see_pid, is_skipped, Seen, alive, gone, passed, Waited, running, reaped, no_child,
  other_error, alive_from, run_alive,
}

-- `waitpid` finds no end of the process, or fails for another reason than that there is no child.
pub data StillThere : Waited → Type 0 where
  is_running : StillThere running
  is_unknown : StillThere other_error

pub data HasEnded : Waited → Type 0 where
  is_reaped : HasEnded reaped
  is_no_child : HasEnded no_child

is_skipped-none : (s : Option ℕ) (i : ℕ) → is_skipped s i ≡ false → s ≢ some i
is_skipped-none none i e same = cc
is_skipped-none (some s) i e same = ground (arith, e, same)

is_skipped-some : (s : Option ℕ) (i : ℕ) → is_skipped s i ≡ true → s ≡ some i
is_skipped-some none i e = cc
is_skipped-some (some s) i e = ap some (sym ((==_iff i s).0 e))

module _ (wait : ℕ → Waited) (skip : Option ℕ) where
  -- Child `i` does not live: it is skipped or has no process, and stays as it is; or its process
  -- has ended, and its process number is cleared.
  pub data NotAlive (i : ℕ) (c : Child) : Child → Type 0 where
    skipped : skip ≡ some i → NotAlive i c c
    processless : skip ≢ some i → has_pid c.pid ≡ false → NotAlive i c c
    over :
        (p : ℕ)
        → skip ≢ some i
        → c.pid ≡ pos (suc p)
        → HasEnded (wait (suc p))
        → NotAlive i c (record c { pid = negsuc 0 })

  -- No child from node `i` on lives.
  pub data NoneAlive : ℕ → List Child → List Child → Type 0 where
    no_more : {i : ℕ} → NoneAlive i [] []
    one_less :
        {i : ℕ} {c d : Child} {cs ds : List Child}
        → NotAlive i c d
        → NoneAlive (i + 1) cs ds
        → NoneAlive i (c ∷ cs) (d ∷ ds)

  -- A child from node `i` on that is not skipped has a process that has not ended; those before it
  -- do not live, and those behind it stay as they are.
  pub data SomeAlive : ℕ → List Child → List Child → Type 0 where
    here :
        {i : ℕ} {c : Child} {cs : List Child} (p : ℕ)
        → skip ≢ some i
        → c.pid ≡ pos (suc p)
        → StillThere (wait (suc p))
        → SomeAlive i (c ∷ cs) (c ∷ cs)
    later :
        {i : ℕ} {c d : Child} {cs ds : List Child}
        → NotAlive i c d
        → SomeAlive (i + 1) cs ds
        → SomeAlive i (c ∷ cs) (d ∷ ds)

  -- What an answer says of the children, and which children are left.
  abbrev pub Answers : ℕ → List Child → Bool × List Child → Type 0
  Answers i cs (true, left) = SomeAlive i cs left
  Answers i cs (false, left) = NoneAlive i cs left

  -- What a turn of the loop says of its child.
  abbrev Sees : ℕ → Child → Seen → Type 0
  Sees i c alive = (p : ℕ) × (skip ≢ some i) × (c.pid ≡ pos (suc p)) × StillThere (wait (suc p))
  Sees i c gone = NotAlive i c (record c { pid = negsuc 0 })
  Sees i c passed = NotAlive i c c

  waited-Sees :
      (i p : ℕ) (c : Child) (w : Waited)
      → skip ≢ some i
      → c.pid ≡ pos (suc p)
      → wait (suc p) ≡ w
      → Sees i c
          (elim w [ running ↦ alive | reaped ↦ gone | no_child ↦ gone | other_error ↦ alive ])
  waited-Sees i p c running other at e = (p, other, at, rw e is_running)
  waited-Sees i p c reaped other at e = over p other at (rw e is_reaped)
  waited-Sees i p c no_child other at e = over p other at (rw e is_no_child)
  waited-Sees i p c other_error other at e = (p, other, at, rw e is_unknown)

  see_pid-Sees :
      (i : ℕ) (c : Child) (pid : ℤ) → skip ≢ some i → c.pid ≡ pid → Sees i c (see_pid wait pid)
  see_pid-Sees i c (negsuc p) other at = processless other (rw at refl)
  see_pid-Sees i c (pos zero) other at = processless other (rw at refl)
  see_pid-Sees i c (pos (suc p)) other at = waited-Sees i p c (wait (suc p)) other at refl

  see-Sees : (i : ℕ) (c : Child) → Sees i c (see wait skip i c)
  unfolding see
  see-Sees i c = elim (Bool-cases (is_skipped skip i)) [
    | inl e ↦ rw e (skipped (is_skipped-some skip i e))
    | inr e ↦ rw e (see_pid-Sees i c c.pid (is_skipped-none skip i e) refl)
  ]

  answer-alive :
      (i : ℕ) (c d : Child) (cs : List Child) (found : Bool) (ds : List Child)
      → NotAlive i c d
      → Answers (i + 1) cs (found, ds)
      → Answers i (c ∷ cs) (found, d ∷ ds)
  answer-alive i c d cs true ds now rest = later now rest
  answer-alive i c d cs false ds now rest = one_less now rest

  turn-Answers :
      (i : ℕ) (c : Child) (cs : List Child) (found : Bool) (ds : List Child) (seen : Seen)
      → Sees i c seen
      → Answers (i + 1) cs (found, ds)
      → Answers i (c ∷ cs) (elim seen [
        | alive ↦ (true, c ∷ cs)
        | gone ↦ (found, record c { pid = negsuc 0 } ∷ ds)
        | passed ↦ (found, c ∷ ds)
      ])
  turn-Answers i c cs found ds alive (p, other, at, there) rest = here p other at there
  turn-Answers i c cs found ds gone now rest = answer-alive i c _ cs found ds now rest
  turn-Answers i c cs found ds passed now rest = answer-alive i c _ cs found ds now rest

  alive_from-Answers : (i : ℕ) (cs : List Child) → Answers i cs (alive_from wait skip i cs)
  unfolding alive_from
  alive_from-Answers i [] = no_more
  alive_from-Answers i (c ∷ cs) =
      turn-Answers i c cs (alive_from wait skip (i + 1) cs).0 (alive_from wait skip (i + 1) cs).1
        (see wait skip i c) (see-Sees i c) (alive_from-Answers (i + 1) cs)

  -- `run_alive` answers truly whether a child that is not skipped lives: one whose process `waitpid`
  -- neither reaps nor misses. It clears the process numbers of the children before the first such
  -- one, or of all if there is none, whose processes have ended, and changes nothing else.
  pub run_alive-Answers :
      (r : RunState)
      → Answers 0 r.children ((run_alive wait r skip).0, (run_alive wait r skip).1.children)
        × ((run_alive wait r skip).1 ≡ record r { children = (run_alive wait r skip).1.children })
  unfolding run_alive
  run_alive-Answers r = (alive_from-Answers 0 r.children, refl)
