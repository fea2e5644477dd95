-- ===== src/Runner/Teardown/Closed.antt =====
-- What `run_teardown` of run/run.c leaves of the children.
use mathlib.Core.List.{append-nil}
use resonance.Prelude.{
  ℕ, zero, suc, ◌+◌, ◌^◌, ◌<◌, ◌≡◌, refl, ap, ◌∙◌, ◌++◌, if◌then◌else◌, Bool, true, false, not,
  ◌&&◌, ◌||◌, Option, List, [], ◌∷◌, ltb, arith, ok, Returns, returns, Returns-if, Returns-bind,
  Returns-option, ◌>>=◌,
}
use resonance.Prelude.Int.{ℤ, pos, negsuc}
use resonance.Runner.{RunSample, Child, RunState, is_dead, run_sample_cap, keep_sample, int_suc}
use resonance.Runner.Children.{is_open, has_pid}
use resonance.Runner.Stat.{Text, snapshot, sample_pid, sample_one, sample_each, sample_pass}
use resonance.Runner.Teardown.{
  Effect, run_forensics, free_context, delete_netns, wipe_statedir, close_open, stop_pid, end_child,
  end_children, run_teardown,
}
use resonance.Runner.Teardown.Effects.{
  AreQuiet, nothing_left, one_more, closed, stopped, open_fds, processes, closed-append,
  stopped-append, end_children-closed, end_children-stopped,
}

-- Is a child over? The dead one's process is the driver's.
abbrev pub is_over : (dead : Bool) → Child → Bool
is_over dead c = (dead || not (has_pid c.pid)) && (not (is_open c.fd) && not (is_open c.logfd))

abbrev pub all_over : (dead : ℕ → Bool) → ℕ → List Child → Bool
all_over dead i [] = true
all_over dead i (c ∷ cs) = is_over (dead i) c && all_over dead (i + 1) cs

-- The dead child has no open log, and no count of dropped samples is at its end.
pub data AreReady (dead : ℕ → Bool) : ℕ → List Child → Type 0 where
  no_child : {i : ℕ} → AreReady dead i []
  child :
      {i : ℕ} {c : Child} {cs : List Child}
      → (dead i ≡ true → is_open c.logfd ≡ false)
      → c.dropped + 1 < 2 ^ 31
      → AreReady dead (i + 1) cs
      → AreReady dead i (c ∷ cs)

is_open-close_open : (fd : ℤ) → is_open (close_open fd).1 ≡ false
is_open-close_open (pos fd) = refl
is_open-close_open (negsuc fd) = refl

has_pid-stop_pid : (pid : ℤ) → has_pid (stop_pid pid).1 ≡ false
has_pid-stop_pid (negsuc p) = refl
has_pid-stop_pid (pos zero) = refl
has_pid-stop_pid (pos (suc p)) = refl

end_child-over :
    (dead : Bool) (c : Child)
    → (dead ≡ true → is_open c.logfd ≡ false)
    → is_over dead (end_child dead c).1 ≡ true
unfolding end_child
end_child-over true c quiet = rw (is_open-close_open c.fd, quiet refl) refl
end_child-over false c quiet =
    rw (has_pid-stop_pid c.pid, is_open-close_open c.fd, is_open-close_open c.logfd) refl

end_children-over :
    (r : RunState) (i : ℕ) (cs : List Child)
    → AreQuiet (is_dead r) i cs
    → all_over (is_dead r) i (end_children r i cs).1 ≡ true
unfolding end_children
end_children-over r i [] nothing_left = refl
end_children-over r i (c ∷ cs) (one_more quiet rest) =
    rw (end_child-over (is_dead r i) c quiet) (end_children-over r (i + 1) cs rest)

-- Another child of the same process and the same descriptors.
record SameSlots (c d : Child) : Type 0 where
  pid : d.pid ≡ c.pid
  fd : d.fd ≡ c.fd
  logfd : d.logfd ≡ c.logfd

SameSlots-refl : (c : Child) → SameSlots c c
SameSlots-refl c = record { pid = refl; fd = refl; logfd = refl }

keep_sample-SameSlots :
    (has_store : Bool) (s : RunSample) (c : Child)
    → c.dropped + 1 < 2 ^ 31
    → Returns (SameSlots c) (keep_sample has_store s c)
unfolding keep_sample
keep_sample-SameSlots has_store s c small =
    Returns-if (not has_store) (λ _. dropping _ _)
      λ _.
        Returns-if (ltb c.count run_sample_cap)
          (λ _. returns (record { pid = refl; fd = refl; logfd = refl })) λ _. dropping _ _
  where
    dropping :
        (row : List RunSample) (peak : ℕ)
        → Returns (SameSlots c) (
            int_suc c.dropped >>= λ dropped. ok (record c {
              row = row;
              dropped = dropped;
              peak = peak;
              utime = s.utime;
              stime = s.stime;
            }))
    dropping row peak =
        Returns-bind
          (Returns-if {P = λ _. Unit {0}} (ltb (c.dropped + 1) (2 ^ 31)) (λ _. returns tt)
            λ large. absurd (ground arith))
          λ _ _. returns (record { pid = refl; fd = refl; logfd = refl })

module _ (stat io : ℕ → Option Text) (page_size : ℕ) where
  sample_one-SameSlots :
      (r : RunState) (i now : ℕ) (c : Child)
      → c.dropped + 1 < 2 ^ 31
      → Returns (SameSlots c) (sample_one stat io page_size r i now c)
  unfolding sample_one
  sample_one-SameSlots r i now c small =
      Returns-if (is_dead r i) (λ _. returns (SameSlots-refl c)) λ _. go c.pid
    where
      go : (pid : ℤ) → Returns (SameSlots c) (sample_pid stat io page_size r now c pid)
      go (negsuc p) = returns (SameSlots-refl c)
      go (pos zero) = returns (SameSlots-refl c)
      go (pos (suc p)) =
          Returns-option (snapshot stat io page_size (suc p) now) (λ _. returns (SameSlots-refl c))
            λ s _. keep_sample-SameSlots r.has_store s c small

  -- Children that are quiet and have the processes and descriptors of others.
  record Sampled (dead : ℕ → Bool) (i : ℕ) (cs ds : List Child) : Type 0 where
    are_quiet : AreQuiet dead i ds
    same_fds : open_fds ds ≡ open_fds cs
    same_processes : processes dead i ds ≡ processes dead i cs

  sample_each-Sampled :
      (r : RunState) (i now : ℕ) (cs : List Child)
      → AreReady (is_dead r) i cs
      → Returns (Sampled (is_dead r) i cs) (sample_each stat io page_size r i now cs)
  unfolding sample_each
  sample_each-Sampled r i now [] no_child =
      returns (record { are_quiet = nothing_left; same_fds = refl; same_processes = refl })
  sample_each-Sampled r i now (c ∷ cs) (child quiet small rest) =
      Returns-bind (sample_one-SameSlots r i now c small) λ first same.
        Returns-bind (sample_each-Sampled r (i + 1) now cs rest) λ others sampled. returns (record {
          are_quiet = one_more (λ dead. rw same.logfd (quiet dead)) sampled.are_quiet;
          same_fds = rw (same.fd, same.logfd, sampled.same_fds) refl;
          same_processes = rw (same.pid, sampled.same_processes) refl;
        })

  -- What holds after the last pass of the sampler.
  abbrev IsEnding : (ℕ → Bool) → List Child → RunState → Type 0
  IsEnding dead cs r = Sampled dead 0 cs r.children × (r.done ≡ true) × (is_dead r ≡ dead)

  sample_pass-IsEnding :
      (r : RunState) (now : ℕ)
      → AreReady (is_dead r) 0 r.children
      → Returns
          (IsEnding (is_dead r) r.children)
          (sample_pass stat io page_size (record r { done = true }) now true)
  unfolding sample_pass
  sample_pass-IsEnding r now ready =
      Returns-bind (sample_each-Sampled (record r { done = true }) 0 now r.children ready)
        λ children sampled. returns (sampled, refl, refl)

  -- What follows the end of the children closes and stops nothing.
  after_children :
      (es : List Effect) (forensics wipes : Bool)
      → (closed (
            es
            ++ ((if forensics then run_forensics ∷ [] else [])
                ++ (free_context ∷ delete_netns ∷ (if wipes then wipe_statedir ∷ [] else []))))
          ≡ closed es)
        × (stopped (
              es
              ++ ((if forensics then run_forensics ∷ [] else [])
                  ++ (free_context ∷ delete_netns ∷ (if wipes then wipe_statedir ∷ [] else []))))
            ≡ stopped es)
  after_children es true true =
      (closed-append es _ ∙ append-nil _, stopped-append es _ ∙ append-nil _)
  after_children es true false =
      (closed-append es _ ∙ append-nil _, stopped-append es _ ∙ append-nil _)
  after_children es false true =
      (closed-append es _ ∙ append-nil _, stopped-append es _ ∙ append-nil _)
  after_children es false false =
      (closed-append es _ ∙ append-nil _, stopped-append es _ ∙ append-nil _)

  -- The end of a run that is not over, whose dead child has no open log and whose counts of dropped
  -- samples are below 2 ^ 31 - 1: it closes each open descriptor once and stops each process once,
  -- but for the dead child's, and no others; no slot is left open and no process number but the
  -- dead child's, the store is gone, and a second call does nothing.
  pub run_teardown-over :
      (r : RunState) (now : ℕ) (is_failed has_forensics net_valid : Bool)
      → r.done ≡ false
      → AreReady (is_dead r) 0 r.children
      → Returns
          (λ out.
            (closed out.0 ≡ open_fds r.children)
            × (stopped out.0 ≡ processes (is_dead r) 0 r.children)
            × (all_over (is_dead r) 0 out.1.children ≡ true)
            × (out.1.has_store ≡ false)
            × ((later : ℕ) (a b d : Bool)
                → run_teardown stat io page_size out.1 later a b d ≡ ok ([], out.1)))
          (run_teardown stat io page_size r now is_failed has_forensics net_valid)
  unfolding run_teardown
  run_teardown-over r now is_failed has_forensics net_valid going ready =
      Returns-if r.done (λ over. absurd (cc))
        λ _. Returns-bind (sample_pass-IsEnding r now ready) λ mid (sampled, done, same).
          let (closes, stops) =
            after_children (end_children mid 0 mid.children).0 (is_failed && has_forensics)
              net_valid in
          let quiet : AreQuiet (is_dead mid) 0 mid.children = rw same sampled.are_quiet in
          returns (
            closes ∙ end_children-closed mid 0 mid.children quiet ∙ sampled.same_fds,
            stops
                ∙ end_children-stopped mid 0 mid.children
                ∙ ap (λ dead. processes dead 0 mid.children) same
                ∙ sampled.same_processes,
            rw same at (end_children-over mid 0 mid.children quiet),
            refl,
            λ later a b d. rw done refl,
          )
