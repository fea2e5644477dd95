-- ===== src/Runner/Tests.antt =====
-- Runs of the samples, the clocks and the marks.
use resonance.Prelude.{
  ℕ, ◌≡◌, refl, Bool, true, false, Option, none, some, List, [], ◌∷◌, arith, if◌then◌else◌, ◌==◌,
  Run, ok, out_of_bounds, Returns,
}
use resonance.Prelude.Int.{pos, negsuc}
use resonance.Runner.{
  is_dead, RunSample, Child, RunState, child_at, keep_sample, run_sample_hist, run_throttle,
  run_sample_count, run_sample_dropped, run_sample_peak, run_sample_cpu,
}
use resonance.Runner.Stat.{
  Text, stat_loop, stat_fields, find_key, io_fields, snapshot, sample_one, sample_each, sample_pass,
  run_sample_tick,
}
use resonance.Runner.Samples.{fresh, keep_all, Kept, keep_all-Kept}
use resonance.Runner.Clock.{held, held-since, fired}
use resonance.Runner.Teardown.{
  stop_child, close_fd, run_forensics, free_context, delete_netns, wipe_statedir, end_child,
  end_children, run_teardown,
}
use resonance.Runner.Teardown.Effects.{closed, stopped}
use resonance.Runner.Teardown.Closed.{all_over, child, no_child, run_teardown-over}
use resonance.Runner.Children.{Waited, running, run_alive}
use resonance.Runner.Children.Living.{Answers, run_alive-Answers}
use resonance.Runner.Children.Marks.{IsQuiet}

abbrev new_child : Child
new_child = record {
  fd = pos 4;
  logfd = pos 5;
  pid = pos 71;
  row = [];
  head = 0;
  count = 0;
  dropped = 0;
  peak = 0;
  utime = 0;
  stime = 0;
}

abbrev sample : ℕ → ℕ → RunSample
sample at rss = record {
  pid = 71;
  utime = at;
  stime = 2;
  rss_bytes = rss;
  rchar = 0;
  wchar = 0;
  at = at;
  valid = true;
}

abbrev two_samples : List RunSample
two_samples = sample 1 9000 ∷ sample 2 4000 ∷ []

abbrev sampled : Child
sampled = record new_child {
  row = two_samples;
  head = 2;
  count = 2;
  peak = 9000;
  utime = 2;
  stime = 2;
}

abbrev one_run : Child → Bool → RunState
one_run c has_store = record {
  children = c ∷ [];
  log_polls = record { fd = pos 5; pollin = true } ∷ [];
  dead = none;
  done = false;
  has_store = has_store;
  last_ms = 0;
}

keep_all-two_samples : keep_all two_samples new_child ≡ ok sampled
unfolding keep_all keep_sample
keep_all-two_samples = refl

keep_all-Kept_example : Returns (Kept two_samples) (keep_all two_samples new_child)
keep_all-Kept_example =
    keep_all-Kept two_samples new_child (fresh refl refl refl refl refl) (omega arith)

sampled-Kept : Kept two_samples sampled
sampled-Kept = record {
  count = refl;
  head = refl;
  slots = refl;
  dropped = refl;
  early = λ h below inside. refl;
  latest = λ some_sample. refl;
  peak = refl;
}

-- After `run_teardown` the store is null and the counts are as before: the store is read all the same.
run_sample_hist_after_teardown :
    run_sample_hist (one_run sampled false) (pos 0) (pos 1) ≡ out_of_bounds
unfolding run_sample_hist child_at
run_sample_hist_after_teardown = refl

held-since_example : held 2 0 (5 ∷ 6 ∷ 7 ∷ 8 ∷ []) ≡ false ∷ false ∷ true ∷ true ∷ []
held-since_example = held-since 2 5 (6 ∷ 7 ∷ 8 ∷ []) (omega arith)

abbrev readings : List ℕ
readings = 5 ∷ 6 ∷ 7 ∷ 8 ∷ 9 ∷ []

fired-readings : fired 2 0 readings ≡ 5 ∷ 7 ∷ 9 ∷ []
unfolding fired run_throttle
fired-readings = refl

abbrev all_running : ℕ → Waited
all_running pid = running

run_alive-Answers_example :
    Answers all_running none 0 (new_child ∷ []) (
      (run_alive all_running (one_run new_child true) none).0,
      (run_alive all_running (one_run new_child true) none).1.children,
    )
    × ((run_alive all_running (one_run new_child true) none).1 ≡ record (one_run new_child true) {
      children = (run_alive all_running (one_run new_child true) none).1.children;
    })
run_alive-Answers_example = run_alive-Answers all_running none (one_run new_child true)

one_run-IsQuiet : IsQuiet (one_run new_child true)
one_run-IsQuiet = record { quiet = λ d c p dead. absurd (cc) }

-- Twenty-two tokens, the last of them 42: the twelfth is 7 and the thirteenth 8.
abbrev stat_text : Text
stat_text =
    b' ' ∷ b'S' ∷ b' ' ∷ b'1' ∷ b' ' ∷ b'1' ∷ b' ' ∷ b'1' ∷ b' ' ∷ b'0' ∷ b' ' ∷ b'-' ∷ b'1' ∷ b' '
    ∷ b'0' ∷ b' ' ∷ b'0' ∷ b' ' ∷ b'0' ∷ b' ' ∷ b'0' ∷ b' ' ∷ b'0' ∷ b' ' ∷ b'7' ∷ b' ' ∷ b'8'
    ∷ b' ' ∷ b'0' ∷ b' ' ∷ b'0' ∷ b' ' ∷ b'2' ∷ b' ' ∷ b'0' ∷ b' ' ∷ b'1' ∷ b' ' ∷ b'0' ∷ b' '
    ∷ b'9' ∷ b' ' ∷ b'0' ∷ b' ' ∷ b'4' ∷ b'2' ∷ b' ' ∷ b'9' ∷ []

stat_fields-stat_text : stat_fields stat_text ≡ some (record { utime = 7; stime = 8; pages = 42 })
unfolding stat_fields stat_loop
stat_fields-stat_text = refl

-- rchar: 12 (a newline) wchar: 3
io_fields_two_keys :
    io_fields (
      b'r' ∷ b'c' ∷ b'h' ∷ b'a' ∷ b'r' ∷ b':' ∷ b' ' ∷ b'1' ∷ b'2' ∷ b'\n' ∷ b'w' ∷ b'c' ∷ b'h'
      ∷ b'a' ∷ b'r' ∷ b':' ∷ b' ' ∷ b'3' ∷ b'\n' ∷ [])
    ≡ (12, 3)
unfolding io_fields find_key
io_fields_two_keys = refl

-- /proc/71/stat, as of the text above.
abbrev proc_stat : ℕ → Option Text
proc_stat pid = if pid == 71 then some (b'7' ∷ b' ' ∷ b'(' ∷ b'x' ∷ b')' ∷ stat_text) else none

abbrev proc_io : ℕ → Option Text
proc_io pid = none

abbrev ticked : Run RunState
ticked = run_sample_tick proc_stat proc_io 4096 (one_run new_child true) 1250

abbrev tick_sample : RunSample
tick_sample = record {
  pid = 71;
  utime = 7;
  stime = 8;
  rss_bytes = 172032;
  rchar = 0;
  wchar = 0;
  at = 1;
  valid = true;
}

abbrev after_tick : RunState
after_tick = record (one_run new_child true) {
  children =
      record new_child {
        row = tick_sample ∷ [];
        head = 1;
        count = 1;
        peak = 172032;
        utime = 7;
        stime = 8;
      }
      ∷ [];
  last_ms = 1250;
}

run_sample_tick_first : ticked ≡ ok after_tick
unfolding run_sample_tick sample_pass sample_each sample_one snapshot stat_fields stat_loop
    io_fields find_key keep_sample
run_sample_tick_first = refl

-- 100 ms later the gate is shut.
run_sample_tick_early : run_sample_tick proc_stat proc_io 4096 after_tick 1350 ≡ ok after_tick
unfolding run_sample_tick sample_pass
run_sample_tick_early = refl

run_sample_queries :
    (run_sample_count after_tick (pos 0) ≡ 1)
    × (run_sample_dropped after_tick (pos 0) ≡ 0)
    × (run_sample_peak after_tick (pos 0) ≡ some 172032)
    × (run_sample_cpu after_tick (pos 0) ≡ some (7, 8))
    × (run_sample_peak after_tick (negsuc 0) ≡ none)
unfolding run_sample_count run_sample_dropped run_sample_peak run_sample_cpu child_at
run_sample_queries = (refl, refl, refl, refl, refl)

run_teardown_effects :
    run_teardown proc_stat proc_io 4096 (one_run new_child true) 1250 true true true
    ≡ ok (
      stop_child 71
          ∷ close_fd 4
          ∷ close_fd 5
          ∷ run_forensics
          ∷ free_context
          ∷ delete_netns
          ∷ wipe_statedir
          ∷ [],
      record after_tick {
        children =
            record new_child {
              fd = negsuc 0;
              logfd = negsuc 0;
              pid = negsuc 0;
              row = tick_sample ∷ [];
              head = 1;
              count = 1;
              peak = 172032;
              utime = 7;
              stime = 8;
            }
            ∷ [];
        done = true;
        has_store = false;
      },
    )
unfolding run_teardown end_child end_children sample_pass sample_each sample_one snapshot
    stat_fields stat_loop io_fields find_key keep_sample
run_teardown_effects = refl

run_teardown-over_example :
    Returns
      (λ out.
        (closed out.0 ≡ 4 ∷ 5 ∷ [])
        × (stopped out.0 ≡ 71 ∷ [])
        × (all_over (is_dead (one_run new_child true)) 0 out.1.children ≡ true)
        × (out.1.has_store ≡ false)
        × ((later : ℕ) (a b d : Bool)
            → run_teardown proc_stat proc_io 4096 out.1 later a b d ≡ ok ([], out.1)))
      (run_teardown proc_stat proc_io 4096 (one_run new_child true) 1250 true false true)
run_teardown-over_example =
    run_teardown-over proc_stat proc_io 4096 (one_run new_child true) 1250 true false true refl
      (child (λ dead. absurd (cc)) (omega arith) no_child)
