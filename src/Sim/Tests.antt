-- ===== src/Sim/Tests.antt =====
-- The theorems on the names of runs at two runs, and on their ids at two processes.
use resonance.Prelude.{codes, ℕ, ◌≡◌, refl, Bool, true, none, some}
use resonance.Prelude.Int.{pos}
use resonance.Sim.{
  sim_net_try_for_run, ns_name_net, decimal, is_default_net, sim_default_net, gossip_path_net,
  ns_path_net,
}
use resonance.Sim.Runs.{run_net, names_of, sim_net_try_for_run-names_of}
use resonance.Sim.Locks.{Locks, sim_run_acquire, first_free}

name_of_run : ns_name_net (run_net 7) 192 3 ≡ some (codes "resonance7_3")
unfolding ns_name_net run_net decimal
name_of_run = refl

paths_of_default :
    (is_default_net sim_default_net ≡ true)
    × (gossip_path_net sim_default_net 192 ≡ some (codes "/var/tmp/resonance/gossip.key"))
    × (ns_path_net sim_default_net 192 0 ≡ some (codes "/var/run/netns/resonance_0"))
unfolding is_default_net sim_default_net gossip_path_net ns_path_net decimal
paths_of_default = (refl, refl, refl)

sim_net_try_for_run-names_of_example : sim_net_try_for_run (pos 154) ≡ names_of (pos 154)
sim_net_try_for_run-names_of_example = sim_net_try_for_run-names_of (pos 154)

abbrev no_locks : Locks
no_locks = record { holder = λ n. none; held = λ n. none }

abbrev all_open : ℕ → Bool
all_open id = true

-- Process 5 and process 6 each take an id.
abbrev one_run : Locks
one_run = (sim_run_acquire true all_open 5 no_locks).1

abbrev two_runs : Locks
two_runs = (sim_run_acquire true all_open 6 one_run).1

-- Every lock is held.
abbrev full : Locks
full = record { holder = λ n. some 9; held = λ n. none }

sim_run_acquire-full : (sim_run_acquire true all_open 5 full).0 ≡ none
unfolding sim_run_acquire first_free
sim_run_acquire-full = refl
