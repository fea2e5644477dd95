-- ===== src/Lib.antt =====
-- Verification of resonance, a deterministic simulator of a radio network. A context holds a clock,
-- a queue of events, a random generator, the nodes and a map. A run takes the next event off the
-- queue, moves the clock to its time, and calls its handler, which adds, finds and removes nodes,
-- draws numbers, and enqueues events, directly or as datagrams over the radio.
--
-- Files, with the code that each models:
--   Prelude   shared numbers, tests, arrays, and `Run`, the result of C code that can fault
--   Heap      heap/heap.c: `heap_create`, `heap_push`, `heap_pop`. Order and IsHeap are in
--             Heap/Order, the two sifts in Heap/Up and Heap/Down, the operations in Heap/Queue, the
--             loop of `context_free` in Heap/Drain, `heap_create` in Heap/Capacity
--   Nodes     node/node.c: `ensure_index_cap` in Nodes/Index, the invariant and `nodelist_find` in
--             Nodes/Invariant, `nodelist_push` in Nodes/Push, the removals in Nodes/Remove
--   World     world/world.c: the error term of the ray walk in World/Bresenham, `segment_delay` in
--             World/Ray by the descriptions of World/Rays, `mediumgrid_init` and `cell_of` in
--             World/Cells, `radio_path` in World/Paths
--   Rng       rng/rng.c: definitions only
--   Context   shared/context.c: `next_event` is the head of the loop of `context_run`, and Rounds in
--             Context/Rounds is the loop; Context/Init, Context/Free, Context/Enqueue and
--             Context/AddNode are about the functions of these names
--   Udp       udp/udp.c: `udp_bind` in Udp/Binds
--   Math      math/math.c: `min`
--   Tun       tun/tun.c: the tables in Tun, the dropped edges in Tun/Drops, `tun_qos_set` and
--             `tun_qos_clear` in Tun/Qos, the sampling, the token bucket and the counters in
--             Tun/Shaping, the pump in Tun/Pump, where its packets go in Tun/Pump/Turn
--   Suite     suite/parse.c: trees, errors and allocation in Suite; quotes, scalars and keys in
--             Suite/Text; `parse_block` and what it calls in Suite/Blocks; `take_line` and
--             `suite_parse` in Suite/Document; the queries of suite/parse.h in Suite/Tree. Results of
--             the parsers go by the predicates of Suite/Ends, results of the line reader by those of
--             Suite/Document/Split, and trees by IsTree of Suite/Trees
--   Nemesis   suite/nemesis.c: `trial_valid` in Nemesis/Valid, the texts of trials in Nemesis/Cuts,
--             `nemesis_minimize` in Nemesis/Minimize, the generator in Nemesis/Plan, the text it
--             prints in Nemesis/Text. The minimizer reads texts by Suite. IsRunnable is in
--             Nemesis/Valid/Sound, IsCut in Nemesis/Cuts/Lines
--   Sim       sim/sim.c: the names of a run in Sim, the description of the names by the run in
--             Sim/Runs, the ids of runs and their locks in Sim/Locks, AreApart in Sim/Apart
--   Exec      suite/exec.c: `ph_ok` and `tpl_expand` in Exec/Templates (Expands in
--             Exec/Templates/Filled), `json_escape` in Exec/Json, `bench_pct` and the histograms in
--             Exec/Bench, the checks of words in Exec/Words
--   Runner    run/run.c: the store of samples, its queries and the clocks in Runner, the waits and
--             the dead node in Runner/Children, the reading of /proc and the sampler in Runner/Stat;
--             about the store Runner/Samples, about `run_hold` and `run_throttle` Runner/Clock, about
--             the waits Runner/Children/Living, the dead node Runner/Children/Marks; `run_teardown` in
--             Runner/Teardown
--
-- State is passed on: an operation takes a record for the C struct and returns the next one with
-- its result. An array is the list of its live entries, with the number of entries that its block
-- holds beside it; a write past the block, or a read past the live entries, is `out_of_bounds`, an
-- overflow of signed arithmetic is `overflow`. Unsigned arithmetic wraps where the code has no
-- guard. The outcomes of malloc, realloc, read, write and waitpid, the texts of /proc and the
-- readings of the clocks are arguments, as are the verdicts of the minimizer's oracle and whether a
-- lock file opens; floating point arithmetic is an interface, Doubles, of
-- which nothing is assumed.
--
-- Fuel: a sift has one unit for each event and one more, and its index moves strictly; the doubling
-- loop has 65, one more than `size_t` has bits; the ray walk has one for each row and column
-- between its ends and one more. A loop over the lines of a scenario file has one for each line that
-- is left and one more, and the scrubbing of a line one for each byte and one more; blocks nest as
-- deep as `kMaxDepth`. The passes of the minimizer over the phases have one for each of the 512
-- tries and one more, since a pass that goes on has made a try; a template is scanned with its
-- length. A loop without fuel is the fault `out_of_fuel`, which no theorem
-- with Returns, Ends or Settled in its statement admits.
--
-- Left out: releasing memory, since no result depends on it; the guards on pointers that every
-- caller sets; what only calls the kernel (the opening of TUN devices, namespaces, processes), the
-- setups and the poll loop of the runner, the executor of scenarios but for these parts, and the
-- drivers of the programs under test.
pub mod Prelude
pub mod Heap
pub mod Nodes
pub mod World
pub mod Rng
pub mod Context
pub mod Udp
pub mod Tun
pub mod Math
pub mod Suite
pub mod Runner
pub mod Nemesis
pub mod Sim
pub mod Exec
