-- ===== src/Nemesis/Valid.antt =====
-- suite/nemesis.c: what makes a trial worth running, `trial_valid`. A null pointer is `none`.
pub mod Submits
pub mod Sound
use resonance.Prelude.{
  codes, ℕ, zero, suc, ◌+◌, ◌-◌, ◌≡◌, refl, Bool, true, false, not, ◌&&◌, ◌||◌, Option, none, some,
  List, [], ◌∷◌, if◌then◌else◌, ltb, leb, ◌==◌,
}
use resonance.Suite.{
  Bytes, SuiteNode, map, list, scalar, Entries, Items, no_entries, entry, no_items, item,
  same_bytes, entries_len, Parsed, ok, failed, out_of_fuel,
}
use resonance.Suite.Document.{suite_parse}
use resonance.Suite.Tree.{suite_map_find, suite_list_len, suite_list_at, suite_scalar_str}
use resonance.Nemesis.{is_some, entries_of}

-- The only key of a map with one entry.
abbrev pub only_key : Option Entries → Option Bytes
only_key (some (entry key line value no_entries)) = some key
only_key _ = none

abbrev pub is_text : Option Bytes → Bytes → Bool
is_text none wanted = false
is_text (some text) wanted = same_bytes text wanted

unfoldable pub step_is : Option SuiteNode → Bytes → Bool
step_is st verb = is_text (only_key (entries_of st)) verb

abbrev first_of : Option SuiteNode → Option SuiteNode → Option SuiteNode
first_of none b = b
first_of (some a) b = some a

-- The workload that a condition names, under `present` or `absent`.
abbrev named_workload : Option SuiteNode → Option Bytes
named_workload c =
    let inner = first_of (suite_map_find c (codes "present")) (suite_map_find c (codes "absent")) in
    if is_some (entries_of inner)
    then suite_scalar_str (suite_map_find inner (codes "workload"))
    else none

unfoldable pub cond_needs : Option SuiteNode → Bool
cond_needs ph =
    let c = first_of (suite_map_find ph (codes "until")) (suite_map_find ph (codes "sustain")) in
    let w = named_workload c in
    is_some (entries_of c)
    && (is_some (suite_map_find c (codes "assigned"))
        || (is_text w (codes "submit") || is_text w (codes "submitted")))

abbrev pub is_list : Option SuiteNode → Bool
is_list none = false
is_list (some (list line xs)) = true
is_list (some (map line es)) = false
is_list (some (scalar line text)) = false

abbrev pub name_of : Option SuiteNode → Option Bytes
name_of ph = suite_scalar_str (suite_map_find ph (codes "name"))

-- One of the phases before phase `i` has the name.
abbrev pub name_taken : Option SuiteNode → ℕ → Bytes → Bool
name_taken phs zero name = false
name_taken phs (suc j) name = name_taken phs j name || is_text (name_of (suite_list_at phs j)) name

-- A step: whether a submit has been seen behind it, or `none` if the trial is refused.
abbrev pub step_judged : (one_key submit stop saw : Bool) → Option Bool
step_judged one_key submit stop saw =
    if one_key
    then if submit then some true else if stop && not saw then none else some saw
    else none

abbrev pub step_seen : Option SuiteNode → Bool → Option Bool
step_seen st saw =
    step_judged (is_some (only_key (entries_of st))) (step_is st (codes "submit"))
      (step_is st (codes "stop")) saw

-- `count` steps from step `k` on.
abbrev pub steps_seen : (d : Option SuiteNode) (count k : ℕ) → Bool → Option Bool
steps_seen d zero k saw = some saw
steps_seen d (suc count) k saw = elim (step_seen (suite_list_at d k) saw) [
  | none ↦ none
  | some seen ↦ steps_seen d count (k + 1) seen
]

abbrev pub do_seen : Option SuiteNode → Bool → Option Bool
do_seen none saw = some saw
do_seen (some d) saw =
    if is_list (some d) then steps_seen (some d) (suite_list_len (some d)) 0 saw else none

-- The name of phase `i`, if it may stand there.
abbrev pub named : Option SuiteNode → ℕ → Option Bytes → Bool
named phs i none = false
named phs i (some []) = false
named phs i (some (c ∷ cs)) = not (name_taken phs i (c ∷ cs))

abbrev pub differ : Bool → Bool → Bool
differ a b = if a then not b else b

-- A condition on the workload needs a submit, in the same phase or before it.
abbrev pub cond_seen : Bool → Option Bool → Option Bool
cond_seen needs none = none
cond_seen needs (some seen) = if needs && not seen then none else some seen

abbrev pub phase_seen : Option SuiteNode → ℕ → Bool → Option Bool
phase_seen phs i saw =
    let ph = suite_list_at phs i in
    if is_some (entries_of ph)
      && (named phs i (name_of ph)
          && (differ (is_some (suite_map_find ph (codes "until")))
                (is_some (suite_map_find ph (codes "sustain")))
              && is_some (suite_map_find ph (codes "timeout_s"))))
    then cond_seen (cond_needs ph) (do_seen (suite_map_find ph (codes "do")) saw)
    else none

-- `count` phases from phase `i` on.
abbrev pub phases_seen : (phs : Option SuiteNode) (count i : ℕ) → Bool → Option Bool
phases_seen phs zero i saw = some saw
phases_seen phs (suc count) i saw = elim (phase_seen phs i saw) [
  | none ↦ none
  | some seen ↦ phases_seen phs count (i + 1) seen
]

abbrev pub has_keys : Option SuiteNode → List Bytes → Bool
has_keys root [] = true
has_keys root (key ∷ keys) = is_some (suite_map_find root key) && has_keys root keys

abbrev pub required_keys : List Bytes
required_keys =
    codes "name" ∷ codes "version" ∷ codes "sut" ∷ codes "nodes" ∷ codes "timeout_s" ∷ []

-- What `trial_valid` asks of the document.
unfoldable pub tree_valid : SuiteNode → Bool
tree_valid root =
    let phs = suite_map_find (some root) (codes "phases") in
    let count = suite_list_len phs in
    is_some (entries_of (some root))
    && (has_keys (some root) required_keys
        && (is_list phs && (not (count == 0) && is_some (phases_seen phs count 0 false))))

abbrev pub parsed_valid : Parsed SuiteNode → Bool
parsed_valid (ok root) = tree_valid root
parsed_valid (failed e) = false
parsed_valid out_of_fuel = false

-- The outcomes of the reader's allocations are `mem`.
unfoldable pub trial_valid : (ℕ → Bool) → Bytes → Bool
trial_valid mem text = parsed_valid (suite_parse mem text)
