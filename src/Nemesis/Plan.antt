-- ===== src/Nemesis/Plan.antt =====
-- suite/nemesis.c: the generator, `nemesis_gen`. A plan is the list of the phases that are written,
-- each with the numbers that are drawn for it; phase `i` is named p and two digits of `i`. The
-- writes of the file are taken to succeed.
pub mod Budgets
pub mod Faults
pub mod Stops
pub mod Ranges
use Prim.Native.Nat.{bit_xor}
use resonance.Prelude.{
  codes, ℕ, zero, suc, ◌+◌, ◌-◌, ◌*◌, ◌%◌, ◌^◌, Bool, true, false, not, ◌&&◌, ◌||◌, Option, none,
  some, List, [], ◌∷◌, if◌then◌else◌, ltb, leb, ◌==◌, add64,
}
use resonance.Prelude.Int.{ℤ, pos, negsuc, pos_part}
use resonance.Rng.{mul64, shr}
use resonance.Suite.{Bytes, same_bytes}

-- The state of splitmix64 is a word.
abbrev pub rng_seed : ℕ → ℕ
rng_seed seed = add64 seed 1

-- The output and the next state.
unfoldable pub rng_next : ℕ → ℕ × ℕ
rng_next r =
    let s = add64 r 0x9e3779b97f4a7c15 in
    let y = mul64 (bit_xor s (shr s 30)) 0x9e3779b97f4a7c15 in
    let z = mul64 (bit_xor y (shr y 27)) 0x94d049bb133111eb in (bit_xor z (shr z 31), s)

unfoldable pub rng_range : ℕ → ℕ → ℕ × ℕ
rng_range r n = if n == 0 then (0, r) else (let (v, s) = rng_next r in (v % n, s))

-- For `lo` up to `hi`.
unfoldable pub rng_int : (r lo hi : ℕ) → ℕ × ℕ
rng_int r lo hi = let (v, s) = rng_range r (hi + 1 - lo) in (lo + v, s)

pub record NemProfile : Type 0 where
  pub seed : ℕ
  pub nodes : ℤ
  pub nphases : ℤ
  pub max_drop : ℤ
  pub max_kill : ℤ
  pub max_restart : ℤ
  pub allow_submit : Bool
  pub allow_stop : Bool
  -- The 16 bytes of the array.
  pub sut : Bytes

-- The bytes before the NUL, which stands among the first `n`.
abbrev pub onto : ℕ → Option Bytes → Option Bytes
onto c none = none
onto c (some rest) = some (c ∷ rest)

abbrev pub until_nul : (n : ℕ) → Bytes → Option Bytes
until_nul zero cs = none
until_nul (suc n) [] = none
until_nul (suc n) (c ∷ cs) = let rest = until_nul n cs in if c == 0 then some [] else onto c rest

unfoldable pub sut_copy : Bytes → Option Bytes
sut_copy sut = until_nul 16 sut

abbrev pub known : Option Bytes → Bool
known none = false
known (some sut) = same_bytes sut (codes "concord") || same_bytes sut (codes "weld")

abbrev pub within : ℕ → ℕ → ℤ → Bool
within lo hi (pos n) = leb lo n && leb n hi
within lo hi (negsuc n) = false

abbrev pub natural : ℤ → Bool
natural (pos n) = true
natural (negsuc n) = false

unfoldable pub profile_ok : NemProfile → Bool
profile_ok p =
    known (sut_copy p.sut)
    && (within 2 5 p.nodes
        && (within 2 12 p.nphases
            && (natural p.max_drop && (natural p.max_kill && natural p.max_restart))))

-- The message of a weld phase: four hexadecimal digits, the nodes that send and see it, the limit.
pub record Pub : Type 0 where
  pub text : ℕ
  pub from : ℕ
  pub on : ℕ
  pub limit : ℕ

-- Nodes, and limits of time in seconds. A kill has whether its signal is TERM.
pub data Phase : Type 0 where
  mesh : Phase
  dwell : (limit : ℕ) → Phase
  drop : (node limit : ℕ) → Phase
  heal : (node limit : ℕ) → Phase
  kill : (node limit : ℕ) (term : Bool) → Phase
  submit : (node limit : ℕ) → Phase
  submit_stop : (limit : ℕ) → Phase
  stop : (limit : ℕ) → Phase
  pub_only : Pub → Phase
  pub_drop : (node : ℕ) → Pub → Phase
  pub_heal : (node : ℕ) → Pub → Phase
  pub_kill : (node : ℕ) → Pub → Phase

unfoldable pub pick_node : (r nodes : ℕ) → ℕ × ℕ
pick_node r nodes = rng_int r 0 (nodes - 1)

unfoldable pub pick_pto : ℕ → ℕ × ℕ
pick_pto r = rng_int r 10 40

-- A phase whose only draw is its limit.
abbrev limited : (ℕ → Phase) → ℕ → Phase × ℕ
limited phase r = let (limit, s) = pick_pto r in (phase limit, s)

unfoldable pub emit_kill : (r nodes : ℕ) → Phase × ℕ
emit_kill r nodes =
    let (node, r1) = pick_node r nodes in
    let (limit, r2) = pick_pto r1 in
    let (term, r3) = rng_range r2 2 in (kill node limit (not (term == 0)), r3)

unfoldable pub emit_submit : (r nodes : ℕ) → Phase × ℕ
emit_submit r nodes =
    let (node, r1) = pick_node r nodes in let (limit, r2) = pick_pto r1 in (submit node limit, r2)

unfoldable pub pub_text : ℕ → ℕ × ℕ
pub_text r = let (v, s) = rng_next r in (v % 2 ^ 16, s)

-- The draws behind the text of a message.
unfoldable pub pub_rest : (text r nodes : ℕ) → Pub × ℕ
pub_rest text r nodes =
    let (from, r1) = pick_node r nodes in
    let (on, r2) = pick_node r1 nodes in
    let (limit, r3) = pick_pto r2 in
    (record { text = text; from = from; on = on; limit = limit }, r3)

-- `emit_pub`, `emit_wdrop` and `emit_wheal` draw the same numbers.
abbrev with_pub : (Pub → Phase) → (r nodes : ℕ) → Phase × ℕ
with_pub phase r nodes =
    let (text, r1) = pub_text r in let (msg, r2) = pub_rest text r1 nodes in (phase msg, r2)

unfoldable pub emit_wkill : (r nodes : ℕ) → Phase × ℕ
emit_wkill r nodes =
    let (text, r1) = pub_text r in
    let (node, r2) = pick_node r1 nodes in
    let (msg, r3) = pub_rest text r2 nodes in (pub_kill node msg, r3)

-- What is left of the budgets, the node that waits for its heal, and the generator's state.
pub record Budget : Type 0 where
  pub drops : ℕ
  pub kills : ℕ
  pub restarts : ℕ
  pub pend : Option ℕ
  pub rng : ℕ

abbrev drawn : Budget → Phase × ℕ → Phase × Budget
drawn b ph = (ph.0, record b { rng = ph.1 })

-- What differs between the two systems: the phases without a fault, and with one.
pub record Emits : Type 0 where
  pub calm : ℕ → Phase × ℕ
  pub dropping : (node : ℕ) → ℕ → Phase × ℕ
  pub killing : ℕ → Phase × ℕ
  pub healing : (node : ℕ) → ℕ → Phase × ℕ

-- A phase that is not set: a heal where a node waits for one, else a fault or a calm phase.
unfoldable pub chosen : Emits → (nodes pick : ℕ) → Budget → Phase × Budget
chosen e nodes pick b =
    if pick == 0 && ltb 0 b.drops
    then (let (node, r) = pick_node b.rng nodes in
        drawn (record b { drops = b.drops - 1; pend = some node }) (e.dropping node r))
    else if pick == 1 && (ltb 0 b.kills && ltb 0 b.restarts)
    then drawn (record b { kills = b.kills - 1; restarts = b.restarts - 1 }) (e.killing b.rng)
    else drawn b (e.calm b.rng)

abbrev healed : Emits → ℕ → Budget → Phase × Budget
healed e node b = drawn (record b { pend = none }) (e.healing node b.rng)

abbrev pub free_from : Emits → (nodes : ℕ) → Option ℕ → Budget → Phase × Budget
free_from e nodes (some node) b = healed e node b
free_from e nodes none b =
    let (pick, r) = rng_range b.rng 4 in chosen e nodes pick (record b { rng = r })

unfoldable pub free_phase : Emits → (nodes : ℕ) → Budget → Phase × Budget
free_phase e nodes b = free_from e nodes b.pend b

abbrev pub conc_emits : ℕ → Emits
conc_emits nodes = record {
  calm = limited dwell;
  dropping = λ node. limited (drop node);
  killing = λ r. emit_kill r nodes;
  healing = λ node. limited (heal node);
}

abbrev pub weld_emits : ℕ → Emits
weld_emits nodes = record {
  calm = λ r. with_pub pub_only r nodes;
  dropping = λ node r. with_pub (pub_drop node) r nodes;
  killing = λ r. emit_wkill r nodes;
  healing = λ node r. with_pub (pub_heal node) r nodes;
}

abbrev pub at_index : Option ℕ → ℕ → Bool
at_index none i = false
at_index (some at) i = i == at

-- Phase `i` of a concord plan.
unfoldable pub conc_phase : (nodes : ℕ) (sub_at stop_at : Option ℕ) → ℕ → Budget → Phase × Budget
conc_phase nodes sub_at stop_at i b =
    if at_index sub_at i
    then drawn b (emit_submit b.rng nodes)
    else if at_index stop_at i
    then drawn b (limited stop b.rng)
    else free_phase (conc_emits nodes) nodes b

-- `count` phases from phase `i` on.
unfoldable pub conc_loop :
    (nodes : ℕ) (sub_at stop_at : Option ℕ) (count i : ℕ) → Budget → List Phase
conc_loop nodes sub_at stop_at zero i b = []
conc_loop nodes sub_at stop_at (suc count) i b =
    let next = conc_phase nodes sub_at stop_at i b in
    next.0 ∷ conc_loop nodes sub_at stop_at count (i + 1) next.1

unfoldable pub weld_loop : (nodes : ℕ) (count : ℕ) → Budget → List Phase
weld_loop nodes zero b = []
weld_loop nodes (suc count) b =
    let next = free_phase (weld_emits nodes) nodes b in next.0 ∷ weld_loop nodes count next.1

abbrev pub budget_of : NemProfile → ℕ → Budget
budget_of p r = record {
  drops = pos_part p.max_drop;
  kills = pos_part p.max_kill;
  restarts = pos_part p.max_restart;
  pend = none;
  rng = r;
}

abbrev pub when : Bool → ℕ → Option ℕ
when true n = some n
when false n = none

unfoldable pub gen_conc : NemProfile → ℕ → List Phase
gen_conc p r =
    let nphases = pos_part p.nphases in
    let want_stop = p.allow_submit && p.allow_stop in
    if want_stop && nphases == 2
    then (limited submit_stop r).0 ∷ []
    else conc_loop (pos_part p.nodes) (when p.allow_submit 1) (when want_stop (nphases - 1))
        (nphases - 1) 1 (budget_of p r)

unfoldable pub gen_weld : NemProfile → ℕ → List Phase
gen_weld p r = weld_loop (pos_part p.nodes) (pos_part p.nphases - 1) (budget_of p r)

abbrev pub is_concord : Option Bytes → Bool
is_concord none = false
is_concord (some sut) = same_bytes sut (codes "concord")

abbrev pub system_plan : Bool → NemProfile → ℕ → List Phase
system_plan true p r = gen_conc p r
system_plan false p r = gen_weld p r

-- The phases of the file, the mesh first; `none` if the profile is refused.
unfoldable pub nemesis_gen : NemProfile → Option (List Phase)
nemesis_gen p =
    let r = rng_seed p.seed in
    if profile_ok p then some (mesh ∷ system_plan (is_concord (sut_copy p.sut)) p r) else none
