-- ===== src/Sim/Runs.antt =====
-- The runs for which `sim_net_try_for_run` of sim/sim.c gives names, and the names.
use resonance.Prelude.{
  codes, ℕ, zero, suc, ◌+◌, ◌*◌, ◌%◌, ◌^◌, ◌≤◌, ◌<◌, ◌≡◌, refl, sym, ◌∙◌, ap, Bool, true, false,
  ◌&&◌, inl, inr, Option, none, some, [], ◌∷◌, ◌++◌, if◌then◌else◌, ltb, arith, Bool-cases, dec_lt,
  length,
}
use resonance.Prelude.Int.{ℤ, pos, negsuc, ◌+ℤ◌}
use resonance.Suite.{Bytes}
use resonance.Sim.{
  SimNet, run_id_max, fits, decimal, to_int, net_of, statedir_of, ns_prefix_of, cgroot_of, all_fit,
  sim_default_net, sim_net_for_run, field_ok, tun_fit, under_ok, sim_net_valid, if_valid,
  sim_net_try_for_run,
}

-- What sets a run's names apart; nothing for run 0.
abbrev pub dash_label : ℕ → Bytes
dash_label zero = []
dash_label (suc n) = b'-' ∷ decimal (suc n)

abbrev pub plain_label : ℕ → Bytes
plain_label zero = []
plain_label (suc n) = decimal (suc n)

-- The names of a run: the texts carry its label, and node `i` has the TUN of index 100 * run + i.
unfoldable pub run_net : ℕ → SimNet
run_net id = record {
  statedir = codes "/var/tmp/resonance" ++ dash_label id;
  ns_prefix = codes "resonance" ++ (plain_label id ++ codes "_");
  tun_prefix = codes "tun";
  tun_base = pos (id * 100);
  under0 = 192;
  under1 = 168;
  under2 = 100 + id;
  cgroot = codes "/sys/fs/cgroup/resonance" ++ dash_label id;
  isolate_all = false;
}

-- Whether each of the first `runs` runs passes.
each_run : (test : ℕ → Bool) (runs : ℕ) → Bool
each_run test zero = true
each_run test (suc last) = each_run test last && test last

module _ (test : ℕ → Bool) (id : ℕ) where
  each_run-passes : (runs : ℕ) → suc id ≤ runs → each_run test runs ≡ true → test id ≡ true
  unfolding each_run
  each_run-passes zero below passed = absurd (omega (arith, below))
  each_run-passes (suc last) below passed = elim (dec_lt id last) [
    | yes earlier ↦ each_run-passes last earlier (ground (arith, passed))
    | no later ↦
        let here : id ≡ last = omega (arith, below, later) in
        let tested : test last ≡ true = ground (arith, passed) in rw here tested
  ]

valid_table : each_run (λ id. sim_net_valid (run_net id)) 155 ≡ true
unfolding each_run sim_net_valid run_net field_ok tun_fit under_ok ◌+ℤ◌ decimal
valid_table = refl

-- The texts of a run fit their arrays.
abbrev texts_fit : ℕ → Bool
texts_fit id =
    ltb (length (statedir_of id)) 128
    && (ltb (length (ns_prefix_of id)) 64 && ltb (length (cgroot_of id)) 128)

fit_table : each_run texts_fit 155 ≡ true
unfolding each_run decimal
fit_table = refl

run_net-valid : (id : ℕ) → id ≤ run_id_max → sim_net_valid (run_net id) ≡ true
run_net-valid id h =
    each_run-passes (λ id. sim_net_valid (run_net id)) id 155 (omega (arith, h)) valid_table

all_fit-net_of :
    (id : ℕ) (s n c : Bytes)
    → (ltb (length s) 128 && (ltb (length n) 64 && ltb (length c) 128)) ≡ true
    → all_fit (fits 128 s) (fits 64 n) (fits 128 c) id ≡ some (net_of id s n c)
all_fit-net_of id s n c e =
    let a : ltb (length s) 128 ≡ true = ground (arith, e) in
    let b : ltb (length n) 64 ≡ true = ground (arith, e) in
    let d : ltb (length c) 128 ≡ true = ground (arith, e) in rw (a, b, d) refl

to_int-pos : (v : ℕ) → v < 2 ^ 31 → to_int v ≡ pos v
unfolding to_int
to_int-pos v h =
    let low : v % 2 ^ 32 ≡ v = omega (arith, h) in
    let small : ltb v (2 ^ 31) ≡ true = ground (arith, h) in rw (low, small) refl

net_of-run_net :
    (n : ℕ)
    → suc n ≤ run_id_max
    → net_of (suc n) (statedir_of (suc n)) (ns_prefix_of (suc n)) (cgroot_of (suc n))
      ≡ run_net (suc n)
unfolding run_net
net_of-run_net n h =
    let octet : (100 + suc n) % 256 ≡ 100 + suc n = omega (arith, h) in
    rw (to_int-pos (suc n * 100) (omega (arith, h)), octet) refl

for_run-run_net : (id : ℕ) → id ≤ run_id_max → sim_net_for_run (pos id) ≡ some (run_net id)
unfolding sim_net_for_run
for_run-run_net zero h = unfold run_net sim_default_net in refl
for_run-run_net (suc n) h =
    all_fit-net_of (suc n) (statedir_of (suc n)) (ns_prefix_of (suc n)) (cgroot_of (suc n))
      (each_run-passes texts_fit (suc n) 155 (omega (arith, h)) fit_table)
    ∙ ap some (net_of-run_net n h)

-- The names by the run: none but for 0 up to 154.
abbrev pub names_of : ℤ → Option SimNet
names_of (negsuc n) = none
names_of (pos id) = if ltb run_id_max id then none else some (run_net id)

if_valid-run_net : (id : ℕ) → id ≤ run_id_max → if_valid (some (run_net id)) ≡ some (run_net id)
unfolding run_net
if_valid-run_net id h =
    let valid : sim_net_valid (run_net id) ≡ true = run_net-valid id h in rw valid refl

-- The runs 0 up to 154, and no others, have names: those of `run_net`, in which no octet and no
-- index wraps round.
pub sim_net_try_for_run-names_of : (id : ℤ) → sim_net_try_for_run id ≡ names_of id
unfolding sim_net_try_for_run
sim_net_try_for_run-names_of (negsuc n) = refl
sim_net_try_for_run-names_of (pos id) = elim (Bool-cases (ltb run_id_max id)) [
  | inl past ↦ rw past refl
  | inr small ↦
      let h : id ≤ run_id_max = ground (arith, small) in
      rw (small, for_run-run_net id h, if_valid-run_net id h) refl
]

named-run_net :
    (id : ℤ) (net : SimNet)
    → names_of id ≡ some net
    → (n : ℕ) × (n ≤ run_id_max) × (id ≡ pos n) × (net ≡ run_net n)
named-run_net (negsuc n) net e = cc
named-run_net (pos id) net e = elim (Bool-cases (ltb run_id_max id)) [
  | inl past ↦ cc (rw past at e)
  | inr small ↦ (id, ground (arith, small), refl, cc (rw small at e))
]

-- A run that has names is one of 0 up to 154, and they are its own.
pub sim_net_try_for_run-run_net :
    (id : ℤ) (net : SimNet)
    → sim_net_try_for_run id ≡ some net
    → (n : ℕ) × (n ≤ run_id_max) × (id ≡ pos n) × (net ≡ run_net n)
sim_net_try_for_run-run_net id net e =
    named-run_net id net (sym (sim_net_try_for_run-names_of id) ∙ e)

-- What `sim_net_try_for_run` gives passes `sim_net_valid`.
pub sim_net_try_for_run-valid :
    (id : ℤ) (net : SimNet) → sim_net_try_for_run id ≡ some net → sim_net_valid net ≡ true
sim_net_try_for_run-valid id net e =
    let (n, h, at, is) = sim_net_try_for_run-run_net id net e in rw is (run_net-valid n h)

pub run-named : (n : ℕ) → n ≤ run_id_max → sim_net_try_for_run (pos n) ≡ some (run_net n)
run-named n h =
    let small : ltb run_id_max n ≡ false = ground (arith, h) in
    sim_net_try_for_run-names_of (pos n) ∙ rw small refl
