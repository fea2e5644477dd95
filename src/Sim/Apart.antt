-- ===== src/Sim/Apart.antt =====
-- Different runs of sim/sim.c share no name, no TUN index and no subnet.
use mathlib.Core.List.{append_assoc}
use resonance.Prelude.{
  codes, ℕ, zero, suc, ◌+◌, ◌*◌, ◌<◌, ◌≡◌, ◌≢◌, refl, sym, ◌∙◌, ap, some, [], ◌∷◌, ◌++◌, ltb, arith,
  Bool-cases, inl, inr, length,
}
use resonance.Prelude.Int.{ℤ, pos, ◌+ℤ◌}
use resonance.Suite.{Bytes}
use resonance.Suite.Tree.Numbers.{print_int, print_int_injective}
use resonance.Sim.{
  SimNet, fits, decimal, ns_name_net, tun_name_net, node_dir_net, cg_node_net, sim_net_try_for_run,
}
use resonance.Sim.Digits.{
  Lacks, decimal-Lacks, decimal_injective, decimal-ne-nil, split_at, prefix_cancel,
}
use resonance.Sim.Runs.{run_net, dash_label, plain_label, sim_net_try_for_run-run_net}

plain_label_injective : (a b : ℕ) → plain_label a ≡ plain_label b → a ≡ b
plain_label_injective zero zero e = refl
plain_label_injective zero (suc b) e = absurd (decimal-ne-nil (suc b) (sym e))
plain_label_injective (suc a) zero e = absurd (decimal-ne-nil (suc a) e)
plain_label_injective (suc a) (suc b) e = decimal_injective (suc a) (suc b) e

dash_label_injective : (a b : ℕ) → dash_label a ≡ dash_label b → a ≡ b
dash_label_injective zero zero e = refl
dash_label_injective zero (suc b) e = cc
dash_label_injective (suc a) zero e = cc
dash_label_injective (suc a) (suc b) e = decimal_injective (suc a) (suc b) (cc)

plain_label-Lacks : (a : ℕ) → Lacks b'_' (plain_label a)
plain_label-Lacks zero = tt
plain_label-Lacks (suc a) = decimal-Lacks b'_' (suc a) refl

dash_label-Lacks : (a : ℕ) → Lacks b'/' (dash_label a)
dash_label-Lacks zero = tt
dash_label-Lacks (suc a) = ((λ e. absurd (omega (arith, e))), decimal-Lacks b'/' (suc a) refl)

fits-eq : (cap : ℕ) (text s : Bytes) → fits cap text ≡ some s → text ≡ s
fits-eq cap text s e = elim (Bool-cases (ltb (length text) cap)) [
  | inl room ↦ cc (rw room at e)
  | inr long ↦ cc (rw long at e)
]

-- The label of a name that ends it in a byte that it lacks.
label_eq :
    (c : ℕ) (p s t u v : Bytes)
    → Lacks c s
    → Lacks c t
    → (p ++ (s ++ (c ∷ []))) ++ u ≡ (p ++ (t ++ (c ∷ []))) ++ v
    → s ≡ t
label_eq c p s t u v hs ht e =
    (split_at c s t u v hs ht (prefix_cancel p _ _ (sym (regroup s u) ∙ e ∙ regroup t v))).0
  where
    regroup : (s u : Bytes) → (p ++ (s ++ (c ∷ []))) ++ u ≡ p ++ (s ++ (c ∷ u))
    regroup s u = append_assoc p (s ++ (c ∷ [])) u ∙ ap (λ r. p ++ r) (append_assoc s (c ∷ []) u)

-- The same for a name whose label ends in front of the byte.
path_eq :
    (c : ℕ) (p s t u v : Bytes)
    → Lacks c s
    → Lacks c t
    → (p ++ s) ++ (c ∷ u) ≡ (p ++ t) ++ (c ∷ v)
    → s ≡ t
path_eq c p s t u v hs ht e =
    (split_at c s t u v hs ht
      (prefix_cancel p _ _ (sym (append_assoc p s (c ∷ u)) ∙ e ∙ append_assoc p t (c ∷ v)))).0

module _ (a b : ℕ) where
  ns_names-eq :
      (cap i j : ℕ) (s : Bytes)
      → ns_name_net (run_net a) cap i ≡ some s
      → ns_name_net (run_net b) cap j ≡ some s
      → a ≡ b
  unfolding ns_name_net run_net
  ns_names-eq cap i j s ea eb = plain_label_injective a b (
      label_eq b'_' (codes "resonance") (plain_label a) (plain_label b) (decimal i) (decimal j)
        (plain_label-Lacks a) (plain_label-Lacks b) (fits-eq cap _ s ea ∙ sym (fits-eq cap _ s eb)))

  node_dirs-eq :
      (cap i j : ℕ) (s : Bytes)
      → node_dir_net (run_net a) cap i ≡ some s
      → node_dir_net (run_net b) cap j ≡ some s
      → a ≡ b
  unfolding node_dir_net run_net
  node_dirs-eq cap i j s ea eb = dash_label_injective a b (
      path_eq b'/' (codes "/var/tmp/resonance") (dash_label a) (dash_label b) _ _
        (dash_label-Lacks a) (dash_label-Lacks b) (fits-eq cap _ s ea ∙ sym (fits-eq cap _ s eb)))

  cg_nodes-eq :
      (cap i j : ℕ) (s : Bytes)
      → cg_node_net (run_net a) cap i ≡ some s
      → cg_node_net (run_net b) cap j ≡ some s
      → a ≡ b
  unfolding cg_node_net run_net
  cg_nodes-eq cap i j s ea eb = dash_label_injective a b (
      path_eq b'/' (codes "/sys/fs/cgroup/resonance") (dash_label a) (dash_label b) _ _
        (dash_label-Lacks a) (dash_label-Lacks b) (fits-eq cap _ s ea ∙ sym (fits-eq cap _ s eb)))

pos-add : (m n : ℕ) → pos m +ℤ pos n ≡ pos (m + n)
unfolding ◌+ℤ◌
pos-add m n = ground arith

tun_names-eq :
    (a b cap i j : ℕ) (s : Bytes)
    → i < 100
    → j < 100
    → tun_name_net (run_net a) cap i ≡ some s
    → tun_name_net (run_net b) cap j ≡ some s
    → a ≡ b
unfolding tun_name_net run_net
tun_names-eq a b cap i j s hi hj ea eb =
    let texts : print_int (pos (a * 100) +ℤ pos i) ≡ print_int (pos (b * 100) +ℤ pos j) =
      prefix_cancel (codes "tun") _ _ (fits-eq cap _ s ea ∙ sym (fits-eq cap _ s eb)) in
    let numbers : a * 100 + i ≡ b * 100 + j =
      print_int_injective _ _
        (ap print_int (sym (pos-add (a * 100) i)) ∙ texts ∙ ap print_int (pos-add (b * 100) j)) in
    omega (arith, numbers, hi, hj)

-- Two runs that share nothing: whatever the buffers and the nodes, no namespace, home, cgroup or
-- TUN of one has the name of one of the other, and the subnets differ.
pub record AreApart (na nb : SimNet) : Type 0 where
  pub namespaces :
      (cap i j : ℕ) (s : Bytes)
      → ¬ ((ns_name_net na cap i ≡ some s) × (ns_name_net nb cap j ≡ some s))
  pub homes :
      (cap i j : ℕ) (s : Bytes)
      → ¬ ((node_dir_net na cap i ≡ some s) × (node_dir_net nb cap j ≡ some s))
  pub cgroups :
      (cap i j : ℕ) (s : Bytes)
      → ¬ ((cg_node_net na cap i ≡ some s) × (cg_node_net nb cap j ≡ some s))
  -- Of the nodes below 100, as many as a map of TUNs holds.
  pub tuns :
      (cap i j : ℕ) (s : Bytes)
      → ¬ (
          (i < 100)
          × (j < 100)
          × (tun_name_net na cap i ≡ some s)
          × (tun_name_net nb cap j ≡ some s))
  pub subnets : na.under2 ≢ nb.under2

run_nets-AreApart : (a b : ℕ) → a ≢ b → AreApart (run_net a) (run_net b)
unfolding run_net
run_nets-AreApart a b apart = record {
  namespaces = λ cap i j s e. apart (ns_names-eq a b cap i j s e.0 e.1);
  homes = λ cap i j s e. apart (node_dirs-eq a b cap i j s e.0 e.1);
  cgroups = λ cap i j s e. apart (cg_nodes-eq a b cap i j s e.0 e.1);
  tuns = λ cap i j s e. apart (tun_names-eq a b cap i j s e.0 e.1 e.2 e.3);
  subnets = λ e. apart (omega (arith, e));
}

-- Different runs share nothing.
pub sim_net_try_for_run-AreApart :
    (a b : ℤ) (na nb : SimNet)
    → sim_net_try_for_run a ≡ some na
    → sim_net_try_for_run b ≡ some nb
    → a ≢ b
    → AreApart na nb
sim_net_try_for_run-AreApart a b na nb ea eb apart =
    let (m, small, at, is) = sim_net_try_for_run-run_net a na ea in
    let (n, low, there, that) = sim_net_try_for_run-run_net b nb eb in
    rw (is, that) (run_nets-AreApart m n λ same. apart (at ∙ ap pos same ∙ sym there))
