-- ===== src/Sim.antt =====
-- sim/sim.c and sim/sim.h: the names of a run, `SimNet`. A text is the list of its bytes; a
-- formatted text that does not fit its buffer is `none`.
pub mod Digits
pub mod Runs
pub mod Apart
pub mod Locks
mod Tests
use resonance.Prelude.{
  codes, ℕ, zero, suc, ◌+◌, ◌-◌, ◌*◌, ◌%◌, ◌^◌, Bool, true, false, ◌&&◌, ◌||◌, not, Option, none,
  some, List, [], ◌∷◌, ◌++◌, if◌then◌else◌, ltb, leb, ◌==◌, length,
}
use resonance.Prelude.Int.{ℤ, pos, negsuc, ◌+ℤ◌, ltb_ℤ}
use resonance.Suite.{Bytes, same_bytes}
use resonance.Suite.Tree.Numbers.{print_int}

pub record SimNet : Type 0 where
  pub statedir : Bytes
  pub ns_prefix : Bytes
  pub tun_prefix : Bytes
  pub tun_base : ℤ
  pub under0 : ℕ
  pub under1 : ℕ
  pub under2 : ℕ
  pub cgroot : Bytes
  pub isolate_all : Bool

-- `RUN_ID_MAX`, `UNDER_BASE` and `TUN_MAP_MAX`.
abbrev pub run_id_max : ℕ
run_id_max = 154

abbrev pub under_base : ℕ
under_base = 100

abbrev pub tun_map_max : ℕ
tun_map_max = 100

-- `snprintf` into `cap` bytes, one of them for the NUL.
abbrev pub fits : ℕ → Bytes → Option Bytes
fits cap text = if ltb (length text) cap then some text else none

-- `%d` and `%ld` of a number that is not negative.
unfoldable pub decimal : ℕ → Bytes
decimal n = print_int (pos n)

unfoldable pub ns_name_net : SimNet → (cap i : ℕ) → Option Bytes
ns_name_net net cap i = fits cap (net.ns_prefix ++ decimal i)

unfoldable pub ns_path_net : SimNet → (cap i : ℕ) → Option Bytes
ns_path_net net cap i = fits cap (codes "/var/run/netns/" ++ (net.ns_prefix ++ decimal i))

unfoldable pub tun_name_net : SimNet → (cap i : ℕ) → Option Bytes
tun_name_net net cap i = fits cap (net.tun_prefix ++ print_int (net.tun_base +ℤ pos i))

unfoldable pub node_dir_net : SimNet → (cap i : ℕ) → Option Bytes
node_dir_net net cap i = fits cap (net.statedir ++ (codes "/node" ++ decimal i))

unfoldable pub gossip_path_net : SimNet → ℕ → Option Bytes
gossip_path_net net cap = fits cap (net.statedir ++ codes "/gossip.key")

unfoldable pub cg_node_net : SimNet → (cap i : ℕ) → Option Bytes
cg_node_net net cap i = fits cap (net.cgroot ++ (codes "/node" ++ decimal i))

unfoldable pub sim_default_net : SimNet
sim_default_net = record {
  statedir = codes "/var/tmp/resonance";
  ns_prefix = codes "resonance_";
  tun_prefix = codes "tun";
  tun_base = pos 0;
  under0 = 192;
  under1 = 168;
  under2 = under_base % 256;
  cgroot = codes "/sys/fs/cgroup/resonance";
  isolate_all = false;
}

-- The cast of a `long` to `int`.
unfoldable pub to_int : ℕ → ℤ
to_int v = let w = v % 2 ^ 32 in if ltb w (2 ^ 31) then pos w else negsuc (2 ^ 32 - 1 - w)

-- The names of run `id`, which is not 0.
abbrev pub net_of : (id : ℕ) (statedir ns_prefix cgroot : Bytes) → SimNet
net_of id statedir ns_prefix cgroot = record {
  statedir = statedir;
  ns_prefix = ns_prefix;
  tun_prefix = codes "tun";
  tun_base = to_int (id * tun_map_max);
  under0 = 192;
  under1 = 168;
  under2 = (under_base + id) % 256;
  cgroot = cgroot;
  isolate_all = false;
}

abbrev pub statedir_of : ℕ → Bytes
statedir_of id = codes "/var/tmp/resonance-" ++ decimal id

abbrev pub ns_prefix_of : ℕ → Bytes
ns_prefix_of id = codes "resonance" ++ (decimal id ++ codes "_")

abbrev pub cgroot_of : ℕ → Bytes
cgroot_of id = codes "/sys/fs/cgroup/resonance-" ++ decimal id

-- The three formatted fields, each in its array.
abbrev pub all_fit : Option Bytes → Option Bytes → Option Bytes → ℕ → Option SimNet
all_fit (some s) (some n) (some c) id = some (net_of id s n c)
all_fit (some s) (some n) none id = none
all_fit (some s) none c id = none
all_fit none n c id = none

unfoldable pub sim_net_for_run : ℤ → Option SimNet
sim_net_for_run (negsuc n) = some sim_default_net
sim_net_for_run (pos zero) = some sim_default_net
sim_net_for_run (pos (suc n)) =
    all_fit (fits 128 (statedir_of (suc n))) (fits 64 (ns_prefix_of (suc n)))
      (fits 128 (cgroot_of (suc n))) (suc n)

abbrev pub char_ok : ℕ → Bool
char_ok c =
    (leb b'A' c && leb c b'Z')
    || ((leb b'a' c && leb c b'z')
        || ((leb b'0' c && leb c b'9') || (c == b'/' || (c == b'_' || (c == b'.' || c == b'-')))))

abbrev pub chars_ok : Bytes → Bool
chars_ok [] = true
chars_ok (c ∷ cs) = char_ok c && chars_ok cs

-- A text of `cap` bytes or more has no NUL in its array.
unfoldable pub field_ok : Bytes → (cap : ℕ) → Bool
field_ok s cap = if length s == 0 || leb cap (length s) then false else chars_ok s

unfoldable pub under_ok : (u0 u1 u2 : ℕ) → Bool
under_ok u0 u1 u2 =
    if u0 == 0 || u0 == 127 then false else if leb 224 u0 then false else not (u0 == 10 && u1 == 0)

-- The names for `count` nodes from node `i` on are shorter than `IFNAMSIZ`.
abbrev pub names_fit : (prefix : Bytes) (base : ℤ) (count i : ℕ) → Bool
names_fit prefix base zero i = true
names_fit prefix base (suc count) i =
    ltb (length (prefix ++ print_int (base +ℤ pos i))) 16 && names_fit prefix base count (i + 1)

unfoldable pub tun_fit : SimNet → Bool
tun_fit net =
    not (ltb_ℤ net.tun_base (pos 0)) && names_fit net.tun_prefix net.tun_base tun_map_max 0

unfoldable pub sim_net_valid : SimNet → Bool
sim_net_valid net =
    field_ok net.statedir 128
    && (field_ok net.ns_prefix 64
        && (field_ok net.tun_prefix 32
            && (field_ok net.cgroot 128
                && (tun_fit net && under_ok net.under0 net.under1 net.under2))))

abbrev pub if_valid : Option SimNet → Option SimNet
if_valid none = none
if_valid (some net) =
    if sim_net_valid (record net { isolate_all = false })
    then some (record net { isolate_all = false })
    else none

unfoldable pub sim_net_try_for_run : ℤ → Option SimNet
sim_net_try_for_run (negsuc n) = none
sim_net_try_for_run (pos id) =
    if ltb run_id_max id then none else if_valid (sim_net_for_run (pos id))

unfoldable pub is_default_net : SimNet → Bool
is_default_net net =
    same_bytes net.statedir sim_default_net.statedir
    && (same_bytes net.ns_prefix sim_default_net.ns_prefix
        && (same_bytes net.tun_prefix sim_default_net.tun_prefix
            && (not (
                  ltb_ℤ net.tun_base sim_default_net.tun_base
                  || ltb_ℤ sim_default_net.tun_base net.tun_base)
                && (net.under0 == sim_default_net.under0
                    && (net.under1 == sim_default_net.under1
                        && (net.under2 == sim_default_net.under2
                            && same_bytes net.cgroot sim_default_net.cgroot))))))
