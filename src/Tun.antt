-- ===== src/Tun.antt =====
-- tun/tun.c and tun/tun.h: the switch between TUN devices. A map holds the devices' slots, the
-- armed QoS entries, the dropped edges, and the flow counters. A used part of a C array is a list;
-- the matrix of counters is a function. A file descriptor is signed. The guard on a null `map` is
-- left out, since every caller passes the address of an object.
pub mod Table
pub mod Drops
pub mod Shaping
pub mod Qos
pub mod Pump
mod Tests
use resonance.Prelude.{
  ℕ, zero, suc, ◌+◌, ◌-◌, ◌*◌, ◌%◌, ◌^◌, Bool, true, false, not, ◌&&◌, ◌||◌, Option, none, some,
  List, [], ◌∷◌, ◌++◌, if◌then◌else◌, ltb, leb, ◌==◌, length, get_elem?, set, take, size_max,
}
use resonance.Prelude.Int.{ℤ, pos, negsuc}

abbrev pub tun_map_max : ℕ
tun_map_max = 100

-- `ip` is four bytes.
pub record TunSlot : Type 0 where
  pub fd : ℤ
  pub ip : List ℕ
  pub node_id : ℕ

-- Floating point numbers are of the type `F`.
pub record TunQos (F : Type 0) : Type 0 where
  pub loss01 : F
  pub base_delay_ns : ℕ
  pub jitter_ns : ℕ
  pub kbps : ℕ
  pub dup_pct : ℤ
  pub slow_secs : ℤ
  pub seed : ℕ

pub record TunQosSlot (F : Type 0) : Type 0 where
  pub fd : ℤ
  pub q : TunQos F
  pub ctr : ℕ
  pub toks : ℕ
  pub last_ns : ℕ
  pub last_slow : ℤ

pub record TunDropEnt : Type 0 where
  pub from_fd : ℤ
  pub to_fd : ℤ

pub record TunFlow : Type 0 where
  pub pkts : ℕ
  pub bytes : ℕ
  pub radio_drops : ℕ
  pub policy_drops : ℕ

pub record TunMap (F : Type 0) : Type 0 where
  pub slot : List TunSlot
  pub qos : List (TunQosSlot F)
  pub drop : List TunDropEnt
  pub flow : ℕ → ℕ → TunFlow

abbrev pub no_flow : TunFlow
no_flow = record { pkts = 0; bytes = 0; radio_drops = 0; policy_drops = 0 }

abbrev pub is_fd : ℤ → ℤ → Bool
is_fd (pos a) (pos b) = a == b
is_fd (negsuc a) (negsuc b) = a == b
is_fd _ _ = false

abbrev pub is_negative : ℤ → Bool
is_negative (pos a) = false
is_negative (negsuc a) = true

abbrev pub same_ip : List ℕ → List ℕ → Bool
same_ip [] [] = true
same_ip (a ∷ as') (b ∷ bs) = a == b && same_ip as' bs
same_ip _ _ = false

-- The first index whose entry passes the test: the loops that look an entry up.
pub index_of {ℓ} : {A : Type ℓ} → (A → Bool) → List A → Option ℕ
index_of test [] = none
index_of test (x ∷ xs) =
    if test x then some 0 else elim (index_of test xs) [ none ↦ none | some i ↦ some (suc i) ]

-- `a[i] = a[n - 1]; n--`
pub remove_swap {ℓ} : {A : Type ℓ} → List A → ℕ → List A
remove_swap xs i = elim (get_elem? xs (length xs - 1)) [
  | none ↦ xs
  | some last ↦ take (length xs - 1) (set xs i last)
]

module _ {F : Type 0} where
  pub tun_map_add : TunMap F → ℤ → List ℕ → ℕ → Bool × TunMap F
  tun_map_add map fd ip node_id =
      if is_negative fd
      then (false, map)
      else if leb tun_map_max (length map.slot)
      then (false, map)
      else (
        true,
        record map { slot = map.slot ++ record { fd = fd; ip = ip; node_id = node_id } ∷ [] },
      )

  pub slot_of_fd : TunMap F → ℤ → Option ℕ
  slot_of_fd map fd = index_of (λ s. is_fd s.fd fd) map.slot

  pub slot_of_ip : TunMap F → List ℕ → ℤ → Option ℕ
  slot_of_ip map ip not_fd = index_of (λ s. not (is_fd s.fd not_fd) && same_ip s.ip ip) map.slot

  pub idx_of_fd : TunMap F → ℤ → Option ℕ
  idx_of_fd map fd = if is_negative fd then none else slot_of_fd map fd

  pub qfind : TunMap F → ℤ → Option ℕ
  qfind map fd = index_of (λ s. is_fd s.fd fd) map.qos

abbrev pub is_edge : ℤ → ℤ → TunDropEnt → Bool
is_edge from to e = is_fd e.from_fd from && is_fd e.to_fd to

abbrev pub any {ℓ} : {A : Type ℓ} → (A → Bool) → List A → Bool
any test [] = false
any test (x ∷ xs) = test x || any test xs

pub dhas : List TunDropEnt → ℤ → ℤ → Bool
dhas drops from to = any (is_edge from to) drops

-- The end of `tun_drop_set`, once no entry is found.
abbrev pub add_drop : List TunDropEnt → ℤ → ℤ → List TunDropEnt
add_drop drops from to =
    if leb tun_map_max (length drops)
    then drops
    else drops ++ record { from_fd = from; to_fd = to } ∷ []

module _ {F : Type 0} where
  pub tun_drop_set : TunMap F → ℤ → ℤ → Bool → TunMap F
  tun_drop_set m from_fd to_fd drop =
      if is_negative from_fd || is_negative to_fd
      then m
      else elim (index_of (is_edge from_fd to_fd) m.drop) [
        | some i ↦ if drop then m else record m { drop = remove_swap m.drop i }
        | none ↦ if drop then record m { drop = add_drop m.drop from_fd to_fd } else m
      ]

  pub tun_drop_clear : TunMap F → ℤ → ℤ → Bool → TunMap F
  tun_drop_clear m from_fd to_fd drop =
      if is_negative from_fd || is_negative to_fd
      then m
      else elim (index_of (is_edge from_fd to_fd) m.drop) [
        | some i ↦ record m { drop = remove_swap m.drop i }
        | none ↦ m
      ]

  pub tun_stats_get : TunMap F → ℤ → ℤ → Option TunFlow
  tun_stats_get m from_fd to_fd =
      if is_negative from_fd || is_negative to_fd then none else elim (idx_of_fd m from_fd) [
        | none ↦ none
        | some fi ↦ elim (idx_of_fd m to_fd) [ none ↦ none | some ti ↦ some (m.flow fi ti) ]
      ]

  pub tun_stats_reset : TunMap F → TunMap F
  tun_stats_reset m = record m { flow = λ fi ti. no_flow }
