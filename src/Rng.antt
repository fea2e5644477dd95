-- ===== src/Rng.antt =====
-- rng/rng.c and rng/rng.h: xoshiro256** and its splitmix64 seeder. A word is a number below 2 ^ 64;
-- products and left shifts are taken modulo 2 ^ 64.
use Prim.Native.Nat.{bit_or, bit_xor}
use resonance.Prelude.{ℕ, ◌-◌, ◌*◌, ◌/◌, ◌%◌, ◌^◌, Bool, ◌&&◌, u64_mod, add64, ◌==◌, if◌then◌else◌}

pub record Rng : Type 0 where
  pub s0 : ℕ
  pub s1 : ℕ
  pub s2 : ℕ
  pub s3 : ℕ

abbrev pub mul64 : ℕ → ℕ → ℕ
mul64 a b = (a * b) % u64_mod

abbrev pub shl : ℕ → ℕ → ℕ
shl x k = (x * 2 ^ k) % u64_mod

abbrev pub shr : ℕ → ℕ → ℕ
shr x k = x / 2 ^ k

pub rotl : ℕ → ℕ → ℕ
rotl x k = bit_or (shl x k) (shr x (64 - k))

-- The new state and the output.
pub splitmix64_next : ℕ → ℕ × ℕ
splitmix64_next x =
    let y = add64 x 0x9e3779b97f4a7c15 in
    let z = mul64 (bit_xor y (shr y 30)) 0xbf58476d1ce4e5b9 in
    let w = mul64 (bit_xor z (shr z 27)) 0x94d049bb133111eb in (y, bit_xor w (shr w 31))

abbrev pub all_zero : Rng → Bool
all_zero r = r.s0 == 0 && r.s1 == 0 && r.s2 == 0 && r.s3 == 0

unfoldable pub rng_seed : ℕ → Rng
unfolding splitmix64_next
rng_seed seed =
    let (x0, a) = splitmix64_next seed in
    let (x1, b) = splitmix64_next x0 in
    let (x2, c) = splitmix64_next x1 in
    let (x3, d) = splitmix64_next x2 in
    let r : Rng = record { s0 = a; s1 = b; s2 = c; s3 = d } in
    if all_zero r then record r { s0 = 1 } else r

-- The result and the next state.
unfoldable pub rng_u64 : Rng → ℕ × Rng
unfolding rotl
rng_u64 r =
    let result = mul64 (rotl (mul64 r.s1 5) 7) 9 in
    let t = shl r.s1 17 in
    let s2 = bit_xor r.s2 r.s0 in
    let s3 = bit_xor r.s3 r.s1 in
    let s1 = bit_xor r.s1 s2 in
    let s0 = bit_xor r.s0 s3 in
    (result, record { s0 = s0; s1 = s1; s2 = bit_xor s2 t; s3 = rotl s3 45 })
