-- ===== src/Tun/Shaping.antt =====
-- The shaping of a device's traffic and the flow counters of tun/tun.c. Floating point arithmetic
-- is the language's, not the program's: its operations are an interface. The pointers that
-- `qbucket`, `qdelay` and the counters guard against null are addresses of fields.
use Prim.Native.Nat.{bit_xor}
use resonance.Prelude.{
  ℕ, ◌+◌, ◌-◌, ◌%◌, ◌≤◌, ◌<◌, ◌≡◌, Bool, true, false, ◌&&◌, ◌||◌, arith, if◌then◌else◌, ltb, leb,
  ◌==◌, size_max, u64_mod, add64, Bool-cases, ltb→lt, inl, inr, dec_lt,
}
use resonance.Prelude.Int.{ℤ, pos, ◌-ℤ◌, leb_ℤ}
use resonance.Rng.{mul64, shr}
use resonance.Tun.{TunQos, TunMap, TunFlow, tun_map_max}

abbrev pub tun_buf_n : ℕ
tun_buf_n = 2048

-- `(double)` of an unsigned and of a signed number, the conversion back, and what is computed.
pub record Doubles (F : Type 0) : Type 0 where
  pub of_u64 : ℕ → F
  pub of_int : ℤ → F
  pub to_u64 : F → ℕ
  pub le : F → F → Bool
  pub lt : F → F → Bool
  pub mul : F → F → F
  pub div : F → F → F

pub qmix : ℕ → ℕ → ℕ
qmix seed ctr =
    let z = add64 seed (mul64 ctr 0x9E3779B97F4A7C15) in
    let y = mul64 (bit_xor z (shr z 30)) 0xBF58476D1CE4E5B9 in
    let x = mul64 (bit_xor y (shr y 27)) 0x94D049BB133111EB in bit_xor x (shr x 31)

pub qcap : ℕ → ℕ
qcap kbps = let cap = mul64 kbps 125 in if ltb cap tun_buf_n then tun_buf_n else cap

pub qslow : ℤ → ℤ → ℤ → Bool
qslow last now secs = leb_ℤ secs (pos 0) || leb_ℤ secs (now -ℤ last)

-- `sadd`: the new counter.
pub sadd : ℕ → ℕ → ℕ
sadd a b = if ltb (size_max - b) a then size_max else a + b

module _ {F : Type 0} (doubles : Doubles F) where
  pub qu01 : ℕ → ℕ → F
  qu01 seed ctr =
      doubles.div (doubles.of_u64 (shr (qmix seed ctr) 11)) (doubles.of_u64 9007199254740992)

  pub qloss : F → ℕ → ℕ → Bool
  qloss loss01 seed ctr =
      if doubles.le loss01 (doubles.of_u64 0)
      then false
      else if doubles.le (doubles.of_u64 1) loss01
      then true
      else doubles.lt (qu01 (bit_xor seed 11) ctr) loss01

  pub qjit : ℕ → ℕ → ℕ → ℕ
  qjit jit seed ctr =
      if jit == 0
      then 0
      else doubles.to_u64 (doubles.mul (qu01 (bit_xor seed 77) ctr) (doubles.of_u64 jit))

  pub qdelay : TunQos F → ℕ → ℕ
  qdelay q ctr = add64 q.base_delay_ns (qjit q.jitter_ns q.seed ctr)

  pub qdup : ℤ → ℕ → ℕ → Bool
  qdup pct seed ctr =
      if leb_ℤ pct (pos 0)
      then false
      else if leb_ℤ (pos 100) pct
      then true
      else doubles.lt (doubles.mul (qu01 (bit_xor seed 131) ctr) (doubles.of_u64 100))
          (doubles.of_int pct)

  -- The tokens after a refill.
  pub refill : ℕ → ℕ → ℕ → ℕ
  refill kbps toks el_ns =
      let cap = qcap kbps in
      let add =
        doubles.div (doubles.mul (doubles.of_u64 kbps) (doubles.of_u64 el_ns))
          (doubles.of_u64 8000000) in
      if doubles.le (doubles.of_u64 cap) add
      then cap
      else (let more = add64 toks (doubles.to_u64 add) in if ltb cap more then cap else more)

  -- The answer, the tokens left, and the time of the last refill.
  pub qbucket : (kbps toks last now n : ℕ) → Bool × ℕ × ℕ
  qbucket kbps toks last now n =
      if kbps == 0
      then (true, toks, last)
      else (let full = refill kbps toks ((now + u64_mod - last) % u64_mod) in
          if ltb full n then (false, full, now) else (true, full - n, now))

-- A change of the cell `(fi, ti)`; none out of range, as in `flow_at`.
pub bump : {F : Type 0} → (TunFlow → TunFlow) → TunMap F → ℕ → ℕ → TunMap F
bump f map fi ti = if leb tun_map_max fi || leb tun_map_max ti then map else record map {
  flow = λ i j. if i == fi && j == ti then f (map.flow fi ti) else map.flow i j;
}

module _ {F : Type 0} where
  pub flow_fwd : TunMap F → ℕ → ℕ → ℕ → TunMap F
  flow_fwd map fi ti n =
      bump (λ f. record f { pkts = sadd f.pkts 1; bytes = sadd f.bytes n }) map fi ti

  pub flow_radio : TunMap F → ℕ → ℕ → TunMap F
  flow_radio = bump λ f. record f { radio_drops = sadd f.radio_drops 1 }

  pub flow_policy : TunMap F → ℕ → ℕ → TunMap F
  flow_policy = bump λ f. record f { policy_drops = sadd f.policy_drops 1 }

-- The time from `last` to `now` on a clock of 64 bits.
abbrev lapse : (last now : ℕ) → ℕ
lapse last now = (now + u64_mod - last) % u64_mod

module _ {F : Type 0} (doubles : Doubles F) where
  -- The bytes that a rate of `kbps` earns in `el_ns`.
  abbrev earned : (kbps el_ns : ℕ) → F
  earned kbps el_ns =
      doubles.div (doubles.mul (doubles.of_u64 kbps) (doubles.of_u64 el_ns))
        (doubles.of_u64 8000000)

  -- The tokens behind a refill of `toks`: the capacity if that much was earned; else the tokens and
  -- what was earned, whole bytes of it, as far as the capacity goes. A sum of 2 ^ 64 or more is only
  -- bounded.
  pub data Filled (kbps toks el_ns : ℕ) : ℕ → Type 0 where
    to_the_brim :
        doubles.le (doubles.of_u64 (qcap kbps)) (earned kbps el_ns) ≡ true
        → Filled kbps toks el_ns (qcap kbps)
    capped :
        doubles.le (doubles.of_u64 (qcap kbps)) (earned kbps el_ns) ≡ false
        → toks + doubles.to_u64 (earned kbps el_ns) < u64_mod
        → qcap kbps ≤ toks + doubles.to_u64 (earned kbps el_ns)
        → Filled kbps toks el_ns (qcap kbps)
    topped_up :
        doubles.le (doubles.of_u64 (qcap kbps)) (earned kbps el_ns) ≡ false
        → toks + doubles.to_u64 (earned kbps el_ns) < u64_mod
        → toks + doubles.to_u64 (earned kbps el_ns) ≤ qcap kbps
        → Filled kbps toks el_ns (toks + doubles.to_u64 (earned kbps el_ns))
    wrapped :
        (full : ℕ)
        → doubles.le (doubles.of_u64 (qcap kbps)) (earned kbps el_ns) ≡ false
        → u64_mod ≤ toks + doubles.to_u64 (earned kbps el_ns)
        → full ≤ qcap kbps
        → Filled kbps toks el_ns full

  -- What `qbucket` leaves: without a rate everything passes and nothing changes; with one, the
  -- bucket is filled for the time since the last refill, a packet that passes is paid for out of it,
  -- and one that is denied is longer than it is full.
  pub data Spent (kbps toks last now n : ℕ) : Bool × ℕ × ℕ → Type 0 where
    uncapped : kbps ≡ 0 → Spent kbps toks last now n (true, toks, last)
    passed :
        (full left : ℕ)
        → 0 < kbps
        → Filled kbps toks (lapse last now) full
        → left + n ≡ full
        → Spent kbps toks last now n (true, left, now)
    denied :
        (full : ℕ)
        → 0 < kbps
        → Filled kbps toks (lapse last now) full
        → full < n
        → Spent kbps toks last now n (false, full, now)

  sum-Filled :
      (kbps toks el_ns : ℕ)
      → doubles.le (doubles.of_u64 (qcap kbps)) (earned kbps el_ns) ≡ false
      → (let more = add64 toks (doubles.to_u64 (earned kbps el_ns)) in
          Filled kbps toks el_ns (if ltb (qcap kbps) more then qcap kbps else more))
  sum-Filled kbps toks el_ns short =
      let sum : ℕ = toks + doubles.to_u64 (earned kbps el_ns) in
      elim (dec_lt sum u64_mod) [
        | no wraps ↦ wrapped _ short (omega (arith, wraps)) (ground arith)
        | yes fits ↦
            let whole : add64 toks (doubles.to_u64 (earned kbps el_ns)) ≡ sum =
              omega (arith, fits) in
            rw whole (elim (Bool-cases (ltb (qcap kbps) sum)) [
              | inl more ↦ rw more (capped short fits (ground (arith, more)))
              | inr less ↦ rw less (topped_up short fits (ground (arith, less)))
            ])
      ]

  refill-Filled : (kbps toks el_ns : ℕ) → Filled kbps toks el_ns (refill doubles kbps toks el_ns)
  unfolding refill
  refill-Filled kbps toks el_ns =
      elim (Bool-cases (doubles.le (doubles.of_u64 (qcap kbps)) (earned kbps el_ns))) [
        | inl enough ↦ rw (refill, enough) (to_the_brim enough)
        | inr short ↦ rw (refill, short) (sum-Filled kbps toks el_ns short)
      ]

  -- Whatever floating point arithmetic does: `qbucket` fills the bucket by what the rate has earned
  -- since the last refill, up to the capacity; it lets a packet pass exactly if the bucket then
  -- holds as many tokens as the packet has bytes, and takes them out; and it passes every packet and
  -- changes nothing if there is no rate. Where tokens and gain come to 2 ^ 64 or more, the bucket
  -- is only known to hold no more than its capacity.
  pub qbucket-Spent :
      (kbps toks last now n : ℕ) → Spent kbps toks last now n (qbucket doubles kbps toks last now n)
  unfolding qbucket
  qbucket-Spent kbps toks last now n =
      let full = refill doubles kbps toks (lapse last now) in
      let filled = refill-Filled kbps toks (lapse last now) in
      elim (Bool-cases (kbps == 0)) [
        | inl free ↦ rw free (uncapped (ground arith))
        | inr rated ↦ elim (Bool-cases (ltb full n)) [
          | inl short ↦ rw (rated, short) (denied full (ground arith) filled (ltb→lt _ _ short))
          | inr covered ↦
              rw (rated, covered)
                (passed full (full - n) (ground arith) filled (ground (arith, covered)))
        ]
      ]

-- The counters change neither the devices nor the edges.
module _ {F : Type 0} (m : TunMap F) (fi ti : ℕ) where
  pub fwd_kept :
      (n : ℕ) → ((flow_fwd m fi ti n).slot ≡ m.slot) × ((flow_fwd m fi ti n).drop ≡ m.drop)
  unfolding flow_fwd bump
  fwd_kept n = ground arith

  pub radio_kept : ((flow_radio m fi ti).slot ≡ m.slot) × ((flow_radio m fi ti).drop ≡ m.drop)
  unfolding flow_radio bump
  radio_kept = ground arith

  pub policy_kept : ((flow_policy m fi ti).slot ≡ m.slot) × ((flow_policy m fi ti).drop ≡ m.drop)
  unfolding flow_policy bump
  policy_kept = ground arith
