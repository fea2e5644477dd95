-- ===== src/World/Paths.antt =====
-- What a probe's delay can be, and `radio_path` as a whole.
mod Single
use native.Mathlib.Nat.{mul-le-mul}
use Prim.Native.Nat.add
use resonance.Prelude.{
  ℕ, suc, ◌+◌, ◌-◌, ◌*◌, ◌/◌, ◌%◌, ◌^◌, ◌≤◌, ◌<◌, ◌≡◌, ◌≢◌, ◌⊎◌, refl, sym, ◌∙◌, inl, inr, Bool,
  true, ◌||◌, Option, none, some, List, arith, ltb, ◌==◌, if◌then◌else◌, ok, Bool-cases, add64,
  length, get_elem?, Returns, returns, Returns-if, Returns-bind, Returns-map, Returns-option, ◌>>=◌,
}
use resonance.Prelude.Int.{ℤ, pos, ◌-ℤ◌, magnitude}
use resonance.World.{
  Material, air, MediumGrid, RadioPath, crossing, segment_delay, cell_of, path_between, blocked,
  radio_path,
}
use resonance.World.Cells.{IsMap, InCell, Located, in_cell, IsNear, cell_of-Located}
use resonance.World.Bresenham.{dist}
use resonance.World.Rays.{Probe, arrive, stop, move, RayFrom}
use resonance.World.Ray.{segment_delay-Probe, segment_delay-RayFrom}

-- A cell that a ray can cross is air, at 300 nm per ns.
crossing-some :
    (cell_nm t : ℕ) (mat : Material)
    → crossing cell_nm mat ≡ some t
    → (mat ≡ air) × (t ≡ cell_nm / 300)
unfolding crossing
crossing-some cell_nm t mat e = ground arith

crossing-none : (cell_nm : ℕ) (mat : Material) → crossing cell_nm mat ≡ none → mat ≢ air
unfolding crossing
crossing-none cell_nm mat e is_air = ground arith

-- Some cell is not air.
abbrev pub Obstructed : List Material → Type 0
Obstructed cells = (i : ℕ) × (m : Material) × (get_elem? cells i ≡ some m) × (m ≢ air)

crossed_once :
    (delay d n t : ℕ) → d ≡ (add64 delay t + n * t) % 2 ^ 64 → d ≡ (delay + suc n * t) % 2 ^ 64
crossed_once delay d n t e = omega arith

module _ {cell_nm nx : ℕ} {cells : List Material} {X Y : ℕ} where
  -- A delay that `segment_delay` reports is a whole number of cell crossings: at least the
  -- longer side of the ray's box, and at most both sides together, counting the first cell.
  Probe-delay :
      {r : Option ℕ} {d x y delay : ℕ}
      → Probe cell_nm nx cells X Y r x y delay
      → r ≡ some d
      → (n : ℕ) × (dist x X < n)
        × (dist y Y < n)
        × (n ≤ dist x X + dist y Y + 1)
        × (d ≡ (delay + n * (cell_nm / 300)) % 2 ^ 64)
  Probe-delay {d} {delay} (arrive t c ex ey e) reached =
      let speed = crossing-some cell_nm t c.mat c.time in
      let sum : d ≡ add64 delay t = cc in (1, omega arith, omega arith, omega arith, omega arith)
  Probe-delay (stop c e) reached = cc
  Probe-delay {d} {delay} (move t x' y' c near sx sy p) reached =
      let speed = crossing-some cell_nm t c.mat c.time in
      let (n, hx, hy, hn, hd) = Probe-delay p reached in
      (
        suc n,
        omega arith,
        omega arith,
        omega arith,
        crossed_once delay d n (cell_nm / 300) (rw speed.1 at hd),
      )

  -- What stops a probe is a cell of another material than air.
  Probe-stopped :
      {r : Option ℕ} {x y delay : ℕ}
      → Probe cell_nm nx cells X Y r x y delay
      → r ≡ none
      → Obstructed cells
  Probe-stopped (arrive t c ex ey e) stopped = cc
  Probe-stopped (stop {x} {y} c e) stopped =
      (y * nx + x, c.mat, c.there, crossing-none cell_nm c.mat c.time)
  Probe-stopped (move t x' y' c near sx sy p) stopped = Probe-stopped p stopped

-- What `segment_delay` says of a ray: a whole number of crossings, modulo 2 ^ 64, more than either
-- side of the ray's box and at most both sides and one; or that a cell blocks.
abbrev pub Timed : ℕ → List Material → (w h : ℕ) → Option ℕ → Type 0
Timed cell_nm cells w h none = Obstructed cells
Timed cell_nm cells w h (some d) =
    (n : ℕ) × (w < n) × (h < n) × (n ≤ w + h + 1) × (d ≡ (n * (cell_nm / 300)) % 2 ^ 64)

-- `segment_delay` between two cells of a map of at most 2 ^ 61 cells always returns. A delay that
-- it reports is a whole number of cell crossings (modulo 2 ^ 64), more than the longer side of the
-- ray's box and at most both sides and one; if it reports none, some cell of the map is not air.
pub segment_delay-Timed :
    (grid : MediumGrid) (cells : List Material) (X0 Y0 X1 Y1 : ℕ)
    → length cells ≡ grid.nx * grid.ny
    → grid.nx * grid.ny ≤ 2 ^ 61
    → (X0 < grid.nx) × (Y0 < grid.ny)
    → (X1 < grid.nx) × (Y1 < grid.ny)
    → Returns
        (Timed grid.cell_nm cells (dist X0 X1) (dist Y0 Y1))
        (segment_delay grid cells (pos X0) (pos Y0) (pos X1) (pos Y1))
segment_delay-Timed grid cells X0 Y0 X1 Y1 size small from to =
    Returns-map (segment_delay-Probe grid cells X0 Y0 X1 Y1 size small from to) λ r p. timed r p
  where
    timed :
        (r : Option ℕ)
        → Probe grid.cell_nm grid.nx cells X1 Y1 r X0 Y0 0
        → Timed grid.cell_nm cells (dist X0 X1) (dist Y0 Y1) r
    timed none p = Probe-stopped p refl
    timed (some d) p =
        let (n, hx, hy, hn, hd) = Probe-delay p refl in
        (n, hx, hy, hn, rw (add.zero (n * (grid.cell_nm / 300))) at hd)

-- The square of the distance of two positions.
abbrev pub square_distance : (ax ay bx by : ℤ) → ℕ
square_distance ax ay bx by =
    magnitude (bx -ℤ ax) * magnitude (bx -ℤ ax) + magnitude (by -ℤ ay) * magnitude (by -ℤ ay)

-- Why two positions hear one another or not, with what is then returned.
pub data Reception (grid : MediumGrid) (cells : List Material) (range_nm : ℕ) (ax ay bx by : ℤ)
    : Bool × RadioPath → Type 0 where
  too_wide : 2 ^ 63 ≤ range_nm → Reception grid cells range_nm ax ay bx by blocked
  far :
      range_nm * range_nm < square_distance ax ay bx by
      → Reception grid cells range_nm ax ay bx by blocked
  off_map :
      ((ix iy : ℕ) → ¬ InCell grid ax ay ix iy) ⊎ ((ix iy : ℕ) → ¬ InCell grid bx by ix iy)
      → Reception grid cells range_nm ax ay bx by blocked
  shadowed :
      (cax cay cbx cby : ℕ)
      → InCell grid ax ay cax cay
      → InCell grid bx by cbx cby
      → RayFrom grid.cell_nm grid.nx cells cax cay cbx cby none 0 0 0
      → Reception grid cells range_nm ax ay bx by blocked
  received :
      (cax cay cbx cby delay : ℕ)
      → range_nm < 2 ^ 63
      → square_distance ax ay bx by ≤ range_nm * range_nm
      → InCell grid ax ay cax cay
      → InCell grid bx by cbx cby
      → RayFrom grid.cell_nm grid.nx cells cax cay cbx cby (some delay) 0 0 0
      → Reception grid cells range_nm ax ay bx by (
        true,
        record {
          reachable = true;
          delay_ns = if square_distance ax ay bx by == 0 then 0 else delay;
        },
      )

out_of_square : (r x y : ℕ) → ltb r x || ltb r y ≡ true → r * r < x * x + y * y
out_of_square r x y e = elim (Bool-cases (ltb r x)) [
  | inl wide ↦ let h : r + 1 ≤ x = ground arith in omega (arith, mul-le-mul h h)
  | inr n ↦ let e' = rw n at e in let h : r + 1 ≤ y = ground arith in omega (arith, mul-le-mul h h)
]

module _ (grid : MediumGrid) (cells : List Material) (range_nm : ℕ) (ax ay bx by : ℤ)
    (map : IsMap grid cells) (narrow : range_nm < 2 ^ 63)
    (close : square_distance ax ay bx by ≤ range_nm * range_nm) where
  verdict :
      (cax cay cbx cby : ℕ) (r : Option ℕ)
      → InCell grid ax ay cax cay
      → InCell grid bx by cbx cby
      → RayFrom grid.cell_nm grid.nx cells cax cay cbx cby r 0 0 0
      → Returns (Reception grid cells range_nm ax ay bx by) (
          ok (elim r [
            | none ↦ blocked
            | some delay_ns ↦ (
              true,
              record {
                reachable = true;
                delay_ns = if square_distance ax ay bx by == 0 then 0 else delay_ns;
              },
            )
          ]))
  verdict cax cay cbx cby none ca cb p = returns (shadowed cax cay cbx cby ca cb p)
  verdict cax cay cbx cby (some delay) ca cb p =
      returns (received cax cay cbx cby delay narrow close ca cb p)

  both-Located :
      (a b : Option (ℕ × ℕ))
      → Located grid ax ay a
      → Located grid bx by b
      → Returns
          (Reception grid cells range_nm ax ay bx by)
          (path_between grid cells (square_distance ax ay bx by) a b)
  unfolding path_between
  both-Located none b (Located.off_map out) lb = returns (off_map (inl out))
  both-Located (some a) none la (Located.off_map out) = returns (off_map (inr out))
  both-Located (some (cax, cay)) (some (cbx, cby)) (in_cell _ _ ca) (in_cell _ _ cb) =
      Returns-bind
        (segment_delay-RayFrom grid cells cax cay cbx cby map.size map.small ca.inside cb.inside)
        λ r found. verdict cax cay cbx cby r ca cb found.1

  -- The second position is located only if the first one is.
  one_by_one :
      (a : Option (ℕ × ℕ))
      → Located grid ax ay a
      → IsNear grid bx by
      → Returns (Reception grid cells range_nm ax ay bx by) (do
        b ← elim a [ none ↦ ok none | some _ ↦ cell_of grid bx by ]
        path_between grid cells (square_distance ax ay bx by) a b)
  unfolding path_between
  one_by_one none (Located.off_map out) near = returns (off_map (inl out))
  one_by_one (some a) la near =
      Returns-bind (cell_of-Located grid bx by near) λ b lb. both-Located (some a) b la lb

  path_on-Reception :
      IsNear grid ax ay
      → IsNear grid bx by
      → Returns (Reception grid cells range_nm ax ay bx by) (
          cell_of grid ax ay >>= λ a.
          elim a [ none ↦ ok none | some _ ↦ cell_of grid bx by ] >>= λ b.
          path_between grid cells (square_distance ax ay bx by) a b)
  path_on-Reception near_a near_b =
      Returns-bind (cell_of-Located grid ax ay near_a) λ a la. one_by_one a la near_b

-- `radio_path` on a map, for positions whose offsets from the origin fit in 64 signed bits, always
-- returns, without an access out of bounds or an overflow. It reports the path as reachable exactly
-- when the range is below 2 ^ 63 and covers the distance, both positions are on the map, and no
-- cell blocks the ray between their cells, which goes through the cells that `next_column` and
-- `next_row` fix; the delay is then the ray's, or 0 for one and the same position. In every other
-- case it reports the path as blocked, with delay 0.
pub radio_path-Reception :
    (grid : MediumGrid) (cells : List Material) (range_nm : ℕ) (ax ay bx by : ℤ)
    → IsMap grid cells
    → IsNear grid ax ay
    → IsNear grid bx by
    → Returns (Reception grid cells range_nm ax ay bx by) (radio_path grid range_nm ax ay bx by)
unfolding radio_path
radio_path-Reception grid cells range_nm ax ay bx by map near_a near_b =
    Returns-option grid.cells (λ e. absurd (cc map.stored))
      λ stored e.
        let same : stored ≡ cells = ground (arith, map.stored) in
        rw same (
          Returns-if (grid.cell_nm == 0) (λ flat. absurd (ground (arith, map.wide)))
            (λ _.
              Returns-if (ltb (2 ^ 63 - 1) range_nm) (λ wide. returns (too_wide (ground arith)))
                (λ narrow.
                  Returns-if
                    (ltb range_nm (magnitude (bx -ℤ ax)) || ltb range_nm (magnitude (by -ℤ ay)))
                    (λ out. returns (far (out_of_square range_nm _ _ out)))
                    (λ _.
                      Returns-if (ltb (range_nm * range_nm) (square_distance ax ay bx by))
                        (λ out. returns (far (ground arith)))
                        (λ close.
                          path_on-Reception grid cells range_nm ax ay bx by map (ground arith)
                            (ground arith) near_a near_b)))))
