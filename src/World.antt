-- ===== src/World.antt =====
-- world/world.c and world/world.h: the grid of materials, and the radio path between two
-- positions. Signed coordinates are integers; the 128-bit squares are exact, since the code bounds
-- the range by INT64_MAX before it squares. `cells` is `none` for a null pointer. The guards on the
-- pointers `grid`, `params` and `rp` are left out: every caller passes addresses of objects.
pub mod Ray
pub mod Rays
pub mod Bresenham
pub mod Cells
pub mod Paths
mod Tests
use resonance.Prelude.{
  ℕ, zero, suc, ◌+◌, ◌-◌, ◌*◌, ◌/◌, ◌%◌, ◌^◌, Bool, true, false, ◌&&◌, ◌||◌, Option, none, some,
  List, [], ◌∷◌, if◌then◌else◌, ltb, leb, ◌==◌, length, get_elem?, replicate, u64_mod, size_max,
  add64, Run, ok, overflow, out_of_fuel, ◌>>=◌, in_bounds,
}
use resonance.Prelude.Int.{
  ℤ, pos, negsuc, pos_part, neg_part, sub_ℕ, ◌+ℤ◌, ◌-ℤ◌, ◌*ℤ◌, leb_ℤ, ltb_ℤ, magnitude, int64,
}

-- `out_of_enum` is a cell whose value is MATERIAL_COUNT or more.
pub data Material : Type 0 where
  air rock dirt water wood out_of_enum : Material

pub record MediumGrid : Type 0 where
  pub origin_x_nm : ℤ
  pub origin_y_nm : ℤ
  pub cell_nm : ℕ
  pub nx : ℕ
  pub ny : ℕ
  pub cells : Option (List Material)

pub record RadioPath : Type 0 where
  pub reachable : Bool
  pub delay_ns : ℕ

-- `sizeof(Material)`
abbrev pub material_size : ℕ
material_size = 4

-- The grid as `context_init` zeroes it is passed in; a refusal leaves it as it was.
unfoldable pub mediumgrid_init :
    Bool → MediumGrid → ℤ → ℤ → (cell_nm nx ny : ℕ) → Material → Option MediumGrid
mediumgrid_init malloc_ok grid origin_x_nm origin_y_nm cell_nm nx ny fill = elim grid.cells [
  | some _ ↦ none
  | none ↦
      if cell_nm == 0 || nx == 0 || ny == 0
      then none
      else if ltb (size_max / ny) nx
      then none
      else if ltb (size_max / material_size) (nx * ny)
      then none
      else if malloc_ok
      then some (record {
        origin_x_nm = origin_x_nm;
        origin_y_nm = origin_y_nm;
        cell_nm = cell_nm;
        nx = nx;
        ny = ny;
        cells = some (replicate (nx * ny) fill);
      })
      else none
]

unfoldable pub mediumgrid_free : MediumGrid → MediumGrid
mediumgrid_free grid = record {
  origin_x_nm = pos 0;
  origin_y_nm = pos 0;
  cell_nm = 0;
  nx = 0;
  ny = 0;
  cells = none;
}

-- `k_c_nm_per_ns`, with `none` for an index past the table.
abbrev pub speed : Material → Option ℕ
speed air = some 300
speed rock = some 0
speed dirt = some 0
speed water = some 0
speed wood = some 0
speed out_of_enum = none

-- Nanoseconds to cross one cell; `none` if the cell blocks the ray.
unfoldable pub crossing : ℕ → Material → Option ℕ
crossing cell_nm mat = elim (speed mat) [
  | none ↦ none
  | some c ↦ if c == 0 then none else some (cell_nm / c)
]

-- The cell of a position. Both coordinates are compared with the origin before either is divided,
-- and with the map's size after both are.
pub cell_of : MediumGrid → ℤ → ℤ → Run (Option (ℕ × ℕ))
cell_of grid x_nm y_nm =
    if ltb_ℤ x_nm grid.origin_x_nm || ltb_ℤ y_nm grid.origin_y_nm then ok none else (do
      ux ← int64 (x_nm -ℤ grid.origin_x_nm)
      uy ← int64 (y_nm -ℤ grid.origin_y_nm)
      let ix = pos_part ux / grid.cell_nm
      let iy = pos_part uy / grid.cell_nm
      ok (if leb grid.nx ix || leb grid.ny iy then none else some (ix, iy)))

-- The loop's constants.
pub record Line : Type 0 where
  pub x1 : ℤ
  pub y1 : ℤ
  pub dx : ℤ
  pub dy : ℤ
  pub sx : ℤ
  pub sy : ℤ

-- The loop's variables.
pub record Walk : Type 0 where
  pub x0 : ℤ
  pub y0 : ℤ
  pub err : ℤ
  pub delay : ℕ

-- A signed number converted to `size_t`.
abbrev pub to_size : ℤ → ℕ
to_size a = (pos_part a + u64_mod - neg_part a) % u64_mod

-- `(size_t)y0 * (size_t)grid->nx + (size_t)x0`
pub cell_index : ℕ → ℤ → ℤ → ℕ
cell_index nx x0 y0 = (to_size y0 * nx + to_size x0) % u64_mod

pub step_x : Line → ℤ → Walk → Run Walk
step_x l e2 w =
    if leb_ℤ l.dy e2
    then (do err ← int64 (w.err +ℤ l.dy); ok (record w { err = err; x0 = w.x0 +ℤ l.sx }))
    else ok w

pub step_y : Line → ℤ → Walk → Run Walk
step_y l e2 w =
    if leb_ℤ e2 l.dx
    then (do err ← int64 (w.err +ℤ l.dx); ok (record w { err = err; y0 = w.y0 +ℤ l.sy }))
    else ok w

-- The end of the loop's body, which moves on to the next cell.
pub advance : Line → Walk → Run Walk
advance l w = do e2 ← int64 (w.err *ℤ pos 2); v ← step_x l e2 w; step_y l e2 v

abbrev pub same_ℤ : ℤ → ℤ → Bool
same_ℤ a b = leb_ℤ a b && leb_ℤ b a

-- The loop of `segment_delay`: the delay, or `none` if a cell blocks.
pub walk : ℕ → ℕ → ℕ → List Material → Line → Walk → Run (Option ℕ)
walk zero cell_nm nx cells l w = out_of_fuel
walk (suc k) cell_nm nx cells l w = do
  mat ← in_bounds (get_elem? cells (cell_index nx w.x0 w.y0))
  elim (crossing cell_nm mat) [
    | none ↦ ok none
    | some t ↦
        let delay = add64 w.delay t in
        if same_ℤ w.x0 l.x1 && same_ℤ w.y0 l.y1
        then ok (some delay)
        else advance l w >>= λ v. walk k cell_nm nx cells l (record v { delay = delay })
  ]

-- `|x1 - x0|`, and `-|y1 - y0|`, as the code computes them.
abbrev pub line_of : ℤ → ℤ → ℤ → ℤ → Line
line_of x0 y0 x1 y1 = record {
  x1 = x1;
  y1 = y1;
  dx = if leb_ℤ x0 x1 then x1 -ℤ x0 else x0 -ℤ x1;
  dy = if leb_ℤ y0 y1 then y0 -ℤ y1 else y1 -ℤ y0;
  sx = if ltb_ℤ x0 x1 then pos 1 else negsuc 0;
  sy = if ltb_ℤ y0 y1 then pos 1 else negsuc 0;
}

-- One round for each step of either coordinate, and the last.
pub segment_delay : MediumGrid → List Material → (x0 y0 x1 y1 : ℤ) → Run (Option ℕ)
segment_delay grid cells x0 y0 x1 y1 =
    let l = line_of x0 y0 x1 y1 in
    walk (magnitude l.dx + magnitude l.dy + 1) grid.cell_nm grid.nx cells l
      (record { x0 = x0; y0 = y0; err = l.dx +ℤ l.dy; delay = 0 })

abbrev pub blocked : Bool × RadioPath
blocked = (false, record { reachable = false; delay_ns = 0 })

-- The end of `radio_path`, once both ends are in range of one another.
pub path_between :
    MediumGrid → List Material → ℕ → Option (ℕ × ℕ) → Option (ℕ × ℕ) → Run (Bool × RadioPath)
path_between grid cells d2 none b = ok blocked
path_between grid cells d2 (some a) none = ok blocked
path_between grid cells d2 (some (ax, ay)) (some (bx, by)) = do
  delay ← segment_delay grid cells (pos ax) (pos ay) (pos bx) (pos by)
  ok (elim delay [
    | none ↦ blocked
    | some delay_ns ↦
        (true, record { reachable = true; delay_ns = if d2 == 0 then 0 else delay_ns })
  ])

-- `radio_path` behind its guard on `grid->cells`.
pub path_on : MediumGrid → List Material → ℕ → (ax ay bx by : ℤ) → Run (Bool × RadioPath)
path_on grid cells range_nm ax ay bx by =
    let adx = magnitude (bx -ℤ ax) in
    let ady = magnitude (by -ℤ ay) in
    let d2 = adx * adx + ady * ady in
    if grid.cell_nm == 0
    then ok blocked
    else if ltb (2 ^ 63 - 1) range_nm
    then ok blocked
    else if ltb range_nm adx || ltb range_nm ady
    then ok blocked
    else if ltb (range_nm * range_nm) d2
    then ok blocked
    else (do
      a ← cell_of grid ax ay
      b ← elim a [ none ↦ ok none | some _ ↦ cell_of grid bx by ]
      path_between grid cells d2 a b)

-- The result is what is returned and what is written through `rp`.
unfoldable pub radio_path : MediumGrid → ℕ → (ax ay bx by : ℤ) → Run (Bool × RadioPath)
unfolding path_on cell_of path_between segment_delay walk advance step_x step_y int64 crossing
    cell_index
radio_path grid range_nm ax ay bx by = elim grid.cells [
  | none ↦ ok blocked
  | some cells ↦ path_on grid cells range_nm ax ay bx by
]
