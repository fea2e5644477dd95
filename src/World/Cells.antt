-- ===== src/World/Cells.antt =====
-- The map and its cells: `mediumgrid_init` and `cell_of`.
use resonance.Prelude.{
  ℕ, ◌-◌, ◌*◌, ◌/◌, ◌^◌, ◌≤◌, ◌<◌, ◌≡◌, refl, inl, inr, Bool, true, ◌||◌, Option, none, some, List,
  arith, leb, Bool-cases, length, replicate, length-replicate, Returns, returns, Returns-if,
}
use resonance.Prelude.Int.{ℤ, pos_part, ◌-ℤ◌, ltb_ℤ, ◌≤ℤ◌, int64-ok, IsInt64}
use resonance.World.{Material, MediumGrid, cell_of, mediumgrid_init, material_size}

-- A map whose array has all of its cells, no more than the address space can hold.
pub record IsMap (grid : MediumGrid) (cells : List Material) : Type 0 where
  pub stored : grid.cells ≡ some cells
  pub size : length cells ≡ grid.nx * grid.ny
  pub small : grid.nx * grid.ny ≤ 2 ^ 61
  pub wide : 0 < grid.cell_nm

-- What `mediumgrid_init` returns is a map of `nx * ny` cells of the material asked for, if `malloc`
-- gives out no block above PTRDIFF_MAX bytes.
pub mediumgrid_init-IsMap :
    (malloc_ok : Bool) (old : MediumGrid) (ox oy : ℤ) (cell_nm nx ny : ℕ) (fill : Material)
    {grid : MediumGrid}
    → (malloc_ok ≡ true → nx * ny * material_size ≤ 2 ^ 63 - 1)
    → mediumgrid_init malloc_ok old ox oy cell_nm nx ny fill ≡ some grid
    → IsMap grid (replicate (nx * ny) fill)
unfolding mediumgrid_init
mediumgrid_init-IsMap malloc_ok old ox oy cell_nm nx ny fill block e =
    ground (arith, length-replicate (nx * ny) fill)

-- `(ix, iy)` is the cell of a position.
pub record InCell (grid : MediumGrid) (x y : ℤ) (ix iy : ℕ) : Type 0 where
  pub east : grid.origin_x_nm ≤ℤ x
  pub north : grid.origin_y_nm ≤ℤ y
  pub column : ix ≡ pos_part (x -ℤ grid.origin_x_nm) / grid.cell_nm
  pub row : iy ≡ pos_part (y -ℤ grid.origin_y_nm) / grid.cell_nm
  pub inside : (ix < grid.nx) × (iy < grid.ny)

-- A position is in a cell, or off the map.
pub data Located (grid : MediumGrid) (x y : ℤ) : Option (ℕ × ℕ) → Type 0 where
  in_cell : (ix iy : ℕ) → InCell grid x y ix iy → Located grid x y (some (ix, iy))
  off_map : ((ix iy : ℕ) → ¬ InCell grid x y ix iy) → Located grid x y none

-- No difference from the origin leaves the signed 64-bit range.
abbrev pub IsNear : MediumGrid → ℤ → ℤ → Type 0
IsNear grid x y = IsInt64 (x -ℤ grid.origin_x_nm) × IsInt64 (y -ℤ grid.origin_y_nm)

abbrev cell_x : MediumGrid → ℤ → ℕ
cell_x grid x = pos_part (x -ℤ grid.origin_x_nm) / grid.cell_nm

abbrev cell_y : MediumGrid → ℤ → ℕ
cell_y grid y = pos_part (y -ℤ grid.origin_y_nm) / grid.cell_nm

-- For a position whose offsets from the origin fit in 64 signed bits, `cell_of` returns without
-- an overflow: it finds the position's cell, and refuses exactly the positions off the map.
pub cell_of-Located :
    (grid : MediumGrid) (x y : ℤ) → IsNear grid x y → Returns (Located grid x y) (cell_of grid x y)
unfolding cell_of
cell_of-Located grid x y (near_x, near_y) =
    rw (int64-ok (x -ℤ grid.origin_x_nm) near_x, int64-ok (y -ℤ grid.origin_y_nm) near_y)
      (Returns-if (ltb_ℤ x grid.origin_x_nm || ltb_ℤ y grid.origin_y_nm)
        (λ outside. returns (off_map λ ix iy c. ground (arith, c.east, c.north)))
        (λ within. elim (Bool-cases (leb grid.nx (cell_x grid x) || leb grid.ny (cell_y grid y))) [
          | inl past ↦
              rw past (returns (off_map λ ix iy c. ground (arith, c.column, c.row, c.inside)))
          | inr fits ↦ rw fits (
              returns (
                in_cell (cell_x grid x) (cell_y grid y) (record {
                  east = ground arith;
                  north = ground arith;
                  column = refl;
                  row = refl;
                  inside = ground arith;
                })))
        ]))
