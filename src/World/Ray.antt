-- ===== src/World/Ray.antt =====
-- `segment_delay` against the descriptions of Rays, which do not mention its error term.
use resonance.Prelude.{
  ℕ, zero, suc, ◌+◌, ◌*◌, ◌^◌, ◌≤◌, ◌<◌, ◌≡◌, ◌≢◌, ◌⊎◌, refl, inl, inr, Bool, true, false, ◌&&◌,
  Option, some, List, arith, ℕ_discrete, add64, length, get_or, get_elem?, get_elem?-get_or,
  Returns, returns, Returns-if, Returns-bind, Returns-map, Returns-option,
}
use resonance.Prelude.Int.{pos, ◌+ℤ◌, +ℤ_parts, one_sided, magnitude}
use resonance.World.{
  Material, air, MediumGrid, Walk, crossing, to_size, cell_index, walk, segment_delay, same_ℤ,
}
use resonance.World.Rays.{
  Crosses, Probe, arrive, stop, move, RayFrom, ray_ends, ray_blocked, ray_goes,
}
use resonance.World.Bresenham.{dist, along, line, line_parts, At, Moves, advance-Moves}

cell_inside : (x y nx ny : ℕ) → x < nx → y < ny → y * nx + x < nx * ny
cell_inside x y nx ny p q = grind arith

to_size-pos : (x : ℕ) → x < 2 ^ 64 → to_size (pos x) ≡ x
to_size-pos x h = omega arith

cell_index-pos :
    (x y nx ny : ℕ)
    → x < nx
    → y < ny
    → nx * ny ≤ 2 ^ 61
    → cell_index nx (pos x) (pos y) ≡ y * nx + x
unfolding cell_index
cell_index-pos x y nx ny p q small =
    let inside = cell_inside x y nx ny p q in
    let x_small : x < nx * ny = grind arith in
    let y_small : y < nx * ny = grind arith in
    rw (to_size-pos x (omega arith), to_size-pos y (omega arith)) (omega arith)

module _ (cell_nm nx ny : ℕ) (cells : List Material) (X0 Y0 X1 Y1 : ℕ)
    (size : length cells ≡ nx * ny) (small : nx * ny ≤ 2 ^ 61) (from_x : X0 < nx) (from_y : Y0 < ny)
    (to_x : X1 < nx) (to_y : Y1 < ny) where
  abbrev a : ℕ
  a = dist X0 X1

  abbrev b : ℕ
  b = dist Y0 Y1

  abbrev x_at : ℕ → ℕ
  x_at i = along X0 X1 i

  abbrev y_at : ℕ → ℕ
  y_at j = along Y0 Y1 j

  abbrev material_at : ℕ → ℕ → Material
  material_at i j = get_or cells (y_at j * nx + x_at i) air

  inside_x : (i : ℕ) → i ≤ a → x_at i < nx
  inside_x i h = ground arith

  inside_y : (j : ℕ) → j ≤ b → y_at j < ny
  inside_y j h = ground arith

  -- What is left after `i` steps of `a`.
  left_x : (i : ℕ) → i ≤ a → dist (x_at i) X1 + i ≡ a
  left_x i h = ground arith

  left_y : (j : ℕ) → j ≤ b → dist (y_at j) Y1 + j ≡ b
  left_y j h = ground arith

  small_a : a ≤ 2 ^ 61
  small_a = let wide : nx ≤ nx * ny = grind arith in omega arith

  small_b : b ≤ 2 ^ 61
  small_b = let tall : ny ≤ nx * ny = grind arith in omega arith

  read-ok :
      (i j : ℕ) (w : Walk)
      → At X0 Y0 X1 Y1 i j w
      → get_elem? cells (cell_index nx w.x0 w.y0) ≡ some (material_at i j)
  read-ok i j w at =
      let px = inside_x i at.x_in in
      let py = inside_y j at.y_in in
      rw (at.column, at.row, cell_index-pos (x_at i) (y_at j) nx ny px py small)
        (get_elem?-get_or cells (y_at j * nx + x_at i) air
          (omega (arith, cell_inside (x_at i) (y_at j) nx ny px py)))

  crosses :
      (i j : ℕ) (w : Walk) {t : Option ℕ}
      → At X0 Y0 X1 Y1 i j w
      → crossing cell_nm (material_at i j) ≡ t
      → Crosses cell_nm nx cells (x_at i) (y_at j) t
  crosses i j w at e =
      let px = inside_x i at.x_in in
      let py = inside_y j at.y_in in
      record {
        mat = material_at i j;
        there =
            get_elem?-get_or cells (y_at j * nx + x_at i) air
              (omega (arith, cell_inside (x_at i) (y_at j) nx ny px py));
        time = e;
      }

  module _ (i j : ℕ) (w : Walk) (at : At X0 Y0 X1 Y1 i j w) where
    abbrev ends : Bool
    ends = same_ℤ w.x0 (pos X1) && same_ℤ w.y0 (pos Y1)

    at_end : ends ≡ true → (x_at i ≡ X1) × (y_at j ≡ Y1)
    at_end e = let e' = rw (at.column, at.row) at e in (ground arith, ground arith)

    not_at_end : ends ≡ false → (i ≢ a) ⊎ (j ≢ b)
    not_at_end e =
        let e' = rw (at.column, at.row) at e in
        elim (ℕ_discrete i a) [
          | no n ↦ inl n
          | yes all_x ↦ elim (ℕ_discrete j b) [
            | no n ↦ inr n
            | yes all_y ↦
                let end_x : x_at i ≡ X1 = omega (arith, left_x i at.x_in) in
                let end_y : y_at j ≡ Y1 = omega (arith, left_y j at.y_in) in absurd (ground arith)
          ]
        ]

    ended_at : ends ≡ true → (i ≡ a) × (j ≡ b)
    ended_at e =
        let (ex, ey) = at_end e in
        (omega (arith, ex, left_x i at.x_in), omega (arith, ey, left_y j at.y_in))

  reclocked :
      (i j d : ℕ) (w : Walk) → At X0 Y0 X1 Y1 i j w → At X0 Y0 X1 Y1 i j (record w { delay = d })
  reclocked i j d w at = record {
    column = at.column;
    row = at.row;
    error = at.error;
    above = at.above;
    below = at.below;
    x_in = at.x_in;
    y_in = at.y_in;
  }

  -- A round that moves on is a move of the probe.
  move_on :
      (i j : ℕ) {r : Option ℕ} (t : ℕ) (w v : Walk)
      → At X0 Y0 X1 Y1 i j w
      → crossing cell_nm (material_at i j) ≡ some t
      → (m : Moves X0 Y0 X1 Y1 i j w v)
      → Probe cell_nm nx cells X1 Y1 r (x_at m.i') (y_at m.j') (add64 w.delay t)
      → Probe cell_nm nx cells X1 Y1 r (x_at i) (y_at j) w.delay
  move_on i j t w v at e m =
      let lx = left_x i at.x_in in
      let ly = left_y j at.y_in in
      let lx' = left_x m.i' m.at.x_in in
      let ly' = left_y m.j' m.at.y_in in
      move t (x_at m.i') (y_at m.j') (crosses i j w at e) (omega (arith, m.nearer))
        (omega (arith, m.x_step)) (omega (arith, m.y_step))

  -- What a walk that is `i` columns and `j` rows on finds.
  abbrev Found : (i j delay : ℕ) → Option ℕ → Type 0
  Found i j delay r =
      Probe cell_nm nx cells X1 Y1 r (x_at i) (y_at j) delay
      × RayFrom cell_nm nx cells X0 Y0 X1 Y1 r i j delay

  walk-Found :
      (k i j : ℕ) (w : Walk)
      → At X0 Y0 X1 Y1 i j w
      → a + b < k + (i + j)
      → Returns (Found i j w.delay) (walk k cell_nm nx cells (line X0 Y0 X1 Y1) w)
  unfolding walk
  walk-Found zero i j w at enough = absurd (omega (arith, at.x_in, at.y_in))
  walk-Found (suc k) i j w at enough = rw (read-ok i j w at) (
      Returns-option (crossing cell_nm (material_at i j))
        (λ e. returns (stop (crosses i j w at e) refl, ray_blocked (crosses i j w at e) refl))
        (λ t e.
          Returns-if (ends i j w at)
            (λ here.
              let over = at_end i j w at here in
              let done = ended_at i j w at here in
              returns (
                arrive t (crosses i j w at e) over.0 over.1 refl,
                ray_ends t (crosses i j w at e) done.0 done.1 refl,
              ))
            (λ short.
              Returns-bind
                (advance-Moves X0 Y0 X1 Y1 i j w small_a small_b at (not_at_end i j w at short))
                λ v m.
                  Returns-map
                    (walk-Found k m.i' m.j' (record v { delay = add64 w.delay t })
                      (reclocked m.i' m.j' (add64 w.delay t) v m.at) (omega (arith, m.nearer)))
                    λ r found. (
                      move_on i j t w v at e m found.0,
                      ray_goes t m.i' m.j' (crosses i j w at e) (not_at_end i j w at short)
                          m.column_next m.row_next found.1,
                    ))))

  start_At : At X0 Y0 X1 Y1 0 0 (record {
    x0 = pos X0;
    y0 = pos Y0;
    err = (line X0 Y0 X1 Y1).dx +ℤ (line X0 Y0 X1 Y1).dy;
    delay = 0;
  })
  start_At =
      let parts = line_parts X0 Y0 X1 Y1 in
      let sum = +ℤ_parts (line X0 Y0 X1 Y1).dx (line X0 Y0 X1 Y1).dy in
      let one = one_sided ((line X0 Y0 X1 Y1).dx +ℤ (line X0 Y0 X1 Y1).dy) in
      record {
        column = ground arith;
        row = ground arith;
        error = omega (arith, parts, sum);
        above = omega (arith, parts, sum, one);
        below = omega (arith, parts, sum, one);
        x_in = omega arith;
        y_in = omega arith;
      }

pub segment_delay-RayFrom :
    (grid : MediumGrid) (cells : List Material) (X0 Y0 X1 Y1 : ℕ)
    → length cells ≡ grid.nx * grid.ny
    → grid.nx * grid.ny ≤ 2 ^ 61
    → (X0 < grid.nx) × (Y0 < grid.ny)
    → (X1 < grid.nx) × (Y1 < grid.ny)
    → Returns
        (λ r.
          Probe grid.cell_nm grid.nx cells X1 Y1 r X0 Y0 0
          × RayFrom grid.cell_nm grid.nx cells X0 Y0 X1 Y1 r 0 0 0)
        (segment_delay grid cells (pos X0) (pos Y0) (pos X1) (pos Y1))
unfolding segment_delay
segment_delay-RayFrom grid cells X0 Y0 X1 Y1 size small from to =
    let l = line X0 Y0 X1 Y1 in
    let parts = line_parts X0 Y0 X1 Y1 in
    let here : along X0 X1 0 ≡ X0 = ground arith in
    let there : along Y0 Y1 0 ≡ Y0 = ground arith in
    Returns-map
      (walk-Found grid.cell_nm grid.nx grid.ny cells X0 Y0 X1 Y1 size small from.0 from.1 to.0 to.1
        (magnitude l.dx + magnitude l.dy + 1) 0 0 _
        (start_At grid.cell_nm grid.nx grid.ny cells X0 Y0 X1 Y1 size small from.0 from.1 to.0 to.1)
        (omega (arith, parts)))
      λ r found. (rw (here, there) at found.0, found.1)

-- `segment_delay` between two cells of a map of at most 2 ^ 61 cells always returns: the loop ends
-- at the far cell, reads inside the array and never overflows. What it returns is what a probe
-- finds that moves from neighbour to neighbour, always nearer, and adds the crossing time of each
-- cell, unless a cell blocks it.
pub segment_delay-Probe :
    (grid : MediumGrid) (cells : List Material) (X0 Y0 X1 Y1 : ℕ)
    → length cells ≡ grid.nx * grid.ny
    → grid.nx * grid.ny ≤ 2 ^ 61
    → (X0 < grid.nx) × (Y0 < grid.ny)
    → (X1 < grid.nx) × (Y1 < grid.ny)
    → Returns
        (λ r. Probe grid.cell_nm grid.nx cells X1 Y1 r X0 Y0 0)
        (segment_delay grid cells (pos X0) (pos Y0) (pos X1) (pos Y1))
segment_delay-Probe grid cells X0 Y0 X1 Y1 size small from to =
    Returns-map (segment_delay-RayFrom grid cells X0 Y0 X1 Y1 size small from to) λ r found. found.0
