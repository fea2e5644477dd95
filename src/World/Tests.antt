-- ===== src/World/Tests.antt =====
-- Runs of the radio path on a small map.
use resonance.Prelude.{◌≡◌, refl, true, false, some, List, [], ◌∷◌, arith, ok, Returns}
use resonance.Prelude.Int.{pos, int64, ◌-ℤ◌, ◌*ℤ◌, ◌+ℤ◌}
use resonance.World.{
  Material, air, rock, MediumGrid, crossing, cell_of, cell_index, step_x, step_y, advance, walk,
  segment_delay, path_between, path_on, radio_path,
}
use resonance.World.Rays.{Probe}
use resonance.World.Ray.{segment_delay-Probe}
use resonance.World.Cells.{IsMap}
use resonance.World.Paths.{Reception, radio_path-Reception}

-- Three columns, two rows, a rock in the middle of the second row.
abbrev cells : List Material
cells = air ∷ air ∷ air ∷ air ∷ rock ∷ air ∷ []

abbrev map : MediumGrid
map = record {
  origin_x_nm = pos 0;
  origin_y_nm = pos 0;
  cell_nm = 600;
  nx = 3;
  ny = 2;
  cells = some cells;
}

map-IsMap : IsMap map cells
map-IsMap = record { stored = refl; size = refl; small = omega arith; wide = omega arith }

heard :
    radio_path map 5000 (pos 100) (pos 0) (pos 1500) (pos 10)
    ≡ ok (true, record { reachable = true; delay_ns = 6 })
unfolding radio_path path_on cell_of path_between segment_delay walk advance step_x step_y int64
    crossing cell_index ◌-ℤ◌ ◌*ℤ◌ ◌+ℤ◌
heard = refl

behind_the_rock :
    radio_path map 5000 (pos 100) (pos 700) (pos 1500) (pos 700)
    ≡ ok (false, record { reachable = false; delay_ns = 0 })
unfolding radio_path path_on cell_of path_between segment_delay walk advance step_x step_y int64
    crossing cell_index ◌-ℤ◌ ◌*ℤ◌ ◌+ℤ◌
behind_the_rock = refl

radio_path-Reception_example :
    Returns
      (Reception map cells 5000 (pos 100) (pos 0) (pos 1500) (pos 10))
      (radio_path map 5000 (pos 100) (pos 0) (pos 1500) (pos 10))
unfolding ◌-ℤ◌
radio_path-Reception_example =
    radio_path-Reception map cells 5000 (pos 100) (pos 0) (pos 1500) (pos 10) map-IsMap
      (omega arith, omega arith) (omega arith, omega arith)

segment_delay-Probe_example :
    Returns
      (λ r. Probe 600 3 cells 2 0 r 0 1 0)
      (segment_delay map cells (pos 0) (pos 1) (pos 2) (pos 0))
segment_delay-Probe_example =
    segment_delay-Probe map cells 0 1 2 0 refl (omega arith) (omega arith, omega arith)
      (omega arith, omega arith)
