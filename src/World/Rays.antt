-- ===== src/World/Rays.antt =====
-- What there is to say of the cells that `segment_delay` goes through, without its error term: a
-- probe that goes always nearer to the end, and the ray itself, which fixes each cell.
use resonance.Prelude.{
  ℕ, ◌+◌, ◌*◌, ◌≤◌, ◌<◌, ◌≡◌, ◌≢◌, ◌⊎◌, refl, ap, sym, ◌∙◌, Option, none, some, List, arith, add64,
  get_elem?,
}
use resonance.World.{Material, crossing}
use resonance.World.Bresenham.{dist, along, next_column, next_row}

module _ (cell_nm nx : ℕ) (cells : List Material) where
  -- The cell `(x, y)` lies in the array and takes `t` to cross.
  pub record Crosses (x y : ℕ) (t : Option ℕ) : Type 0 where
    pub mat : Material
    pub there : get_elem? cells (y * nx + x) ≡ some mat
    pub time : crossing cell_nm mat ≡ t

  -- From `(x, y)`, with `delay` on the clock, to `(X, Y)`.
  pub data Probe (X Y : ℕ) (r : Option ℕ) : ℕ → ℕ → ℕ → Type 0 where
    arrive :
        {x y delay : ℕ} (t : ℕ)
        → Crosses x y (some t)
        → x ≡ X
        → y ≡ Y
        → r ≡ some (add64 delay t)
        → Probe X Y r x y delay
    stop : {x y delay : ℕ} → Crosses x y none → r ≡ none → Probe X Y r x y delay
    move :
        {x y delay : ℕ} (t x' y' : ℕ)
        → Crosses x y (some t)
        → dist x' X + dist y' Y < dist x X + dist y Y
        → (dist x' X ≤ dist x X) × (dist x X ≤ dist x' X + 1)
        → (dist y' Y ≤ dist y Y) × (dist y Y ≤ dist y' Y + 1)
        → Probe X Y r x' y' (add64 delay t)
        → Probe X Y r x y delay

module _ (cell_nm nx : ℕ) (cells : List Material) (X0 Y0 X1 Y1 : ℕ) where
  -- The ray to the cell `(X1, Y1)`, `i` columns and `j` rows on from `(X0, Y0)`, with `delay` on the
  -- clock: the cells that it goes through are those of `next_column` and `next_row`.
  pub data RayFrom (r : Option ℕ) : (i j delay : ℕ) → Type 0 where
    ray_ends :
        {i j delay : ℕ} (t : ℕ)
        → Crosses cell_nm nx cells (along X0 X1 i) (along Y0 Y1 j) (some t)
        → i ≡ dist X0 X1
        → j ≡ dist Y0 Y1
        → r ≡ some (add64 delay t)
        → RayFrom r i j delay
    ray_blocked :
        {i j delay : ℕ}
        → Crosses cell_nm nx cells (along X0 X1 i) (along Y0 Y1 j) none
        → r ≡ none
        → RayFrom r i j delay
    ray_goes :
        {i j delay : ℕ} (t i' j' : ℕ)
        → Crosses cell_nm nx cells (along X0 X1 i) (along Y0 Y1 j) (some t)
        → (i ≢ dist X0 X1) ⊎ (j ≢ dist Y0 Y1)
        → i' ≡ next_column (dist X0 X1) (dist Y0 Y1) i j
        → j' ≡ next_row (dist X0 X1) (dist Y0 Y1) i j
        → RayFrom r i' j' (add64 delay t)
        → RayFrom r i j delay

  Crosses-one :
      {x y : ℕ} {t u : Option ℕ}
      → Crosses cell_nm nx cells x y t
      → Crosses cell_nm nx cells x y u
      → t ≡ u
  Crosses-one c d =
      let same : c.mat ≡ d.mat = cc (c.there, d.there) in
      sym c.time ∙ ap (λ m. crossing cell_nm m) same ∙ d.time

  rays_meet :
      {r s : Option ℕ} {i j k l delay d : ℕ}
      → RayFrom r i j delay
      → RayFrom s k l d
      → i ≡ k
      → j ≡ l
      → delay ≡ d
      → r ≡ s
  rays_meet (ray_ends t c ei ej e) (ray_ends u d fi fj f) x y z =
      let same : t ≡ u = cc (Crosses-one (rw (x, y) at c) d) in e ∙ rw (same, z) (sym f)
  rays_meet (ray_ends t c ei ej e) (ray_blocked d f) x y z =
      absurd (cc (Crosses-one (rw (x, y) at c) d))
  rays_meet (ray_ends t c ei ej e) (ray_goes u i' j' d apart fi fj rest) x y z =
      absurd (ground (arith, ei, ej, apart, x, y))
  rays_meet (ray_blocked c e) (ray_ends u d fi fj f) x y z =
      absurd (cc (Crosses-one (rw (x, y) at c) d))
  rays_meet (ray_blocked c e) (ray_blocked d f) x y z = e ∙ sym f
  rays_meet (ray_blocked c e) (ray_goes u i' j' d apart fi fj rest) x y z =
      absurd (cc (Crosses-one (rw (x, y) at c) d))
  rays_meet (ray_goes t i' j' c apart ei ej rest) (ray_ends u d fi fj f) x y z =
      absurd (ground (arith, fi, fj, apart, x, y))
  rays_meet (ray_goes t i' j' c apart ei ej rest) (ray_blocked d f) x y z =
      absurd (cc (Crosses-one (rw (x, y) at c) d))
  rays_meet (ray_goes t i' j' c apart ei ej rest) (ray_goes u k' l' d apart' fi fj rest') x y z =
      let same : t ≡ u = cc (Crosses-one (rw (x, y) at c) d) in
      rays_meet rest rest' (ei ∙ rw (x, y) (sym fi)) (ej ∙ rw (x, y) (sym fj)) (rw (same, z) refl)

  -- A ray comes to one end only.
  pub RayFrom-one :
      {r s : Option ℕ} {i j delay : ℕ} → RayFrom r i j delay → RayFrom s i j delay → r ≡ s
  RayFrom-one p q = rays_meet p q refl refl refl
