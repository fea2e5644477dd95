-- ===== src/World/Bresenham.antt =====
-- One round of the loop of `segment_delay`: the error term says how far the walk is along the ray,
-- the round moves towards the end and never past it, and no signed operation overflows.
use native.Mathlib.Nat.{mul-le-mul_left}
use resonance.Prelude.{
  ap, sym, ◌∙◌, ℕ, ◌+◌, ◌-◌, ◌*◌, ◌^◌, ◌≤◌, ◌<◌, ◌≡◌, ◌≢◌, ◌⊎◌, refl, inl, inr, Bool, true, false,
  arith, leb, if◌then◌else◌, ok, Bool-cases, ℕ_discrete, Returns, returns,
}
use resonance.Prelude.Int.{
  ℤ, pos, pos_part, neg_part, ◌+ℤ◌, ◌-ℤ◌, ◌*ℤ◌, leb_ℤ, int64, int64-ok, +ℤ_parts, double_parts,
  one_sided,
}
use resonance.World.{Line, Walk, line_of, step_x, step_y, advance}

-- The distance of two cells along one axis.
abbrev pub dist : ℕ → ℕ → ℕ
dist p q = p - q + (q - p)

-- The cell `n` steps from `p` towards `q`.
abbrev pub along : ℕ → ℕ → ℕ → ℕ
along p q n = if leb p q then p + n else p - n

-- The ray from the middle of one cell to the middle of another, `a` columns and `b` rows away, moves
-- from column `i` and row `j` to the next column if it leaves the column before it comes to the
-- middle of the next row, or there: `(i + 1/2) / a ≤ (j + 1) / b`. For the rows it is the same.
abbrev pub next_column : (a b i j : ℕ) → ℕ
next_column a b i j = if leb (b * (2 * i + 1)) (a * (2 * j + 2)) then i + 1 else i

abbrev pub next_row : (a b i j : ℕ) → ℕ
next_row a b i j = if leb (a * (2 * j + 1)) (b * (2 * i + 2)) then j + 1 else j

next_step : (c d n : ℕ) → c ≤ d → (if leb c d then n + 1 else n) ≡ n + 1
next_step c d n h = ground arith

no_next_step : (c d n : ℕ) → d < c → (if leb c d then n + 1 else n) ≡ n
no_next_step c d n h = ground arith

-- The error term, as the difference of `p` and `n`, forbids a step at the end of an axis.
no_step_at_end :
    (a b i j p n : ℕ) → i ≡ a → j < b → p + b * (i + 1) ≡ n + a * (j + 1) → 2 * n ≤ 2 * p + b → ⊥
no_step_at_end a b i j p n e h err t =
    omega (arith, ap (λ (k : ℕ). b * k) e, mul-le-mul_left {m = j + 1} {n = b} a (omega arith))

-- How the error term changes with a step along x, along y, or both.
module _ (a b i j p n p' n' : ℕ) (err : p + b * (i + 1) ≡ n + a * (j + 1)) where
  error_x : p' + n + b ≡ n' + p → p' + b * (i + 1 + 1) ≡ n' + a * (j + 1)
  error_x e = omega arith

  error_y : p' + n ≡ n' + p + a → p' + b * (i + 1) ≡ n' + a * (j + 1 + 1)
  error_y e = omega arith

  error_xy : p' + n + b ≡ n' + p + a → p' + b * (i + 1 + 1) ≡ n' + a * (j + 1 + 1)
  error_xy e = omega arith

module _ (X0 Y0 X1 Y1 : ℕ) where
  abbrev pub line : Line
  line = line_of (pos X0) (pos Y0) (pos X1) (pos Y1)

  pub line_parts :
      (pos_part line.dx ≡ dist X0 X1)
      × (neg_part line.dx ≡ 0)
      × (pos_part line.dy ≡ 0)
      × (neg_part line.dy ≡ dist Y0 Y1)
  unfolding ◌-ℤ◌
  line_parts = ground arith

  step_along_x :
      (i : ℕ) → i < dist X0 X1 → pos (along X0 X1 i) +ℤ line.sx ≡ pos (along X0 X1 (i + 1))
  unfolding ◌+ℤ◌
  step_along_x i h = ground arith

  step_along_y :
      (j : ℕ) → j < dist Y0 Y1 → pos (along Y0 Y1 j) +ℤ line.sy ≡ pos (along Y0 Y1 (j + 1))
  unfolding ◌+ℤ◌
  step_along_y j h = ground arith

  -- The walk has made `i` steps along x and `j` along y.
  pub record At (i j : ℕ) (w : Walk) : Type 0 where
    pub column : w.x0 ≡ pos (along X0 X1 i)
    pub row : w.y0 ≡ pos (along Y0 Y1 j)
    pub error : pos_part w.err + dist Y0 Y1 * (i + 1) ≡ neg_part w.err + dist X0 X1 * (j + 1)
    pub above : 2 * pos_part w.err ≤ 3 * dist X0 X1
    pub below : 2 * neg_part w.err ≤ 3 * dist Y0 Y1
    pub x_in : i ≤ dist X0 X1
    pub y_in : j ≤ dist Y0 Y1

  -- What a round does: each coordinate takes a step or none, at least one does, and the delay is
  -- left alone.
  pub record Moves (i j : ℕ) (w v : Walk) : Type 0 where
    pub i' : ℕ
    pub j' : ℕ
    pub at : At i' j' v
    pub x_step : (i' ≡ i) ⊎ (i' ≡ i + 1)
    pub y_step : (j' ≡ j) ⊎ (j' ≡ j + 1)
    pub nearer : i + j < i' + j'
    pub column_next : i' ≡ next_column (dist X0 X1) (dist Y0 Y1) i j
    pub row_next : j' ≡ next_row (dist X0 X1) (dist Y0 Y1) i j

  module _ (i j : ℕ) (w : Walk) (small_x : dist X0 X1 ≤ 2 ^ 61) (small_y : dist Y0 Y1 ≤ 2 ^ 61)
      (here : At i j w) (onward : (i ≢ dist X0 X1) ⊎ (j ≢ dist Y0 Y1)) where
    abbrev a : ℕ
    a = dist X0 X1

    abbrev b : ℕ
    b = dist Y0 Y1

    abbrev e2 : ℤ
    e2 = w.err *ℤ pos 2

    abbrev goes_x : Bool
    goes_x = leb_ℤ line.dy e2

    abbrev goes_y : Bool
    goes_y = leb_ℤ e2 line.dx

    doubled-ok : int64 e2 ≡ ok e2
    doubled-ok =
        int64-ok e2 (omega (arith, double_parts w.err, here.above, here.below, small_x, small_y))

    when_x : goes_x ≡ true → 2 * neg_part w.err ≤ 2 * pos_part w.err + b
    when_x t = ground (arith, line_parts, double_parts w.err)

    unless_x : goes_x ≡ false → 2 * pos_part w.err + b < 2 * neg_part w.err
    unless_x t = ground (arith, line_parts, double_parts w.err)

    when_y : goes_y ≡ true → 2 * pos_part w.err ≤ 2 * neg_part w.err + a
    when_y t = ground (arith, line_parts, double_parts w.err)

    unless_y : goes_y ≡ false → 2 * neg_part w.err + a < 2 * pos_part w.err
    unless_y t = ground (arith, line_parts, double_parts w.err)

    ray_x : goes_x ≡ true → i + 1 ≡ next_column a b i j
    ray_x t =
        sym (next_step (b * (2 * i + 1)) (a * (2 * j + 2)) i (omega (arith, here.error, when_x t)))

    ray_not_x : goes_x ≡ false → i ≡ next_column a b i j
    ray_not_x t =
        sym (
          no_next_step (b * (2 * i + 1)) (a * (2 * j + 2)) i
            (omega (arith, here.error, unless_x t)))

    ray_y : goes_y ≡ true → j + 1 ≡ next_row a b i j
    ray_y t =
        sym (next_step (a * (2 * j + 1)) (b * (2 * i + 2)) j (omega (arith, here.error, when_y t)))

    ray_not_y : goes_y ≡ false → j ≡ next_row a b i j
    ray_not_y t =
        sym (
          no_next_step (a * (2 * j + 1)) (b * (2 * i + 2)) j
            (omega (arith, here.error, unless_y t)))

    -- At the end of one axis the ray does not step along it.
    room_x : goes_x ≡ true → i < a
    room_x t = elim (ℕ_discrete i a) [
      | yes e ↦
          let short : j < b = omega (arith, here.y_in, onward) in
          absurd
            (no_step_at_end a b i j (pos_part w.err) (neg_part w.err) e short here.error (when_x t))
      | no n ↦ omega (arith, here.x_in)
    ]

    room_y : goes_y ≡ true → j < b
    room_y t = elim (ℕ_discrete j b) [
      | yes e ↦
          let short : i < a = omega (arith, here.x_in, onward) in
          absurd (
            no_step_at_end b a j i (neg_part w.err) (pos_part w.err) e short (sym here.error)
              (when_y t))
      | no n ↦ omega (arith, here.y_in)
    ]

    abbrev ex : ℤ
    ex = w.err +ℤ line.dy

    abbrev ey : ℤ
    ey = w.err +ℤ line.dx

    abbrev exy : ℤ
    exy = ex +ℤ line.dx

    -- The error term after each kind of step, in parts.
    ex_parts :
        (pos_part ex + neg_part w.err + b ≡ neg_part ex + pos_part w.err)
        × ((pos_part ex ≡ 0) ⊎ (neg_part ex ≡ 0))
    ex_parts = (omega (arith, +ℤ_parts w.err line.dy, line_parts), one_sided ex)

    ey_parts :
        (pos_part ey + neg_part w.err ≡ neg_part ey + pos_part w.err + a)
        × ((pos_part ey ≡ 0) ⊎ (neg_part ey ≡ 0))
    ey_parts = (omega (arith, +ℤ_parts w.err line.dx, line_parts), one_sided ey)

    exy_parts :
        (pos_part exy + neg_part w.err + b ≡ neg_part exy + pos_part w.err + a)
        × ((pos_part exy ≡ 0) ⊎ (neg_part exy ≡ 0))
    exy_parts = (omega (arith, +ℤ_parts ex line.dx, line_parts, ex_parts), one_sided exy)

    ex-ok : goes_x ≡ true → int64 ex ≡ ok ex
    ex-ok t =
        int64-ok ex (omega (arith, ex_parts, when_x t, here.above, here.below, small_x, small_y))

    ey-ok : goes_y ≡ true → int64 ey ≡ ok ey
    ey-ok t =
        int64-ok ey (omega (arith, ey_parts, when_y t, here.above, here.below, small_x, small_y))

    exy-ok : goes_x ≡ true → goes_y ≡ true → int64 exy ≡ ok exy
    exy-ok t u = int64-ok exy (omega (arith, exy_parts, when_x t, when_y u, small_x, small_y))

    moved_x : goes_x ≡ true → w.x0 +ℤ line.sx ≡ pos (along X0 X1 (i + 1))
    moved_x t = ap (λ x. x +ℤ line.sx) here.column ∙ step_along_x i (room_x t)

    moved_y : goes_y ≡ true → w.y0 +ℤ line.sy ≡ pos (along Y0 Y1 (j + 1))
    moved_y t = ap (λ y. y +ℤ line.sy) here.row ∙ step_along_y j (room_y t)

    abbrev p : ℕ
    p = pos_part w.err

    abbrev n : ℕ
    n = neg_part w.err

    At-xy :
        goes_x ≡ true
        → goes_y ≡ true
        → At (i + 1) (j + 1) (record w { err = exy; x0 = w.x0 +ℤ line.sx; y0 = w.y0 +ℤ line.sy })
    At-xy t u = record {
      column = moved_x t;
      row = moved_y u;
      error = error_xy a b i j p n (pos_part exy) (neg_part exy) here.error exy_parts.0;
      above = omega (arith, exy_parts, when_x t, when_y u);
      below = omega (arith, exy_parts, when_x t, when_y u);
      x_in = omega (arith, room_x t);
      y_in = omega (arith, room_y u);
    }

    At-x :
        goes_x ≡ true → goes_y ≡ false → At (i + 1) j (record w { err = ex; x0 = w.x0 +ℤ line.sx })
    At-x t u = record {
      column = moved_x t;
      row = here.row;
      error = error_x a b i j p n (pos_part ex) (neg_part ex) here.error ex_parts.0;
      above = omega (arith, ex_parts, when_x t, unless_y u, here.above);
      below = omega (arith, ex_parts, when_x t, unless_y u, here.above);
      x_in = omega (arith, room_x t);
      y_in = here.y_in;
    }

    At-y :
        goes_x ≡ false → goes_y ≡ true → At i (j + 1) (record w { err = ey; y0 = w.y0 +ℤ line.sy })
    At-y t u = record {
      column = here.column;
      row = moved_y u;
      error = error_y a b i j p n (pos_part ey) (neg_part ey) here.error ey_parts.0;
      above = omega (arith, ey_parts, unless_x t, when_y u, here.below);
      below = omega (arith, ey_parts, unless_x t, when_y u, here.below);
      x_in = here.x_in;
      y_in = omega (arith, room_y u);
    }

    -- Short of the end a round of the loop returns: no signed operation overflows, and the walk is
    -- nearer to the end by one step along one axis or both.
    pub advance-Moves : Returns (Moves i j w) (advance line w)
    unfolding advance step_x step_y
    advance-Moves =
        rw (doubled-ok, advance)
          (elim (Bool-cases goes_x) [
            | inl t ↦
                rw (t, ex-ok t)
                  (elim (Bool-cases goes_y) [
                    | inl u ↦
                        rw (u, exy-ok t u)
                          (returns (record {
                            i' = i + 1;
                            j' = j + 1;
                            at = At-xy t u;
                            x_step = inr refl;
                            y_step = inr refl;
                            nearer = omega arith;
                            column_next = ray_x t;
                            row_next = ray_y u;
                          }))
                    | inr u ↦ rw u (
                        returns (record {
                          i' = i + 1;
                          j' = j;
                          at = At-x t u;
                          x_step = inr refl;
                          y_step = inl refl;
                          nearer = omega arith;
                          column_next = ray_x t;
                          row_next = ray_not_y u;
                        }))
                  ])
            | inr t ↦ rw t (elim (Bool-cases goes_y) [
              | inl u ↦
                  rw (u, ey-ok u)
                    (returns (record {
                      i' = i;
                      j' = j + 1;
                      at = At-y t u;
                      x_step = inl refl;
                      y_step = inr refl;
                      nearer = omega arith;
                      column_next = ray_not_x t;
                      row_next = ray_y u;
                    }))
              | inr u ↦ absurd (omega (arith, unless_x t, unless_y u))
            ])
          ])
