-- ===== src/World/Paths/Single.antt =====
-- The description of `radio_path` in Paths leaves one outcome for each two positions.
use resonance.Prelude.{
  ℕ, ◌*◌, ◌^◌, ◌≤◌, ◌<◌, ◌≡◌, refl, sym, ◌∙◌, inl, inr, Bool, true, some, List, arith, ◌==◌,
  if◌then◌else◌,
}
use resonance.Prelude.Int.{ℤ}
use resonance.World.{Material, MediumGrid, RadioPath, blocked}
use resonance.World.Cells.{InCell}
use resonance.World.Rays.{RayFrom, RayFrom-one}
use resonance.World.Paths.{square_distance, Reception, too_wide, far, off_map, shadowed, received}

module _ {grid : MediumGrid} {cells : List Material} {range_nm : ℕ} {ax ay bx by : ℤ} where
  -- What is heard rules out each of the other cases.
  only_heard :
      (cax cay cbx cby delay : ℕ) {out : Bool × RadioPath}
      → range_nm < 2 ^ 63
      → square_distance ax ay bx by ≤ range_nm * range_nm
      → InCell grid ax ay cax cay
      → InCell grid bx by cbx cby
      → RayFrom grid.cell_nm grid.nx cells cax cay cbx cby (some delay) 0 0 0
      → Reception grid cells range_nm ax ay bx by out
      → out ≡ (
        true,
        record {
          reachable = true;
          delay_ns = if square_distance ax ay bx by == 0 then 0 else delay;
        },
      )
  only_heard cax cay cbx cby delay narrow close ca cb ray (too_wide wide) = absurd (omega arith)
  only_heard cax cay cbx cby delay narrow close ca cb ray (far out) = absurd (omega arith)
  only_heard cax cay cbx cby delay narrow close ca cb ray (off_map (inl out)) =
      absurd (out cax cay ca)
  only_heard cax cay cbx cby delay narrow close ca cb ray (off_map (inr out)) =
      absurd (out cbx cby cb)
  only_heard cax cay cbx cby delay narrow close ca cb ray (shadowed dax day dbx dby da db other) =
      let at_a : (cax ≡ dax) × (cay ≡ day) = (ca.column ∙ sym da.column, ca.row ∙ sym da.row) in
      let at_b : (cbx ≡ dbx) × (cby ≡ dby) = (cb.column ∙ sym db.column, cb.row ∙ sym db.row) in
      absurd (
        cc (
          RayFrom-one grid.cell_nm grid.nx cells dax day dbx dby
            (rw (at_a.0, at_a.1, at_b.0, at_b.1) at ray) other))
  only_heard cax cay cbx cby delay narrow close ca cb ray
        (received dax day dbx dby late narrow' close' da db other) =
      let at_a : (cax ≡ dax) × (cay ≡ day) = (ca.column ∙ sym da.column, ca.row ∙ sym da.row) in
      let at_b : (cbx ≡ dbx) × (cby ≡ dby) = (cb.column ∙ sym db.column, cb.row ∙ sym db.row) in
      let same : delay ≡ late = cc (
        RayFrom-one grid.cell_nm grid.nx cells dax day dbx dby
          (rw (at_a.0, at_a.1, at_b.0, at_b.1) at ray) other) in
      rw same refl

  not_heard :
      {out other : Bool × RadioPath}
      → out ≡ blocked
      → Reception grid cells range_nm ax ay bx by out
      → Reception grid cells range_nm ax ay bx by other
      → other ≡ out
  not_heard e p (too_wide wide) = sym e
  not_heard e p (far out) = sym e
  not_heard e p (off_map out) = sym e
  not_heard e p (shadowed dax day dbx dby da db ray) = sym e
  not_heard e p (received dax day dbx dby late narrow close da db ray) =
      sym (only_heard dax day dbx dby late narrow close da db ray p)

  -- Two positions have one reception only.
  Reception-one :
      {out other : Bool × RadioPath}
      → Reception grid cells range_nm ax ay bx by out
      → Reception grid cells range_nm ax ay bx by other
      → other ≡ out
  Reception-one (received cax cay cbx cby delay narrow close ca cb ray) q =
      only_heard cax cay cbx cby delay narrow close ca cb ray q
  Reception-one (too_wide wide) q = not_heard refl (too_wide wide) q
  Reception-one (far out) q = not_heard refl (far out) q
  Reception-one (off_map out) q = not_heard refl (off_map out) q
  Reception-one (shadowed dax day dbx dby da db ray) q =
      not_heard refl (shadowed dax day dbx dby da db ray) q
