-- ===== src/Math/Tests.antt =====
-- A run of `min`.
use resonance.Prelude.{◌≡◌, refl, [], ◌∷◌}
use resonance.Math.{min_of, min_loop}

least_of_three : min_of (7 ∷ 3 ∷ 5 ∷ []) ≡ 3
unfolding min_of min_loop
least_of_three = refl
