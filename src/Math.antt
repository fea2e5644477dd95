-- ===== src/Math.antt =====
-- math/math.c: `min` of a list of arguments, whose length is `count`.
mod Tests
use mathlib.Core.List.{Mem, mem-cons, mem-cons_self, mem-cons_of_mem, not-mem-nil, forall_mem-cons}
use mathlib.Core.List.Perm
use native.Mathlib.Bridge.{le_prop}
use resonance.Prelude.{
  ℕ, zero, suc, ◌≤◌, ◌<◌, ◌≡◌, ◌≢◌, refl, Bool, true, false, List, [], ◌∷◌, arith, ltb,
  if◌then◌else◌, Bool-cases, inl, inr, ltb→lt,
}

-- The loop over the arguments behind the first one.
pub min_loop : ℕ → List ℕ → ℕ
min_loop m [] = m
min_loop m (current_arg ∷ args) = min_loop (if ltb current_arg m then current_arg else m) args

pub min_of : List ℕ → ℕ
min_of [] = 0
min_of (first ∷ args) = min_loop first args

min_loop-bound :
    (m : ℕ) (args : List ℕ) → (min_loop m args ≤ m) × ((x : ℕ) → Mem x args → min_loop m args ≤ x)
unfolding min_loop
min_loop-bound m [] = (omega arith, λ x e. absurd (not-mem-nil e))
min_loop-bound m (a ∷ args) =
    let (low, all) = min_loop-bound (if ltb a m then a else m) args in
    (ground (arith, low), (forall_mem-cons λ x. le_prop).1 (ground (arith, low), all))

min_loop-member : (m : ℕ) (args : List ℕ) → Mem (min_loop m args) (m ∷ args)
unfolding min_loop
min_loop-member m [] = mem-cons_self {l = []}
min_loop-member m (a ∷ args) = elim (Bool-cases (ltb a m)) [
  | inl less ↦ rw less (mem-cons_of_mem m (min_loop-member a args))
  | inr kept ↦
      rw kept ((Perm.mem_iff (Perm.swap m a args)).0 (mem-cons_of_mem a (min_loop-member m args)))
]

-- `min` of one argument or more is one of them, and none is less.
pub min_of-least :
    (first : ℕ) (args : List ℕ)
    → Mem (min_of (first ∷ args)) (first ∷ args)
      × ((x : ℕ) → Mem x (first ∷ args) → min_of (first ∷ args) ≤ x)
unfolding min_of
min_of-least first args =
    let (low, all) = min_loop-bound first args in
    (min_loop-member first args, (forall_mem-cons λ x. le_prop).1 (low, all))
