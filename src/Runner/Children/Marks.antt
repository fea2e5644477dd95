-- ===== src/Runner/Children/Marks.antt =====
-- What `run_note_dead` and `run_rearm` of run/run.c leave behind.
use resonance.Prelude.{
  ℕ, zero, suc, ◌≡◌, ◌≢◌, refl, ap, sym, ◌∙◌, false, some, List, [], ◌∷◌, if◌then◌else◌, arith,
  get_elem?, set, Bool-cases, Option-cases, inl, inr,
}
use resonance.Prelude.Int.{ℤ, pos, negsuc}
use resonance.Runner.{Child, PollFd, RunState, is_dead}
use resonance.Runner.Children.{is_open, set_fd, run_note_dead, run_rearm}

-- The dead node has no log: neither its slot nor its half of the poll vector.
pub record IsQuiet (r : RunState) : Type 0 where
  pub quiet :
      (d : ℕ) (c : Child) (p : PollFd)
      → r.dead ≡ some d
      → get_elem? r.children d ≡ some c
      → get_elem? r.log_polls d ≡ some p
      → (is_open c.logfd ≡ false) × (p.fd ≡ negsuc 0)

get_elem?-set_same :
    {A : Type 0} (xs : List A) (i : ℕ) (v w : A) → get_elem? (set xs i v) i ≡ some w → w ≡ v
get_elem?-set_same [] i v w e = cc
get_elem?-set_same (x ∷ xs) zero v w e = cc
get_elem?-set_same (x ∷ xs) (suc i) v w e = get_elem?-set_same xs i v w e

get_elem?-set_other :
    {A : Type 0} (xs : List A) (i j : ℕ) (v : A) → i ≢ j → get_elem? (set xs i v) j ≡ get_elem? xs j
get_elem?-set_other [] i j v apart = refl
get_elem?-set_other (x ∷ xs) zero zero v apart = absurd (apart refl)
get_elem?-set_other (x ∷ xs) zero (suc j) v apart = refl
get_elem?-set_other (x ∷ xs) (suc i) zero v apart = refl
get_elem?-set_other (x ∷ xs) (suc i) (suc j) v apart = get_elem?-set_other xs i j v (omega arith)

get_elem?-set_fd :
    (ps : List PollFd) (i : ℕ) (fd : ℤ) (p : PollFd)
    → get_elem? (set_fd ps i fd) i ≡ some p
    → p.fd ≡ fd
get_elem?-set_fd [] i fd p e = cc
get_elem?-set_fd (q ∷ ps) zero fd p e =
    let same : record q { fd = fd } ≡ p = ground arith in ap (λ poll. poll.fd) (sym same)
get_elem?-set_fd (q ∷ ps) (suc i) fd p e = get_elem?-set_fd ps i fd p e

is_open-shut : (fd : ℤ) → is_open (if is_open fd then negsuc 0 else fd) ≡ false
is_open-shut (pos fd) = refl
is_open-shut (negsuc fd) = refl

run_note_dead-IsQuiet : (r : RunState) (i : ℤ) → IsQuiet r → IsQuiet (run_note_dead r i)
unfolding run_note_dead
run_note_dead-IsQuiet r (negsuc i) quiet = quiet
run_note_dead-IsQuiet r (pos i) quiet = elim (Option-cases (get_elem? r.children i)) [
  | inl e ↦ rw (run_note_dead, e) quiet
  | inr (c, e) ↦ elim (Option-cases r.dead) [
    | inr (d, dead) ↦ rw (run_note_dead, e, dead) quiet
    | inl none_dead ↦
        rw (run_note_dead, e, none_dead)
          (record {
            quiet = λ d c_new p dead at_child at_poll.
                let same : d ≡ i = cc in
                let child = get_elem?-set_same _ i _ c_new (rw same at at_child) in
                (
                  ap (λ k. is_open k.logfd) child ∙ is_open-shut c.logfd,
                  get_elem?-set_fd _ i (negsuc 0) p (rw same at at_poll),
                );
          })
  ]
]

run_rearm-IsQuiet : (r : RunState) (i : ℤ) → IsQuiet r → IsQuiet (run_rearm r i)
unfolding run_rearm
run_rearm-IsQuiet r (negsuc i) quiet = quiet
run_rearm-IsQuiet r (pos i) quiet = elim (Option-cases (get_elem? r.children i)) [
  | inl e ↦ rw (run_rearm, e) quiet
  | inr (c, e) ↦ elim (Bool-cases (is_dead r i)) [
    | inl revived ↦ rw (run_rearm, e, revived) (record { quiet = λ d c_new p dead. absurd (cc) })
    | inr other ↦
        rw (run_rearm, e, other)
          (record {
            quiet = λ d c_new p dead at_child at_poll.
                let apart : i ≢ d = λ same. absurd (ground (arith, same, dead, other)) in
                quiet.quiet d c_new p dead at_child
                  (sym (get_elem?-set_other r.log_polls i d _ apart) ∙ at_poll);
          })
  ]
]

-- If the dead node is quiet, it is so after `run_note_dead`, which may make a node the dead one,
-- and after `run_rearm`.
pub marks-IsQuiet :
    (r : RunState) (i : ℤ) → IsQuiet r → IsQuiet (run_note_dead r i) × IsQuiet (run_rearm r i)
marks-IsQuiet r i quiet = (run_note_dead-IsQuiet r i quiet, run_rearm-IsQuiet r i quiet)
