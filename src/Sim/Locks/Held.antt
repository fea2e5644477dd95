-- ===== src/Sim/Locks/Held.antt =====
-- Which ids the processes of sim/sim.c hold.
use resonance.Prelude.{
  ℕ, zero, suc, ◌+◌, ◌≤◌, ◌<◌, ◌≡◌, ◌≢◌, refl, sym, ◌∙◌, Bool, true, false, ◌&&◌, ◌⊎◌, inl, inr,
  Option, none, some, ◌==◌, ==_iff, arith, Bool-cases, dec_lt,
}
use resonance.Sim.{run_id_max}
use resonance.Sim.Locks.{
  Locks, is_free, first_free, update, release, take_lock, taken, sim_run_acquire, exit_process,
  IsConsistent, Reach, start, acquire, exit,
}

first_free-some :
    (opens : ℕ → Bool) (l : Locks) (count id found : ℕ)
    → first_free opens l count id ≡ some found
    → (id ≤ found) × (found < id + count) × (l.holder found ≡ none)
unfolding first_free
first_free-some opens l zero id found e = cc
first_free-some opens l (suc count) id found e =
    elim (Bool-cases (opens id && is_free (l.holder id))) [
      | inl here ↦
          let same : id ≡ found = cc (rw here at e) in
          rw (sym same) (omega arith, omega arith, free_none (l.holder id) (ground (arith, here)))
      | inr later ↦
          let (low, high, free) = first_free-some opens l count (id + 1) found (rw later at e) in
          (omega (arith, low), omega (arith, high), free)
    ]
  where
    free_none : (o : Option ℕ) → is_free o ≡ true → o ≡ none
    free_none none e = refl
    free_none (some p) e = cc

release-other :
    (o : Option ℕ) (holder : ℕ → Option ℕ) (id p : ℕ)
    → o ≢ some id
    → holder id ≡ some p
    → release o holder id ≡ some p
release-other none holder id p apart e = e
release-other (some k) holder id p apart e = elim (Bool-cases (id == k)) [
  | inl same ↦ absurd (apart (cc ((==_iff id k).0 same)))
  | inr other ↦ rw other e
]

release-some :
    (o : Option ℕ) (holder : ℕ → Option ℕ) (id p : ℕ)
    → release o holder id ≡ some p
    → (o ≢ some id) × (holder id ≡ some p)
release-some none holder id p e = ((λ s. cc), e)
release-some (some k) holder id p e = elim (Bool-cases (id == k)) [
  | inl same ↦ cc (rw same at e)
  | inr other ↦ ((λ s. let eq : k ≡ id = cc in ground (arith, other, eq)), rw other at e)
]

update-some :
    (f : ℕ → Option ℕ) (k : ℕ) (v : Option ℕ) (n a : ℕ)
    → update f k v n ≡ some a
    → ((n ≡ k) × (v ≡ some a)) ⊎ ((n ≢ k) × (f n ≡ some a))
update-some f k v n a e = elim (Bool-cases (n == k)) [
  | inl same ↦ inl ((==_iff n k).0 same, rw same at e)
  | inr other ↦ inr ((λ s. ground (arith, other, s)), rw other at e)
]

update_here : (f : ℕ → Option ℕ) (k : ℕ) (v : Option ℕ) (n : ℕ) → n ≡ k → update f k v n ≡ v
update_here f k v n e = let same : (n == k) ≡ true = (==_iff n k).1 e in rw same refl

update_there : (f : ℕ → Option ℕ) (k : ℕ) (v : Option ℕ) (n : ℕ) → n ≢ k → update f k v n ≡ f n
update_there f k v n e = elim (Bool-cases (n == k)) [
  | inl same ↦ absurd (e ((==_iff n k).0 same))
  | inr other ↦ rw other refl
]

module _ (l : Locks) (c : IsConsistent l) (p : ℕ) where
  -- What another process holds is not what `p` holds.
  not_of : (q k : ℕ) → q ≢ p → l.held q ≡ some k → l.held p ≢ some k
  not_of q k apart e same = apart (cc (c.held_by q k e, c.held_by p k same))

  not_self : (q k : ℕ) → l.held p ≢ some k → l.held q ≡ some k → q ≢ p
  not_self q k apart e same = apart (rw same at e)

  take_lock-IsConsistent :
      (id : ℕ) → l.holder id ≡ none → 1 ≤ id → id ≤ run_id_max → IsConsistent (take_lock p id l)
  take_lock-IsConsistent id free low high = record {
    held_by = λ q k e. elim (update-some l.held p (some id) q k e) [
      | inl (is, at) ↦
          let here : k ≡ id = cc in
          update_here (release (l.held p) l.holder) id (some p) k here ∙ cc (is)
      | inr (other, was) ↦
          let apart : k ≢ id =
            λ s. let taken : l.holder id ≡ some q = rw s at (c.held_by q k was) in cc in
          update_there (release (l.held p) l.holder) id (some p) k apart
          ∙ release-other (l.held p) l.holder k q (not_of q k other was) (c.held_by q k was)
    ];
    holds = λ q k e. elim (update-some (release (l.held p) l.holder) id (some p) k q e) [
      | inl (at, is) ↦ let self : q ≡ p = cc in update_here l.held p (some id) q self ∙ cc (at)
      | inr (other, was) ↦
          let (apart, held) = release-some (l.held p) l.holder k q was in
          let has : l.held q ≡ some k = c.holds q k held in
          update_there l.held p (some id) q (not_self q k apart has) ∙ has
    ];
    in_range = λ q k e. elim (update-some l.held p (some id) q k e) [
      | inl (is, at) ↦ let here : id ≡ k = cc in rw (sym here) (low, high)
      | inr (other, was) ↦ c.in_range q k was
    ];
  }

  exit_process-IsConsistent : IsConsistent (exit_process p l)
  unfolding exit_process
  exit_process-IsConsistent = record {
    held_by = λ q k e. elim (update-some l.held p none q k e) [
      | inl (is, at) ↦ cc
      | inr (other, was) ↦
          release-other (l.held p) l.holder k q (not_of q k other was) (c.held_by q k was)
    ];
    holds = λ q k e.
        let (apart, held) = release-some (l.held p) l.holder k q e in
        let has : l.held q ≡ some k = c.holds q k held in
        update_there l.held p none q (not_self q k apart has) ∙ has;
    in_range = λ q k e. elim (update-some l.held p none q k e) [
      | inl (is, at) ↦ cc
      | inr (other, was) ↦ c.in_range q k was
    ];
  }

  taken-IsConsistent :
      (opens : ℕ → Bool) (found : Option ℕ)
      → first_free opens l run_id_max 1 ≡ found
      → IsConsistent (taken p l found).1
  taken-IsConsistent opens none e = c
  taken-IsConsistent opens (some id) e =
      let (low, high, free) = first_free-some opens l run_id_max 1 id e in
      take_lock-IsConsistent id free low (omega (arith, high))

  sim_run_acquire-IsConsistent :
      (scans : Bool) (opens : ℕ → Bool) → IsConsistent (sim_run_acquire scans opens p l).1
  unfolding sim_run_acquire
  sim_run_acquire-IsConsistent true opens = taken-IsConsistent opens _ refl
  sim_run_acquire-IsConsistent false opens = c

pub Reach-IsConsistent : (l : Locks) → Reach l → IsConsistent l
Reach-IsConsistent l (start _ free idle) = record {
  held_by = λ q k e. cc (idle q);
  holds = λ q k e. cc (free k);
  in_range = λ q k e. cc (idle q);
}
Reach-IsConsistent l (acquire b scans opens p r _ e) =
    rw e (sim_run_acquire-IsConsistent b (Reach-IsConsistent b r) p scans opens)
Reach-IsConsistent l (exit b p r _ e) =
    rw e (exit_process-IsConsistent b (Reach-IsConsistent b r) p)

first_free-none :
    (opens : ℕ → Bool) (l : Locks) (count id : ℕ)
    → first_free opens l count id ≡ none
    → (k : ℕ) → id ≤ k
    → k < id + count
    → opens k ≡ true
    → l.holder k ≢ none
unfolding first_free
first_free-none opens l zero id e k low high open_ free = absurd (omega (arith, low, high))
first_free-none opens l (suc count) id e k low high open_ free =
    elim (Bool-cases (opens id && is_free (l.holder id))) [
      | inl here ↦ cc (rw here at e)
      | inr later ↦ elim (dec_lt id k) [
        | yes behind ↦
            first_free-none opens l count (id + 1) (rw later at e) k (omega (arith, behind))
              (omega (arith, high)) open_ free
        | no first ↦
            let at : id ≡ k = omega (arith, low, first) in
            let busy : (opens k && is_free (l.holder k)) ≡ false = rw at at later in
            cc (rw (open_, free) at busy)
      ]
    ]

taken-none : (p : ℕ) (l : Locks) (o : Option ℕ) → (taken p l o).0 ≡ none → o ≡ none
taken-none p l none e = refl
taken-none p l (some id) e = cc

-- A scan that gives no id has met each of 1 up to 154 with its file shut or its lock held.
pub sim_run_acquire-none :
    (opens : ℕ → Bool) (p : ℕ) (l : Locks) (id : ℕ)
    → (sim_run_acquire true opens p l).0 ≡ none
    → 1 ≤ id
    → id ≤ run_id_max
    → opens id ≡ true
    → l.holder id ≢ none
unfolding sim_run_acquire
sim_run_acquire-none opens p l id e low high open_ =
    first_free-none opens l run_id_max 1 (taken-none p l _ e) id low (omega (arith, high)) open_
