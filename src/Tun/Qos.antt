-- ===== src/Tun/Qos.antt =====
-- `tun_qos_set` and `tun_qos_clear` of tun/tun.c: the armed entries as a map from descriptors.
use resonance.Prelude.{
  ℕ, suc, ◌≤◌, ◌≡◌, refl, Bool, true, false, Option, none, some, List, [], ◌∷◌, ◌++◌, arith,
  if◌then◌else◌, leb, leb→le, length, set, Bool-cases, Option-cases, inl, inr,
}
use resonance.Prelude.Int.{ℤ, pos}
use resonance.Tun.{
  TunQos, TunQosSlot, TunMap, tun_map_max, is_fd, is_negative, index_of, remove_swap, qfind,
}
use resonance.Tun.Shaping.{qcap}

same_key : (a b k : ℤ) → is_fd a b ≡ true → is_fd a k ≡ is_fd b k
same_key a b k e = ground arith

other_key : (a b k : ℤ) → is_fd a b ≡ false → is_fd b k ≡ true → is_fd a k ≡ false
other_key a b k e h = ground arith

same_test :
    {A : Type 0} (b : Bool) (x y z : A)
    → (if b then x else z) ≡ (if b then x else (if b then y else z))
same_test true x y z = refl
same_test false x y z = refl

tests_swap :
    {A : Type 0} (a b : Bool) (x y z : A)
    → (b ≡ true → a ≡ false)
    → (if a then y else (if b then x else z)) ≡ (if b then x else (if a then y else z))
tests_swap false b x y z h = refl
tests_swap true false x y z h = refl
tests_swap true true x y z h = absurd (cc (h refl))

module _ {F : Type 0} where
  -- An entry as it is armed: the counter reset, the bucket full, the stamps zero.
  abbrev pub armed : ℤ → TunQos F → TunQosSlot F
  armed fd q = record {
    fd = fd;
    q = q;
    ctr = 0;
    toks = qcap q.kbps;
    last_ns = 0;
    last_slow = pos 0;
  }

  unfoldable pub tun_qos_set : TunMap F → ℤ → TunQos F → TunMap F
  tun_qos_set m fd q = if is_negative fd then m else elim (qfind m fd) [
    | some i ↦ record m { qos = set m.qos i (armed fd q) }
    | none ↦
        if leb tun_map_max (length m.qos) then m else record m { qos = m.qos ++ armed fd q ∷ [] }
  ]

  pub tun_qos_clear : TunMap F → ℤ → TunMap F
  tun_qos_clear m fd =
      if is_negative fd
      then m
      else elim (qfind m fd) [ none ↦ m | some i ↦ record m { qos = remove_swap m.qos i } ]

  -- The entry of a descriptor, by a search of them all.
  pub qos_of : List (TunQosSlot F) → ℤ → Option (TunQosSlot F)
  qos_of [] fd = none
  qos_of (s ∷ ss) fd = if is_fd s.fd fd then some s else qos_of ss fd

  -- The two ends of arming a descriptor.
  pub data QosSet (m : TunMap F) (fd : ℤ) (q : TunQos F) : TunMap F → Type 0 where
    arms :
        {qos : List (TunQosSlot F)}
        → ((k : ℤ) → qos_of qos k ≡ (if is_fd fd k then some (armed fd q) else qos_of m.qos k))
        → QosSet m fd q (record m { qos = qos })
    bad_fd : is_negative fd ≡ true → QosSet m fd q m
    full : qos_of m.qos fd ≡ none → tun_map_max ≤ length m.qos → QosSet m fd q m

  qos_of-absent :
      (ss : List (TunQosSlot F)) (fd : ℤ)
      → index_of (λ s. is_fd s.fd fd) ss ≡ none
      → qos_of ss fd ≡ none
  unfolding qos_of index_of
  qos_of-absent [] fd e = refl
  qos_of-absent (s ∷ ss) fd e = ground (arith, qos_of-absent ss fd)

  qos_of-set :
      (ss : List (TunQosSlot F)) (i : ℕ) (fd k : ℤ) (q : TunQos F)
      → index_of (λ s. is_fd s.fd fd) ss ≡ some i
      → qos_of (set ss i (armed fd q)) k ≡ (if is_fd fd k then some (armed fd q) else qos_of ss k)
  unfolding qos_of index_of
  qos_of-set [] i fd k q e = cc
  qos_of-set (s ∷ ss) i fd k q e = elim (Bool-cases (is_fd s.fd fd)) [
    | inl here ↦
        let first : i ≡ 0 = ground arith in
        rw (first, same_key s.fd fd k here)
          (same_test (is_fd fd k) (some (armed fd q)) (some s) (qos_of ss k))
    | inr later ↦ elim (Option-cases (index_of (λ t. is_fd t.fd fd) ss)) [
      | inl absent ↦ absurd (ground arith)
      | inr (j, found) ↦
          let next : i ≡ suc j = ground arith in
          let rest = qos_of-set ss j fd k q found in
          rw (next, rest)
            (tests_swap (is_fd s.fd k) (is_fd fd k) (some (armed fd q)) (some s) (qos_of ss k)
              (other_key s.fd fd k later))
    ]
  ]

  qos_of-append :
      (ss : List (TunQosSlot F)) (fd k : ℤ) (q : TunQos F)
      → index_of (λ s. is_fd s.fd fd) ss ≡ none
      → qos_of (ss ++ armed fd q ∷ []) k ≡ (if is_fd fd k then some (armed fd q) else qos_of ss k)
  unfolding qos_of index_of
  qos_of-append [] fd k q e = refl
  qos_of-append (s ∷ ss) fd k q e =
      let later : is_fd s.fd fd ≡ false = ground arith in
      let rest = qos_of-append ss fd k q (ground arith) in
      rw rest (
        tests_swap (is_fd s.fd k) (is_fd fd k) (some (armed fd q)) (some s) (qos_of ss k)
          (other_key s.fd fd k later))

  -- `tun_qos_set` gives the descriptor a fresh entry with the shaping asked for and changes no
  -- other's entry; or changes nothing, for a negative descriptor or a new one in a full table.
  pub tun_qos_set-QosSet :
      (m : TunMap F) (fd : ℤ) (q : TunQos F) → QosSet m fd q (tun_qos_set m fd q)
  unfolding tun_qos_set qfind
  tun_qos_set-QosSet m fd q = elim (Bool-cases (is_negative fd)) [
    | inl bad ↦ rw bad (bad_fd bad)
    | inr fine ↦ elim (Option-cases (index_of (λ s. is_fd s.fd fd) m.qos)) [
      | inr (i, found) ↦ rw (fine, found) (arms λ k. qos_of-set m.qos i fd k q found)
      | inl absent ↦ elim (Bool-cases (leb tun_map_max (length m.qos))) [
        | inl no_room ↦
            rw (fine, absent, no_room) (full (qos_of-absent m.qos fd absent) (leb→le _ _ no_room))
        | inr room ↦ rw (fine, absent, room) (arms λ k. qos_of-append m.qos fd k q absent)
      ]
    ]
  ]
