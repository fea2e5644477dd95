-- ===== src/Exec/Templates/Filled.antt =====
-- What `tpl_expand` of suite/exec.c makes of a template that `ph_ok` has passed.
use resonance.Prelude.{
  codes, ℕ, zero, suc, ◌+◌, ◌≤◌, ◌<◌, ◌≡◌, refl, sym, Bool, true, false, ◌&&◌, inl, inr, Option,
  none, some, [], ◌∷◌, ◌++◌, if◌then◌else◌, ltb, leb, ◌==◌, arith, Bool-cases, length,
  length-append,
}
use resonance.Prelude.Int.{pos}
use resonance.Suite.{Bytes, same_bytes}
use resonance.Suite.Tree.Numbers.{print_int}
use resonance.Exec.Templates.{
  starts, scan, closed, placeholder, behind, Checked, fine, wid_refused, check_name, check_hole,
  ph_ok, Values, value_of, onto, put_value, tpl_expand,
}

-- What a template stands for: its bytes, and at each {{name}} the value of the name.
pub data Expands (v : Values) : Bytes → Bytes → Type 0 where
  done : Expands v [] []
  plain :
      (c : ℕ) {s t : Bytes}
      → (c == b'{' && starts b'{' s) ≡ false
      → Expands v s t
      → Expands v (c ∷ s) (c ∷ t)
  hole :
      (c : ℕ) {s : Bytes} (name rest rep : Bytes) {t u : Bytes}
      → (c == b'{' && starts b'{' s) ≡ true
      → placeholder (behind s) ≡ some (name, rest)
      → value_of v name ≡ some rep
      → Expands v rest t
      → u ≡ rep ++ t
      → Expands v (c ∷ s) u

scan-le : (room : ℕ) (s : Bytes) → length (scan room s).1 ≤ length s
unfolding scan
scan-le zero s = omega arith
scan-le (suc room) [] = omega arith
scan-le (suc room) (c ∷ s) = elim (Bool-cases (c == b'}' && starts b'}' s)) [
  | inl close ↦ rw close (omega arith)
  | inr more ↦ rw more (omega (arith, scan-le room s))
]

closed-lt :
    (found : Bytes × Bytes) (name rest : Bytes)
    → closed found ≡ some (name, rest)
    → length rest < length found.1
closed-lt (nm, []) name rest e = cc
closed-lt (nm, c ∷ []) name rest e = cc
closed-lt (nm, c ∷ d ∷ s) name rest e = elim (Bool-cases (d == b'}')) [
  | inl brace ↦ let same : s ≡ rest = cc (rw brace at e) in rw (sym same) (omega arith)
  | inr other ↦ cc (rw other at e)
]

placeholder-lt :
    (s name rest : Bytes) → placeholder (behind s) ≡ some (name, rest) → length rest ≤ length s
placeholder-lt s name rest e =
    omega (arith, closed-lt (scan 31 (behind s)) name rest e, scan-le 31 (behind s), behind-le s)
  where
    behind-le : (s : Bytes) → length (behind s) ≤ length s
    behind-le [] = omega arith
    behind-le (c ∷ s) = omega arith

-- A name that is passed has a value.
check_name-fine :
    (v : Values) (allow_wid : Bool) (name : Bytes) (rest : Checked)
    → check_name allow_wid name rest ≡ fine
    → ((rep : Bytes) × (value_of v name ≡ some rep)) × (rest ≡ fine)
check_name-fine v allow_wid name rest e = elim (Bool-cases (same_bytes name (codes "seq"))) [
  | inl is ↦ ((print_int (pos v.seq), rw is refl), rw is at e)
  | inr no_seq ↦ elim (Bool-cases (same_bytes name (codes "send_ns"))) [
    | inl is ↦ ((print_int (pos v.send_ns), rw (no_seq, is) refl), rw (no_seq, is) at e)
    | inr no_ns ↦ elim (Bool-cases (same_bytes name (codes "body"))) [
      | inl is ↦ ((v.body, rw (no_seq, no_ns, is) refl), rw (no_seq, no_ns, is) at e)
      | inr no_body ↦ elim (Bool-cases (same_bytes name (codes "wid"))) [
        | inr none_of ↦ cc (rw (no_seq, no_ns, no_body, none_of) at e)
        | inl is ↦ (
          (v.wid, rw (no_seq, no_ns, no_body, is) refl),
          allowed allow_wid (rw (no_seq, no_ns, no_body, is) at e),
        )
      ]
    ]
  ]
]
  where
    allowed : (allow_wid : Bool) → (if allow_wid then rest else wid_refused) ≡ fine → rest ≡ fine
    allowed true e = e
    allowed false e = cc

module _ (v : Values) (allow_wid : Bool) where
  hole-Expands :
      (c : ℕ) (s : Bytes) (next : Bytes → Checked)
      → (c == b'{' && starts b'{' s) ≡ true
      → ((rest : Bytes)
          → length rest ≤ length s
          → next rest ≡ fine
          → (t : Bytes) × Expands v rest t)
      → (found : Option (Bytes × Bytes)) → placeholder (behind s) ≡ found
      → check_hole allow_wid found next ≡ fine
      → (t : Bytes) × Expands v (c ∷ s) t
  hole-Expands c s next test ih none e passed = cc
  hole-Expands c s next test ih (some (name, rest)) e passed =
      let ((rep, value), more) = check_name-fine v allow_wid name (next rest) passed in
      let (t, ex) = ih rest (placeholder-lt s name rest e) more in
      (rep ++ t, hole c name rest rep test e value ex refl)

  -- A template that is passed stands for a text.
  ph_ok-Expands :
      (fuel : ℕ) (s : Bytes)
      → length s ≤ fuel
      → ph_ok allow_wid fuel s ≡ fine
      → (t : Bytes) × Expands v s t
  unfolding ph_ok
  ph_ok-Expands fuel [] enough e = ([], done)
  ph_ok-Expands zero (c ∷ s) enough e = cc
  ph_ok-Expands (suc fuel) (c ∷ s) enough e = elim (Bool-cases (c == b'{' && starts b'{' s)) [
    | inl open_ ↦
        hole-Expands c s (ph_ok allow_wid fuel) open_
          (λ rest shorter more. ph_ok-Expands fuel rest (omega (arith, shorter, enough)) more)
          (placeholder (behind s)) refl (rw (ph_ok, open_) at e)
    | inr usual ↦
        let (t, ex) = ph_ok-Expands fuel s (omega (arith, enough)) (rw (ph_ok, usual) at e) in
        (c ∷ t, plain c usual ex)
  ]

module _ (v : Values) (n : ℕ) where
  -- The text from offset `o` on, if it fits with the NUL behind it.
  abbrev pub fitting : (o : ℕ) → Bytes → Option Bytes
  fitting o t = if leb (o + length t + 1) n then some t else none

  plain-fitting :
      (o c : ℕ) (t : Bytes)
      → (if leb n (o + 1) then none else onto (c ∷ []) (fitting (o + 1) t)) ≡ fitting o (c ∷ t)
  plain-fitting o c t =
      let len : o + 1 + length t + 1 ≡ o + length (c ∷ t) + 1 = omega arith in
      elim (Bool-cases (leb (o + length (c ∷ t) + 1) n)) [
        | inl room ↦
            let more : leb n (o + 1) ≡ false = ground (arith, room) in rw (len, room, more) refl
        | inr full ↦ elim (Bool-cases (leb n (o + 1))) [
          | inl used ↦ rw (full, used) refl
          | inr left ↦ rw (len, full, left) refl
        ]
      ]

  put_value-fitting :
      (o : ℕ) (rep t : Bytes) (next : ℕ → Option Bytes)
      → next (o + length rep) ≡ fitting (o + length rep) t
      → put_value o n (some rep) next ≡ fitting o (rep ++ t)
  put_value-fitting o rep t next e =
      let len : o + length rep + length t + 1 ≡ o + length (rep ++ t) + 1 =
        omega (arith, length-append rep t) in
      elim (Bool-cases (leb (o + length (rep ++ t) + 1) n)) [
        | inl room ↦
            let more : ltb n (o + length rep + 1) ≡ false = ground (arith, room, len) in
            rw (more, e, len, room) refl
        | inr full ↦ elim (Bool-cases (ltb n (o + length rep + 1))) [
          | inl used ↦ rw (full, used) refl
          | inr left ↦ rw (left, e, len, full) refl
        ]
      ]

  tpl_expand-fitting :
      {s t : Bytes}
      → Expands v s t
      → (fuel o : ℕ) → length s ≤ fuel
      → tpl_expand v n fuel o s ≡ fitting o t
  unfolding tpl_expand
  tpl_expand-fitting done fuel o enough = ground arith
  tpl_expand-fitting (plain c test ex) zero o enough = absurd (omega (arith, enough))
  tpl_expand-fitting (hole c name rest rep test found value ex same) zero o enough =
      absurd (omega (arith, enough))
  tpl_expand-fitting (plain c {t = t} test ex) (suc fuel) o enough =
      rw (tpl_expand, test, tpl_expand-fitting ex fuel (o + 1) (omega (arith, enough)))
        (plain-fitting o c t)
  tpl_expand-fitting (hole c {s = s} name rest rep {t = t} test found value ex same) (suc fuel) o
        enough =
      let shorter : length rest ≤ length s = placeholder-lt s name rest found in
      let filled : tpl_expand v n fuel (o + length rep) rest ≡ fitting (o + length rep) t =
        tpl_expand-fitting ex fuel (o + length rep) (omega (arith, shorter, enough)) in
      rw (tpl_expand, test, found, value, same)
        (put_value-fitting o rep t (λ at. tpl_expand v n fuel at rest) filled)

-- A template that `ph_ok` passes stands for a text, whatever the values are, and `tpl_expand`
-- writes that text where it fits the buffer with its NUL, and else fails.
pub tpl_expand-Expands :
    (allow_wid : Bool) (s : Bytes) (v : Values) (n : ℕ)
    → ph_ok allow_wid (length s) s ≡ fine
    → (t : Bytes) × Expands v s t
      × (tpl_expand v n (length s) 0 s ≡ (if leb (length t + 1) n then some t else none))
tpl_expand-Expands allow_wid s v n passed =
    let (t, ex) = ph_ok-Expands v allow_wid (length s) s (omega arith) passed in
    let filled : tpl_expand v n (length s) 0 s ≡ fitting v n 0 t =
      tpl_expand-fitting v n ex (length s) 0 (omega arith) in
    let zero_add : 0 + length t ≡ length t = omega arith in (t, ex, rw zero_add at filled)
