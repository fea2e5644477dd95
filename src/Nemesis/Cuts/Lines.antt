-- ===== src/Nemesis/Cuts/Lines.antt =====
-- The cuts of suite/nemesis.c run from the start of a line, or the end of the text, to another.
use resonance.Prelude.{
  codes, ℕ, zero, suc, ◌+◌, ◌-◌, ◌≤◌, ◌<◌, ◌≡◌, refl, Bool, true, false, ◌⊎◌, inl, inr, Option,
  none, some, List, [], ◌∷◌, ◌++◌, if◌then◌else◌, ltb, ◌==◌, length, get_or, take, arith,
  Bool-cases, Option-cases, length-append, length-take,
}
use resonance.Suite.{Bytes, SuiteNode, node_line}
use resonance.Suite.Tree.{suite_map_find, suite_list_len, suite_list_at}
use resonance.Nemesis.Cuts.{
  line_starts, starts_behind, line_off, trial_no_phase, trial_no_step, drop, without, off_of,
  next_item, steps_end, no_step, next_key_after, do_key_line,
}

-- An offset at which a line starts, or the end of the text.
abbrev pub AtLine : Bytes → ℕ → Type 0
AtLine text a =
    (a ≤ length text) × ((a ≡ 0) ⊎ (a ≡ length text) ⊎ ((0 < a) × (get_or text (a - 1) 0 ≡ b'\n')))

-- A text without some of its lines, which follow one another.
pub record IsCut (text t : Bytes) : Type 0 where
  pub from : ℕ
  pub upto : ℕ
  pub starts : AtLine text from
  pub ends : AtLine text upto
  pub ordered : from ≤ upto
  pub rest : t ≡ take from text ++ drop upto text

length-drop : (n : ℕ) (xs : Bytes) → length (drop n xs) ≡ length xs - n
length-drop zero xs = omega arith
length-drop (suc n) [] = omega arith
length-drop (suc n) (x ∷ xs) = omega (arith, length-drop n xs)

-- A trial is no longer than the text.
pub IsCut-length : {text t : Bytes} → IsCut text t → length t ≤ length text
IsCut-length {text} c = rw c.rest (
    omega (
      arith,
      length-append (take c.from text) (drop c.upto text),
      length-take c.from text,
      length-drop c.upto text,
      c.ordered,
      c.starts.0,
      c.ends.0,
    ))

-- Offsets into the text behind `i` bytes.
abbrev AfterNewline : ℕ → Bytes → ℕ → Type 0
AfterNewline i text a = (i < a) × (a < i + length text) × (get_or text (a - i - 1) 0 ≡ b'\n')

later_line : (i c a : ℕ) (text : Bytes) → AfterNewline (suc i) text a → AfterNewline i (c ∷ text) a
later_line i c a text h =
    let e : a - i - 1 ≡ suc (a - suc i - 1) = omega (arith, h.0) in
    (omega (arith, h.0), omega (arith, h.1), rw e h.2)

later_lines :
    (i c : ℕ) (text : Bytes) (starts : List ℕ)
    → ((k : ℕ) → k < length starts → AfterNewline (suc i) text (get_or starts k 0))
    → (c == b'\n') ≡ true
    → 0 < length text
    → (k : ℕ) → k < suc (length starts)
    → AfterNewline i (c ∷ text) (get_or (suc i ∷ starts) k 0)
later_lines i c text starts ih newline more zero h =
    let e : suc i - i - 1 ≡ 0 = omega arith in
    (omega arith, omega (arith, more), rw e (ground (arith, newline)))
later_lines i c text starts ih newline more (suc k) h = later_line i c _ text (ih k (omega arith))

-- Each entry of the table, those behind the first.
starts_behind-AfterNewline :
    (i : ℕ) (text : Bytes) (k : ℕ)
    → k < length (starts_behind i text)
    → AfterNewline i text (get_or (starts_behind i text) k 0)
starts_behind-AfterNewline i [] k h = absurd (omega arith)
starts_behind-AfterNewline i (c ∷ []) k h = absurd (omega arith)
starts_behind-AfterNewline i (c ∷ d ∷ text) k h = elim (Bool-cases (c == b'\n')) [
  | inr other ↦ rw other (
      later_line i c _ (d ∷ text) (starts_behind-AfterNewline (suc i) (d ∷ text) k (rw other at h)))
  | inl newline ↦ rw newline (
      later_lines i c (d ∷ text) (starts_behind (suc i) (d ∷ text))
        (starts_behind-AfterNewline (suc i) (d ∷ text)) newline (omega arith) k (rw newline at h))
]

at_start : (text : Bytes) → AtLine text 0
at_start text = (omega arith, inl refl)

at_end : (text : Bytes) → AtLine text (length text)
at_end text = (omega arith, inr (inl refl))

first_line : (n : ℕ) → ltb (suc n) 1 ≡ false
first_line n = ground arith

behind_first :
    (starts : List ℕ) (len k : ℕ)
    → ltb (suc (length starts)) (suc (suc k)) ≡ false
    → line_off (0 ∷ starts) len (suc (suc k)) ≡ get_or starts k 0
unfolding line_off
behind_first starts len k inside =
    let e : suc (suc k) - 1 ≡ suc k = omega arith in rw (e, inside) (ground arith)

starts-AtLine :
    (text : Bytes) (line : ℕ) → AtLine text (line_off (0 ∷ starts_behind 0 text) (length text) line)
unfolding line_off
starts-AtLine text zero = at_start text
starts-AtLine text (suc zero) = rw (first_line (length (starts_behind 0 text))) (at_start text)
starts-AtLine text (suc (suc k)) =
    elim (Bool-cases (ltb (suc (length (starts_behind 0 text))) (suc (suc k)))) [
      | inl past ↦
          let off : line_off (0 ∷ starts_behind 0 text) (length text) (suc (suc k)) ≡ length text =
            ground (arith, past) in
          rw off (at_end text)
      | inr inside ↦
          let (above, below, newline) =
            starts_behind-AfterNewline 0 text k (ground (arith, inside)) in
          let off : line_off (0 ∷ starts_behind 0 text) (length text) (suc (suc k))
              ≡ get_or (starts_behind 0 text) k 0 =
            behind_first (starts_behind 0 text) (length text) k inside in
          let same : get_or (starts_behind 0 text) k 0 - 0 - 1
              ≡ get_or (starts_behind 0 text) k 0 - 1 =
            omega arith in
          rw off (omega (arith, below), inr (inr (above, rw same at newline)))
    ]

-- Every line's offset is the start of a line or the end of the text.
pub line_off-AtLine :
    (mem : Bool) (text : Bytes) (tab : List ℕ)
    → line_starts mem text ≡ some tab
    → (line : ℕ) → AtLine text (line_off tab (length text) line)
unfolding line_starts
line_off-AtLine mem text tab h line =
    let e : tab ≡ 0 ∷ starts_behind 0 text = ground arith in rw e (starts-AtLine text line)

module _ (mem : Bool) (text : Bytes) (tab : List ℕ)
    (at_line : (line : ℕ) → AtLine text (line_off tab (length text) line)) (phs : Option SuiteNode)
    (t : Bytes) where
  without-IsCut :
      (a b : ℕ) → AtLine text a → AtLine text b → without mem text a b ≡ some t → IsCut text t
  without-IsCut a b ha hb e =
      let ordered : a ≤ b = ground arith in
      let rest : t ≡ take a text ++ drop b text = ground arith in
      record { from = a; upto = b; starts = ha; ends = hb; ordered = ordered; rest = rest }

  off-AtLine :
      (o : Option SuiteNode) (past : ℕ)
      → AtLine text past
      → AtLine text (elim o as (λ _. ℕ) [
        | none ↦ past
        | some next ↦ off_of mem text tab phs (node_line next)
      ])
  off-AtLine none past h = h
  off-AtLine (some next) past h = at_line (node_line next)

  pub no_phase-IsCut : (j : ℕ) → trial_no_phase mem text tab phs j ≡ some t → IsCut text t
  unfolding trial_no_phase
  no_phase-IsCut j e = elim (Option-cases (suite_list_at phs j)) [
    | inl gone ↦ cc (rw (trial_no_phase, gone) at e)
    | inr (me, here) ↦
        without-IsCut _ _ (at_line (node_line me))
          (off-AtLine (suite_list_at phs (j + 1)) (length text) (at_end text))
          (rw (trial_no_phase, here) at e)
  ]

  AtLine-if :
      (c : Bool) (a b : ℕ) → AtLine text a → AtLine text b → AtLine text (if c then a else b)
  AtLine-if true a b ha hb = ha
  AtLine-if false a b ha hb = hb

  no_step-at :
      (j : ℕ) (ph d : SuiteNode) (k : ℕ) (me : SuiteNode)
      → no_step mem text tab phs j ph d k me ≡ some t
      → IsCut text t
  no_step-at j ph d k me e =
      let b : ℕ =
        next_item mem text tab phs (some d) k (steps_end mem text tab phs j ph (node_line me)) in
      let hb : AtLine text b = off-AtLine (suite_list_at (some d) (k + 1)) _ (
        AtLine-if (next_key_after (some ph) (node_line me) == 0) _ _
          (off-AtLine (suite_list_at phs (j + 1)) (length text) (at_end text))
          (at_line (next_key_after (some ph) (node_line me)))) in
      let key : ℕ = do_key_line (some ph) in
      elim (Bool-cases (suite_list_len (some d) == 1)) [
        | inr more ↦ without-IsCut _ b (at_line (node_line me)) hb (rw more at e)
        | inl one ↦ elim (Bool-cases (key == 0)) [
          | inl no_key ↦ cc (rw (one, no_key) at e)
          | inr some_key ↦ without-IsCut _ b (at_line key) hb (rw (one, some_key) at e)
        ]
      ]

  pub no_step-IsCut : (j k : ℕ) → trial_no_step mem text tab phs j k ≡ some t → IsCut text t
  unfolding trial_no_step
  no_step-IsCut j k e = elim (Option-cases (suite_list_at phs j)) [
    | inl gone ↦ cc (rw (trial_no_step, gone) at e)
    | inr (ph, here) ↦ elim (Option-cases (suite_map_find (some ph) (codes "do"))) [
      | inl idle ↦ cc (rw (trial_no_step, here, idle) at e)
      | inr (d, steps) ↦ elim (Option-cases (suite_list_at (some d) k)) [
        | inl past ↦ cc (rw (trial_no_step, here, steps, past) at e)
        | inr (me, step) ↦ no_step-at j ph d k me (rw (trial_no_step, here, steps, step) at e)
      ]
    ]
  ]
