-- ===== src/Nemesis/Cuts.antt =====
-- suite/nemesis.c: the texts of trials. A trial is the text without one phase, or without one step
-- of a phase, cut at the starts of lines.
pub mod Lines
use resonance.Prelude.{
  codes, ℕ, zero, suc, ◌+◌, ◌-◌, Bool, ◌||◌, Option, none, some, List, [], ◌∷◌, ◌++◌, if◌then◌else◌,
  ltb, leb, ◌==◌, length, get_or, take,
}
use resonance.Suite.{Bytes, SuiteNode, Entries, no_entries, entry, node_line, same_bytes}
use resonance.Suite.Tree.{suite_map_find, suite_list_len, suite_list_at}
use resonance.Nemesis.{entries_of}

-- The starts of the lines behind the first, of a text whose first byte is at `i`. A newline that
-- ends the text starts no line.
abbrev pub starts_behind : ℕ → Bytes → List ℕ
starts_behind i [] = []
starts_behind i (c ∷ []) = []
starts_behind i (c ∷ d ∷ text) =
    let rest = starts_behind (suc i) (d ∷ text) in if c == b'\n' then suc i ∷ rest else rest

-- `mem` is the outcome of the allocation.
unfoldable pub line_starts : Bool → Bytes → Option (List ℕ)
line_starts mem text = if mem then some (0 ∷ starts_behind 0 text) else none

unfoldable pub line_off : List ℕ → (len line : ℕ) → ℕ
line_off tab len line =
    if line == 0 then 0 else if ltb (length tab) line then len else get_or tab (line - 1) 0

abbrev least_after : ℕ → Entries → ℕ → ℕ
least_after ln no_entries best = best
least_after ln (entry key key_line value es) best =
    least_after ln es
      (if leb key_line ln then best else if best == 0 || ltb key_line best then key_line else best)

-- The line of the next key of a phase, 0 if there is none.
unfoldable pub next_key_after : Option SuiteNode → ℕ → ℕ
next_key_after ph ln = elim (entries_of ph) [ none ↦ 0 | some es ↦ least_after ln es 0 ]

abbrev line_of_key : Entries → Bytes → ℕ
line_of_key no_entries wanted = 0
line_of_key (entry key key_line value es) wanted =
    if same_bytes key wanted then key_line else line_of_key es wanted

unfoldable pub do_key_line : Option SuiteNode → ℕ
do_key_line ph = elim (entries_of ph) [ none ↦ 0 | some es ↦ line_of_key es (codes "do") ]

abbrev pub drop {ℓ} : {A : Type ℓ} → ℕ → List A → List A
drop zero xs = xs
drop (suc n) [] = []
drop (suc n) (x ∷ xs) = drop n xs

-- The text without its bytes from `a` up to `b`.
abbrev without : Bool → Bytes → (a b : ℕ) → Option Bytes
without mem text a b =
    if ltb b a || ltb (length text) b
    then none
    else if mem
    then some (take a text ++ drop b text)
    else none

module _ (mem : Bool) (text : Bytes) (tab : List ℕ) (phs : Option SuiteNode) where
  abbrev off_of : ℕ → ℕ
  off_of line = line_off tab (length text) line

  -- Where the item behind the `idx`-th starts, or `past` if that is the last.
  abbrev next_item : Option SuiteNode → ℕ → ℕ → ℕ
  next_item xs idx past = elim (suite_list_at xs (idx + 1)) [
    | none ↦ past
    | some next ↦ off_of (node_line next)
  ]

  unfoldable pub trial_no_phase : ℕ → Option Bytes
  trial_no_phase j = elim (suite_list_at phs j) [
    | none ↦ none
    | some me ↦ without mem text (off_of (node_line me)) (next_item phs j (length text))
  ]

  -- Where the steps of phase `j` end.
  abbrev steps_end : (j : ℕ) → SuiteNode → ℕ → ℕ
  steps_end j ph last =
      let post = next_key_after (some ph) last in
      if post == 0 then next_item phs j (length text) else off_of post

  -- The text without step `k`, which is `me`, of the steps `d` of phase `j`.
  abbrev no_step : (j : ℕ) (ph d : SuiteNode) (k : ℕ) → SuiteNode → Option Bytes
  no_step j ph d k me =
      let b = next_item (some d) k (steps_end j ph (node_line me)) in
      let key = do_key_line (some ph) in
      if suite_list_len (some d) == 1
      then if key == 0 then none else without mem text (off_of key) b
      else without mem text (off_of (node_line me)) b

  unfoldable pub trial_no_step : (j k : ℕ) → Option Bytes
  trial_no_step j k = elim (suite_list_at phs j) [
    | none ↦ none
    | some ph ↦ elim (suite_map_find (some ph) (codes "do")) [
      | none ↦ none
      | some d ↦ elim (suite_list_at (some d) k) [ none ↦ none | some me ↦ no_step j ph d k me ]
    ]
  ]
