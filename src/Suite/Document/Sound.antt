-- ===== src/Suite/Document/Sound.antt =====
-- What `suite_parse` of suite/parse.c returns.
use resonance.Prelude.{
  ℕ, suc, ◌+◌, ◌≤◌, ◌≡◌, refl, inl, inr, Bool, some, List, [], ◌∷◌, if◌then◌else◌, ◌==◌, ◌&&◌,
  arith, length,
}
use resonance.Suite.{Bytes, Line, Cursor, Parsed}
use resonance.Suite.Ends.{
  AreLines, line, Ends, ended, refused, Ends-bind, Ends-list, alloc-IsPlaced,
}
use resonance.Suite.Trees.{IsTree, is_map, none_left}
use resonance.Suite.Blocks.Values.{AtLine, at_line}
use resonance.Suite.Blocks.Sound.{parse_block-Ends}
use resonance.Suite.Document.{
  max_depth, split_lines, count_lines, nul_at, parse_lines, parse_all, suite_parse,
}
use resonance.Suite.Document.Split.{
  Settled, done, stopped, Settled-after, take_lines-Settled, Settled-if, Settled-option,
}

length-split_lines : (text : Bytes) → length (split_lines text).1 + 1 ≡ count_lines text
unfolding split_lines count_lines
length-split_lines [] = refl
length-split_lines (c ∷ cs) = ground (arith, length-split_lines cs)

count_lines-pos : (s : Bytes) → 1 ≤ count_lines s
unfolding count_lines
count_lines-pos [] = omega arith
count_lines-pos (c ∷ cs) = ground (arith, count_lines-pos cs)

nul_at-placed :
    (ln col : ℕ) (s : Bytes) (at : ℕ × ℕ)
    → nul_at ln col s ≡ some at
    → 1 ≤ col
    → (ln ≤ at.0) × (at.0 + 1 ≤ ln + count_lines s) × (1 ≤ at.1)
unfolding nul_at count_lines
nul_at-placed ln col [] at e right = absurd (ground arith)
nul_at-placed ln col (c ∷ cs) at e right =
    let rest =
      nul_at-placed (if c == b'\n' then ln + 1 else ln) (if c == b'\n' then 1 else col + 1) cs at in
    ground (arith, rest, count_lines-pos cs)

first_line :
    {total : ℕ} {ln : Line} {lns : List Line}
    → AreLines total (ln ∷ lns)
    → (1 ≤ ln.line) × (ln.line ≤ total)
first_line (line low high filled rest) = (low, high)

parse_lines-Ends :
    {total : ℕ} (mem : ℕ → Bool) (lns : List Line) (allocs : ℕ)
    → 1 ≤ total
    → AreLines total lns
    → Ends total
        (length lns)
        (IsTree total)
        (parse_lines mem lns (record { lines = lns; allocs = allocs }))
unfolding parse_lines
parse_lines-Ends mem [] allocs some_line are =
    Ends-bind
      (alloc-IsPlaced mem (inr (refl, refl, refl)) (record { lines = are; left = omega arith }))
      λ _ _ _ has. ended (is_map (omega arith) some_line none_left) has
parse_lines-Ends {total} mem (ln ∷ lns) allocs some_line are =
    let at : AtLine total (suc (length lns)) ln lns allocs =
      at_line ln lns allocs (record { lines = are; left = omega arith }) in
    Ends-bind (parse_block-Ends mem max_depth _ ln lns allocs at) λ root c tree has.
      Ends-list _ _ c c.lines (λ _. ended tree has)
        λ left more e.
          let (low, high) = first_line (rw e at has.lines) in refused (inl (low, high, omega arith))

Ends-Settled {ℓ κ} :
    {total most : ℕ} {A : Type ℓ} {P : A → Type κ} {r : Parsed (A × Cursor)}
    → Ends total most P r
    → Settled total (λ a. P a.0) r
Ends-Settled (ended holds has) = done holds
Ends-Settled (refused placed) = stopped placed

parse_all-Settled :
    {total : ℕ} (mem : ℕ → Bool) (lns : List Line)
    → 1 ≤ total
    → AreLines total lns
    → Settled total
        (λ parsed. IsTree total parsed.0)
        (parse_all mem (record { lines = lns; allocs = 2 }))
unfolding parse_all
parse_all-Settled mem lns some_line are = Ends-Settled (
    Ends-bind (parse_lines-Ends mem lns 2 some_line are) λ root _ tree has.
      Ends-bind (alloc-IsPlaced mem (inr (refl, refl, refl)) has) λ _ _ _ has. ended tree has)

-- Whatever the text and the outcomes of the allocations, `suite_parse` returns: it gives a tree in
-- which no map has a key twice or an empty key and every line is one of the text, or it reports an
-- error at a line of the text and a column from 1 on, or the failure of an allocation at line 0.
pub suite_parse-Settled :
    (mem : ℕ → Bool) (text : Bytes)
    → Settled (count_lines text) (IsTree (count_lines text)) (suite_parse mem text)
unfolding suite_parse
suite_parse-Settled mem text =
    let size = length-split_lines text in
    Settled-option _ _ (nul_at 1 1 text)
      (λ _.
        Settled-if (mem 0 && mem 1)
          (λ _.
            Settled-after (take_lines-Settled 1 _ (omega arith) (omega (arith, size))) λ lns are.
              Settled-after (parse_all-Settled mem lns (omega (arith, size)) are)
                λ parsed tree. done tree)
          λ _. stopped (inr (refl, refl, refl)))
      λ at found.
        let (low, high, right) = nul_at-placed 1 1 text at found (omega arith) in
        stopped (inl (low, omega arith, right))
