-- ===== src/Suite/Document/Written.antt =====
-- A document with one entry, written with its text between double quotes, for suite/parse.c.
use resonance.Prelude.{
  ℕ, suc, ◌+◌, ◌≤◌, ◌≡◌, ◌≢◌, refl, ap, ◌⊎◌, inl, inr, Bool, true, false, not, ◌&&◌, Option, none,
  some, [], ◌∷◌, ◌++◌, if◌then◌else◌, ◌==◌, ltb, arith, length, length-append, take,
}
use resonance.Suite.{Bytes, Cursor, ok, map, scalar, entry, no_entries, alloc}
use resonance.Suite.Blocks.Quoted.{parse_map-quoted}
use resonance.Suite.Blocks.{parse_block}
use resonance.Suite.Text.{
  quoted_body, check_tail, scalar_text, unquote, is_dash, closed, skip_quoted, skip_spaces, drop,
}
use resonance.Suite.Text.Quotes.{
  escape, escaped, quoted, decode-quoted, last_byte, Agree, both, skip_quoted-decode,
}
use resonance.Suite.Document.{
  go_on, scrub_byte, scrub_loop, trim_blanks, scrub_line, chomp, find_byte, all_blank, keep_line,
  take_body, take_line, split_lines, take_lines, nul_at, parse_lines, parse_all, suite_parse,
}

-- Does `b` not occur?
abbrev pub without : ℕ → Bytes → Bool
without b [] = true
without b (c ∷ cs) = not (c == b) && without b cs

nul_at-without : (ln col : ℕ) (s : Bytes) → without 0 s ≡ true → nul_at ln col s ≡ none
unfolding nul_at
nul_at-without ln col [] e = refl
nul_at-without ln col (c ∷ cs) e = ground (
  arith,
  nul_at-without (if c == b'\n' then ln + 1 else ln) (if c == b'\n' then 1 else col + 1) cs,
)

split_lines-without : (s : Bytes) → without b'\n' s ≡ true → split_lines s ≡ (s, [])
unfolding split_lines
split_lines-without [] e = refl
split_lines-without (c ∷ cs) e =
    let other : (c == b'\n') ≡ false = ground arith in
    rw (split_lines-without cs (ground arith), other) refl

find_byte-without : (b i : ℕ) (s : Bytes) → without b s ≡ true → find_byte b i s ≡ none
unfolding find_byte
find_byte-without b i [] e = refl
find_byte-without b i (c ∷ cs) e = ground (arith, find_byte-without b (i + 1) cs)

chomp-without : (s : Bytes) → without b'\r' s ≡ true → chomp s ≡ s
unfolding chomp
chomp-without [] e = refl
chomp-without (c ∷ cs) e =
    let other : (c == b'\r') ≡ false = ground arith in
    rw (other, chomp-without cs (ground arith)) refl

trim_blanks-quote : (s : Bytes) → trim_blanks (s ++ b'"' ∷ []) ≡ s ++ b'"' ∷ []
unfolding trim_blanks
trim_blanks-quote [] = refl
trim_blanks-quote (c ∷ []) = refl
trim_blanks-quote (c ∷ d ∷ s) = rw (trim_blanks-quote (d ∷ s)) refl

take-length : (s : Bytes) → take (length s) s ≡ s
take-length [] = refl
take-length (c ∷ s) = ap (λ rest. c ∷ rest) (take-length s)

drop-length : (s : Bytes) → drop (length s) s ≡ []
drop-length [] = refl
drop-length (c ∷ s) = drop-length s

without-append :
    (b : ℕ) (s t : Bytes) → without b s ≡ true → without b t ≡ true → without b (s ++ t) ≡ true
without-append b [] t e f = f
without-append b (c ∷ s) t e f = ground (arith, without-append b s t)

-- A byte that is escaped is not there afterwards, and no other comes but the letters and the backslash.
without-escape :
    (b c : ℕ)
    → (b ≡ b'\n') ⊎ (b ≡ b'\r') ⊎ (b ≡ 0) × ((c == 0) ≡ false)
    → without b (escape c) ≡ true
without-escape b c (inl e) = rw e (ground arith)
without-escape b c (inr (inl e)) = rw e (ground arith)
without-escape b c (inr (inr (e, f))) = rw e (ground arith)

without-escaped :
    (b : ℕ) (s : Bytes)
    → (b ≡ b'\n') ⊎ (b ≡ b'\r') ⊎ (b ≡ 0) × (without 0 s ≡ true)
    → without b (escaped s) ≡ true
without-escaped b [] which = refl
without-escaped b (c ∷ s) (inl e) =
    without-append b (escape c) (escaped s) (without-escape b c (inl e))
      (without-escaped b s (inl e))
without-escaped b (c ∷ s) (inr (inl e)) =
    without-append b (escape c) (escaped s) (without-escape b c (inr (inl e)))
      (without-escaped b s (inr (inl e)))
without-escaped b (c ∷ s) (inr (inr (e, f))) =
    without-append b (escape c) (escaped s) (without-escape b c (inr (inr (e, ground (arith, f)))))
      (without-escaped b s (inr (inr (e, ground (arith, f)))))

last_byte-quote : (c : ℕ) (s : Bytes) → last_byte c (s ++ b'"' ∷ []) ≡ b'"'
last_byte-quote c [] = refl
last_byte-quote c (d ∷ s) = last_byte-quote d s

Agree-some :
    {found : Option ℕ} {text : Bytes} {end : ℕ} → Agree found (closed text end) → found ≡ some end
Agree-some both = refl

skip_quoted-written : (s : Bytes) → skip_quoted (quoted s []) ≡ some (length (escaped s) + 2)
skip_quoted-written s =
    let whole : last_byte b'"' (escaped s ++ b'"' ∷ []) ≢ b'\\' =
      λ e. let last = last_byte-quote b'"' (escaped s) in absurd (ground (arith, e, last)) in
    Agree-some (rw (decode-quoted s []) at (skip_quoted-decode b'"' (escaped s ++ b'"' ∷ []) whole))

-- The document: the key k, and the text `s` between quotes.
abbrev pub written : Bytes → Bytes
written s = b'k' ∷ b':' ∷ b' ' ∷ quoted s []

length-quoted : (s : Bytes) → length (quoted s []) ≡ length (escaped s) + 2
length-quoted s = omega (arith, length-append (escaped s) (b'"' ∷ []))

scrub_byte-written :
    (prev : ℕ) (s : Bytes)
    → scrub_byte prev b'"' (escaped s ++ b'"' ∷ []) ≡ go_on (length (quoted s [])) b'"'
unfolding scrub_byte
scrub_byte-written prev s = rw (skip_quoted-written s, length-quoted s) refl

scrub_loop-quoted :
    (n i prev : ℕ) (s : Bytes)
    → scrub_loop (suc (suc n)) 1 0 i prev (quoted s []) ≡ ok (i + length (quoted s []))
unfolding scrub_loop
scrub_loop-quoted n i prev s =
    rw (scrub_loop, scrub_byte-written prev s, drop-length (quoted s [])) refl

scrub_loop-written :
    (n : ℕ) (s : Bytes)
    → scrub_loop (suc (suc (suc (suc (suc n))))) 1 0 0 b' ' (written s)
      ≡ ok (3 + length (quoted s []))
unfolding scrub_loop scrub_byte
scrub_loop-written n s = scrub_loop-quoted n 3 b' ' s

scrub_line-written : (s : Bytes) → scrub_line (written s) 1 0 ≡ ok (written s)
unfolding scrub_line
scrub_line-written s =
    let fuel : length (written s) + 1
        ≡ suc (suc (suc (suc (suc (length (escaped s ++ b'"' ∷ [])))))) =
      omega arith in
    let size : 3 + length (quoted s []) ≡ length (written s) = omega arith in
    rw
      (
        scrub_line,
        fuel,
        scrub_loop-written (length (escaped s ++ b'"' ∷ [])) s,
        size,
        take-length (written s),
      )
      (ap ok (trim_blanks-quote (b'k' ∷ b':' ∷ b' ' ∷ b'"' ∷ escaped s)))

take_body-written :
    (s : Bytes)
    → take_body (written s) 1 0 ≡ ok (some (record { body = written s; line = 1; indent = 0 }))
unfolding take_body keep_line all_blank
take_body-written s = rw (take_body, scrub_line-written s) refl

take_line-written :
    (s : Bytes)
    → length (escaped s) + 5 ≤ 8192
    → take_line (written s) 1 ≡ ok (some (record { body = written s; line = 1; indent = 0 }))
unfolding take_line skip_spaces
take_line-written s short =
    let r = without-escaped b'\r' s (inr (inl refl)) in
    let no_return : without b'\r' (written s) ≡ true =
      without-append b'\r' (escaped s) (b'"' ∷ []) r refl in
    let fits : ltb 8192 (length (written s)) ≡ false = ground (arith, length-quoted s) in
    let chomped = chomp-without (written s) no_return in
    rw (take_line, fits, chomped, find_byte-without b'\r' 0 (written s) no_return, chomped)
      (take_body-written s)

quoted_body-written :
    (s : Bytes) (line col : ℕ) (c : Cursor)
    → quoted_body (λ n. true) (quoted s []) line col c
      ≡ ok ((s, length (escaped s) + 2), record c { allocs = c.allocs + 1 })
unfolding quoted_body alloc
quoted_body-written s line col c = rw (quoted_body, decode-quoted s []) refl

check_tail-written :
    (s : Bytes) (line col : ℕ) (c : Cursor)
    → check_tail (λ n. true) (quoted s []) line col (length (escaped s) + 2) c ≡ ok (tt, c)
unfolding check_tail skip_spaces
check_tail-written s line col c =
    let past : drop (length (escaped s) + 2) (quoted s []) ≡ [] =
      rw (length-quoted s) at (drop-length (quoted s [])) in
    rw (check_tail, past) refl

scalar_text-written :
    (s : Bytes) (line col : ℕ) (c : Cursor)
    → scalar_text (λ n. true) (quoted s []) line col c ≡ ok (s, record c { allocs = c.allocs + 1 })
unfolding scalar_text unquote
scalar_text-written s line col c =
    rw (scalar_text, unquote, quoted_body-written s line col c, check_tail-written s line col) refl

parse_lines-written :
    (s : Bytes)
    → parse_all
        (λ n. true)
        (record { lines = record { body = written s; line = 1; indent = 0 } ∷ []; allocs = 2 })
      ≡ ok (map 1 (entry (b'k' ∷ []) 1 (scalar 1 s) no_entries), record { lines = []; allocs = 8 })
unfolding parse_all parse_lines parse_block is_dash alloc
parse_lines-written s =
    rw
      (parse_map-quoted s (escaped s ++ b'"' ∷ []) (scalar_text-written s 1 4)
        (parse_block (λ n. true) 63))
      refl

-- If the allocations succeed, a text without a NUL byte that is written between double quotes as
-- the value of the key k is read back, as long as the line has at most 8192 bytes.
pub suite_parse-written :
    (s : Bytes)
    → without 0 s ≡ true
    → length (escaped s) + 5 ≤ 8192
    → suite_parse (λ n. true) (written s) ≡ ok (map 1 (entry (b'k' ∷ []) 1 (scalar 1 s) no_entries))
unfolding suite_parse take_lines
suite_parse-written s clean short =
    let e = without-escaped 0 s (inr (inr (refl, clean))) in
    let n = without-escaped b'\n' s (inl refl) in
    let no_nul = nul_at-without 1 1 (written s) (without-append 0 (escaped s) (b'"' ∷ []) e refl) in
    let one_line =
      split_lines-without (written s) (without-append b'\n' (escaped s) (b'"' ∷ []) n refl) in
    rw (suite_parse, no_nul, one_line, take_line-written s short, one_line, parse_lines-written s)
      refl
