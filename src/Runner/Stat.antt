-- ===== src/Runner/Stat.antt =====
-- What run/run.c reads of /proc, and the samples that it takes of the children. A text is the
-- list of its bytes; `strtoull` and `strtol` are those of the C library in base 10, with `none` where
-- they find no number and leave the end at the start.
use resonance.Prelude.{
  ℕ, zero, suc, ◌+◌, ◌-◌, ◌*◌, ◌/◌, ◌%◌, ◌^◌, Bool, true, false, ◌&&◌, ◌||◌, not, Option, none,
  some, List, [], ◌∷◌, if◌then◌else◌, ltb, leb, ◌==◌, Run, ok, ◌>>=◌, u64_mod, size_max,
}
use resonance.Prelude.Int.{ℤ, pos, negsuc}
use resonance.Runner.{
  RunSample, Child, RunState, is_dead, keep_sample, page_fallback, run_sample_gap_ms,
}

abbrev pub Text : Type 0
Text = List ℕ

-- `isspace`.
abbrev pub is_space : ℕ → Bool
is_space c = c == 0x20 || leb 9 c && leb c 13

abbrev pub is_blank : ℕ → Bool
is_blank c = c == b' ' || c == b'\t'

abbrev pub is_digit : ℕ → Bool
is_digit c = leb b'0' c && leb c b'9'

-- `drop_while` and the loops over blanks and tokens.
abbrev pub skip : (ℕ → Bool) → Text → Text
skip test [] = []
skip test (c ∷ cs) = let rest = skip test cs in if test c then rest else c ∷ cs

-- The digits at the start, as a number behind those that make `n`, and what follows.
abbrev pub digits_value : ℕ → Text → ℕ × Text
digits_value n [] = (n, [])
digits_value n (c ∷ cs) =
    let more = digits_value (n * 10 + (c - b'0')) cs in if is_digit c then more else (n, c ∷ cs)

-- Whether there is a minus, the magnitude and what follows.
abbrev pub number : Text → Option (Bool × ℕ × Text)
number s = signed (skip is_space s)
  where
    unsigned : Bool → Text → Option (Bool × ℕ × Text)
    unsigned minus [] = none
    unsigned minus (c ∷ cs) =
        if is_digit c
        then some (minus, (digits_value 0 (c ∷ cs)).0, (digits_value 0 (c ∷ cs)).1)
        else none

    signed : Text → Option (Bool × ℕ × Text)
    signed [] = none
    signed (c ∷ cs) =
        if c == b'-'
        then unsigned true cs
        else if c == b'+'
        then unsigned false cs
        else unsigned false (c ∷ cs)

-- Out of range it is `ULLONG_MAX`; a minus negates modulo 2 ^ 64.
abbrev pub strtoull : Text → Option (ℕ × Text)
strtoull s = elim (number s) [ none ↦ none | some found ↦ some (value found.0 found.1, found.2) ]
  where
    value : Bool → ℕ → ℕ
    value minus n =
        if ltb size_max n then size_max else if minus then (u64_mod - n) % u64_mod else n

-- Out of range it is `LONG_MAX` or `LONG_MIN`. What is used of a negative number is that it is not
-- positive, and so it is 0.
abbrev pub strtol : Text → Option (ℕ × Text)
strtol s = elim (number s) [ none ↦ none | some found ↦ some (value found.0 found.1, found.2) ]
  where
    value : Bool → ℕ → ℕ
    value minus n = if minus then 0 else if ltb (2 ^ 63 - 1) n then 2 ^ 63 - 1 else n

pub record Stat : Type 0 where
  pub utime : ℕ
  pub stime : ℕ
  pub pages : ℕ

-- A token of the loop of `stat_fields`, with `todo` of the 22 behind it: token 12, 13 or 22, or
-- one that is passed over.
abbrev pub read_token : (todo : ℕ) → Stat → Text → Option (Stat × Text)
read_token todo st p =
    if todo == 0
    then elim (strtol p) [ none ↦ none | some read ↦ some (record st { pages = read.0 }, read.1) ]
    else if todo == 10
    then elim (strtoull p) [ none ↦ none | some read ↦ some (record st { utime = read.0 }, read.1) ]
    else if todo == 9
    then elim (strtoull p) [ none ↦ none | some read ↦ some (record st { stime = read.0 }, read.1) ]
    else some (st, skip (λ d. not (is_blank d)) p)

-- The loop, with `todo` tokens to go.
unfoldable pub stat_loop : (todo : ℕ) → Stat → Text → Option Stat
stat_loop zero st p = some st
stat_loop (suc todo) st p = elim (skip is_blank p) [
  | [] ↦ none
  | c ∷ cs ↦ elim (read_token todo st (c ∷ cs)) [
    | none ↦ none
    | some next ↦ stat_loop todo next.0 next.1
  ]
]

unfoldable pub stat_fields : Text → Option Stat
unfolding stat_loop
stat_fields s = stat_loop 22 (record { utime = 0; stime = 0; pages = 0 }) s

-- `strstr`: what follows the first occurrence of `key`.
abbrev pub behind : Text → Text → Option Text
behind key s = prefix key s
  where
    prefix : Text → Text → Option Text
    prefix [] s = some s
    prefix (k ∷ ks) [] = none
    prefix (k ∷ ks) (c ∷ cs) = let rest = prefix ks cs in if k == c then rest else none

unfoldable pub find_key : Text → Text → Option Text
find_key key [] = behind key []
find_key key (c ∷ cs) =
    let later = find_key key cs in
    elim (behind key (c ∷ cs)) [ some rest ↦ some rest | none ↦ later ]

abbrev pub io_field : Text → Text → ℕ
unfolding find_key
io_field key s = elim (find_key key s) [
  | none ↦ 0
  | some rest ↦ elim (strtoull rest) [ none ↦ 0 | some read ↦ read.0 ]
]

-- rchar and wchar.
unfoldable pub io_fields : Text → ℕ × ℕ
unfolding io_field
io_fields s = (
  io_field (b'r' ∷ b'c' ∷ b'h' ∷ b'a' ∷ b'r' ∷ b':' ∷ []) s,
  io_field (b'w' ∷ b'c' ∷ b'h' ∷ b'a' ∷ b'r' ∷ b':' ∷ []) s,
)

-- `strrchr`: what follows the last closing parenthesis.
abbrev pub behind_comm : Text → Option Text
behind_comm [] = none
behind_comm (c ∷ cs) = elim (behind_comm cs) [
  | some rest ↦ some rest
  | none ↦ if c == b')' then some cs else none
]

-- What is read of /proc/<pid>/stat and /proc/<pid>/io, if anything, and what sysconf says of the
-- size of a page, 0 if it fails.
module _ (stat io : ℕ → Option Text) (page_size : ℕ) where
  unfoldable pub snapshot : (pid now : ℕ) → Option RunSample
  unfolding stat_fields io_fields
  snapshot pid now = elim (stat pid) [
    | none ↦ none
    | some text ↦ elim (behind_comm text) [
      | none ↦ none
      | some fields ↦ elim (stat_fields fields) [
        | none ↦ none
        | some st ↦ some (record {
          pid = pid;
          utime = st.utime;
          stime = st.stime;
          rss_bytes = st.pages * (if page_size == 0 then page_fallback else page_size) % u64_mod;
          rchar = io_of.0;
          wchar = io_of.1;
          at = now / 1000;
          valid = true;
        })
      ]
    ]
  ]
    where
      io_of : ℕ × ℕ
      io_of = elim (io pid) [ none ↦ (0, 0) | some text ↦ io_fields text ]

  abbrev pub sample_pid : RunState → (now : ℕ) → Child → (pid : ℤ) → Run Child
  sample_pid r now c (negsuc p) = ok c
  sample_pid r now c (pos zero) = ok c
  sample_pid r now c (pos (suc p)) = elim (snapshot (suc p) now) [
    | none ↦ ok c
    | some s ↦ keep_sample r.has_store s c
  ]

  -- `sample_one` for the child at `i`.
  unfoldable pub sample_one : RunState → (i now : ℕ) → Child → Run Child
  sample_one r i now c = if is_dead r i then ok c else sample_pid r now c c.pid

  unfoldable pub sample_each : RunState → (i now : ℕ) → List Child → Run (List Child)
  unfolding sample_one
  sample_each r i now [] = ok []
  sample_each r i now (c ∷ cs) =
      let later = sample_each r (i + 1) now cs in
      sample_one r i now c >>= λ first. later >>= λ rest. ok (first ∷ rest)

  -- `now` is the reading of the clock in ms. The gate compares an unsigned difference.
  unfoldable pub sample_pass : RunState → (now : ℕ) → (force : Bool) → Run RunState
  unfolding sample_each
  sample_pass r now force =
      if not force
        && not (r.last_ms == 0)
        && ltb ((now + u64_mod - r.last_ms) % u64_mod) run_sample_gap_ms
      then ok r
      else sample_each r 0 now r.children >>= λ children.
          ok (record r { children = children; last_ms = now })

  unfoldable pub run_sample_tick : RunState → (now : ℕ) → Run RunState
  unfolding sample_pass
  run_sample_tick r now = sample_pass r now false
