-- ===== src/Exec/Json/Read.antt =====
-- What a reader of JSON makes of the output of `json_escape` of suite/exec.c.
use resonance.Prelude.{
  ℕ, zero, suc, ◌+◌, ◌*◌, ◌/◌, ◌%◌, ◌≤◌, ◌<◌, ◌≡◌, ◌≢◌, refl, ap, ◌⊎◌, inl, inr, none, some, [],
  ◌∷◌, ◌++◌, ltb, leb, ◌==◌, ==_iff, arith, Bool-cases, length, length-append, take, get_or,
}
use resonance.Suite.{Bytes}
use resonance.Exec.Json.{hex, escaped, escape_from, json_escape}

-- The characters of a string of JSON below 256, and what they stand for.
pub data JsonChar : Bytes → ℕ → Type 0 where
  quote : JsonChar (b'\\' ∷ b'"' ∷ []) b'"'
  backslash : JsonChar (b'\\' ∷ b'\\' ∷ []) b'\\'
  newline : JsonChar (b'\\' ∷ b'n' ∷ []) b'\n'
  return : JsonChar (b'\\' ∷ b'r' ∷ []) b'\r'
  tab : JsonChar (b'\\' ∷ b't' ∷ []) b'\t'
  code :
      (a b : ℕ)
      → a < 16
      → b < 16
      → JsonChar (b'\\' ∷ b'u' ∷ b'0' ∷ b'0' ∷ hex a ∷ hex b ∷ []) (a * 16 + b)
  raw : (c : ℕ) → 32 ≤ c → c ≢ b'"' → c ≢ b'\\' → JsonChar (c ∷ []) c

pub data JsonText : Bytes → Bytes → Type 0 where
  nil : JsonText [] []
  char : {u s t : Bytes} {c : ℕ} → JsonChar u c → JsonText s t → JsonText (u ++ s) (c ∷ t)

escaped-JsonChar : (c : ℕ) → JsonChar (escaped c) c
unfolding escaped
escaped-JsonChar c = elim (Bool-cases (c == b'"')) [
  | inl is ↦ let at : c ≡ b'"' = (==_iff c b'"').0 is in rw at quote
  | inr no_quote ↦ elim (Bool-cases (c == b'\\')) [
    | inl is ↦ let at : c ≡ b'\\' = (==_iff c b'\\').0 is in rw at backslash
    | inr no_slash ↦ elim (Bool-cases (c == b'\n')) [
      | inl is ↦ let at : c ≡ b'\n' = (==_iff c b'\n').0 is in rw at newline
      | inr no_newline ↦ elim (Bool-cases (c == b'\r')) [
        | inl is ↦ let at : c ≡ b'\r' = (==_iff c b'\r').0 is in rw at return
        | inr no_return ↦ elim (Bool-cases (c == b'\t')) [
          | inl is ↦ let at : c ≡ b'\t' = (==_iff c b'\t').0 is in rw at tab
          | inr no_tab ↦ elim (Bool-cases (ltb c 32)) [
            | inl control ↦
                let whole : c / 16 * 16 + c % 16 ≡ c = omega arith in
                let low : c / 16 < 16 = ground (arith, control) in
                let char : JsonChar _ c = rw whole at (code (c / 16) (c % 16) low (omega arith)) in
                rw (no_quote, no_slash, no_newline, no_return, no_tab, control) char
            | inr printed ↦
                rw (no_quote, no_slash, no_newline, no_return, no_tab, printed)
                  (raw c (ground (arith, printed)) (λ e. ground (arith, no_quote, e))
                    (λ e. ground (arith, no_slash, e)))
          ]
        ]
      ]
    ]
  ]
]

-- From offset `o` on: `k` bytes of the source are written, all of them or up to the first whose
-- character does not fit.
pub record IsEscaped (n o : ℕ) (src dst : Bytes) : Type 0 where
  pub count : ℕ
  pub some_of : count ≤ length src
  pub reads : JsonText dst (take count src)
  pub fits : o + length dst < n
  pub last :
      (count ≡ length src)
      ⊎ ((count < length src) × (n ≤ o + length dst + length (escaped (get_or src count 0))))

escape_from-IsEscaped : (n o : ℕ) (src : Bytes) → o < n → IsEscaped n o src (escape_from n o src)
unfolding escape_from
escape_from-IsEscaped n o [] h = record {
  count = 0;
  some_of = omega arith;
  reads = nil;
  fits = omega (arith, h);
  last = inl refl;
}
escape_from-IsEscaped n o (c ∷ src) h = elim (Bool-cases (leb n (o + length (escaped c)))) [
  | inl full ↦ rw full (stopped (ground (arith, full)))
  | inr room ↦
      let more : o + length (escaped c) < n = ground (arith, room) in
      rw room (wrote (escape_from-IsEscaped n (o + length (escaped c)) src more))
]
  where
    stopped : n ≤ o + length (escaped c) → IsEscaped n o (c ∷ src) []
    stopped full = record {
      count = 0;
      some_of = omega arith;
      reads = nil;
      fits = omega (arith, h);
      last = inr (omega arith, omega (arith, full));
    }

    wrote :
        {dst : Bytes}
        → IsEscaped n (o + length (escaped c)) src dst
        → IsEscaped n o (c ∷ src) (escaped c ++ dst)
    wrote {dst} e = record {
      count = suc e.count;
      some_of = omega (arith, e.some_of);
      reads = char (escaped-JsonChar c) e.reads;
      fits = omega (arith, length-append (escaped c) dst, e.fits);
      last = elim e.last [
        | inl all ↦ inl (ap suc all)
        | inr (short, full) ↦
            inr (omega (arith, short), omega (arith, length-append (escaped c) dst, full))
      ];
    }

-- `json_escape` leaves a buffer of no bytes alone; else it writes a string of JSON that fits with
-- its NUL and stands for the first bytes of the text, for all of them or up to the first whose
-- character does not fit.
pub json_escape-IsEscaped :
    (src : Bytes) (n : ℕ)
    → ((n ≡ 0) × (json_escape (some src) n ≡ none))
      ⊎ ((dst : Bytes) × (json_escape (some src) n ≡ some dst) × IsEscaped n 0 src dst)
unfolding json_escape
json_escape-IsEscaped src zero = inl (refl, refl)
json_escape-IsEscaped src (suc n) =
    inr (escape_from (suc n) 0 src, refl, escape_from-IsEscaped (suc n) 0 src (omega arith))
