-- ===== src/Exec/Words/Shell.antt =====
-- No word that suite/exec.c passes means more to a shell than itself.
use resonance.Prelude.{
  codes, ℕ, ◌<◌, ◌≡◌, refl, Bool, true, false, ◌&&◌, ◌||◌, not, inl, inr, Option, none, some, [],
  ◌∷◌, ltb, ◌==◌, ==_iff, arith, Bool-cases, ltb→lt, sym, length,
}
use resonance.Suite.{Bytes, SuiteNode}
use resonance.Suite.Tree.{suite_scalar_str}
use resonance.Nemesis.Valid.Submits.{&&-both}
use resonance.Exec.Words.{
  all_of, image_char, image_ok, word_char, copied, push_word, flag_char, flags_ok, wl_name_ok,
  topic_char, rooted, topic_ok, metric_first, metric_char, scrape_metric_ok, path_char,
  scrape_path_ok,
}

-- The bytes by which a shell ends a command, quotes, expands, redirects or comments, and the tab.
abbrev pub specials : Bytes
specials = codes "\t\n\"#$&'()*;<>?[\\]^`{|}~!"

abbrev among : Bytes → ℕ → Bool
among [] c = false
among (m ∷ ms) c = m == c || among ms c

-- No byte is among the barred ones.
abbrev pub Plain : (barred : Bytes) → Bytes → Type 0
Plain barred [] = Unit {0}
Plain barred (c ∷ s) = (among barred c ≡ false) × Plain barred s

-- What is barred from one word: the space, which would end it, as well.
abbrev pub word_specials : Bytes
word_specials = b' ' ∷ specials

-- A word may hold no more bytes than these, and flags a space besides.
abbrev wide : ℕ → Bool
wide c =
    word_char true c
    || (c == b':' || (c == b'@' || (c == b'+' || (c == b'=' || (c == b',' || c == b'%')))))

wide-plain : (c : ℕ) → wide c ≡ true → among word_specials c ≡ false
wide-plain c e = ground arith

flag-plain : (c : ℕ) → flag_char c ≡ true → among specials c ≡ false
flag-plain c e = ground arith

all_of-Plain :
    (barred : Bytes) (ok : ℕ → Bool) (s : Bytes)
    → ((c : ℕ) → ok c ≡ true → among barred c ≡ false)
    → all_of ok s ≡ true
    → Plain barred s
all_of-Plain barred ok [] narrow e = tt
all_of-Plain barred ok (c ∷ s) narrow e =
    let (here, rest) = &&-both (ok c) (all_of ok s) e in
    (narrow c here, all_of-Plain barred ok s narrow rest)

word-Plain :
    (ok : ℕ → Bool) (s : Bytes)
    → ((c : ℕ) → ok c ≡ true → wide c ≡ true)
    → all_of ok s ≡ true
    → Plain word_specials s
word-Plain ok s narrow e = all_of-Plain word_specials ok s (λ c h. wide-plain c (narrow c h)) e

rooted-Plain :
    (ok : ℕ → Bool) (s : Bytes)
    → ((c : ℕ) → ok c ≡ true → wide c ≡ true)
    → rooted ok s ≡ true
    → Plain word_specials s
rooted-Plain ok [] narrow e = cc
rooted-Plain ok (c ∷ s) narrow e =
    let (slash, rest) = &&-both (c == b'/') (all_of ok s) e in
    let at : c ≡ b'/' = (==_iff c b'/').0 slash in (rw at refl, word-Plain ok s narrow rest)

image_ok-Plain : (s : Bytes) → image_ok s ≡ true → Plain word_specials s
unfolding image_ok
image_ok-Plain s e =
    let (some_byte, all) = &&-both (not (length s == 0)) _ e in
    word-Plain image_char s (λ c h. ground (arith, h)) all

flags_ok-Plain : (s : Bytes) → flags_ok s ≡ true → Plain specials s
unfolding flags_ok
flags_ok-Plain s e = all_of-Plain specials flag_char s flag-plain e

word-wide : (slash : Bool) (c : ℕ) → word_char slash c ≡ true → wide c ≡ true
word-wide true c h = ground (arith, h)
word-wide false c h = ground (arith, h)

wl_name_ok-Plain : (s : Bytes) → wl_name_ok s ≡ true → Plain word_specials s
unfolding wl_name_ok
wl_name_ok-Plain s e =
    let (some_byte, rest) = &&-both (not (length s == 0)) _ e in
    let (short, all) = &&-both (ltb (length s) 64) _ rest in
    word-Plain (word_char false) s (word-wide false) all

topic_ok-Plain : (s : Bytes) → topic_ok s ≡ true → Plain word_specials s
unfolding topic_ok
topic_ok-Plain s e = rooted-Plain topic_char s (λ c h. ground (arith, h)) e

scrape_metric_ok-Plain : (s : Bytes) → scrape_metric_ok s ≡ true → Plain word_specials s
unfolding scrape_metric_ok
scrape_metric_ok-Plain [] e = cc
scrape_metric_ok-Plain (c ∷ s) e =
    let (first, rest) = &&-both (metric_first c) _ e in
    let (all, short) = &&-both (all_of metric_char s) _ rest in
    let wide_first : wide c ≡ true = ground (arith, first) in
    (wide-plain c wide_first, word-Plain metric_char s (λ d h. ground (arith, h)) all)

scrape_path_ok-Plain : (s : Bytes) → scrape_path_ok s ≡ true → Plain word_specials s
unfolding scrape_path_ok
scrape_path_ok-Plain s e =
    let (all, short) = &&-both (rooted path_char s) _ e in
    rooted-Plain path_char s (λ c h. ground (arith, h)) all

copied-Plain :
    (m : ℕ) (slash : Bool) (o : Option Bytes) (t : Bytes)
    → copied m slash o ≡ some t
    → Plain word_specials t × (length t < m)
copied-Plain m slash none t e = cc
copied-Plain m slash (some []) t e = cc
copied-Plain m slash (some (c ∷ s)) t e =
    elim (Bool-cases (all_of (word_char slash) (c ∷ s) && ltb (length (c ∷ s)) m)) [
      | inl good ↦
          let same : c ∷ s ≡ t = cc (rw good at e) in
          let (all, short) = &&-both (all_of (word_char slash) (c ∷ s)) _ good in
          rw (sym same)
            (word-Plain (word_char slash) (c ∷ s) (word-wide slash) all, ltb→lt _ m short)
      | inr bad ↦ cc (rw bad at e)
    ]

-- A word that is pushed holds none either, and fits its buffer.
pub push_word-Plain :
    (n : Option SuiteNode) (m : ℕ) (slash : Bool) (t : Bytes)
    → push_word n m slash ≡ some t
    → Plain word_specials t × (length t < m)
unfolding push_word
push_word-Plain n m slash t e = elim (Bool-cases (m == 0)) [
  | inl empty ↦ cc (rw empty at e)
  | inr room ↦ copied-Plain m slash (suite_scalar_str n) t (rw room at e)
]

-- The checks of words that return a Boolean.
pub data Check : Type 0 where
  image flags workload topic metric path : Check

abbrev pub passes : Check → Bytes → Bool
passes image s = image_ok s
passes flags s = flags_ok s
passes workload s = wl_name_ok s
passes topic s = topic_ok s
passes metric s = scrape_metric_ok s
passes path s = scrape_path_ok s

-- What a check bars: flags are words with spaces between them, the others one word.
abbrev pub barred : Check → Bytes
barred flags = specials
barred image = word_specials
barred workload = word_specials
barred topic = word_specials
barred metric = word_specials
barred path = word_specials

-- An image, the name of a workload, a topic, a metric or a path that is passed holds no space and no
-- byte that is special to a shell; flags that are passed hold no such byte but spaces.
pub passes-Plain : (check : Check) (s : Bytes) → passes check s ≡ true → Plain (barred check) s
passes-Plain image s e = image_ok-Plain s e
passes-Plain flags s e = flags_ok-Plain s e
passes-Plain workload s e = wl_name_ok-Plain s e
passes-Plain topic s e = topic_ok-Plain s e
passes-Plain metric s e = scrape_metric_ok-Plain s e
passes-Plain path s e = scrape_path_ok-Plain s e
