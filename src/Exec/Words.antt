-- ===== src/Exec/Words.antt =====
-- suite/exec.c: the checks of words that reach a shell, a registry or a URL later on.
pub mod Shell
use resonance.Prelude.{
  codes, ℕ, suc, Bool, true, false, ◌&&◌, ◌||◌, not, Option, none, some, List, [], ◌∷◌,
  if◌then◌else◌, ltb, leb, ◌==◌, length,
}
use resonance.Suite.{Bytes, SuiteNode, same_bytes}
use resonance.Suite.Tree.{suite_scalar_str}

abbrev pub all_of : (ℕ → Bool) → Bytes → Bool
all_of ok [] = true
all_of ok (c ∷ s) = ok c && all_of ok s

abbrev pub is_letter : ℕ → Bool
is_letter c = (leb b'A' c && leb c b'Z') || (leb b'a' c && leb c b'z')

abbrev pub is_alnum : ℕ → Bool
is_alnum c = is_letter c || (leb b'0' c && leb c b'9')

abbrev pub image_char : ℕ → Bool
image_char c =
    is_alnum c
    || (c == b'_'
        || (c == b'.' || (c == b':' || (c == b'/' || (c == b'@' || (c == b'+' || c == b'-'))))))

unfoldable pub image_ok : Bytes → Bool
image_ok s = not (length s == 0) && all_of image_char s

abbrev pub word_char : (slash : Bool) → ℕ → Bool
word_char slash c = is_alnum c || (c == b'_' || (c == b'.' || (c == b'-' || (slash && c == b'/'))))

-- The word that is copied to a buffer of `m` bytes.
abbrev pub copied : (m : ℕ) (slash : Bool) → Option Bytes → Option Bytes
copied m slash none = none
copied m slash (some []) = none
copied m slash (some (c ∷ t)) =
    if all_of (word_char slash) (c ∷ t) && ltb (length (c ∷ t)) m then some (c ∷ t) else none

unfoldable pub push_word : Option SuiteNode → (m : ℕ) (slash : Bool) → Option Bytes
push_word n m slash = if m == 0 then none else copied m slash (suite_scalar_str n)

abbrev pub flag_char : ℕ → Bool
flag_char c =
    is_alnum c
    || (c == b'_'
        || (c == b'='
            || (c == b'.'
                || (c == b',' || (c == b' ' || (c == b'/' || (c == b'-' || c == b'%')))))))

unfoldable pub flags_ok : Bytes → Bool
flags_ok s = all_of flag_char s

-- `kWlLen`.
abbrev pub wl_len : ℕ
wl_len = 64

unfoldable pub wl_name_ok : Bytes → Bool
wl_name_ok s = not (length s == 0) && (ltb (length s) wl_len && all_of (word_char false) s)

abbrev pub topic_char : ℕ → Bool
topic_char c = is_alnum c || (c == b'_' || c == b'/')

-- A path that starts with a slash.
abbrev pub rooted : (ℕ → Bool) → Bytes → Bool
rooted ok [] = false
rooted ok (c ∷ s) = c == b'/' && all_of ok s

unfoldable pub topic_ok : Bytes → Bool
topic_ok s = rooted topic_char s

abbrev pub metric_first : ℕ → Bool
metric_first c = is_letter c || (c == b'_' || c == b':')

abbrev pub metric_char : ℕ → Bool
metric_char c = is_alnum c || (c == b'_' || c == b':')

unfoldable pub scrape_metric_ok : Bytes → Bool
scrape_metric_ok [] = false
scrape_metric_ok (c ∷ s) = metric_first c && (all_of metric_char s && ltb (length (c ∷ s)) 128)

unfoldable pub scrape_op_ok : Bytes → Bool
scrape_op_ok s =
    same_bytes s (codes "eq")
    || (same_bytes s (codes "ne")
        || (same_bytes s (codes "lt")
            || (same_bytes s (codes "le")
                || (same_bytes s (codes "gt") || same_bytes s (codes "ge")))))

abbrev pub path_char : ℕ → Bool
path_char c = is_alnum c || (c == b'/' || (c == b'.' || (c == b'-' || c == b'_')))

unfoldable pub scrape_path_ok : Bytes → Bool
scrape_path_ok s = rooted path_char s && ltb (length s) 128
