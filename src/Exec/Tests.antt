-- ===== src/Exec/Tests.antt =====
-- The theorems on templates, escapes and percentiles at small inputs.
use resonance.Prelude.{
  codes, ℕ, ◌+◌, ◌*◌, ◌≤◌, ◌<◌, ◌≡◌, refl, true, false, ◌⊎◌, none, some, List, [], ◌∷◌,
  if◌then◌else◌, leb, arith, length,
}
use resonance.Prelude.Int.{pos}
use resonance.Suite.{Bytes, scalar}
use resonance.Suite.Tree.{suite_scalar_str}
use resonance.Exec.Words.{
  image_ok, flags_ok, wl_name_ok, topic_ok, scrape_metric_ok, scrape_op_ok, scrape_path_ok,
  push_word,
}
use resonance.Exec.Words.Shell.{flags, barred, passes, Plain, passes-Plain}
use resonance.Exec.Templates.{scan, fine, bad_shape, unknown, ph_ok, Values, tpl_expand}
use resonance.Exec.Templates.Filled.{Expands, tpl_expand-Expands}
use resonance.Exec.Json.{escaped, escape_from, json_escape}
use resonance.Exec.Json.Read.{IsEscaped, json_escape-IsEscaped}
use resonance.Exec.Bench.{rank_index, bench_pct, hist_bucket, hist_bucket_us}
use resonance.Exec.Bench.Ranks.{count_below, count_upto, bench_pct-ranked}

abbrev template : Bytes
template = codes "n={{seq}} {{body}}"

abbrev values : Values
values = record { seq = 12; send_ns = 99; body = codes "hello"; wid = codes "w" }

ph_ok-template : ph_ok false (length template) template ≡ fine
unfolding ph_ok scan
ph_ok-template = refl

tpl_expand-template : tpl_expand values 64 (length template) 0 template ≡ some (codes "n=12 hello")
unfolding tpl_expand scan
tpl_expand-template = refl

tpl_expand_full : tpl_expand values 10 (length template) 0 template ≡ none
unfolding tpl_expand scan
tpl_expand_full = refl

ph_ok_unknown : ph_ok true 9 (codes "{{sequ}}") ≡ unknown (codes "sequ")
unfolding ph_ok scan
ph_ok_unknown = refl

ph_ok_open : ph_ok true 9 (codes "{{seq}") ≡ bad_shape
unfolding ph_ok scan
ph_ok_open = refl

tpl_expand-Expands_example :
    (t : Bytes) × Expands values template t
    × (tpl_expand values 64 (length template) 0 template
        ≡ (if leb (length t + 1) 64 then some t else none))
tpl_expand-Expands_example = tpl_expand-Expands false template values 64 ph_ok-template

json_escape_run : json_escape (some (codes "a\"b\n")) 16 ≡ some (codes "a\\\"b\\n")
unfolding json_escape escape_from escaped
json_escape_run = refl

json_escape-IsEscaped_example :
    ((◌≡◌ {A = ℕ} 4 0) × (json_escape (some (codes "a\"b")) 4 ≡ none))
    ⊎ ((dst : Bytes) × (json_escape (some (codes "a\"b")) 4 ≡ some dst)
        × IsEscaped 4 0 (codes "a\"b") dst)
json_escape-IsEscaped_example = json_escape-IsEscaped (codes "a\"b") 4

abbrev samples : List ℕ
samples = 7 ∷ 7 ∷ 9 ∷ []

bench_pct_run : bench_pct (3 ∷ samples) (pos 50) ≡ 7
unfolding bench_pct rank_index
bench_pct_run = refl

bench_pct-ranked_example :
    (count_below (bench_pct (3 ∷ samples) (pos 50)) (3 ∷ samples) * 100 < 50 * 4)
    × (50 * 4 ≤ count_upto (bench_pct (3 ∷ samples) (pos 50)) (3 ∷ samples) * 100)
bench_pct-ranked_example =
    bench_pct-ranked 3 samples 50 (omega arith) (omega arith) (omega arith) (omega arith)

hist_bucket_runs : (hist_bucket 30 ≡ 5) × (hist_bucket 501 ≡ 9) × (hist_bucket_us 30 ≡ 0)
unfolding hist_bucket hist_bucket_us
hist_bucket_runs = (refl, refl, refl)

flags_passed : passes flags (codes "-m %host, a=b") ≡ true
unfolding flags_ok
flags_passed = refl

passes-Plain_example : Plain (barred flags) (codes "-m %host, a=b")
passes-Plain_example = passes-Plain flags (codes "-m %host, a=b") flags_passed

words_refused :
    (image_ok (codes "a;b") ≡ false)
    × (wl_name_ok (codes "a/b") ≡ false)
    × (topic_ok (codes "a") ≡ false)
    × (scrape_metric_ok (codes "9a") ≡ false)
    × (scrape_op_ok (codes "eq") ≡ true)
    × (scrape_path_ok (codes "/a?") ≡ false)
unfolding image_ok wl_name_ok topic_ok scrape_metric_ok scrape_op_ok scrape_path_ok
words_refused = (refl, refl, refl, refl, refl, refl)

push_word_run : push_word (some (scalar 1 (codes "v1.2"))) 32 false ≡ some (codes "v1.2")
unfolding push_word suite_scalar_str
push_word_run = refl
