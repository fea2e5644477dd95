-- ===== src/Exec/Bench/Ranks.antt =====
-- What the percentiles and the histograms of suite/exec.c say of the samples.
use resonance.Prelude.{
  ℕ, zero, suc, ◌+◌, ◌-◌, ◌*◌, ◌/◌, ◌%◌, ◌^◌, ◌≤◌, ◌<◌, ◌≡◌, refl, ap, Bool, true, false, inl, inr,
  List, [], ◌∷◌, if◌then◌else◌, ltb, leb, ◌==◌, arith, Bool-cases, length, get_or,
}
use resonance.Prelude.Int.{pos}
use resonance.Exec.Bench.{
  rank_index, bench_pct, hist_edges, hist_us_edges, first_edge, hist_bucket, hist_bucket_us,
}

abbrev pub AtLeast : ℕ → List ℕ → Type 0
AtLeast v [] = Unit {0}
AtLeast v (x ∷ xs) = (v ≤ x) × AtLeast v xs

abbrev pub IsSorted : List ℕ → Type 0
IsSorted [] = Unit {0}
IsSorted (x ∷ xs) = AtLeast x xs × IsSorted xs

abbrev pub one_if : Bool → ℕ
one_if true = 1
one_if false = 0

-- How many samples are below a value, and how many are at most that.
abbrev pub count_below : ℕ → List ℕ → ℕ
count_below v [] = 0
count_below v (x ∷ xs) = one_if (ltb x v) + count_below v xs

abbrev pub count_upto : ℕ → List ℕ → ℕ
count_upto v [] = 0
count_upto v (x ∷ xs) = one_if (leb x v) + count_upto v xs

AtLeast-count : (v : ℕ) (xs : List ℕ) → AtLeast v xs → count_below v xs ≡ 0
AtLeast-count v [] h = refl
AtLeast-count v (x ∷ xs) h =
    let above : ltb x v ≡ false = ground (arith, h.0) in rw (above, AtLeast-count v xs h.1) refl

AtLeast-get : (v : ℕ) (xs : List ℕ) (i : ℕ) → AtLeast v xs → i < length xs → v ≤ get_or xs i 0
AtLeast-get v [] i h below = absurd (omega arith)
AtLeast-get v (x ∷ xs) zero h below = h.0
AtLeast-get v (x ∷ xs) (suc i) h below = AtLeast-get v xs i h.1 (omega (arith, below))

one_if-le : (b : Bool) → one_if b ≤ 1
one_if-le true = omega arith
one_if-le false = omega arith

get_or-count_below :
    (xs : List ℕ) (i : ℕ) → IsSorted xs → i < length xs → count_below (get_or xs i 0) xs ≤ i
get_or-count_below [] i h below = absurd (omega arith)
get_or-count_below (x ∷ xs) zero h below =
    let self : ltb x x ≡ false = ground arith in rw (self, AtLeast-count x xs h.0) (omega arith)
get_or-count_below (x ∷ xs) (suc i) h below =
    omega
      (arith, one_if-le (ltb x (get_or xs i 0)), get_or-count_below xs i h.1 (omega (arith, below)))

get_or-count_upto :
    (xs : List ℕ) (i : ℕ) → IsSorted xs → i < length xs → i + 1 ≤ count_upto (get_or xs i 0) xs
get_or-count_upto [] i h below = absurd (omega arith)
get_or-count_upto (x ∷ xs) zero h below =
    let self : leb x x ≡ true = ground arith in rw self (omega arith)
get_or-count_upto (x ∷ xs) (suc i) h below =
    let under : leb x (get_or xs i 0) ≡ true =
      ground (arith, AtLeast-get x xs i h.0 (omega (arith, below))) in
    rw under (omega (arith, get_or-count_upto xs i h.1 (omega (arith, below))))

-- The index of the nearest rank, with `m` for the product of percentage and number.
index_bounds :
    (n m : ℕ)
    → 1 ≤ m
    → m ≤ 100 * n
    → n < 2 ^ 50
    → let rank : ℕ = (m % 2 ^ 64 + 99) % 2 ^ 64 / 100 in
      let at_least : ℕ = if rank == 0 then 1 else rank in
      let index : ℕ = (if ltb n at_least then n else at_least) - 1 in
      (index * 100 < m) × (m ≤ (index + 1) * 100) × (index < n)
index_bounds n m some_m most small =
    let low : m % 2 ^ 64 ≡ m = omega (arith, most, small) in
    let whole : (m + 99) % 2 ^ 64 ≡ m + 99 = omega (arith, most, small) in
    rw (low, whole) (ground arith)

product_bounds : (p n : ℕ) → 1 ≤ p → p ≤ 100 → 1 ≤ n → (1 ≤ p * n) × (p * n ≤ 100 * n)
product_bounds p n low high some_n = grind arith

ranked :
    (sv : List ℕ) (p v : ℕ)
    → IsSorted sv
    → 1 ≤ length sv
    → length sv < 2 ^ 50
    → 1 ≤ p
    → p ≤ 100
    → v ≡ get_or sv (rank_index (length sv) p) 0
    → (count_below v sv * 100 < p * length sv) × (p * length sv ≤ count_upto v sv * 100)
unfolding rank_index
ranked sv p v sorted some_v small low high at =
    let (least, most) = product_bounds p (length sv) low high some_v in
    let index : ℕ = rank_index (length sv) p in
    let (below, upto, inside) = index_bounds (length sv) (p * length sv) least most small in
    rw at (
      omega (arith, below, get_or-count_below sv index sorted inside),
      omega (arith, upto, get_or-count_upto sv index sorted inside),
    )

bench_pct-rank_index :
    (x : ℕ) (sv : List ℕ) (p : ℕ)
    → 1 ≤ p
    → p ≤ 100
    → bench_pct (x ∷ sv) (pos p) ≡ get_or (x ∷ sv) (rank_index (length (x ∷ sv)) p) 0
unfolding bench_pct
bench_pct-rank_index x sv zero low high = absurd (omega (arith, low))
bench_pct-rank_index x sv (suc p) low high =
    let capped : ltb 100 (suc p) ≡ false = ground (arith, high) in
    ap (λ k. get_or (x ∷ sv) (rank_index (length (x ∷ sv)) k) 0) (rw capped refl)

-- For a percentage of 1 up to 100, of sorted samples fewer than 2 ^ 50, `bench_pct` is the nearest
-- rank: less than that share of the samples is below it, and at least that share is at most it.
pub bench_pct-ranked :
    (x : ℕ) (sv : List ℕ) (p : ℕ)
    → IsSorted (x ∷ sv)
    → length (x ∷ sv) < 2 ^ 50
    → 1 ≤ p
    → p ≤ 100
    → (count_below (bench_pct (x ∷ sv) (pos p)) (x ∷ sv) * 100 < p * length (x ∷ sv))
      × (p * length (x ∷ sv) ≤ count_upto (bench_pct (x ∷ sv) (pos p)) (x ∷ sv) * 100)
bench_pct-ranked x sv p sorted small low high =
    ranked (x ∷ sv) p _ sorted (omega arith) small low high (bench_pct-rank_index x sv p low high)

first_edge-count :
    (edges : List ℕ) (v : ℕ) → IsSorted edges → first_edge edges v ≡ count_below v edges
first_edge-count [] v h = refl
first_edge-count (e ∷ edges) v h = elim (Bool-cases (leb v e)) [
  | inl here ↦
      let above : AtLeast v edges = above_all edges e v h.0 (ground (arith, here)) in
      let self : ltb e v ≡ false = ground (arith, here) in
      rw (here, self, AtLeast-count v edges above) refl
  | inr later ↦
      let under : ltb e v ≡ true = ground (arith, later) in
      rw (later, under, first_edge-count edges v h.1) (omega arith)
]
  where
    above_all : (edges : List ℕ) (e v : ℕ) → AtLeast e edges → v ≤ e → AtLeast v edges
    above_all [] e v h le = tt
    above_all (a ∷ edges) e v h le = (omega (arith, h.0, le), above_all edges e v h.1 le)

-- A bucket is the number of the edges below the value, in milliseconds and in microseconds.
pub hist_buckets-count :
    (v : ℕ)
    → (hist_bucket v ≡ count_below v hist_edges) × (hist_bucket_us v ≡ count_below v hist_us_edges)
unfolding hist_bucket hist_bucket_us
hist_buckets-count v =
    (first_edge-count hist_edges v (omega arith), first_edge-count hist_us_edges v (omega arith))
