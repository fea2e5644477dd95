-- ===== src/Exec/Bench.antt =====
-- suite/exec.c: the percentiles and the histograms of a bench. Times are words of 64 bits.
pub mod Ranks
use resonance.Prelude.{
  ℕ, zero, suc, ◌+◌, ◌-◌, ◌*◌, ◌/◌, ◌%◌, ◌^◌, Bool, true, false, ◌&&◌, List, [], ◌∷◌, if◌then◌else◌,
  ltb, leb, ◌==◌, length, get_or,
}
use resonance.Prelude.Int.{ℤ, pos, negsuc}

-- The index that is read, of `n` samples, for a percentage of 1 up to 100.
unfoldable pub rank_index : (n pct : ℕ) → ℕ
rank_index n pct =
    let rank = ((pct * n) % 2 ^ 64 + 99) % 2 ^ 64 / 100 in
    let at_least = if rank == 0 then 1 else rank in
    let at_most = if ltb n at_least then n else at_least in at_most - 1

-- `sv` holds the sorted samples.
unfoldable pub bench_pct : List ℕ → ℤ → ℕ
bench_pct [] pct = 0
bench_pct (x ∷ sv) (negsuc p) = x
bench_pct (x ∷ sv) (pos zero) = x
bench_pct (x ∷ sv) (pos (suc p)) =
    let pct = if ltb 100 (suc p) then 100 else suc p in
    get_or (x ∷ sv) (rank_index (length (x ∷ sv)) pct) 0

abbrev pub hist_edges : List ℕ
hist_edges = 1 ∷ 2 ∷ 5 ∷ 10 ∷ 20 ∷ 50 ∷ 100 ∷ 200 ∷ 500 ∷ []

abbrev pub hist_us_edges : List ℕ
hist_us_edges = 100 ∷ 500 ∷ 1000 ∷ 5000 ∷ 10000 ∷ 20000 ∷ 50000 ∷ 100000 ∷ 500000 ∷ []

-- The tests from the first edge on.
abbrev pub first_edge : List ℕ → ℕ → ℕ
first_edge [] v = 0
first_edge (edge ∷ edges) v = let rest = first_edge edges v in if leb v edge then 0 else suc rest

unfoldable pub hist_bucket : ℕ → ℕ
hist_bucket ms = first_edge hist_edges ms

unfoldable pub hist_bucket_us : ℕ → ℕ
hist_bucket_us us = first_edge hist_us_edges us
