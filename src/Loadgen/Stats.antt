-- ===== src/Loadgen/Stats.antt =====
-- What the load generator prints of a replay (crates/loadgen/src/main.rs).
use dynamo_router.Base.{
  ℕ, ◌+◌, ◌-◌, ◌*◌, ◌/◌, ◌%◌, ◌^◌, Bool, Option, none, some, List, [], ◌∷◌, ◌++◌, map, ltb,
  if◌then◌else◌, length, get_elem?, ◌>>=◌,
}
use dynamo_router.Float.Integer.{ℤ, pos, negsuc, ◌+ℤ◌, lt_ℤ, ◌*ℤ◌}
use dynamo_router.Sorting.{sort}
use dynamo_router.Loadgen.{RequestResult, ConvOutcome}

-- The results of all conversations, and the counts.
pub record Totals : Type 0 where
  pub all : List RequestResult
  pub failed_requests : ℕ
  pub abandoned_conversations : ℕ

unfoldable pub tally_loop : List ConvOutcome → Totals → Totals
tally_loop [] t = t
tally_loop (o ∷ outcomes) t = tally_loop outcomes (record {
  all = t.all ++ o.results;
  failed_requests = if o.failed then t.failed_requests + 1 else t.failed_requests;
  abandoned_conversations =
      if o.failed then t.abandoned_conversations + 1 else t.abandoned_conversations;
})

-- What an i64 holds, and the i64 that has the same low 64 bits.
unfoldable pub in_i64 : ℤ → Bool
in_i64 (pos n) = ltb n (2 ^ 63)
in_i64 (negsuc n) = ltb n (2 ^ 63)

unfoldable pub wrap_i64 : ℤ → ℤ
wrap_i64 (pos n) =
    if ltb (n % 2 ^ 64) (2 ^ 63) then pos (n % 2 ^ 64) else negsuc (2 ^ 64 - 1 - n % 2 ^ 64)
wrap_i64 (negsuc n) =
    if ltb (n % 2 ^ 64) (2 ^ 63) then negsuc (n % 2 ^ 64) else pos (2 ^ 64 - 1 - n % 2 ^ 64)

-- `+` on i64. With `checked`, the overflow checks of a debug build, a sum out of range is a panic,
-- `none`; without them it wraps.
unfoldable pub add_i64 : Bool → ℤ → ℤ → Option ℤ
unfolding in_i64 wrap_i64
add_i64 checked a b =
    if in_i64 (a +ℤ b) then some (a +ℤ b) else if checked then none else some (wrap_i64 (a +ℤ b))

-- `Iterator::sum`, from the left.
unfoldable pub sum_from : Bool → ℤ → List ℤ → Option ℤ
unfolding add_i64
sum_from checked acc [] = some acc
sum_from checked acc (x ∷ xs) = do s ← add_i64 checked acc x; sum_from checked s xs

unfoldable pub sum_i64 : Bool → List ℤ → Option ℤ
unfolding sum_from
sum_i64 checked xs = sum_from checked (pos 0) xs

-- `((sorted_ms.len() as f64 - 1.0) * p).round() as usize` for `p` of so many percent, halves up: below
-- 2 ^ 52 samples the f64 product is nearer to the exact one than any other multiple of 1 / 200.
unfoldable pub rank : ℕ → ℕ → ℕ
rank len percent = (2 * (len - 1) * percent + 100) / 200

unfoldable pub percentile : List ℕ → ℕ → Option ℕ
unfolding rank
percentile [] percent = some 0
percentile (x ∷ xs) percent = get_elem? (x ∷ xs) (rank (length (x ∷ xs)) percent)

-- The hit rate `100.0 * cached as f64 / total as f64`, as a fraction.
unfoldable pub hit_rate : ℤ → ℤ → ℤ × ℤ
hit_rate cached total = if lt_ℤ (pos 0) total then (pos 100 *ℤ cached, total) else (pos 0, pos 1)

pub record Report : Type 0 where
  pub requests : ℕ
  pub p50 : ℕ
  pub p99 : ℕ
  pub rate : ℤ × ℤ
  pub cached : ℤ
  pub total : ℤ
  pub failed_requests : ℕ
  pub abandoned_conversations : ℕ

abbrev pub no_totals : Totals
no_totals = record { all = []; failed_requests = 0; abandoned_conversations = 0 }

-- What is printed of the results, with the two percentiles and the two sums.
unfoldable pub summary : Totals → ℤ → ℤ → ℕ → ℕ → Report
unfolding hit_rate
summary t cached total p50 p99 = record {
  requests = length t.all;
  p50 = p50;
  p99 = p99;
  rate = hit_rate cached total;
  cached = cached;
  total = total;
  failed_requests = t.failed_requests;
  abandoned_conversations = t.abandoned_conversations;
}

-- `main` from the loop over the handles on, in a build with overflow checks or without; `none` is a
-- panic.
unfoldable pub report : Bool → List ConvOutcome → Option Report
unfolding tally_loop sort sum_i64 percentile summary
report checked outcomes = do
  let t = tally_loop outcomes no_totals
  -- `latencies.sort_by(|a, b| a.partial_cmp(b).unwrap())`
  let latencies = sort (map (λ r. r.latency_ms) t.all)
  cached ← sum_i64 checked (map (λ r. r.cached_blocks) t.all)
  total ← sum_i64 checked (map (λ r. r.total_blocks) t.all)
  p50 ← percentile latencies 50
  p99 ← percentile latencies 99
  some (summary t cached total p50 p99)
