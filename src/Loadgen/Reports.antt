-- ===== src/Loadgen/Reports.antt =====
-- What the load generator prints (crates/loadgen/src/main.rs), whatever the replies.
use dynamo_router.Base.{
  ℕ, zero, suc, ◌+◌, ◌*◌, ◌^◌, ◌≤◌, ◌<◌, ◌≡◌, refl, sym, ap, ◌∙◌, subst, inl, inr, Bool, true,
  false, some, List, [], ◌∷◌, ◌++◌, map, arith, leb, if◌then◌else◌, lt→ltb, Bool-cases, length, All,
  get_elem?_of_lt,
}
use dynamo_router.Float.Integer.{ℤ, pos, negsuc, pos_part, neg_part, sub_ℕ, ◌+ℤ◌, ◌*ℤ◌}
use dynamo_router.Task.Trace.{append_nil, append_assoc}
use dynamo_router.Loadgen.{RequestResult, ConvOutcome}
use dynamo_router.Loadgen.Stats.{
  Totals, tally_loop, in_i64, add_i64, sum_from, sum_i64, percentile, rank, hit_rate, Report,
  no_totals, summary, report,
}
use dynamo_router.Sorting.{sort, IsSorted, sort-IsSorted}
use dynamo_router.Loadgen.Ranks.{sorted_mono, rank-lt}

-- The results of all conversations, and how many of these failed.
abbrev pub all_results : List ConvOutcome → List RequestResult
all_results [] = []
all_results (o ∷ outcomes) = o.results ++ all_results outcomes

abbrev pub failures : List ConvOutcome → ℕ
failures [] = 0
failures (o ∷ outcomes) = (if o.failed then 1 else 0) + failures outcomes

tally_loop-all :
    (outcomes : List ConvOutcome) (t : Totals)
    → (tally_loop outcomes t).all ≡ t.all ++ all_results outcomes
unfolding tally_loop
tally_loop-all [] t = sym (append_nil t.all)
tally_loop-all (o ∷ outcomes) t =
    tally_loop-all outcomes _ ∙ append_assoc t.all o.results (all_results outcomes)

one_failure :
    (failed : Bool) (m n : ℕ)
    → (if failed then m + 1 else m) + n ≡ m + ((if failed then 1 else 0) + n)
one_failure true m n = omega arith
one_failure false m n = omega arith

tally_loop-failures :
    (outcomes : List ConvOutcome) (t : Totals)
    → ((tally_loop outcomes t).failed_requests ≡ t.failed_requests + failures outcomes)
      × ((tally_loop outcomes t).abandoned_conversations
          ≡ t.abandoned_conversations + failures outcomes)
unfolding tally_loop
tally_loop-failures [] t = (omega arith, omega arith)
tally_loop-failures (o ∷ outcomes) t =
    let (a, b) = tally_loop-failures outcomes (record {
      all = t.all ++ o.results;
      failed_requests = if o.failed then t.failed_requests + 1 else t.failed_requests;
      abandoned_conversations =
          if o.failed then t.abandoned_conversations + 1 else t.abandoned_conversations;
    }) in
    (a ∙ one_failure o.failed _ _, b ∙ one_failure o.failed _ _)

-- The counts of a reply that a replica can have sent.
pub record IsCounted (r : RequestResult) : Type 0 where
  pub c : ℕ
  pub t : ℕ
  pub cached : r.cached_blocks ≡ pos c
  pub total : r.total_blocks ≡ pos t
  pub within : c ≤ t

sub_zero : (a b : ℕ) → b ≡ 0 → sub_ℕ a b ≡ pos a
sub_zero a b e = elim (Bool-cases (leb b a)) [
  | inl le ↦ rw le (ap pos (omega arith))
  | inr gt ↦ absurd (ground arith)
]

pos_add : (a b : ℕ) → pos a +ℤ pos b ≡ pos (a + b)
pos_add a b = sub_zero (a + b) (0 + 0) refl

pos_hundred : (c : ℕ) → pos 100 *ℤ pos c ≡ pos (100 * c)
pos_hundred c = sub_zero (100 * c + 0) (0 + 0 * c) (omega arith) ∙ ap pos (omega arith)

-- The sum as an integer, and that of what the numbers are without their signs.
abbrev pub sum_ℤ : List ℤ → ℤ
sum_ℤ [] = pos 0
sum_ℤ (x ∷ xs) = x +ℤ sum_ℤ xs

abbrev size : ℤ → ℕ
size x = pos_part x + neg_part x

abbrev pub sizes : List ℤ → ℕ
sizes [] = 0
sizes (x ∷ xs) = size x + sizes xs

small_fits : (x : ℤ) → size x < 2 ^ 63 → in_i64 x ≡ true
unfolding in_i64
small_fits (pos n) h = ground arith
small_fits (negsuc n) h = ground arith

size_add : (a b : ℤ) → size (a +ℤ b) ≤ size a + size b
size_add a b = ground arith

add_assoc_ℤ : (a b c : ℤ) → a +ℤ b +ℤ c ≡ a +ℤ (b +ℤ c)
add_assoc_ℤ a b c = ground arith

add_zero_ℤ : (a : ℤ) → a +ℤ pos 0 ≡ a
add_zero_ℤ a = ground arith

zero_add_ℤ : (a : ℤ) → pos 0 +ℤ a ≡ a
zero_add_ℤ a = ground arith

-- While no sum can leave the range, the sum is that of the integers, in either build.
sum_from-sum_ℤ :
    (checked : Bool) (acc : ℤ) (xs : List ℤ)
    → size acc + sizes xs < 2 ^ 63
    → sum_from checked acc xs ≡ some (acc +ℤ sum_ℤ xs)
unfolding sum_from add_i64
sum_from-sum_ℤ checked acc [] h = ap some (sym (add_zero_ℤ acc))
sum_from-sum_ℤ checked acc (x ∷ xs) h =
    let fits = small_fits (acc +ℤ x) (omega (arith, size_add acc x)) in
    rw fits (
      sum_from-sum_ℤ checked (acc +ℤ x) xs (omega (arith, size_add acc x))
      ∙ ap some (add_assoc_ℤ acc x (sum_ℤ xs)))

sum_i64-sum_ℤ :
    (checked : Bool) (xs : List ℤ) → sizes xs < 2 ^ 63 → sum_i64 checked xs ≡ some (sum_ℤ xs)
unfolding sum_i64
sum_i64-sum_ℤ checked xs h =
    sum_from-sum_ℤ checked (pos 0) xs (omega (arith, h)) ∙ ap some (zero_add_ℤ (sum_ℤ xs))

record Sums (rs : List RequestResult) : Type 0 where
  pub c : ℕ
  pub t : ℕ
  pub cached : sum_ℤ (map (λ r. r.cached_blocks) rs) ≡ pos c
  pub total : sum_ℤ (map (λ r. r.total_blocks) rs) ≡ pos t
  pub within : c ≤ t

counted-Sums : (rs : List RequestResult) → All IsCounted rs → Sums rs
counted-Sums [] all = record { c = 0; t = 0; cached = refl; total = refl; within = omega arith }
counted-Sums (r ∷ rs) (one, all) =
    let rest = counted-Sums rs all in
    record {
      c = one.c + rest.c;
      t = one.t + rest.t;
      cached = rw (one.cached, rest.cached) (pos_add one.c rest.c);
      total = rw (one.total, rest.total) (pos_add one.t rest.t);
      within = omega (arith, one.within, rest.within);
    }

-- A fraction between 0 and 100.
abbrev pub IsPercentage : ℤ × ℤ → Type 0
IsPercentage rate = (a : ℕ) × (b : ℕ) × (rate ≡ (pos a, pos b)) × (1 ≤ b) × (a ≤ 100 * b)

hit_rate-IsPercentage : (c t : ℕ) → c ≤ t → IsPercentage (hit_rate (pos c) (pos t))
unfolding hit_rate
hit_rate-IsPercentage c zero le = (0, 1, refl, omega arith, omega arith)
hit_rate-IsPercentage c (suc t) le = (
  100 * c,
  suc t,
  rw (lt→ltb 0 (suc t + 0) (omega arith)) (ap (λ a. (a, pos (suc t))) (pos_hundred c)),
  omega arith,
  omega arith,
)

pub record Reported (outcomes : List ConvOutcome) (rep : Report) : Type 0 where
  pub requests : rep.requests ≡ length (all_results outcomes)
  pub failed : rep.failed_requests ≡ failures outcomes
  pub abandoned : rep.abandoned_conversations ≡ failures outcomes
  pub ordered : rep.p50 ≤ rep.p99
  pub cached : rep.cached ≡ sum_ℤ (map (λ r. r.cached_blocks) (all_results outcomes))
  pub total : rep.total ≡ sum_ℤ (map (λ r. r.total_blocks) (all_results outcomes))
  pub rate : All IsCounted (all_results outcomes) → IsPercentage rep.rate

ranks_le : (len : ℕ) → rank len 50 ≤ rank len 99
unfolding rank
ranks_le len = omega arith

two_percentiles :
    (xs : List ℕ)
    → (v : ℕ) × (w : ℕ) × (percentile xs 50 ≡ some v)
      × (percentile xs 99 ≡ some w)
      × (IsSorted xs → v ≤ w)
unfolding percentile
two_percentiles [] = (0, 0, refl, refl, λ s. omega arith)
two_percentiles (x ∷ xs) =
    let ys = x ∷ xs in
    let (v, at) =
      get_elem?_of_lt ys (rank (length ys) 50)
        (rank-lt (length ys) 50 (omega arith) (omega arith)) in
    let (w, at') =
      get_elem?_of_lt ys (rank (length ys) 99)
        (rank-lt (length ys) 99 (omega arith) (omega arith)) in
    (v, w, at, at', λ s. sorted_mono ys _ _ v w s (ranks_le (length ys)) at at')

-- With the cached blocks of all replies together below 2 ^ 63 without their signs, and the blocks
-- too, the report is printed, in a build with overflow checks and in one without: there is no panic,
-- neither in a sum nor in a percentile. Its requests are the answered ones of all conversations, its
-- failures the conversations that failed, its two sums those of the replies, and P50 is at most P99.
-- If every reply counts at most as many cached blocks as blocks, and neither is below 0, the hit rate
-- is between 0 and 100 percent.
pub report-Reported :
    (checked : Bool) (outcomes : List ConvOutcome)
    → sizes (map (λ r. r.cached_blocks) (all_results outcomes)) < 2 ^ 63
    → sizes (map (λ r. r.total_blocks) (all_results outcomes)) < 2 ^ 63
    → (rep : Report) × (report checked outcomes ≡ some rep) × Reported outcomes rep
unfolding report summary
report-Reported checked outcomes few_cached few_blocks =
    let t = tally_loop outcomes no_totals in
    let same = tally_loop-all outcomes no_totals in
    let (f, a) = tally_loop-failures outcomes no_totals in
    let (v, w, at, at', le) = two_percentiles (sort (map (λ r. r.latency_ms) t.all)) in
    let cached = map (λ r. r.cached_blocks) t.all in
    let total = map (λ r. r.total_blocks) t.all in
    let same_cached = ap (λ rs. map (λ r. r.cached_blocks) rs) same in
    let same_total = ap (λ rs. map (λ r. r.total_blocks) rs) same in
    let sum_cached =
      sum_i64-sum_ℤ checked cached (subst (λ xs. sizes xs < 2 ^ 63) (sym same_cached) few_cached) in
    let sum_total =
      sum_i64-sum_ℤ checked total (subst (λ xs. sizes xs < 2 ^ 63) (sym same_total) few_blocks) in
    (
      summary t (sum_ℤ cached) (sum_ℤ total) v w,
      rw (sum_cached, sum_total, at, at') refl,
      record {
        requests = ap length same;
        failed = omega (arith, f);
        abandoned = omega (arith, a);
        ordered = le (sort-IsSorted (map (λ r. r.latency_ms) t.all));
        cached = ap sum_ℤ same_cached;
        total = ap sum_ℤ same_total;
        rate = λ counted.
            let sums = counted-Sums t.all (subst (All IsCounted) (sym same) counted) in
            rw (sums.cached, sums.total) (hit_rate-IsPercentage sums.c sums.t sums.within);
      },
    )
