-- ===== src/Loadgen/Ranks.antt =====
-- The percentiles of the load generator (crates/loadgen/src/main.rs) against the samples.
use dynamo_router.Base.{
  ℕ, zero, suc, ◌+◌, ◌-◌, ◌*◌, ◌≤◌, ◌<◌, ◌≡◌, refl, sym, ap, ◌∙◌, subst, inl, inr, some, List, [],
  ◌∷◌, arith, leb, if◌then◌else◌, length, get_elem?, In, All, get_elem?_of_lt, All-In,
}
use mathlib.Core.Option.{some-injective}
use native.Mathlib.Nat.{mul-le-mul_left}
use dynamo_router.Sorting.{sort, tally, IsSorted, tally-sort, length-sort, sort-IsSorted, In-sort}
use dynamo_router.Loadgen.Stats.{rank, percentile}

-- How many samples are at most `v`, and at least `v`.
abbrev pub at_most : ℕ → List ℕ → ℕ
at_most v = tally (λ x. if leb x v then 1 else 0)

abbrev pub at_least : ℕ → List ℕ → ℕ
at_least v = tally (λ x. if leb v x then 1 else 0)

In-of_get_elem? : (xs : List ℕ) (k v : ℕ) → get_elem? xs k ≡ some v → In v xs
In-of_get_elem? [] k v at = cc
In-of_get_elem? (x ∷ xs) zero v at = inl (sym (some-injective _ _ at))
In-of_get_elem? (x ∷ xs) (suc k) v at = inr (In-of_get_elem? xs k v at)

All-at_least : (v : ℕ) (xs : List ℕ) → All (λ y. v ≤ y) xs → at_least v xs ≡ length xs
All-at_least v [] all = refl
All-at_least v (x ∷ xs) (le, all) = ground (arith, All-at_least v xs all)

-- The element at index `k` of a sorted list has at least k + 1 elements up to it, and all from `k` on
-- from it.
sorted_rank :
    (xs : List ℕ) (k v : ℕ)
    → IsSorted xs
    → get_elem? xs k ≡ some v
    → (suc k ≤ at_most v xs) × (length xs ≤ k + at_least v xs)
sorted_rank [] k v s at = cc
sorted_rank (x ∷ xs) zero v (all, s) at =
    let e = some-injective _ _ at in
    subst (λ w. (1 ≤ at_most w (x ∷ xs)) × (length (x ∷ xs) ≤ 0 + at_least w (x ∷ xs))) e
      (ground arith, ground (arith, All-at_least x xs all))
sorted_rank (x ∷ xs) (suc k) v (all, s) at =
    let le = All-In (λ y. x ≤ y) xs v all (In-of_get_elem? xs k v at) in
    let (below, above) = sorted_rank xs k v s at in (ground arith, ground arith)

pub sorted_mono :
    (xs : List ℕ) (k l v w : ℕ)
    → IsSorted xs
    → k ≤ l
    → get_elem? xs k ≡ some v
    → get_elem? xs l ≡ some w
    → v ≤ w
sorted_mono [] k l v w s le at at' = cc
sorted_mono (x ∷ xs) zero zero v w s le at at' = omega (arith, some-injective _ _ (sym at ∙ at'))
sorted_mono (x ∷ xs) zero (suc l) v w s le at at' =
    omega (arith, All-In (λ y. x ≤ y) xs w s.0 (In-of_get_elem? xs l w at'), some-injective _ _ at)
sorted_mono (x ∷ xs) (suc k) zero v w s le at at' = absurd (omega arith)
sorted_mono (x ∷ xs) (suc k) (suc l) v w s le at at' =
    sorted_mono xs k l v w s.1 (omega arith) at at'

pub percentile_at :
    (xs : List ℕ) (percent : ℕ)
    → 1 ≤ length xs
    → percentile xs percent ≡ get_elem? xs (rank (length xs) percent)
unfolding percentile
percentile_at [] percent some_sample = absurd (omega arith)
percentile_at (x ∷ xs) percent some_sample = refl

distrib : (a b c : ℕ) → a * c + b * c ≡ (a + b) * c
distrib a b c = omega arith

products :
    (l percent : ℕ)
    → percent ≤ 100
    → (2 * l * percent ≡ 2 * (l * percent))
      × (percent * (l + 1) ≡ l * percent + percent)
      × ((100 - percent) * (l + 1) + percent * (l + 1) ≡ 100 * (l + 1))
      × (l * percent ≤ 100 * l)
products l percent le = (
  omega arith,
  omega arith,
  distrib (100 - percent) percent (l + 1) ∙ ap (λ x. x * (l + 1)) (omega arith),
  omega (arith, mul-le-mul_left l le),
)

pub rank-lt : (len percent : ℕ) → 1 ≤ len → percent ≤ 100 → rank len percent < len
unfolding rank
rank-lt len percent some_sample le = omega (arith, products (len - 1) percent le)

-- The rank against its share of the samples, on both sides.
rank_bounds :
    (len percent : ℕ)
    → 1 ≤ len
    → percent ≤ 100
    → (percent * len ≤ 100 * (rank len percent + 1) + 50)
      × ((100 - percent) * len + 100 * rank len percent ≤ 100 * len + 50)
unfolding rank
rank_bounds len percent some_sample le =
    let one_more : len - 1 + 1 ≡ len = omega arith in
    let (a, b, c, d) =
      subst
        (λ m.
          (2 * (len - 1) * percent ≡ 2 * ((len - 1) * percent))
          × (percent * m ≡ (len - 1) * percent + percent)
          × ((100 - percent) * m + percent * m ≡ 100 * m)
          × ((len - 1) * percent ≤ 100 * (len - 1)))
        one_more (products (len - 1) percent le) in
    (omega arith, omega arith)

-- With at least one sample and for at most 100 percent, the percentile of the sorted samples is one of
-- them (no index is out of range); and up to half a sample, at least `percent` percent of the samples
-- are at most this, and at least the rest of the hundred percent are at least this.
pub percentile_lem :
    (samples : List ℕ) (percent : ℕ)
    → 1 ≤ length samples
    → percent ≤ 100
    → (v : ℕ) × (percentile (sort samples) percent ≡ some v)
      × In v samples
      × (percent * length samples ≤ 100 * at_most v samples + 50)
      × ((100 - percent) * length samples ≤ 100 * at_least v samples + 50)
percentile_lem samples percent some_sample le =
    let same = length-sort samples in
    let bounds = rank_bounds (length samples) percent some_sample le in
    let (v, at) =
      get_elem?_of_lt (sort samples) (rank (length samples) percent)
        (omega (arith, same, rank-lt (length samples) percent some_sample le)) in
    let (below, above) = sorted_rank (sort samples) _ v (sort-IsSorted samples) at in
    (
      v,
      percentile_at (sort samples) percent (omega (arith, same))
          ∙ ap (λ n. get_elem? (sort samples) (rank n percent)) same
          ∙ at,
      In-sort v samples (In-of_get_elem? (sort samples) _ v at),
      omega (arith, tally-sort (λ x. if leb x v then 1 else 0) samples),
      omega (arith, same, tally-sort (λ x. if leb v x then 1 else 0) samples),
    )
