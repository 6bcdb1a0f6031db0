-- ===== src/Scheduler/UnitTests.antt =====
-- The unit tests of crates/router/src/scheduler.rs, over whole scores. `none` is a panic, of a call or
-- of an `unwrap`; `some false` is an assertion that fails.
use dynamo_router.Base.{
  ℕ, zero, suc, ◌+◌, ◌*◌, ◌^◌, ◌<◌, ◌≡◌, refl, Bool, true, not, ◌&&◌, Option, none, some, List, [],
  ◌∷◌, arith, ltb, leb, ◌==◌, ◌>>=◌, range,
}
use dynamo_router.Sorting
use dynamo_router.Sorting.{sort}
use dynamo_router.Float.Integer.{pos, negsuc, lt_ℤ, ◌*ℤ◌, ◌-ℤ◌, integers}
use dynamo_router.PrefixCache.{lookup}
use dynamo_router.Scheduler.Scan.{is_available}
use dynamo_router.Lru
use dynamo_router.PrefixCache
use dynamo_router.Scheduler.{
  ReplicaState, SchedulerConfig, Scheduler, Policy, cache_aware, round_robin, PickError,
  all_saturated, no_healthy_replicas, RouteDecision, Picked, routed, refused, idle_replicas, new,
  survey, round_robin_scan, available_from, least_loop, least_loaded, score, better, best_loop,
  fall_back, settle, choose_cache_aware, choose, admit, route, pick, update_replica, complete,
  mark_unhealthy, mark_healthy, replica_blocks,
}

program : Unit {0}
unfolding Lru.get Lru.contains_key Lru.insert Lru.remove Lru.outranks Lru.select Lru.pop Lru.is_live
    Lru.touch_block Lru.touch_all Lru.compact_if_bloated Lru.count_present Lru.discard
    Lru.evict_loop Lru.evict_to PrefixCache.new PrefixCache.num_blocks PrefixCache.touch_loop
    PrefixCache.touch PrefixCache.insert PrefixCache.lookup PrefixCache.evict_to new idle_replicas
    survey round_robin_scan available_from least_loop least_loaded score better best_loop fall_back
    settle choose_cache_aware choose admit route pick update_replica complete mark_unhealthy
    mark_healthy replica_blocks Sorting.insert_sorted Sorting.sort
program = tt

abbrev pub default_config : SchedulerConfig integers
default_config = record {
  alpha = pos 1;
  beta = pos 2;
  min_match_blocks = 2;
  block_budget = 65_536;
  max_inflight = 512;
}

abbrev sched : ℕ → Policy → Scheduler integers
sched n policy = new n policy default_config

-- `.unwrap()` and `.unwrap_err()`
abbrev unwrap : Picked → Option RouteDecision
unwrap (routed d) = some d
unwrap (refused e) = none

abbrev unwrap_err : Picked → Option PickError
unwrap_err (routed d) = none
unwrap_err (refused e) = some e

-- `s.pick(hashes).unwrap()`
abbrev pick_ok : Scheduler integers → List ℕ → Option (Scheduler integers × RouteDecision)
pick_ok s hashes = do (s', picked) ← pick s hashes; d ← unwrap picked; some (s', d)

abbrev pick_err : Scheduler integers → List ℕ → Option PickError
pick_err s hashes = do (s', picked) ← pick s hashes; unwrap_err picked

-- `n` times `pick` and `complete`, with the replicas that were picked.
abbrev pick_complete : ℕ → Scheduler integers → List ℕ → Option (List ℕ)
pick_complete zero s hashes = some []
pick_complete (suc n) s hashes = do
  (s1, d) ← pick_ok s hashes
  s2 ← complete s1 d.replica
  picks ← pick_complete n s2 hashes
  some (d.replica ∷ picks)

abbrev same_prefix_pins_to_same_replica : Option Bool
same_prefix_pins_to_same_replica = do
  let hashes = range 1 8
  (s1, d1) ← pick_ok (sched 4 cache_aware) hashes
  s2 ← complete s1 d1.replica
  (s3, d2) ← pick_ok s2 hashes
  some (d1.replica == d2.replica && d2.matched_blocks == 8)

abbrev cold_traffic_goes_least_loaded : Option (List ℕ)
cold_traffic_goes_least_loaded = do
  (s1, a) ← pick_ok (sched 3 cache_aware) (100 ∷ 101 ∷ [])
  (s2, b) ← pick_ok s1 (200 ∷ 201 ∷ [])
  (s3, c) ← pick_ok s2 (300 ∷ 301 ∷ [])
  some (sort (a.replica ∷ b.replica ∷ c.replica ∷ []))

abbrev round_robin_cycles_and_ignores_cache : Option (List ℕ)
round_robin_cycles_and_ignores_cache = pick_complete 6 (sched 3 round_robin) (range 1 4)

abbrev unhealthy_replica_skipped_and_cache_dropped : Option Bool
unhealthy_replica_skipped_and_cache_dropped = do
  let hashes = range 1 8
  (s1, d) ← pick_ok (sched 2 cache_aware) hashes
  s2 ← complete s1 d.replica
  s3 ← mark_unhealthy s2 d.replica
  (s4, d2) ← pick_ok s3 hashes
  s5 ← complete s4 d2.replica
  s6 ← mark_healthy s5 d.replica
  (s7, d3) ← pick_ok s6 hashes
  some (not (d2.replica == d.replica) && d3.replica == d2.replica)

abbrev all_replicas_at_cap_returns_all_saturated : Option PickError
all_replicas_at_cap_returns_all_saturated = do
  let cfg = record default_config { max_inflight = 1 }
  (s1, a) ← pick_ok (new 2 cache_aware cfg) (1 ∷ 2 ∷ [])
  (s2, b) ← pick_ok s1 (3 ∷ 4 ∷ [])
  pick_err s2 (5 ∷ 6 ∷ [])

abbrev no_healthy_replicas_returns_no_healthy_replicas_error : Option PickError
no_healthy_replicas_returns_no_healthy_replicas_error = do
  s1 ← mark_unhealthy (sched 2 cache_aware) 0
  s2 ← mark_unhealthy s1 1
  pick_err s2 (1 ∷ 2 ∷ [])

-- `for i in 0..10u64`, from `i` on with `left` to go.
abbrev budget_loop : ℕ → ℕ → Scheduler integers → Option (Scheduler integers)
budget_loop i zero s = some s
budget_loop i (suc left) s = do
  (s1, d) ← pick_ok s ((i * 10) ∷ (i * 10 + 1) ∷ [])
  s2 ← complete s1 d.replica
  budget_loop (i + 1) left s2

abbrev eviction_respects_block_budget : Option Bool
eviction_respects_block_budget = do
  let cfg = record default_config { block_budget = 4 }
  s ← budget_loop 0 10 (new 1 cache_aware cfg)
  blocks ← replica_blocks s 0
  some (leb blocks 4)

abbrev fallback_reports_actual_matched_blocks_not_hardcoded_zero : Option Bool
fallback_reports_actual_matched_blocks_not_hardcoded_zero = do
  let cfg = record default_config { min_match_blocks = 5 }
  (s1, seed) ← pick_ok (new 2 cache_aware cfg) (range 1 3)
  s2 ← complete s1 seed.replica
  (s3, d) ← pick_ok s2 (range 1 3)
  some (seed.replica == 0 && d.replica == 0 && d.matched_blocks == 3)

abbrev matched_equal_to_min_match_blocks_routes_cache_aware_not_fallback : Option Bool
matched_equal_to_min_match_blocks_routes_cache_aware_not_fallback = do
  let hashes = range 1 2
  (s1, warm) ← pick_ok (sched 2 cache_aware) (999 ∷ 998 ∷ [])
  (s2, seed) ← pick_ok s1 hashes
  s3 ← complete s2 warm.replica
  s4 ← complete s3 seed.replica
  (s5, d) ← pick_ok s4 hashes
  some (warm.replica == 0 && seed.replica == 1 && d.replica == 1 && d.matched_blocks == 2)

abbrev empty_hashes_routes_least_loaded_without_panicking : Option Bool
empty_hashes_routes_least_loaded_without_panicking = do
  (s1, d) ← pick_ok (sched 3 cache_aware) []
  some (d.matched_blocks == 0 && ltb d.replica 3)

abbrev round_robin_skips_unhealthy_replica : Option (List ℕ)
round_robin_skips_unhealthy_replica = do
  s ← mark_unhealthy (sched 3 round_robin) 1
  pick_complete 4 s (1 ∷ 2 ∷ [])

unit_tests_pass :
    (same_prefix_pins_to_same_replica ≡ some true)
    × (cold_traffic_goes_least_loaded ≡ some (0 ∷ 1 ∷ 2 ∷ []))
    × (round_robin_cycles_and_ignores_cache ≡ some (0 ∷ 1 ∷ 2 ∷ 0 ∷ 1 ∷ 2 ∷ []))
    × (unhealthy_replica_skipped_and_cache_dropped ≡ some true)
    × (all_replicas_at_cap_returns_all_saturated ≡ some all_saturated)
    × (no_healthy_replicas_returns_no_healthy_replicas_error ≡ some no_healthy_replicas)
    × (eviction_respects_block_budget ≡ some true)
    × (fallback_reports_actual_matched_blocks_not_hardcoded_zero ≡ some true)
    × (matched_equal_to_min_match_blocks_routes_cache_aware_not_fallback ≡ some true)
    × (empty_hashes_routes_least_loaded_without_panicking ≡ some true)
    × (round_robin_skips_unhealthy_replica ≡ some (0 ∷ 2 ∷ 0 ∷ 2 ∷ []))
unfolding program
unit_tests_pass = (refl, refl, refl, refl, refl, refl, refl, refl, refl, refl, refl)

-- With at most 512 requests in flight a score is far above `f64::MIN`.
above_lowest :
    (l i : ℕ) → i < 512 → lt_ℤ (negsuc (2 ^ 1024)) (pos 1 *ℤ pos l -ℤ pos 2 *ℤ pos i) ≡ true
above_lowest l i lt = ground arith

pub default_finite :
    (hashes : List ℕ) (q : ReplicaState)
    → is_available 512 q ≡ true
    → integers.lt integers.lowest (score default_config hashes q) ≡ true
unfolding score is_available
default_finite hashes q ok = above_lowest (lookup q.cache hashes) q.inflight (ground arith)
