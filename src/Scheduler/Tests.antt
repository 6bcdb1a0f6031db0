-- ===== src/Scheduler/Tests.antt =====
-- Instances of the theorems on crates/router/src/scheduler.rs.
use dynamo_router.Base.{ℕ, ◌≡◌, refl, none, some, List, [], ◌∷◌, arith}
use dynamo_router.Float.Integer.{integers, integers-IsOrder}
use dynamo_router.Lru
use dynamo_router.PrefixCache
use dynamo_router.PrefixCache.{PrefixCache, lookup}
use dynamo_router.Scheduler.{
  Scheduler, cache_aware, round_robin, Picked, idle_replicas, new, survey, round_robin_scan,
  available_from, least_loop, least_loaded, score, better, best_loop, fall_back, settle,
  choose_cache_aware, choose, admit, route, pick, update_replica, complete, mark_unhealthy,
  mark_healthy,
}
use dynamo_router.Scheduler.UnitTests.{default_config, default_finite}
use dynamo_router.Scheduler.Scan.{is_available}
use dynamo_router.Scheduler.Routing.{
  Picks, pick-Picks, CacheAwareRoute, pick-cache_aware, RoundRobinRoute, pick-round_robin,
}
use dynamo_router.Scheduler.Invariant.{
  Event, picks, completes, marks_unhealthy, marks_healthy, step, run, IsValid, run-IsValid,
}

program : Unit {0}
unfolding Lru.get Lru.contains_key Lru.insert Lru.remove Lru.outranks Lru.select Lru.pop Lru.is_live
    Lru.touch_block Lru.touch_all Lru.compact_if_bloated Lru.count_present Lru.discard
    Lru.evict_loop Lru.evict_to PrefixCache.new PrefixCache.num_blocks PrefixCache.touch_loop
    PrefixCache.touch PrefixCache.insert PrefixCache.lookup PrefixCache.evict_to new idle_replicas
    survey round_robin_scan available_from least_loop least_loaded score better best_loop fall_back
    settle choose_cache_aware choose admit route pick update_replica complete mark_unhealthy
    mark_healthy step run is_available
program = tt

abbrev after : Scheduler integers → List Event → Scheduler integers
after s events = elim (run s events) [ none ↦ s | some s' ↦ s' ]

abbrev prompt : List ℕ
prompt = 1 ∷ 2 ∷ 3 ∷ 4 ∷ []

abbrev warm : Scheduler integers
warm =
    after (new 2 cache_aware default_config)
      (picks (9 ∷ []) ∷ picks prompt ∷ completes 0 ∷ completes 1 ∷ [])

pick-Picks_example :
    (s' : Scheduler integers) × (res : Picked) × (pick warm prompt ≡ some (s', res))
    × Picks warm prompt s' res
pick-Picks_example = pick-Picks warm prompt

abbrev events : List Event
events = picks prompt ∷ marks_unhealthy 0 ∷ completes 0 ∷ marks_healthy 0 ∷ picks prompt ∷ []

run-IsValid_example :
    (s : Scheduler integers) × (run (new 2 cache_aware default_config) events ≡ some s)
    × IsValid 2 default_config s
run-IsValid_example = run-IsValid 2 cache_aware default_config events (omega arith)

pick-cache_aware_example :
    CacheAwareRoute warm prompt
      (after warm (picks prompt ∷ []))
      (record { replica = 1; matched_blocks = 4; inflight_after = 1 })
unfolding program
pick-cache_aware_example =
    pick-cache_aware warm prompt (after warm (picks prompt ∷ []))
      (record { replica = 1; matched_blocks = 4; inflight_after = 1 }) integers-IsOrder
      (λ j q a. default_finite prompt q a.1) refl refl

abbrev spread : Scheduler integers
spread = new 3 round_robin default_config

pick-round_robin_example :
    RoundRobinRoute spread
      (after spread (picks prompt ∷ []))
      (record { replica = 0; matched_blocks = 0; inflight_after = 1 })
unfolding program
pick-round_robin_example =
    pick-round_robin spread prompt (after spread (picks prompt ∷ []))
      (record { replica = 0; matched_blocks = 0; inflight_after = 1 }) refl refl
