-- ===== src/PrefixCache/Tests.antt =====
-- Instances of the theorems on crates/router/src/prefix_cache.rs.
use dynamo_router.Base.{
  ℕ, ◌*◌, ◌≤◌, min, max, ◌≡◌, refl, true, Option, none, some, List, [], ◌∷◌, arith, ltb, ◌==◌,
  if◌then◌else◌, range,
}
use dynamo_router.Lru
use dynamo_router.Lru.Evict
use dynamo_router.Lru.{Entry, compact_floor, get, contains_key}
use dynamo_router.Lru.Ideal.{ideal_get}
use dynamo_router.Lru.Invariant.{IsSound}
use dynamo_router.PrefixCache.{
  PrefixCache, new, num_blocks, touch_loop, touch, match_prefix, insert, lookup, heap_len, evict_to,
}
use dynamo_router.PrefixCache.UnitTests.{
  heap_stays_bounded_under_repeated_hit_workload, heap_len-hit_loop,
}
use dynamo_router.PrefixCache.Touch.{heap_len-touch, match_prefix-lookup, lookup-insert}
use dynamo_router.PrefixCache.Eviction.{get-evict_to, lookup-evict_to-insert}
use dynamo_router.PrefixCache.Calls.{Call, matches, inserts, step, run, run-IsSound}
use dynamo_router.PrefixCache.Chains.{IsRooted}
use dynamo_router.PrefixCache.Tree.{run-IsRooted, contains_key-lookup}

program : Unit {0}
unfolding Lru.get Lru.contains_key Lru.insert Lru.remove Lru.outranks Lru.select Lru.pop Lru.is_live
    Lru.touch_block Lru.touch_all Lru.compact_if_bloated Lru.count_present Lru.discard
    Lru.evict_loop Lru.evict_to new num_blocks touch_loop touch match_prefix insert lookup heap_len
    evict_to step run
program = tt

abbrev history : List Call
history = inserts (1 ∷ 2 ∷ []) ∷ inserts (3 ∷ 4 ∷ []) ∷ matches (1 ∷ 2 ∷ []) ∷ []

abbrev refreshed : PrefixCache
refreshed = run new history

run-IsSound_example : IsSound (run new history)
run-IsSound_example = run-IsSound history

get-evict_to_example :
    ((h : ℕ) → get h (evict_to (run new history) 2).map ≡ ideal_get 2 h (run new history).map)
    × (num_blocks (evict_to (run new history) 2) ≡ min (num_blocks (run new history)) 2)
get-evict_to_example = get-evict_to (run new history) 2 (run-IsSound history)

lookup-evict_to-insert_example :
    lookup (evict_to (insert (run new history) (5 ∷ 6 ∷ 7 ∷ [])) 2) (5 ∷ 6 ∷ 7 ∷ []) ≡ 2
lookup-evict_to-insert_example =
    lookup-evict_to-insert (run new history) (5 ∷ 6 ∷ 7 ∷ []) 2 (run-IsSound history) (ground arith)

heap_len-touch_example :
    heap_len (touch (run new history) (1 ∷ 9 ∷ []) true).0
    ≤ 2 * max (num_blocks (touch (run new history) (1 ∷ 9 ∷ []) true).0) compact_floor
heap_len-touch_example = heap_len-touch (run new history) (1 ∷ 9 ∷ []) true

match_prefix-lookup_example :
    ((match_prefix refreshed (1 ∷ 9 ∷ [])).1 ≡ lookup refreshed (1 ∷ 9 ∷ []))
    × (num_blocks (match_prefix refreshed (1 ∷ 9 ∷ [])).0 ≡ num_blocks refreshed)
    × ((ks : List ℕ) → lookup (match_prefix refreshed (1 ∷ 9 ∷ [])).0 ks ≡ lookup refreshed ks)
match_prefix-lookup_example = match_prefix-lookup refreshed (1 ∷ 9 ∷ [])

lookup-insert_example :
    (lookup (insert refreshed (1 ∷ 9 ∷ [])) (1 ∷ 9 ∷ []) ≡ 2)
    × ((ks : List ℕ) → lookup refreshed ks ≤ lookup (insert refreshed (1 ∷ 9 ∷ [])) ks)
lookup-insert_example = lookup-insert refreshed (1 ∷ 9 ∷ [])

-- Two prompts, 1 2 and 3 4, whose blocks know their parents.
abbrev parent : ℕ → Option ℕ
parent h = if h == 2 then some 1 else if h == 4 then some 3 else none

run-IsRooted_example : IsRooted parent (run new history).map
run-IsRooted_example = run-IsRooted parent history (ground arith)

contains_key-lookup_example :
    contains_key 4 (run new history).map ≡ ltb 1 (lookup (run new history) (3 ∷ 4 ∷ []))
contains_key-lookup_example =
    contains_key-lookup parent history (3 ∷ 4 ∷ []) 1 4 (ground arith) (ground arith) refl

heap_stays_bounded_passes :
    heap_stays_bounded_under_repeated_hit_workload 5000 (range 0 64) ≡ some true
heap_stays_bounded_passes = heap_len-hit_loop 5000 (range 0 64)
