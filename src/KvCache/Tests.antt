-- ===== src/KvCache/Tests.antt =====
-- Instances of the theorems on crates/mock-triton/src/cache.rs.
use dynamo_router.Base.{◌≤◌, ◌≡◌, [], ◌∷◌, arith}
use dynamo_router.Lru
use dynamo_router.Lru.Invariant.{IsSound}
use dynamo_router.PrefixCache
use dynamo_router.PrefixCache.Calls.{new-IsSound}
use dynamo_router.KvCache.{KvCacheSim, new, len, lookup_insert, evict_over_capacity}
use dynamo_router.KvCache.Mirror.{
  serve, predict, serve-predict, len-lookup_insert, lookup_insert_again,
}

program : Unit {0}
unfolding Lru.get Lru.contains_key Lru.insert Lru.remove Lru.outranks Lru.select Lru.pop Lru.is_live
    Lru.touch_block Lru.touch_all Lru.compact_if_bloated Lru.count_present Lru.discard
    Lru.evict_loop Lru.evict_to new len lookup_insert evict_over_capacity serve
program = tt

abbrev empty : KvCacheSim
empty = record { capacity = 2; tables = PrefixCache.new }

serve-predict_example :
    serve (new 2) ((1 ∷ 2 ∷ []) ∷ (1 ∷ 3 ∷ []) ∷ [])
    ≡ predict 2 PrefixCache.new ((1 ∷ 2 ∷ []) ∷ (1 ∷ 3 ∷ []) ∷ [])
serve-predict_example = serve-predict 2 ((1 ∷ 2 ∷ []) ∷ (1 ∷ 3 ∷ []) ∷ [])

len-lookup_insert_example :
    IsSound (lookup_insert empty (1 ∷ 2 ∷ 3 ∷ [])).0.tables
    × (len (lookup_insert empty (1 ∷ 2 ∷ 3 ∷ [])).0 ≤ 2)
len-lookup_insert_example = len-lookup_insert empty (1 ∷ 2 ∷ 3 ∷ []) new-IsSound

lookup_insert_again_example :
    (lookup_insert (lookup_insert empty (1 ∷ 2 ∷ 3 ∷ [])).0 (1 ∷ 2 ∷ 3 ∷ [])).1 ≡ 2
lookup_insert_again_example = lookup_insert_again empty (1 ∷ 2 ∷ 3 ∷ []) new-IsSound (ground arith)
