-- ===== src/PrefixCache/Eviction.antt =====
-- What `evict_to` (crates/router/src/prefix_cache.rs) leaves in the cache.
use dynamo_router.Base.{ℕ, ◌+◌, min, ◌≡◌, ◌∙◌, false, List, arith, length}
use dynamo_router.Lru.{Entry, get, touch_all}
use dynamo_router.Lru
use dynamo_router.Lru.Invariant.{IsSound}
use dynamo_router.Lru.Ideal.{ideal_get}
use dynamo_router.Lru.Evict
use dynamo_router.Lru.Recency.{Unique, touch_all-InOrder_fresh, count_present-InOrder}
use dynamo_router.Lru.Touch.{compact_if_bloated_lem}
use dynamo_router.PrefixCache.{PrefixCache, num_blocks, insert, lookup, evict_to}
use dynamo_router.PrefixCache.Touch.{touched, after_touch, insert-after_touch, touch-IsSound}

-- A block stays, with its access time, exactly when fewer blocks than the budget are more recent
-- (by a later access, or by a place nearer to the root in the same call); so what goes is always
-- the least recently used. The number of blocks left is the budget, or all if they fit.
pub get-evict_to :
    (c : PrefixCache) (budget : ℕ)
    → IsSound c
    → ((h : ℕ) → get h (evict_to c budget).map ≡ ideal_get budget h c.map)
      × (num_blocks (evict_to c budget) ≡ min (num_blocks c) budget)
unfolding evict_to num_blocks
get-evict_to c budget s = (Evict.get-evict_to budget c s, Evict.length-evict_to budget c s)

pub evict_to-IsSound : (c : PrefixCache) (budget : ℕ) → IsSound c → IsSound (evict_to c budget)
unfolding evict_to
evict_to-IsSound c budget s = Lru.Invariant.evict_to-IsSound budget c s

pub insert-IsSound : (c : PrefixCache) (hs : List ℕ) → IsSound c → IsSound (insert c hs)
unfolding insert
insert-IsSound c hs s = touch-IsSound c hs false s

-- A chain of different blocks that is inserted and then cut to a budget is found whole, or as far
-- as the budget goes: eviction takes it from the tail, and takes every older block before it.
pub lookup-evict_to-insert :
    (c : PrefixCache) (hs : List ℕ) (budget : ℕ)
    → IsSound c
    → Unique hs
    → lookup (evict_to (insert c hs) budget) hs ≡ min (length hs) budget
unfolding lookup touched after_touch
lookup-evict_to-insert c hs budget s u =
    count_present-InOrder budget 0 hs (insert c hs).map _
      (rw (insert-after_touch, (compact_if_bloated_lem (after_touch false hs c)).0)
        (touch_all-InOrder_fresh (c.clock + 1) hs (record c { clock = c.clock + 1 }) s.distinct u
          (λ h b g. omega (arith, s.timely h b g))))
      (get-evict_to (insert c hs) budget (insert-IsSound c hs s)).0
    ∙ omega arith
