-- ===== src/KvCache/UnitTests.antt =====
-- The unit tests of crates/mock-triton/src/cache.rs.
use dynamo_router.Base.{◌≡◌, refl, Bool, true, ◌&&◌, [], ◌∷◌, ◌==◌}
use dynamo_router.Lru
use dynamo_router.KvCache.{new, len, lookup_insert, evict_over_capacity}

program : Unit {0}
unfolding Lru.get Lru.contains_key Lru.insert Lru.remove Lru.outranks Lru.select Lru.pop Lru.is_live
    Lru.touch_block Lru.touch_all Lru.compact_if_bloated Lru.count_present Lru.discard
    Lru.evict_loop Lru.evict_to new len lookup_insert evict_over_capacity
program = tt

abbrev cold_then_warm : Bool
cold_then_warm =
    let (c1, cold) = lookup_insert (new 100) (1 ∷ 2 ∷ 3 ∷ []) in
    let (c2, warm) = lookup_insert c1 (1 ∷ 2 ∷ 3 ∷ []) in
    let (c3, shared) = lookup_insert c2 (1 ∷ 2 ∷ 9 ∷ []) in cold == 0 && warm == 3 && shared == 2

abbrev leading_only : Bool
leading_only =
    let (c1, cold) = lookup_insert (new 100) (1 ∷ 2 ∷ 3 ∷ []) in
    (lookup_insert c1 (9 ∷ 2 ∷ 3 ∷ [])).1 == 0

abbrev lru_eviction_over_capacity : Bool
lru_eviction_over_capacity =
    let (c1, a) = lookup_insert (new 4) (1 ∷ 2 ∷ []) in
    let (c2, b) = lookup_insert c1 (3 ∷ 4 ∷ []) in
    let (c3, c) = lookup_insert c2 (1 ∷ 2 ∷ []) in
    let (c4, d) = lookup_insert c3 (5 ∷ 6 ∷ []) in
    let (c5, first) = lookup_insert c4 (1 ∷ 2 ∷ []) in
    let (c6, second) = lookup_insert c5 (5 ∷ 6 ∷ []) in len c4 == 4 && first == 2 && second == 2

abbrev eviction_prefers_chain_tail_over_shallower_blocks : Bool
eviction_prefers_chain_tail_over_shallower_blocks =
    let (c1, cold) = lookup_insert (new 3) (1 ∷ 2 ∷ 3 ∷ 4 ∷ []) in
    cold == 0 && len c1 == 3 && (lookup_insert c1 (1 ∷ 2 ∷ 3 ∷ [])).1 == 3

unit_tests_pass :
    (cold_then_warm ≡ true)
    × (leading_only ≡ true)
    × (lru_eviction_over_capacity ≡ true)
    × (eviction_prefers_chain_tail_over_shallower_blocks ≡ true)
unfolding program
unit_tests_pass = (refl, refl, refl, refl)
