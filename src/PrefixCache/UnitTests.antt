-- ===== src/PrefixCache/UnitTests.antt =====
-- The unit tests of crates/router/src/prefix_cache.rs. `some false` and `none` are assertions that fail.
use dynamo_router.Base.{
  ℕ, zero, suc, ◌*◌, ◌≤◌, max, ◌≡◌, refl, ap, ◌∙◌, Bool, true, false, ◌&&◌, Option, none, some,
  List, [], ◌∷◌, arith, ltb, leb, ◌==◌, if◌then◌else◌, ==_iff, length, ◌>>=◌, range,
}
use dynamo_router.Lru
use dynamo_router.PrefixCache.{
  PrefixCache, new, num_blocks, touch_loop, touch, match_prefix, insert, lookup, heap_len, evict_to,
}
use dynamo_router.PrefixCache.Touch.{heap_len-touch, match_prefix-lookup, lookup-insert}

program : Unit {0}
unfolding Lru.get Lru.contains_key Lru.insert Lru.remove Lru.outranks Lru.select Lru.pop Lru.is_live
    Lru.touch_block Lru.touch_all Lru.compact_if_bloated Lru.count_present Lru.discard
    Lru.evict_loop Lru.evict_to new num_blocks touch_loop touch match_prefix insert lookup heap_len
    evict_to
program = tt

abbrev match_counts_shared_prefix : Bool
match_counts_shared_prefix =
    let t = insert new (range 1 4) in
    let (t1, whole) = match_prefix t (range 1 4) in
    let (t2, shared) = match_prefix t1 (1 ∷ 2 ∷ 9 ∷ 9 ∷ []) in
    let (t3, other) = match_prefix t2 (9 ∷ []) in
    whole == 4 && shared == 2 && other == 0 && num_blocks t3 == 4

abbrev insert_dedups_shared_prefix : Bool
insert_dedups_shared_prefix =
    num_blocks (insert (insert new (1 ∷ 2 ∷ 3 ∷ [])) (1 ∷ 2 ∷ 4 ∷ [])) == 4

abbrev evict_removes_lru_leaves_first : Bool
evict_removes_lru_leaves_first =
    let t = insert (insert new (1 ∷ 2 ∷ [])) (3 ∷ 4 ∷ []) in
    let t1 = evict_to (match_prefix t (1 ∷ 2 ∷ [])).0 2 in
    let (t2, recent) = match_prefix t1 (1 ∷ 2 ∷ []) in
    let (t3, cold) = match_prefix t2 (3 ∷ 4 ∷ []) in num_blocks t1 == 2 && recent == 2 && ltb cold 2

abbrev evict_to_zero_empties_tree : Bool
evict_to_zero_empties_tree =
    let t = evict_to (insert new (1 ∷ 2 ∷ 3 ∷ [])) 0 in
    num_blocks t == 0 && (match_prefix t (1 ∷ 2 ∷ 3 ∷ [])).1 == 0

abbrev eviction_is_leaf_first_within_same_access_tick : Bool
eviction_is_leaf_first_within_same_access_tick =
    let t = evict_to (insert new (range 1 4)) 3 in
    num_blocks t == 3 && lookup t (1 ∷ 2 ∷ 3 ∷ []) == 3 && (match_prefix t (range 1 4)).1 == 3

abbrev missing_block_halts_match_even_if_a_deeper_block_lingers : Bool
missing_block_halts_match_even_if_a_deeper_block_lingers =
    let t = evict_to (insert (insert new (range 1 4)) (5 ∷ 6 ∷ [])) 2 in
    num_blocks t == 2 && lookup t (5 ∷ 6 ∷ []) == 2 && lookup t (range 1 4) == 0

abbrev lookup_does_not_refresh_access : Bool
lookup_does_not_refresh_access =
    let t = insert (insert new (range 1 4)) (5 ∷ 6 ∷ []) in
    let t1 = evict_to t 2 in
    lookup t (range 1 4) == 4
    && num_blocks t1 == 2
    && lookup t1 (5 ∷ 6 ∷ []) == 2
    && lookup t1 (range 1 4) == 0

unit_tests_pass :
    (match_counts_shared_prefix ≡ true)
    × (insert_dedups_shared_prefix ≡ true)
    × (evict_removes_lru_leaves_first ≡ true)
    × (evict_to_zero_empties_tree ≡ true)
    × (eviction_is_leaf_first_within_same_access_tick ≡ true)
    × (missing_block_halts_match_even_if_a_deeper_block_lingers ≡ true)
    × (lookup_does_not_refresh_access ≡ true)
unfolding program
unit_tests_pass = (refl, refl, refl, refl, refl, refl, refl)

-- `for _ in 0..rounds`: each match finds the whole chain, or the assertion fails.
abbrev hit_loop : ℕ → List ℕ → PrefixCache → Option PrefixCache
hit_loop zero chain t = some t
hit_loop (suc rounds) chain t =
    let rest = hit_loop rounds chain (match_prefix t chain).0 in
    if (match_prefix t chain).1 == length chain then rest else none

-- The test has 5000 rounds, and the chain of the numbers below 64.
abbrev pub heap_stays_bounded_under_repeated_hit_workload : ℕ → List ℕ → Option Bool
heap_stays_bounded_under_repeated_hit_workload rounds chain = do
  t ← hit_loop rounds chain (insert new chain)
  some (leb (heap_len t) (4 * max (num_blocks t) 1024))

le→leb : (a b : ℕ) → a ≤ b → leb a b ≡ true
le→leb a b le = ground arith

hit_loop-bounded :
    (rounds : ℕ) (chain : List ℕ) (t : PrefixCache)
    → lookup t chain ≡ length chain
    → heap_len t ≤ 2 * max (num_blocks t) 1024
    → (t' : PrefixCache) × (hit_loop rounds chain t ≡ some t')
      × (heap_len t' ≤ 2 * max (num_blocks t') 1024)
unfolding match_prefix
hit_loop-bounded zero chain t whole bounded = (t, refl, bounded)
hit_loop-bounded (suc rounds) chain t whole bounded =
    let (found, size, kept) = match_prefix-lookup t chain in
    let (t', e, b) =
      hit_loop-bounded rounds chain (match_prefix t chain).0 (kept chain ∙ whole)
        (heap_len-touch t chain true) in
    (t', rw ((==_iff _ _).1 (found ∙ whole)) e, b)

-- However often an inserted prompt is matched, every match finds all of its blocks, and after it the
-- heap is at most four times as large as the map or the compaction floor: the unit test
-- `heap_stays_bounded_under_repeated_hit_workload` passes for every number of rounds and every prompt.
pub heap_len-hit_loop :
    (rounds : ℕ) (chain : List ℕ)
    → heap_stays_bounded_under_repeated_hit_workload rounds chain ≡ some true
unfolding insert
heap_len-hit_loop rounds chain =
    let (t, e, bounded) =
      hit_loop-bounded rounds chain (insert new chain) (lookup-insert new chain).0
        (heap_len-touch new chain false) in
    rw e (ap some (le→leb (heap_len t) (4 * max (num_blocks t) 1024) (omega arith)))
