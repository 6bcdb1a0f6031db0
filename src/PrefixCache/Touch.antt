-- ===== src/PrefixCache/Touch.antt =====
-- The loop of `touch` (crates/router/src/prefix_cache.rs) as a plain run over the blocks that it
-- reaches, and what `insert` and `match_prefix` promise.
use dynamo_router.Base.{
  ℕ, ◌+◌, ◌*◌, ◌≤◌, max, ◌≡◌, ap, inl, inr, Bool, true, false, List, [], ◌∷◌, arith, if◌then◌else◌,
  Bool-cases, length, take, length-take_of_le,
}
use dynamo_router.Lru.{
  contains_key, touch_block, touch_all, compact_if_bloated, count_present, compact_floor,
}
use dynamo_router.Lru.Touch.{
  count_present-touch_block, count_present-le-length, compact_if_bloated_lem, touch_all-Present,
  take-count_present-Present, count_present-touch_all, count_present-congr, count_present_mono,
  contains_key-touch_all,
}
use dynamo_router.Lru.Invariant.{IsSound, compact_if_bloated-IsSound, touch_all-IsSound}
use dynamo_router.PrefixCache.{
  insert, PrefixCache, touch_loop, touch, heap_len, match_prefix, num_blocks, lookup,
}

-- The blocks that a call touches.
unfoldable pub touched : Bool → List ℕ → PrefixCache → List ℕ
touched only_present hashes c =
    if only_present then take (count_present hashes c.map) hashes else hashes

touch_loop_all :
    (access : ℕ) (hs : List ℕ) (c : PrefixCache) (k : ℕ)
    → touch_loop false access hs c k ≡ (touch_all access hs c, k + length hs)
unfolding touch_loop touch_all
touch_loop_all access [] c k = ground arith
touch_loop_all access (h ∷ hs) c k =
    ground (arith, touch_loop_all access hs (touch_block access c h) (k + 1))

touch_loop_present :
    (access : ℕ) (hs : List ℕ) (c : PrefixCache) (k : ℕ)
    → touch_loop true access hs c k
      ≡ (touch_all access (take (count_present hs c.map) hs) c, k + count_present hs c.map)
unfolding touch_loop touch_all count_present
touch_loop_present access [] c k = ground arith
touch_loop_present access (h ∷ hs) c k = elim (Bool-cases (contains_key h c.map)) [
  | inl present ↦
      rw
        (
          present,
          touch_loop_present access hs (touch_block access c h) (k + 1),
          count_present-touch_block access h hs c present,
        )
        (ground arith)
  | inr absent ↦ rw absent (ground arith)
]

pub touch_loop-touched :
    (only_present : Bool) (access : ℕ) (hs : List ℕ) (c : PrefixCache)
    → touch_loop only_present access hs c 0
      ≡ (touch_all access (touched only_present hs c) c, length (touched only_present hs c))
unfolding touched
touch_loop-touched false access hs c = ground (arith, touch_loop_all access hs c 0)
touch_loop-touched true access hs c = ground (
  arith,
  touch_loop_present access hs c 0,
  count_present-le-length hs c.map,
  length-take_of_le (count_present hs c.map) hs,
)

-- The cache after one call, before compaction.
unfoldable pub after_touch : Bool → List ℕ → PrefixCache → PrefixCache
unfolding touched
after_touch only_present hs c =
    touch_all (c.clock + 1) (touched only_present hs c) (record c { clock = c.clock + 1 })

pub touch-after_touch :
    (c : PrefixCache) (hs : List ℕ) (only_present : Bool)
    → touch c hs only_present
      ≡ (compact_if_bloated (after_touch only_present hs c), length (touched only_present hs c))
unfolding touch after_touch
touch-after_touch c hs only_present =
    rw (touch_loop-touched only_present (c.clock + 1) hs (record c { clock = c.clock + 1 }))

-- Every call of `touch` is sound on sound tables.
pub touch-IsSound :
    (c : PrefixCache) (hs : List ℕ) (only_present : Bool)
    → IsSound c
    → IsSound (touch c hs only_present).0
unfolding after_touch
touch-IsSound c hs only_present s = rw touch-after_touch (
    compact_if_bloated-IsSound (after_touch only_present hs c) (
      touch_all-IsSound (c.clock + 1) (touched only_present hs c) (record c { clock = c.clock + 1 })
        (omega arith)
        (record {
          distinct = s.distinct;
          covered = s.covered;
          timely = λ h b g. omega (arith, s.timely h b g);
          counted = s.counted;
        })))

-- After a call the heap is at most twice as large as the map, or as the compaction floor.
pub heap_len-touch :
    (c : PrefixCache) (hs : List ℕ) (only_present : Bool)
    → heap_len (touch c hs only_present).0
      ≤ 2 * max (num_blocks (touch c hs only_present).0) compact_floor
unfolding heap_len num_blocks
heap_len-touch c hs only_present =
    rw touch-after_touch (ground (arith, compact_if_bloated_lem (after_touch only_present hs c)))

-- `match_prefix` returns what `lookup` would, and changes neither how many blocks are cached nor
-- what any `lookup` returns.
pub match_prefix-lookup :
    (c : PrefixCache) (hs : List ℕ)
    → ((match_prefix c hs).1 ≡ lookup c hs)
      × (num_blocks (match_prefix c hs).0 ≡ num_blocks c)
      × ((ks : List ℕ) → lookup (match_prefix c hs).0 ks ≡ lookup c ks)
unfolding match_prefix lookup num_blocks touched after_touch
match_prefix-lookup c hs =
    let start : PrefixCache = record c { clock = c.clock + 1 } in
    let (size, keys) =
      touch_all-Present (c.clock + 1) (take (count_present hs c.map) hs) start
        (take-count_present-Present hs c.map) in
    let same = (compact_if_bloated_lem (after_touch true hs c)).0 in
    (
      rw touch-after_touch
          (length-take_of_le (count_present hs c.map) hs (count_present-le-length hs c.map)),
      rw (touch-after_touch, same) size,
      λ ks. rw (touch-after_touch, same) (count_present-congr ks _ c.map keys),
    )

pub insert-after_touch :
    (c : PrefixCache) (hs : List ℕ) → insert c hs ≡ compact_if_bloated (after_touch false hs c)
unfolding insert
insert-after_touch c hs = ap (λ (p : PrefixCache × ℕ). p.0) (touch-after_touch c hs false)

-- After `insert` the whole chain is found, and no other lookup finds less than before.
pub lookup-insert :
    (c : PrefixCache) (hs : List ℕ)
    → (lookup (insert c hs) hs ≡ length hs)
      × ((ks : List ℕ) → lookup c ks ≤ lookup (insert c hs) ks)
unfolding lookup touched after_touch
lookup-insert c hs =
    let start : PrefixCache = record c { clock = c.clock + 1 } in
    let same = (compact_if_bloated_lem (after_touch false hs c)).0 in
    (
      rw (insert-after_touch, same) (count_present-touch_all (c.clock + 1) hs start),
      λ ks.
          rw (insert-after_touch, same)
            (count_present_mono ks c.map _ (λ k. contains_key-touch_all (c.clock + 1) hs k start)),
    )
