-- ===== src/KvCache/Mirror.antt =====
-- The replica's cache (crates/mock-triton/src/cache.rs) against the router's picture of it
-- (crates/router/src/prefix_cache.rs).
use dynamo_router.Base.{ℕ, ◌≤◌, min, ◌≡◌, refl, ap, ◌∙◌, List, [], ◌∷◌, arith, length}
use dynamo_router.Lru.Invariant.{IsSound}
use dynamo_router.Lru.Recency.{Unique}
use dynamo_router.PrefixCache
use dynamo_router.PrefixCache.{PrefixCache, lookup, insert, evict_to}
use dynamo_router.PrefixCache.Touch.{after_touch, touched, insert-after_touch}
use dynamo_router.PrefixCache.Eviction.{
  lookup-evict_to-insert, get-evict_to, insert-IsSound, evict_to-IsSound,
}
use dynamo_router.KvCache.{KvCacheSim, new, len, lookup_insert}

-- A request on the replica does what `lookup`, `insert` and `evict_to` do on the router's picture.
pub lookup_insert-mirror :
    (k : KvCacheSim) (hs : List ℕ)
    → ((lookup_insert k hs).1 ≡ lookup k.tables hs)
      × ((lookup_insert k hs).0.tables ≡ evict_to (insert k.tables hs) k.capacity)
      × ((lookup_insert k hs).0.capacity ≡ k.capacity)
unfolding lookup_insert lookup evict_to after_touch touched
lookup_insert-mirror k hs = (refl, rw insert-after_touch, refl)

-- What the router does with its picture of the one replica, for each request: the predicted match.
unfoldable pub predict : ℕ → PrefixCache → List (List ℕ) → List ℕ
predict budget c [] = []
predict budget c (hs ∷ requests) =
    lookup c hs ∷ predict budget (evict_to (insert c hs) budget) requests

unfoldable pub serve : KvCacheSim → List (List ℕ) → List ℕ
serve k [] = []
serve k (hs ∷ requests) = let (k', cached) = lookup_insert k hs in cached ∷ serve k' requests

serve_from-predict :
    (k : KvCacheSim) (requests : List (List ℕ))
    → serve k requests ≡ predict k.capacity k.tables requests
unfolding serve predict
serve_from-predict k [] = refl
serve_from-predict k (hs ∷ requests) =
    let (cached, tables, capacity) = lookup_insert-mirror k hs in
    rw (cached, serve_from-predict (lookup_insert k hs).0 requests, tables, capacity)

-- With a budget equal to the capacity, the router predicts exactly what a replica reports that
-- sees the same requests from the start.
pub serve-predict :
    (capacity : ℕ) (requests : List (List ℕ))
    → serve (new capacity) requests ≡ predict capacity PrefixCache.new requests
unfolding new PrefixCache.new
serve-predict capacity requests = serve_from-predict (new capacity) requests

-- A replica's tables stay sound, and within the capacity after each request.
pub len-lookup_insert :
    (k : KvCacheSim) (hs : List ℕ)
    → IsSound k.tables
    → IsSound (lookup_insert k hs).0.tables × (len (lookup_insert k hs).0 ≤ k.capacity)
unfolding len PrefixCache.num_blocks
len-lookup_insert k hs s =
    let same = (lookup_insert-mirror k hs).1 in
    let s' = insert-IsSound k.tables hs s in
    (
      rw same (evict_to-IsSound (insert k.tables hs) k.capacity s'),
      rw same (omega (arith, (get-evict_to (insert k.tables hs) k.capacity s').1)),
    )

-- A prompt that was just served is found again, whole or as far as the capacity goes.
pub lookup_insert_again :
    (k : KvCacheSim) (hs : List ℕ)
    → IsSound k.tables
    → Unique hs
    → (lookup_insert (lookup_insert k hs).0 hs).1 ≡ min (length hs) k.capacity
lookup_insert_again k hs s u =
    (lookup_insert-mirror (lookup_insert k hs).0 hs).0
    ∙ ap (λ c. lookup c hs) (lookup_insert-mirror k hs).1
    ∙ lookup-evict_to-insert k.tables hs k.capacity s u
