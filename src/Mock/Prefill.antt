-- ===== src/Mock/Prefill.antt =====
-- What one request costs a mock replica (crates/mock-triton/src/service.rs).
use dynamo_router.Base.{
  ℕ, ◌-◌, ◌*◌, ◌/◌, ◌%◌, ◌^◌, ◌≤◌, ◌<◌, ◌≡◌, ◌⊎◌, inl, inr, true, none, List, ◌∷◌, arith, length,
}
use native.Mathlib.Nat.{mod-eq_of_lt, mul-le-mul_right}
use dynamo_router.Text.{codes, text_eq}
use dynamo_router.Protocol.{InferTensor, ModelInferRequest}
use dynamo_router.Rpc.{Packages}
use dynamo_router.Prompt
use dynamo_router.Prompt.{find_named, or_first}
use dynamo_router.Blocks.{block_hashes, block_size}
use dynamo_router.Blocks.Hashes.{block_hashes-length}
use dynamo_router.Lru.Recency.{Unique}
use dynamo_router.Lru.Invariant.{IsSound}
use dynamo_router.Lru.Touch.{count_present-le-length}
use dynamo_router.KvCache.{KvCacheSim, lookup_insert, len}
use dynamo_router.KvCache.Mirror.{len-lookup_insert, lookup_insert_again}
use dynamo_router.Mock
use dynamo_router.Mock.{MockConfig, MockTriton, Prefilled, prefill, simulate_prefill}

lookup_insert-le-length : (c : KvCacheSim) (hs : List ℕ) → (lookup_insert c hs).1 ≤ length hs
unfolding lookup_insert
lookup_insert-le-length c hs = count_present-le-length hs c.tables.map

uncached_le : (ids : List ℕ) (cached : ℕ) → length ids - cached * block_size ≤ length ids
uncached_le ids cached = omega arith

pub record IsPrefill (cfg : MockConfig) (ids : List ℕ) (s s' : MockTriton) (p : Prefilled)
    : Type 0 where
  pub blocks : p.total ≡ length ids / block_size
  pub cached_le_total : p.cached ≤ p.total
  pub cached_tokens : p.cached * block_size ≤ length ids
  pub delayed : p.delay ≡ (length ids - p.cached * block_size) * cfg.prefill_us_per_token
  pub sound : IsSound s'.cache.tables
  pub within : len s'.cache ≤ s.cache.capacity

-- A request of a replica with sound tables: no more blocks are cached than the prompt has, one for
-- each 16 tokens, no more tokens than it has, and the replica sleeps for exactly the tokens that are
-- not cached, if the whole prompt's prefill fits a u64 of microseconds. The cache stays sound and
-- within its capacity.
pub prefill-IsPrefill :
    (cfg : MockConfig) (s : MockTriton) (ids : List ℕ)
    → IsSound s.cache.tables
    → length ids * cfg.prefill_us_per_token < 2 ^ 64
    → IsPrefill cfg ids s (prefill cfg s ids).0 (prefill cfg s ids).1
unfolding prefill
prefill-IsPrefill cfg s ids sound fits =
    let hashes = block_hashes ids in
    let cached = (lookup_insert s.cache hashes).1 in
    let count = (block_hashes-length ids).0 in
    let le = lookup_insert-le-length s.cache hashes in
    record {
      blocks = count;
      cached_le_total = le;
      cached_tokens = omega (arith, le, count);
      delayed =
          mod-eq_of_lt
            (omega (arith, mul-le-mul_right cfg.prefill_us_per_token (uncached_le ids cached)));
      sound = (len-lookup_insert s.cache hashes sound).0;
      within = (len-lookup_insert s.cache hashes sound).1;
    }

-- A prompt of different block hashes that fits the capacity of a replica with sound tables, and that
-- the replica has just served: served again, all its blocks are cached, and the replica sleeps only
-- for the tokens behind the last whole block, if these fit a u64 of microseconds.
pub prefill_again :
    (cfg : MockConfig) (s : MockTriton) (ids : List ℕ)
    → IsSound s.cache.tables
    → Unique (block_hashes ids)
    → length (block_hashes ids) ≤ s.cache.capacity
    → length ids % block_size * cfg.prefill_us_per_token < 2 ^ 64
    → ((prefill cfg (prefill cfg s ids).0 ids).1 ≡ record {
      cached = length (block_hashes ids);
      total = length (block_hashes ids);
      delay = length ids % block_size * cfg.prefill_us_per_token;
    })
unfolding prefill
prefill_again cfg s ids sound unique room fits =
    let hashes = block_hashes ids in
    let again = lookup_insert_again s.cache hashes sound unique in
    let all : (lookup_insert (lookup_insert s.cache hashes).0 hashes).1 ≡ length hashes =
      omega (arith, again) in
    let rest : length ids - length hashes * block_size ≡ length ids % block_size =
      omega (arith, (block_hashes-length ids).0) in
    rw (all, rest, mod-eq_of_lt fits)

-- The tensors whose text the router and the replica read are the same, if the first input is named
-- `text_input` or none is.
pub extract_text-same :
    (pkg : Packages) (req : ModelInferRequest) (first : InferTensor) (others : List InferTensor)
    → req.inputs ≡ first ∷ others
    → (find_named (codes "text_input") req.inputs ≡ none)
      ⊎ (text_eq first.name (codes "text_input") ≡ true)
    → Mock.extract_text pkg req ≡ Prompt.extract_text pkg req
unfolding Mock.extract_text Prompt.extract_text or_first find_named
extract_text-same pkg req first others e (inl unnamed) = rw (unnamed, e)
extract_text-same pkg req first others e (inr named) = rw (e, named)
