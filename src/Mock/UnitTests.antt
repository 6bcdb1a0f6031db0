-- ===== src/Mock/UnitTests.antt =====
-- The unit tests of crates/mock-triton/src/service.rs, with a tokenizer whose tokens are the bytes.
use dynamo_router.Base.{
  ℕ, ◌-◌, ◌*◌, ◌≡◌, refl, ◌⊎◌, inl, inr, Bool, true, not, ◌&&◌, Option, none, some, List, ◌++◌, leb,
  ◌==◌, length, ◌>>=◌,
}
use dynamo_router.Text.{Text, codes}
use dynamo_router.Blocks
use dynamo_router.Blocks.{block_hashes, block_size}
use dynamo_router.Lru
use dynamo_router.KvCache
use dynamo_router.KvCache.{lookup_insert}
use dynamo_router.Rpc.{Result, ok, err, Packages}
use dynamo_router.Mock
use dynamo_router.Mock.{MockConfig, MockTriton, Prefilled, default_mock, simulate_prefill}

abbrev packages : Packages
packages = record {
  cancelled = 1;
  unknown = 2;
  invalid_argument = 3;
  deadline_exceeded = 4;
  resource_exhausted = 8;
  internal = 13;
  unavailable = 14;
  describe = λ code. codes "code";
  display = λ code message. codes "status: " ++ message;
  encode = λ text. inl text;
}

program : Unit {0}
unfolding Lru.get Lru.contains_key Lru.insert Lru.remove Lru.outranks Lru.select Lru.pop Lru.is_live
    Lru.touch_block Lru.touch_all Lru.compact_if_bloated Lru.count_present Lru.discard
    Lru.evict_loop Lru.evict_to KvCache.new KvCache.lookup_insert Blocks.fnv_step Blocks.hash_block
    Blocks.hash_chunks Blocks.block_hashes Mock.new Mock.prefill Mock.simulate_prefill
program = tt

abbrev text : Text
text =
    codes
      "the quick brown fox jumps over the lazy dog the quick brown fox jumps over the lazy dog the quick brown fox jumps over the lazy dog "

abbrev slow : MockConfig
slow = record default_mock { prefill_us_per_token = 1000 }

-- `.unwrap()`
abbrev unwrap : {A : Type 0} → Result A → Option A
unwrap (ok a) = some a
unwrap (err status) = none

abbrev tokens : List ℕ ⊎ Text → Option (List ℕ)
tokens (inl ids) = some ids
tokens (inr e) = none

abbrev cold_prefill_sleeps_proportional_to_uncached_tokens : Option Bool
cold_prefill_sleeps_proportional_to_uncached_tokens = do
  ids ← tokens (packages.encode text)
  p ← unwrap (simulate_prefill packages slow (Mock.new slow) text).1
  some (
      not (length ids == 0)
      && p.cached == 0
      && leb 1 p.total
      && p.delay == length ids * slow.prefill_us_per_token)

abbrev warm_prefill_only_sleeps_for_the_uncached_remainder : Option Bool
warm_prefill_only_sleeps_for_the_uncached_remainder = do
  ids ← tokens (packages.encode text)
  let hashes = block_hashes ids
  let s = Mock.new slow
  let warm = record s { cache = (lookup_insert s.cache hashes).0 }
  p ← unwrap (simulate_prefill packages slow warm text).1
  some (
      not (length hashes == 0)
      && p.cached == p.total
      && p.delay == (length ids - p.total * block_size) * slow.prefill_us_per_token)

unit_tests_pass :
    (cold_prefill_sleeps_proportional_to_uncached_tokens ≡ some true)
    × (warm_prefill_only_sleeps_for_the_uncached_remainder ≡ some true)
unfolding program
unit_tests_pass = (refl, refl)
