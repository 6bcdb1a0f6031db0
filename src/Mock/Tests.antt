-- ===== src/Mock/Tests.antt =====
-- Runs of the mock replica of crates/mock-triton/src/service.rs, and instances of the theorems.
use dynamo_router.Base.{ℕ, ◌≡◌, refl, inl, inr, some, List, [], ◌∷◌, ◌++◌, arith}
use dynamo_router.Text
use dynamo_router.Text.{Text, codes, text_eq, is_utf8}
use dynamo_router.Protocol.{InferTensor, ModelInferRequest}
use dynamo_router.Rpc.{Packages}
use dynamo_router.Prompt
use dynamo_router.Blocks
use dynamo_router.Blocks.{block_hashes, block_size}
use dynamo_router.Lru
use dynamo_router.KvCache
use dynamo_router.PrefixCache
use dynamo_router.PrefixCache.Calls.{new-IsSound}
use dynamo_router.Mock
use dynamo_router.Mock.{MockConfig, MockTriton, prefill}
use dynamo_router.Mock.Prefill.{IsPrefill, prefill-IsPrefill, prefill_again, extract_text-same}
use dynamo_router.Task.{Stream, ends, yields, broken}

abbrev packages : Packages
packages = record {
  cancelled = 1;
  unknown = 2;
  invalid_argument = 3;
  deadline_exceeded = 4;
  resource_exhausted = 8;
  internal = 13;
  unavailable = 14;
  describe = λ code. codes "code";
  display = λ code message. codes "status: " ++ message;
  encode = λ text. inl text;
}

program : Unit {0}
unfolding Lru.get Lru.contains_key Lru.insert Lru.remove Lru.outranks Lru.select Lru.pop Lru.is_live
    Lru.touch_block Lru.touch_all Lru.compact_if_bloated Lru.count_present Lru.discard
    Lru.evict_loop Lru.evict_to KvCache.new KvCache.lookup_insert Blocks.fnv_step Blocks.hash_block
    Blocks.hash_chunks Blocks.block_hashes Mock.new Mock.prefill Text.text_eq Prompt.find_named
program = tt

abbrev cfg : MockConfig
cfg = record { cache_blocks = 4096; prefill_us_per_token = 1000; decode_chunks = 4 }

abbrev ids : List ℕ
ids = codes "the quick brown fox jumps"

cold_prefill_sleeps_for_all_tokens :
    ((prefill cfg (Mock.new cfg) ids).1 ≡ record { cached = 0; total = 1; delay = 25_000 })
unfolding program
cold_prefill_sleeps_for_all_tokens = refl

warm_prefill_sleeps_for_the_remainder :
    ((prefill cfg (prefill cfg (Mock.new cfg) ids).0 ids).1
      ≡ record { cached = 1; total = 1; delay = 9000 })
unfolding program
warm_prefill_sleeps_for_the_remainder = refl

prefill-IsPrefill_example :
    IsPrefill cfg ids
      (Mock.new cfg)
      (prefill cfg (Mock.new cfg) ids).0
      (prefill cfg (Mock.new cfg) ids).1
unfolding Mock.new KvCache.new PrefixCache.new
prefill-IsPrefill_example = prefill-IsPrefill cfg (Mock.new cfg) ids new-IsSound (omega arith)

prefill_again_example :
    ((prefill cfg (prefill cfg (Mock.new cfg) ids).0 ids).1
      ≡ record { cached = 1; total = 1; delay = 9000 })
unfolding program PrefixCache.new
prefill_again_example =
    prefill_again cfg (Mock.new cfg) ids new-IsSound (ground arith) (omega arith) (omega arith)

abbrev tensor : Text → InferTensor
tensor name = record {
  name = name;
  datatype = codes "BYTES";
  shape = 1 ∷ [];
  contents = some (record { bytes_contents = codes "hi" ∷ [] });
}

abbrev request : List InferTensor → ModelInferRequest
request inputs = record { model_name = []; model_version = []; id = []; inputs = inputs }

extract_text-same_example :
    Mock.extract_text packages (request (tensor (codes "text_input") ∷ tensor [] ∷ []))
    ≡ Prompt.extract_text packages (request (tensor (codes "text_input") ∷ tensor [] ∷ []))
unfolding program
extract_text-same_example =
    extract_text-same packages (request (tensor (codes "text_input") ∷ tensor [] ∷ []))
      (tensor (codes "text_input")) (tensor [] ∷ []) refl (inr refl)

-- A request with a prompt, one without, and then a broken stream.
abbrev inbound : Stream ModelInferRequest
inbound =
    yields (request (tensor (codes "text_input") ∷ []))
      (yields (request []) (ends (broken (record { code = 1; message = codes "reset" }))))
