-- ===== src/Mock.antt =====
-- The mock replica's service (crates/mock-triton/src/service.rs). Its requests meet in one lock, so
-- each takes the state that the one before it left; a sleep is its length.
pub mod Prefill
pub mod Chunks
pub mod Streams
mod UnitTests
mod Tests
use dynamo_router.Base.{
  ℕ, zero, suc, ◌+◌, ◌-◌, ◌*◌, ◌/◌, ◌%◌, ◌^◌, ◌≤◌, ◌<◌, min, max, ◌≡◌, refl, sym, ap, ◌∙◌, subst,
  ◌≢◌, ◌↔◌, ◌⊎◌, inl, inr, Bool, true, false, not, ◌&&◌, ◌||◌, Option, none, some, List, [], ◌∷◌,
  ◌++◌, map, arith, dec_lt, ℕ_discrete, ltb, leb, ◌==◌, if◌then◌else◌, ltb→lt, lt→ltb, ge→ltb,
  ltb→ge, ==_iff, ==_refl, ==_ne, tests, Bool-cases, Option-cases, length, get_elem?, head?, ◌>>=◌,
  set, In, All, take, drop, take_of_length-le, length-take_of_le, length-append, length-set,
  get_elem?-set_self, get_elem?-set_ne, get_elem?-lt, get_elem?_of_lt, All-In, All-of_In,
  All-append_left, All-append_right, length-map, range,
}
use dynamo_router.Text.{Text, codes}
use dynamo_router.Float.Integer.{pos}
use dynamo_router.Protocol.{
  InferParameter, int64_param, InferTensor, ModelInferRequest, ModelInferResponse,
  ModelStreamInferResponse, ModelMetadataRequest, ModelMetadataResponse,
}
use dynamo_router.Rpc.{Status, Result, ok, err, Packages}
use dynamo_router.Task.{Stream, ends, yields, closed, broken}
use dynamo_router.Prompt.{tensor_bytes, decode_text}
use dynamo_router.Blocks.{block_hashes, block_size}
use dynamo_router.KvCache
use dynamo_router.KvCache.{KvCacheSim, lookup_insert}

pub record MockConfig : Type 0 where
  pub cache_blocks : ℕ
  pub prefill_us_per_token : ℕ
  pub decode_chunks : ℕ

-- `MockConfig::default`
abbrev pub default_mock : MockConfig
default_mock = record { cache_blocks = 4096; prefill_us_per_token = 200; decode_chunks = 4 }

-- `MockTritonService` and its `MockMetrics`, whose counters are u64.
pub record MockTriton : Type 0 where
  pub cache : KvCacheSim
  pub cached_blocks_total : ℕ
  pub total_blocks_total : ℕ

unfoldable pub new : MockConfig → MockTriton
new cfg = record {
  cache = KvCache.new cfg.cache_blocks;
  cached_blocks_total = 0;
  total_blocks_total = 0;
}

unfoldable pub extract_text : Packages → ModelInferRequest → Result Text
extract_text pkg req = decode_text pkg (tensor_bytes (head? req.inputs))

-- `(cached, total)`, and the microseconds that are slept.
pub record Prefilled : Type 0 where
  pub cached : ℕ
  pub total : ℕ
  pub delay : ℕ

-- The part of `simulate_prefill` after the tokenizer: the multiplication is on u64.
unfoldable pub prefill : MockConfig → MockTriton → List ℕ → MockTriton × Prefilled
prefill cfg s ids =
    let hashes = block_hashes ids in
    let looked = lookup_insert s.cache hashes in
    (
      record {
        cache = looked.0;
        cached_blocks_total = (s.cached_blocks_total + looked.1) % 2 ^ 64;
        total_blocks_total = (s.total_blocks_total + length hashes) % 2 ^ 64;
      },
      record {
        cached = looked.1;
        total = length hashes;
        delay = ((length ids - looked.1 * block_size) * cfg.prefill_us_per_token) % 2 ^ 64;
      },
    )

unfoldable pub simulate_prefill :
    Packages → MockConfig → MockTriton → Text → MockTriton × Result Prefilled
simulate_prefill pkg cfg s text = elim (pkg.encode text) [
  | inr e ↦ (s, err (record { code = pkg.invalid_argument; message = codes "tokenize: " ++ e }))
  | inl ids ↦ let (s', p) = prefill cfg s ids in (s', ok p)
]

unfoldable pub make_response : ModelInferRequest → ℕ → ℕ → Text → ModelInferResponse
make_response req cached total text = record {
  model_name = req.model_name;
  model_version = codes "1";
  id = req.id;
  parameters =
      (codes "cached_blocks", int64_param (pos cached))
      ∷ (codes "total_blocks", int64_param (pos total))
      ∷ [];
  outputs =
      record {
        name = codes "text_output";
        datatype = codes "BYTES";
        shape = 1 ∷ [];
        contents = some (record { bytes_contents = text ∷ [] });
      }
      ∷ [];
}

unfoldable pub model_metadata : ModelMetadataRequest → ModelMetadataResponse
model_metadata req = record { name = req.name; versions = codes "1" ∷ []; platform = codes "mock" }

unfoldable pub model_infer :
    Packages → MockConfig → MockTriton → ModelInferRequest → MockTriton × Result ModelInferResponse
model_infer pkg cfg s req = elim (extract_text pkg req) [
  | err status ↦ (s, err status)
  | ok text ↦
      let (s', result) = simulate_prefill pkg cfg s text in
      elim result [
        | err status ↦ (s', err status)
        | ok p ↦ (s', ok (make_response req p.cached p.total (codes "mock-completion")))
      ]
]

-- `for chunk in 0..decode_chunks`, with the rounds that are left: what it sends.
unfoldable pub chunk_loop :
    ℕ → ℕ → MockConfig → ModelInferRequest → Prefilled → List ModelStreamInferResponse
chunk_loop zero chunk cfg req p = []
chunk_loop (suc left) chunk cfg req p =
    record {
      error_message = [];
      infer_response = some (
          if chunk == cfg.decode_chunks - 1
          then make_response req p.cached p.total (codes "mock-final")
          else make_response req 0 0 (codes "mock-chunk"));
    }
    ∷ chunk_loop left (chunk + 1) cfg req p

abbrev pub error_item : Text → ModelStreamInferResponse
error_item message = record { error_message = message; infer_response = none }

-- One request of the client's stream: what is sent, and whether it was served.
unfoldable pub stream_request :
    Packages
    → MockConfig
    → MockTriton
    → ModelInferRequest
    → MockTriton × List ModelStreamInferResponse × Bool
stream_request pkg cfg s req = elim (extract_text pkg req) [
  | err status ↦ (s, error_item (pkg.display status.code status.message) ∷ [], false)
  | ok text ↦
      let (s', result) = simulate_prefill pkg cfg s text in
      elim result [
        | err status ↦ (s', error_item (pkg.display status.code status.message) ∷ [], false)
        | ok p ↦ (s', chunk_loop cfg.decode_chunks 0 cfg req p, true)
      ]
]

-- `while let Some(msg) = inbound.next().await`, for a client that takes `room` more messages and is
-- then gone. A chunk that cannot be sent ends the loop, an error message that cannot does not.
unfoldable pub stream_loop :
    Packages
    → MockConfig
    → Stream ModelInferRequest
    → ℕ
    → MockTriton
    → MockTriton × List ModelStreamInferResponse
stream_loop pkg cfg (ends closed) room s = (s, [])
stream_loop pkg cfg (ends (broken e)) room s =
    (s, take room (error_item (codes "stream recv: " ++ pkg.display e.code e.message) ∷ []))
stream_loop pkg cfg (yields req rest) room s =
    let (s', items, served) = stream_request pkg cfg s req in
    let (s'', later) = stream_loop pkg cfg rest (room - length items) s' in
    if served && ltb room (length items)
    then (s', take room items)
    else (s'', take room items ++ later)
