-- ===== src/Mock/Streams.antt =====
-- A client's stream of requests at a mock replica (`model_stream_infer` of
-- crates/mock-triton/src/service.rs) against the same requests one by one (`model_infer`).
use dynamo_router.Base.{ℕ, zero, suc, ◌<◌, ◌≡◌, ◌⊎◌, Bool, List, [], ◌∷◌, ◌++◌, map, length, take}
use dynamo_router.Text.{Text, codes}
use dynamo_router.Float.Integer.{ℤ, pos}
use dynamo_router.Protocol.{ModelInferRequest, ModelInferResponse, ModelStreamInferResponse}
use dynamo_router.Rpc.{Result, ok, err, Packages}
use dynamo_router.Task.{Stream, ends, yields, closed, broken}
use dynamo_router.Mock.{
  MockConfig, MockTriton, model_infer, error_item, stream_request, stream_loop,
}
use dynamo_router.Mock.Chunks.{counted}
use dynamo_router.Loadgen.{param_i64}

-- As many numbers as there are chunks: 0, but for the last one.
abbrev pub last_only : ℕ → ℤ → List ℤ
last_only zero v = []
last_only (suc zero) v = v ∷ []
last_only (suc (suc m)) v = pos 0 ∷ last_only (suc m) v

module _ (pkg : Packages) (cfg : MockConfig) where
  -- What one request is sent, by the result that it would have had on its own.
  abbrev pub Answer : Result ModelInferResponse → List ModelStreamInferResponse → Type 0
  Answer (err status) now = now ≡ error_item (pkg.display status.code status.message) ∷ []
  Answer (ok resp) now =
      (map (counted (codes "cached_blocks")) now
        ≡ last_only cfg.decode_chunks (param_i64 resp (codes "cached_blocks")))
      × (map (counted (codes "total_blocks")) now
          ≡ last_only cfg.decode_chunks (param_i64 resp (codes "total_blocks")))

  -- What the requests of a stream are sent, one after the other.
  abbrev pub Answers :
      Stream ModelInferRequest → MockTriton → List ModelStreamInferResponse → Type 0
  Answers (ends closed) s items = items ≡ []
  Answers (ends (broken e)) s items =
      items ≡ error_item (codes "stream recv: " ++ pkg.display e.code e.message) ∷ []
  Answers (yields req rest) s items =
      (now : List ModelStreamInferResponse) × (later : List ModelStreamInferResponse) × (items
        ≡ now ++ later)
      × Answer (model_infer pkg cfg s req).1 now
      × Answers rest (model_infer pkg cfg s req).0 later

  -- The replica after the requests, each on its own.
  abbrev pub after_all : Stream ModelInferRequest → MockTriton → MockTriton
  after_all (ends e) s = s
  after_all (yields req rest) s = after_all rest (model_infer pkg cfg s req).0

  -- The answer to one request of a stream.
  abbrev Served : MockTriton → ModelInferRequest → Type 0
  Served s req =
      (now : List ModelStreamInferResponse) × (served : Bool) × (stream_request pkg cfg s req
        ≡ ((model_infer pkg cfg s req).0, now, served))
      × Answer (model_infer pkg cfg s req).1 now

  -- A client that takes `room` messages, of `items`.
  abbrev Sends : Stream ModelInferRequest → MockTriton → List ModelStreamInferResponse → ℕ → Type 0
  Sends inbound s items room =
      ((stream_loop pkg cfg inbound room s).1 ≡ take room items)
      × (((stream_loop pkg cfg inbound room s).0 ≡ after_all inbound s) ⊎ (room < length items))
