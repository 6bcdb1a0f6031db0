-- ===== src/Mock/Chunks.antt =====
-- The chunks of a streamed response of a mock replica (crates/mock-triton/src/service.rs), as the load
-- generator would read them.
use dynamo_router.Base.{
  ℕ, zero, suc, ◌+◌, ◌-◌, ◌≡◌, refl, sym, ap, ◌∙◌, subst, true, false, none, some, List, [], ◌∷◌,
  map, arith, ◌==◌,
}
use dynamo_router.Text.{Text, codes, text_eq}
use dynamo_router.Float.Integer.{ℤ, pos}
use dynamo_router.Protocol.{ModelInferRequest, ModelStreamInferResponse}
use dynamo_router.Mock.{MockConfig, Prefilled, make_response, chunk_loop}
use dynamo_router.Loadgen.{get_parameter, int_of, param_i64}

-- The block count of a message.
abbrev pub counted : Text → ModelStreamInferResponse → ℤ
counted key item = elim item.infer_response [ none ↦ pos 0 | some resp ↦ param_i64 resp key ]

abbrev pub zeros_then : ℕ → ℕ → List ℤ
zeros_then zero n = pos n ∷ []
zeros_then (suc m) n = pos 0 ∷ zeros_then m n

abbrev Counts : List ModelStreamInferResponse → ℕ → Prefilled → Type 0
Counts items m p =
    (map (counted (codes "cached_blocks")) items ≡ zeros_then m p.cached)
    × (map (counted (codes "total_blocks")) items ≡ zeros_then m p.total)

chunk_loop-from :
    (cfg : MockConfig) (req : ModelInferRequest) (p : Prefilled) (m chunk : ℕ)
    → suc (chunk + m) ≡ cfg.decode_chunks
    → Counts (chunk_loop (suc m) chunk cfg req p) m p
unfolding chunk_loop make_response param_i64 get_parameter int_of text_eq
chunk_loop-from cfg req p zero chunk e =
    let last : (chunk == cfg.decode_chunks - 1) ≡ true = ground arith in rw last (refl, refl)
chunk_loop-from cfg req p (suc m) chunk e =
    let inner : (chunk == cfg.decode_chunks - 1) ≡ false = ground arith in
    let (cached, total) = chunk_loop-from cfg req p m (chunk + 1) (omega arith) in
    rw inner (ap (◌∷◌ (pos 0)) cached, ap (◌∷◌ (pos 0)) total)

-- A request is answered by `decode_chunks` chunks, if that is not 0: only the last one carries the
-- numbers of cached blocks and of blocks, and the others carry 0 of each.
pub chunk_loop-counted :
    (cfg : MockConfig) (req : ModelInferRequest) (p : Prefilled) (m : ℕ)
    → cfg.decode_chunks ≡ m + 1
    → (map (counted (codes "cached_blocks")) (chunk_loop cfg.decode_chunks 0 cfg req p)
        ≡ zeros_then m p.cached)
      × (map (counted (codes "total_blocks")) (chunk_loop cfg.decode_chunks 0 cfg req p)
          ≡ zeros_then m p.total)
chunk_loop-counted cfg req p m e =
    subst (λ n. Counts (chunk_loop n 0 cfg req p) m p) (sym (e ∙ omega arith))
      (chunk_loop-from cfg req p m 0 (omega arith))
