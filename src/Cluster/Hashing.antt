-- ===== src/Cluster/Hashing.antt =====
-- The prompt of a load generator's request, as crates/router/src/server.rs reads and hashes it.
use dynamo_router.Base.{ℕ, ◌≡◌, refl, ◌⊎◌, inl, inr, true, List, ◌++◌, Bool-cases}
use dynamo_router.Text.{Text, codes, is_utf8, text_eq}
use dynamo_router.Blocks.{block_hashes}
use dynamo_router.Rpc.{Result, ok, err, Packages}
use dynamo_router.Loadgen.{infer_request}
use dynamo_router.Loadgen.Replay.{infer_request_read}
use dynamo_router.Prompt
use dynamo_router.Prompt.{hash_prompt, tokenize}
use dynamo_router.Server.{request_hashes}

module _ (pkg : Packages) where
  -- A prompt that is not UTF-8, or that the tokenizer refuses, changes nothing.
  abbrev pub Hashed : Text → Result (List ℕ) → Type 0
  Hashed text (ok hashes) =
      (ids : List ℕ) × (is_utf8 text ≡ true)
      × (pkg.encode text ≡ inl ids)
      × (hashes ≡ block_hashes ids)
  Hashed text (err status) = Unit {0}

  encoded-Hashed :
      (text : Text) (tokens : List ℕ ⊎ Text)
      → is_utf8 text ≡ true
      → pkg.encode text ≡ tokens
      → (r : Result (List ℕ)) × (request_hashes pkg (infer_request text) ≡ r) × Hashed text r
  unfolding request_hashes hash_prompt tokenize
  encoded-Hashed text (inl ids) utf8 e = (
    ok (block_hashes ids),
    rw (
      request_hashes,
      (infer_request_read pkg text (infer_request text) 0 0 0 utf8).0,
      hash_prompt,
      tokenize,
      e,
    ),
    (ids, utf8, e, refl),
  )
  encoded-Hashed text (inr message) utf8 e = (
    err (record { code = pkg.invalid_argument; message = codes "tokenize: " ++ message }),
    rw (
      request_hashes,
      (infer_request_read pkg text (infer_request text) 0 0 0 utf8).0,
      hash_prompt,
      tokenize,
      e,
    ),
    tt,
  )

  pub request-Hashed :
      (text : Text)
      → (r : Result (List ℕ)) × (request_hashes pkg (infer_request text) ≡ r) × Hashed text r
  unfolding request_hashes Prompt.extract_text Prompt.find_named Prompt.or_first Prompt.tensor_bytes
      Prompt.decode_text infer_request text_eq
  request-Hashed text = elim (Bool-cases (is_utf8 text)) [
    | inl utf8 ↦ encoded-Hashed text (pkg.encode text) utf8 refl
    | inr bad ↦ (
      err (record { code = pkg.invalid_argument; message = codes "text_input not utf8" }),
      rw (request_hashes, bad),
      tt,
    )
  ]
