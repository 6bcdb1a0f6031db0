-- ===== src/Prompt.antt =====
-- The text of a request and its block hashes: `extract_text` and `hash_prompt` of
-- crates/router/src/server.rs, and crates/router/src/tokenizer.rs.
use dynamo_router.Base.{
  ℕ, ◌⊎◌, inl, inr, Option, none, some, List, [], ◌∷◌, ◌++◌, if◌then◌else◌, head?, ◌>>=◌,
}
use dynamo_router.Text.{Text, codes, text_eq, is_utf8}
use dynamo_router.Protocol.{InferTensor, ModelInferRequest}
use dynamo_router.Rpc.{Result, ok, err, Packages}
use dynamo_router.Blocks.{block_hashes}

-- `inputs.iter().find(|i| i.name == name)`
unfoldable pub find_named : Text → List InferTensor → Option InferTensor
unfolding text_eq
find_named name [] = none
find_named name (i ∷ inputs) =
    let rest = find_named name inputs in if text_eq i.name name then some i else rest

-- `named.or_else(|| inputs.first())`
unfoldable pub or_first : Option InferTensor → List InferTensor → Option InferTensor
or_first none inputs = head? inputs
or_first (some i) inputs = some i

-- The first bytes of a tensor.
unfoldable pub tensor_bytes : Option InferTensor → Option Text
tensor_bytes tensor = do i ← tensor; c ← i.contents; head? c.bytes_contents

unfoldable pub decode_text : Packages → Option Text → Result Text
decode_text pkg none =
    err (record { code = pkg.invalid_argument; message = codes "missing text_input bytes tensor" })
decode_text pkg (some bytes) =
    if is_utf8 bytes
    then ok bytes
    else err (record { code = pkg.invalid_argument; message = codes "text_input not utf8" })

unfoldable pub extract_text : Packages → ModelInferRequest → Result Text
extract_text pkg req =
    decode_text pkg
      (tensor_bytes (or_first (find_named (codes "text_input") req.inputs) req.inputs))

-- `PromptTokenizer::tokenize`
unfoldable pub tokenize : Packages → Text → List ℕ ⊎ Text
tokenize pkg text = elim (pkg.encode text) [
  | inl ids ↦ inl ids
  | inr e ↦ inr (codes "tokenize: " ++ e)
]

unfoldable pub hash_prompt : Packages → Text → Result (List ℕ)
hash_prompt pkg text = elim (tokenize pkg text) [
  | inl tokens ↦ ok (block_hashes tokens)
  | inr e ↦ err (record { code = pkg.invalid_argument; message = e })
]
