-- ===== src/Blocks/Divergence.antt =====
-- Where prompts differ, hashes differ (crates/protocol/src/blocks.rs): one step of FNV-1a loses
-- neither the hash before it nor the token.
use mathlib.Core.Option.{some-injective}
use Prim.Native.Nat.{bit_xor}
use dynamo_router.Base.{
  ℕ, zero, suc, ◌*◌, ◌/◌, ◌%◌, ◌<◌, ◌≡◌, sym, ap, ◌∙◌, ◌≢◌, some, List, [], ◌∷◌, ◌++◌, arith,
  length, get_elem?, All, take, drop,
}
use dynamo_router.Blocks.{
  block_size, u64_mod, fnv_offset, fnv_prime, fnv_step, hash_block, hash_chunks, block_hashes,
}
use dynamo_router.Blocks.Xor.{bit_xor_cancel_right, bit_xor_cancel_left, bit_xor-lt}

-- The inverse of the FNV prime modulo 2 ^ 64.
abbrev fnv_inverse : ℕ
fnv_inverse = 0xce965057aff6957b

undo_prime : (x : ℕ) → x < u64_mod → x * fnv_prime % u64_mod * fnv_inverse % u64_mod ≡ x
undo_prime x lt = omega arith

times_prime_cancel :
    (x y : ℕ)
    → x < u64_mod
    → y < u64_mod
    → x * fnv_prime % u64_mod ≡ y * fnv_prime % u64_mod
    → x ≡ y
times_prime_cancel x y p q e =
    sym (undo_prime x p) ∙ ap (λ (z : ℕ). z * fnv_inverse % u64_mod) e ∙ undo_prime y q

abbrev IsWord : ℕ → Type 0
IsWord x = x < u64_mod

fnv_step-lt : (h t : ℕ) → IsWord (fnv_step h t)
unfolding fnv_step
fnv_step-lt h t = omega arith

fnv_step_cancel_hash :
    (h k t : ℕ) → IsWord h → IsWord k → IsWord t → fnv_step h t ≡ fnv_step k t → h ≡ k
unfolding fnv_step
fnv_step_cancel_hash h k t p q r e = bit_xor_cancel_right h k t (
    times_prime_cancel (bit_xor h t) (bit_xor k t) (bit_xor-lt 64 h t p r) (bit_xor-lt 64 k t q r)
      e)

fnv_step_cancel_token :
    (h t u : ℕ) → IsWord h → IsWord t → IsWord u → fnv_step h t ≡ fnv_step h u → t ≡ u
unfolding fnv_step
fnv_step_cancel_token h t u p q r e = bit_xor_cancel_left h t u (
    times_prime_cancel (bit_xor h t) (bit_xor h u) (bit_xor-lt 64 h t p q) (bit_xor-lt 64 h u p r)
      e)

hash_block_cancel :
    (h k : ℕ) (block : List ℕ)
    → IsWord h
    → IsWord k
    → All IsWord block
    → hash_block h block ≡ hash_block k block
    → h ≡ k
unfolding hash_block
hash_block_cancel h k [] p q r e = e
hash_block_cancel h k (t ∷ block) p q r e = fnv_step_cancel_hash h k t p q r.0 (
    hash_block_cancel (fnv_step h t) (fnv_step k t) block (fnv_step-lt h t) (fnv_step-lt k t) r.1 e)

hash_block-lt : (h : ℕ) (block : List ℕ) → IsWord h → IsWord (hash_block h block)
unfolding hash_block
hash_block-lt h [] p = p
hash_block-lt h (t ∷ block) p = hash_block-lt (fnv_step h t) block (fnv_step-lt h t)

-- One changed token of a block changes the hash of the block.
pub hash_block_token :
    (h : ℕ) (before after : List ℕ) (t u : ℕ)
    → h < u64_mod
    → t < u64_mod
    → u < u64_mod
    → All (λ x. x < u64_mod) after
    → t ≢ u
    → hash_block h (before ++ t ∷ after) ≢ hash_block h (before ++ u ∷ after)
unfolding hash_block
hash_block_token h [] after t u p q r s ne = λ e. ne (
    fnv_step_cancel_token h t u p q r (
      hash_block_cancel (fnv_step h t) (fnv_step h u) after (fnv_step-lt h t) (fnv_step-lt h u) s
        e))
hash_block_token h (x ∷ before) after t u p q r s ne =
    hash_block_token (fnv_step h x) before after t u (fnv_step-lt h x) q r s ne

-- The hash that block number `i` starts from: the one before it, or the offset.
pub hash_before : List ℕ → ℕ → ℕ → ℕ
hash_before hashes prev zero = prev
hash_before [] prev (suc i) = prev
hash_before (h ∷ hashes) prev (suc i) = hash_before hashes h i

-- Block number `i` of a prompt.
abbrev pub block_at : ℕ → List ℕ → List ℕ
block_at zero tokens = take block_size tokens
block_at (suc i) tokens = block_at i (drop block_size tokens)

All-take : (n : ℕ) (xs : List ℕ) → All IsWord xs → All IsWord (take n xs)
All-take zero xs a = tt
All-take (suc n) [] a = tt
All-take (suc n) (x ∷ xs) a = (a.0, All-take n xs a.1)

All-drop : (n : ℕ) (xs : List ℕ) → All IsWord xs → All IsWord (drop n xs)
All-drop zero xs a = a
All-drop (suc n) [] a = tt
All-drop (suc n) (x ∷ xs) a = All-drop n xs a.1

All-block_at : (i : ℕ) (tokens : List ℕ) → All IsWord tokens → All IsWord (block_at i tokens)
All-block_at zero tokens a = All-take block_size tokens a
All-block_at (suc i) tokens a =
    All-block_at i (drop block_size tokens) (All-drop block_size tokens a)

hash_chunks_at :
    (n prev i h : ℕ) (tokens : List ℕ)
    → IsWord prev
    → get_elem? (hash_chunks n prev tokens) i ≡ some h
    → (h ≡ hash_block (hash_before (hash_chunks n prev tokens) prev i) (block_at i tokens))
      × IsWord (hash_before (hash_chunks n prev tokens) prev i)
unfolding hash_chunks hash_before
hash_chunks_at zero prev i h tokens p e = cc
hash_chunks_at (suc n) prev zero h tokens p e = (sym (some-injective _ _ e), p)
hash_chunks_at (suc n) prev (suc i) h tokens p e =
    hash_chunks_at n (hash_block prev (take block_size tokens)) i h (drop block_size tokens)
      (hash_block-lt prev (take block_size tokens) p) e

-- Position matters: where two prompts have the same block and the same hash for it, at any two
-- positions, the hashes that the two blocks start from are the same. So the same block behind
-- different hashes never gets the same hash.
pub block_hashes_position :
    (xs ys : List ℕ) (i j h : ℕ)
    → All (λ t. t < u64_mod) xs
    → get_elem? (block_hashes xs) i ≡ some h
    → get_elem? (block_hashes ys) j ≡ some h
    → block_at i xs ≡ block_at j ys
    → hash_before (block_hashes xs) fnv_offset i ≡ hash_before (block_hashes ys) fnv_offset j
unfolding block_hashes
block_hashes_position xs ys i j h words e f same =
    let (hx, wx) = hash_chunks_at (length xs / block_size) fnv_offset i h xs (omega arith) e in
    let (hy, wy) = hash_chunks_at (length ys / block_size) fnv_offset j h ys (omega arith) f in
    hash_block_cancel _ _ (block_at i xs) wx wy (All-block_at i xs words)
      (sym hx ∙ hy ∙ ap (hash_block (hash_before (block_hashes ys) fnv_offset j)) (sym same))
