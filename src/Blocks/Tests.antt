-- ===== src/Blocks/Tests.antt =====
-- Runs of crates/protocol/src/blocks.rs, and instances of the theorems.
use dynamo_router.Base.{
  ℕ, zero, suc, ◌+◌, ◌<◌, ◌≡◌, refl, ◌≢◌, List, [], ◌∷◌, ◌++◌, arith, length, All, take,
}
use dynamo_router.Blocks.{u64_mod, fnv_offset, fnv_step, hash_block, hash_chunks, block_hashes}
use dynamo_router.Blocks.Hashes.{block_hashes-length, take-block_hashes}
use dynamo_router.Blocks.Divergence.{hash_block_token, block_hashes_position, hash_before}

abbrev count_up : ℕ → ℕ → List ℕ
count_up zero offset = []
count_up (suc n) offset = offset ∷ count_up n (offset + 1)

program : Unit {0}
unfolding fnv_step hash_block hash_chunks block_hashes
program = tt

one_block_of_zeros : block_hashes (count_up 1 7 ++ count_up 15 0) ≡ block_hashes (7 ∷ count_up 15 0)
unfolding program
one_block_of_zeros = refl

block_hashes-length_example :
    (length (block_hashes (count_up 33 5)) ≡ 2)
    × All (λ h. h < u64_mod) (block_hashes (count_up 33 5))
block_hashes-length_example = block_hashes-length (count_up 33 5)

take-block_hashes_example :
    take 2 (block_hashes (count_up 33 5 ++ count_up 20 9)) ≡ block_hashes (count_up 33 5)
take-block_hashes_example = take-block_hashes (count_up 33 5) (count_up 20 9)

hash_block_token_example :
    hash_block fnv_offset ((1 ∷ []) ++ 2 ∷ 3 ∷ []) ≢ hash_block fnv_offset ((1 ∷ []) ++ 4 ∷ 3 ∷ [])
hash_block_token_example =
    hash_block_token fnv_offset (1 ∷ []) (3 ∷ []) 2 4 (omega arith) (omega arith) (omega arith)
      (omega arith) (omega arith)

abbrev prompt : List ℕ
prompt = count_up 48 0

block_hashes_position_example :
    hash_before (block_hashes prompt) fnv_offset 2
    ≡ hash_before (block_hashes (prompt ++ 9 ∷ [])) fnv_offset 2
unfolding program
block_hashes_position_example =
    block_hashes_position prompt (prompt ++ 9 ∷ []) 2 2 _ (omega arith) refl refl refl
