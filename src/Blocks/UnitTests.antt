-- ===== src/Blocks/UnitTests.antt =====
-- The unit tests of crates/protocol/src/blocks.rs.
use dynamo_router.Base.{
  ℕ, ◌≡◌, refl, Bool, true, false, not, ◌&&◌, Option, some, List, [], ◌∷◌, ◌++◌, ◌==◌, length,
  get_elem?, ◌>>=◌, take, range,
}
use dynamo_router.Blocks.{fnv_step, hash_block, hash_chunks, block_hashes}

program : Unit {0}
unfolding fnv_step hash_block hash_chunks block_hashes
program = tt

abbrev toks : ℕ → ℕ → List ℕ
toks n offset = range offset n

-- Element-wise `==` of slices.
abbrev same_hashes : List ℕ → List ℕ → Bool
same_hashes [] [] = true
same_hashes [] (y ∷ ys) = false
same_hashes (x ∷ xs) [] = false
same_hashes (x ∷ xs) (y ∷ ys) = x == y && same_hashes xs ys

abbrev shared_prefix_shares_hashes : Option Bool
shared_prefix_shares_hashes = do
  let a = block_hashes (toks 64 0)
  let b = block_hashes (toks 48 0 ++ toks 16 999)
  a3 ← get_elem? a 3
  b3 ← get_elem? b 3
  some (length a == 4 && same_hashes (take 3 a) (take 3 b) && not (a3 == b3))

abbrev position_matters : Option Bool
position_matters = do
  hx ← get_elem? (block_hashes (toks 16 0 ++ toks 16 100)) 1
  hy ← get_elem? (block_hashes (toks 16 50 ++ toks 16 100)) 1
  some (not (hx == hy))

abbrev partial_block_dropped : Bool
partial_block_dropped =
    length (block_hashes (toks 15 0)) == 0 && length (block_hashes (toks 17 0)) == 1

unit_tests_pass :
    (shared_prefix_shares_hashes ≡ some true)
    × (position_matters ≡ some true)
    × (partial_block_dropped ≡ true)
unfolding program
unit_tests_pass = (refl, refl, refl)
