-- ===== src/Blocks.antt =====
-- The chained FNV-1a hashes of a prompt's blocks (crates/protocol/src/blocks.rs). Tokens are u32 and
-- hashes u64 values, as numbers; `wrapping_mul` keeps the remainder by 2 ^ 64.
pub mod Xor
pub mod Hashes
pub mod Divergence
mod UnitTests
mod Tests
use Prim.Native.Nat.{bit_xor}
use dynamo_router.Base.{
  ℕ, zero, suc, ◌+◌, ◌-◌, ◌*◌, ◌/◌, ◌%◌, ◌^◌, ◌≤◌, ◌<◌, min, max, ◌≡◌, refl, sym, ap, ◌∙◌, subst,
  ◌≢◌, ◌↔◌, ◌⊎◌, inl, inr, Bool, true, false, not, ◌&&◌, ◌||◌, Option, none, some, List, [], ◌∷◌,
  ◌++◌, map, arith, dec_lt, ℕ_discrete, ltb, leb, ◌==◌, if◌then◌else◌, ltb→lt, lt→ltb, ge→ltb,
  ltb→ge, ==_iff, ==_refl, ==_ne, tests, Bool-cases, Option-cases, length, get_elem?, head?, ◌>>=◌,
  set, In, All, take, drop, take_of_length-le, length-take_of_le, length-append, length-set,
  get_elem?-set_self, get_elem?-set_ne, get_elem?-lt, get_elem?_of_lt, All-In, All-of_In,
  All-append_left, All-append_right, length-map, range,
}

abbrev pub block_size : ℕ
block_size = 16

abbrev pub u64_mod : ℕ
u64_mod = 2 ^ 64

abbrev pub fnv_offset : ℕ
fnv_offset = 0xcbf29ce484222325

abbrev pub fnv_prime : ℕ
fnv_prime = 0x100000001b3

-- `h ^= t as u64; h = h.wrapping_mul(0x100000001b3);`
unfoldable pub fnv_step : ℕ → ℕ → ℕ
fnv_step h t = bit_xor h t * fnv_prime % u64_mod

-- `for &t in block`
unfoldable pub hash_block : ℕ → List ℕ → ℕ
hash_block h [] = h
hash_block h (t ∷ block) = hash_block (fnv_step h t) block

-- `for block in tokens.chunks_exact(BLOCK_SIZE)`, with the number of chunks.
unfoldable pub hash_chunks : ℕ → ℕ → List ℕ → List ℕ
hash_chunks zero prev tokens = []
hash_chunks (suc chunks) prev tokens =
    let h = hash_block prev (take block_size tokens) in
    h ∷ hash_chunks chunks h (drop block_size tokens)

unfoldable pub block_hashes : List ℕ → List ℕ
block_hashes tokens = hash_chunks (length tokens / block_size) fnv_offset tokens
