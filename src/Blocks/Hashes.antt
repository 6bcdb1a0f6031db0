-- ===== src/Blocks/Hashes.antt =====
-- How many hashes there are, their range, and that equal token prefixes give equal hash prefixes
-- (crates/protocol/src/blocks.rs).
use mathlib.Core.Path.{ap₂}
use dynamo_router.Base.{
  ℕ, zero, suc, ◌-◌, ◌*◌, ◌/◌, ◌≤◌, ◌<◌, ◌≡◌, refl, ap, ◌∙◌, List, [], ◌∷◌, ◌++◌, arith, length,
  All, take, drop, length-append,
}
use dynamo_router.Blocks.{
  block_size, u64_mod, fnv_offset, fnv_step, hash_block, hash_chunks, block_hashes,
}

fnv_step-lt : (h t : ℕ) → fnv_step h t < u64_mod
unfolding fnv_step
fnv_step-lt h t = omega arith

hash_block-lt : (h : ℕ) (block : List ℕ) → h < u64_mod → hash_block h block < u64_mod
unfolding hash_block
hash_block-lt h [] lt = lt
hash_block-lt h (t ∷ block) lt = hash_block-lt (fnv_step h t) block (fnv_step-lt h t)

length-hash_chunks : (n prev : ℕ) (tokens : List ℕ) → length (hash_chunks n prev tokens) ≡ n
unfolding hash_chunks
length-hash_chunks zero prev tokens = refl
length-hash_chunks (suc n) prev tokens =
    ap suc
      (length-hash_chunks n (hash_block prev (take block_size tokens)) (drop block_size tokens))

hash_chunks-lt :
    (n prev : ℕ) (tokens : List ℕ)
    → prev < u64_mod
    → All (λ h. h < u64_mod) (hash_chunks n prev tokens)
unfolding hash_chunks
hash_chunks-lt zero prev tokens lt = tt
hash_chunks-lt (suc n) prev tokens lt =
    let h = hash_block prev (take block_size tokens) in
    let lt' = hash_block-lt prev (take block_size tokens) lt in
    (lt', hash_chunks-lt n h (drop block_size tokens) lt')

-- There is a hash for each whole block of 16 tokens, a rest is dropped, and each is a u64.
pub block_hashes-length :
    (tokens : List ℕ)
    → (length (block_hashes tokens) ≡ length tokens / block_size)
      × All (λ h. h < u64_mod) (block_hashes tokens)
unfolding block_hashes
block_hashes-length tokens = (
  length-hash_chunks (length tokens / block_size) fnv_offset tokens,
  hash_chunks-lt (length tokens / block_size) fnv_offset tokens (omega arith),
)

take-length_append {ℓ} : {A : Type ℓ} (xs ys : List A) → take (length xs) (xs ++ ys) ≡ xs
take-length_append [] ys = refl
take-length_append (x ∷ xs) ys = ap (◌∷◌ x) (take-length_append xs ys)

drop-length_append {ℓ} : {A : Type ℓ} (xs ys : List A) → drop (length xs) (xs ++ ys) ≡ ys
drop-length_append [] ys = refl
drop-length_append (x ∷ xs) ys = drop-length_append xs ys

take-drop_append {ℓ} :
    {A : Type ℓ} (n : ℕ) (xs ys : List A)
    → n ≤ length xs
    → (take n (xs ++ ys) ≡ take n xs) × (drop n (xs ++ ys) ≡ drop n xs ++ ys)
take-drop_append zero xs ys le = (refl, refl)
take-drop_append (suc n) [] ys le = absurd (omega arith)
take-drop_append (suc n) (x ∷ xs) ys le =
    let (t, d) = take-drop_append n xs ys (omega arith) in (ap (◌∷◌ x) t, d)

length-drop {ℓ} : {A : Type ℓ} (n : ℕ) (xs : List A) → length (drop n xs) ≡ length xs - n
length-drop zero xs = omega arith
length-drop (suc n) [] = omega arith
length-drop (suc n) (x ∷ xs) = omega (arith, length-drop n xs)

-- More tokens only add hashes.
hash_chunks-append :
    (n more prev : ℕ) (xs ys : List ℕ)
    → n * block_size ≤ length xs
    → n ≤ more
    → take n (hash_chunks more prev (xs ++ ys)) ≡ hash_chunks n prev xs
unfolding hash_chunks
hash_chunks-append zero more prev xs ys le within = refl
hash_chunks-append (suc n) zero prev xs ys le within = absurd (omega arith)
hash_chunks-append (suc n) (suc more) prev xs ys le within =
    let (t, d) = take-drop_append block_size xs ys (omega arith) in
    let h = hash_block prev (take block_size xs) in
    let same : hash_block prev (take block_size (xs ++ ys)) ≡ h = ap (hash_block prev) t in
    let tail : take n (hash_chunks more h (drop block_size xs ++ ys))
        ≡ hash_chunks n h (drop block_size xs) =
      hash_chunks-append n more h (drop block_size xs) ys (omega (arith, length-drop block_size xs))
        (omega arith) in
    ap₂ (λ k rest. k ∷ rest) same (ap₂ (λ k rest. take n (hash_chunks more k rest)) same d ∙ tail)

-- A prompt that begins with the tokens of another begins with its hashes: two prompts share a hash
-- for each whole block of their common beginning.
pub take-block_hashes :
    (xs ys : List ℕ) → take (length xs / block_size) (block_hashes (xs ++ ys)) ≡ block_hashes xs
unfolding block_hashes
take-block_hashes xs ys =
    hash_chunks-append (length xs / block_size) (length (xs ++ ys) / block_size) fnv_offset xs ys
      (omega arith) (omega (arith, length-append xs ys))
