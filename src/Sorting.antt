-- ===== src/Sorting.antt =====
-- Sorting numbers, as the standard library's stable sorts do (crates/loadgen/src/main.rs,
-- crates/router/src/scheduler.rs).
use dynamo_router.Base.{
  ℕ, ◌+◌, ◌≤◌, ◌≡◌, refl, sym, ◌∙◌, ◌⊎◌, inl, inr, List, [], ◌∷◌, arith, leb, if◌then◌else◌,
  Bool-cases, length, In, All,
}

unfoldable pub insert_sorted : ℕ → List ℕ → List ℕ
insert_sorted x [] = x ∷ []
insert_sorted x (y ∷ ys) = if leb x y then x ∷ y ∷ ys else y ∷ insert_sorted x ys

unfoldable pub sort : List ℕ → List ℕ
unfolding insert_sorted
sort [] = []
sort (x ∷ xs) = insert_sorted x (sort xs)

abbrev pub tally : (ℕ → ℕ) → List ℕ → ℕ
tally f [] = 0
tally f (x ∷ xs) = f x + tally f xs

abbrev pub IsSorted : List ℕ → Type 0
IsSorted [] = Unit
IsSorted (x ∷ xs) = All (λ y. x ≤ y) xs × IsSorted xs

tally-insert_sorted :
    (f : ℕ → ℕ) (x : ℕ) (ys : List ℕ) → tally f (insert_sorted x ys) ≡ f x + tally f ys
unfolding insert_sorted
tally-insert_sorted f x [] = refl
tally-insert_sorted f x (y ∷ ys) = elim (Bool-cases (leb x y)) [
  | inl le ↦ rw le refl
  | inr gt ↦ rw gt (omega (arith, tally-insert_sorted f x ys))
]

pub tally-sort : (f : ℕ → ℕ) (xs : List ℕ) → tally f (sort xs) ≡ tally f xs
unfolding sort
tally-sort f [] = refl
tally-sort f (x ∷ xs) = omega (arith, tally-insert_sorted f x (sort xs), tally-sort f xs)

pub tally_ones : (xs : List ℕ) → tally (λ x. 1) xs ≡ length xs
tally_ones [] = refl
tally_ones (x ∷ xs) = omega (arith, tally_ones xs)

pub length-sort : (xs : List ℕ) → length (sort xs) ≡ length xs
length-sort xs = sym (tally_ones (sort xs)) ∙ tally-sort (λ x. 1) xs ∙ tally_ones xs

All-insert_sorted :
    (P : ℕ → Type 0) (x : ℕ) (ys : List ℕ) → P x → All P ys → All P (insert_sorted x ys)
unfolding insert_sorted
All-insert_sorted P x [] p all = (p, tt)
All-insert_sorted P x (y ∷ ys) p all = elim (Bool-cases (leb x y)) [
  | inl le ↦ rw le (p, all)
  | inr gt ↦ rw gt (all.0, All-insert_sorted P x ys p all.1)
]

All-mono : {P Q : ℕ → Type 0} (xs : List ℕ) → ((x : ℕ) → P x → Q x) → All P xs → All Q xs
All-mono [] imp all = tt
All-mono (x ∷ xs) imp (p, all) = (imp x p, All-mono xs imp all)

insert_sorted-IsSorted : (x : ℕ) (ys : List ℕ) → IsSorted ys → IsSorted (insert_sorted x ys)
unfolding insert_sorted
insert_sorted-IsSorted x [] s = (tt, tt)
insert_sorted-IsSorted x (y ∷ ys) s = elim (Bool-cases (leb x y)) [
  | inl le ↦ rw le ((ground arith, All-mono ys (λ z h. ground arith) s.0), s)
  | inr gt ↦
      rw gt
        (All-insert_sorted (λ z. y ≤ z) x ys (ground arith) s.0, insert_sorted-IsSorted x ys s.1)
]

pub sort-IsSorted : (xs : List ℕ) → IsSorted (sort xs)
unfolding sort
sort-IsSorted [] = tt
sort-IsSorted (x ∷ xs) = insert_sorted-IsSorted x (sort xs) (sort-IsSorted xs)

In-insert_sorted : (v x : ℕ) (ys : List ℕ) → In v (insert_sorted x ys) → (v ≡ x) ⊎ In v ys
unfolding insert_sorted
In-insert_sorted v x [] = λ i. i
In-insert_sorted v x (y ∷ ys) = elim (Bool-cases (leb x y)) [
  | inl le ↦ rw le (λ i. i)
  | inr gt ↦
      let before = In-insert_sorted v x ys in
      rw gt (λ i. elim i [
        | inl e ↦ inr (inl e)
        | inr later ↦ elim (before later) [ inl e ↦ inl e | inr old ↦ inr (inr old) ]
      ])
]

pub In-sort : (v : ℕ) (xs : List ℕ) → In v (sort xs) → In v xs
unfolding sort
In-sort v [] i = i
In-sort v (x ∷ xs) i = elim (In-insert_sorted v x (sort xs) i) [
  | inl e ↦ inl e
  | inr old ↦ inr (In-sort v xs old)
]
