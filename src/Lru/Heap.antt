-- ===== src/Lru/Heap.antt =====
-- The order of the eviction candidates, and what `pop` takes from a heap.
use dynamo_router.Base.{
  suc, ◌≤◌, ◌<◌, ◌≡◌, refl, subst, ◌⊎◌, inl, inr, Bool, true, false, some, List, [], ◌∷◌, arith,
  if◌then◌else◌, length, In,
}
use mathlib.Core.Option.{some-injective}
use mathlib.Core.Path.{subst}
use dynamo_router.Lru.{Entry, outranks, select, pop}

-- `a` is popped no later than `b`.
abbrev pub Ranks : Entry → Entry → Type 0
Ranks a b =
    (a.access < b.access)
    ⊎ ((a.access ≡ b.access) × ((b.seq < a.seq) ⊎ ((a.seq ≡ b.seq) × (b.hash ≤ a.hash))))

pub Ranks-refl : (a : Entry) → Ranks a a
Ranks-refl a = ground arith

pub Ranks-trans : (a b c : Entry) → Ranks a b → Ranks b c → Ranks a c
Ranks-trans a b c p q = ground arith

pub Ranks-antisymm : (a b : Entry) → Ranks a b → Ranks b a → a ≡ b
Ranks-antisymm a b p q = ground arith

pub Ranks-of_outranks : (a b : Entry) → outranks a b ≡ true → Ranks a b
unfolding outranks
Ranks-of_outranks a b h = ground arith

pub Ranks-of_not_outranks : (a b : Entry) → outranks a b ≡ false → Ranks b a
unfolding outranks
Ranks-of_not_outranks a b h = ground arith

-- What `select` and `pop` promise: the top ranks over all, and nothing is lost or added.
pub record Top (xs : List Entry) (e : Entry) (rest : List Entry) : Type 0 where
  pub member : In e xs
  pub first : (x : Entry) → In x xs → Ranks e x
  pub keeps : (x : Entry) → In x xs → (x ≡ e) ⊎ In x rest
  pub adds_none : (x : Entry) → In x rest → In x xs
  pub size : length xs ≡ suc (length rest)

select_step :
    (best x : Entry) (xs : List Entry) (wins : Bool) (top : Entry × List Entry)
    → outranks x best ≡ wins
    → Top ((if wins then x else best) ∷ xs) top.0 top.1
    → Top (best ∷ x ∷ xs) top.0 ((if wins then best else x) ∷ top.1)
select_step best x xs true top w t = record {
  member = grind (arith, t.member);
  first = λ y i. elim i [
    | inl e ↦ grind (arith, t.first x (inl refl), Ranks-of_outranks x best w, Ranks-trans)
    | inr i' ↦ t.first y i'
  ];
  keeps = λ y i. grind (arith, t.keeps y);
  adds_none = λ y i. grind (arith, t.adds_none y);
  size = omega (arith, t.size);
}
select_step best x xs false top w t = record {
  member = grind (arith, t.member);
  first = λ y i.
      grind
        (arith, t.first y, t.first best (inl refl), Ranks-of_not_outranks x best w, Ranks-trans);
  keeps = λ y i. grind (arith, t.keeps y);
  adds_none = λ y i. grind (arith, t.adds_none y);
  size = omega (arith, t.size);
}

select-Top :
    (best : Entry) (xs : List Entry) → Top (best ∷ xs) (select best xs).0 (select best xs).1
unfolding select
select-Top best [] = record {
  member = inl refl;
  first = λ y i. ground (arith, Ranks-refl best);
  keeps = λ y i. i;
  adds_none = λ y i. absurd i;
  size = refl;
}
select-Top best (x ∷ xs) =
    select_step best x xs (outranks x best) (select (if outranks x best then x else best) xs) refl
      (select-Top (if outranks x best then x else best) xs)

pub pop-Top :
    (xs : List Entry) (e : Entry) (rest : List Entry) → pop xs ≡ some (e, rest) → Top xs e rest
unfolding pop
pop-Top [] e rest h = cc
pop-Top (x ∷ xs) e rest h =
    subst (λ (t : Entry × List Entry). Top (x ∷ xs) t.0 t.1) (some-injective _ _ h)
      (select-Top x xs)
