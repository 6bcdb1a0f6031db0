-- ===== src/Lru/Ideal.antt =====
-- The abstract view of eviction, with no heap: a block stays exactly when fewer blocks than the
-- budget are more recent.
use dynamo_router.Base.{
  ℕ, ◌+◌, ◌≤◌, ◌<◌, ◌≡◌, refl, inl, inr, true, false, Option, none, some, List, [], ◌∷◌, arith, ltb,
  if◌then◌else◌, Option-cases, length, In,
}
use dynamo_router.Lru.{Entry, get, insert, remove, outranks}
use dynamo_router.Lru.BlockMap.{Distinct, hash-get, In-get, get-remove, length-remove, In-remove}
use dynamo_router.Lru.Heap.{Ranks, Ranks-antisymm, Ranks-of_outranks, Ranks-of_not_outranks}

-- How many blocks of the map are evicted only after `b`.
unfoldable pub newer : Entry → List Entry → ℕ
newer b [] = 0
newer b (x ∷ m) = (if outranks b x then 1 else 0) + newer b m

unfoldable pub ideal_get : ℕ → ℕ → List Entry → Option Entry
ideal_get budget h m = elim (get h m) [
  | none ↦ none
  | some b ↦ if ltb (newer b m) budget then some b else none
]

pub newer-remove :
    (b : Entry) (h : ℕ) (m : List Entry) (x : Entry)
    → get h m ≡ some x
    → newer b (remove h m) + (if outranks b x then 1 else 0) ≡ newer b m
unfolding newer get remove
newer-remove b h [] x e = cc
newer-remove b h (y ∷ m) x e = ground (arith, newer-remove b h m x)

pub newer-insert_fresh :
    (b e : Entry) (m : List Entry)
    → get e.hash m ≡ none
    → newer b (insert e m) ≡ newer b m + (if outranks b e then 1 else 0)
unfolding newer get insert
newer-insert_fresh b e [] g = omega arith
newer-insert_fresh b e (y ∷ m) g = ground (arith, newer-insert_fresh b e m)

pub newer-insert_present :
    (b e : Entry) (m : List Entry) (x : Entry)
    → get e.hash m ≡ some x
    → newer b (insert e m) + (if outranks b x then 1 else 0)
      ≡ newer b m + (if outranks b e then 1 else 0)
unfolding newer get insert
newer-insert_present b e [] x g = cc
newer-insert_present b e (y ∷ m) x g = ground (arith, newer-insert_present b e m x)

pub outranks_irrefl : (b : Entry) → outranks b b ≡ false
unfolding outranks
outranks_irrefl b = ground arith

pub newer-le-length : (b : Entry) (m : List Entry) → newer b m ≤ length m
unfolding newer
newer-le-length b [] = omega arith
newer-le-length b (x ∷ m) = ground (arith, newer-le-length b m)

pub newer-lt-length : (b : Entry) (m : List Entry) → In b m → newer b m < length m
unfolding newer
newer-lt-length b [] i = elim i [ ]
newer-lt-length b (x ∷ m) (inl e) = rw (← e, outranks_irrefl b) (omega (arith, newer-le-length b m))
newer-lt-length b (x ∷ m) (inr i) = ground (arith, newer-lt-length b m i)

-- All the others are newer than an entry that outranks them.
newer_of_all :
    (e : Entry) (m : List Entry)
    → ((x : Entry) → In x m → outranks e x ≡ true)
    → newer e m ≡ length m
unfolding newer
newer_of_all e [] f = refl
newer_of_all e (x ∷ m) f =
    rw (f x (inl refl)) (omega (arith, newer_of_all e m (λ y i. f y (inr i))))

-- The first to be evicted is older than all the others.
pub newer-first :
    (e : Entry) (m : List Entry)
    → Distinct m
    → get e.hash m ≡ some e
    → ((x : Entry) → In x m → Ranks e x)
    → newer e m + 1 ≡ length m
newer-first e m d g top = ground (
  arith,
  newer-remove e e.hash m e g,
  outranks_irrefl e,
  length-remove e.hash m e g,
  newer_of_all e (remove e.hash m) above,
)
  where
    above : (x : Entry) → In x (remove e.hash m) → outranks e x ≡ true
    above x i =
        ground
          (arith, In-remove e.hash m x d i, top x, Ranks-of_not_outranks e x, Ranks-antisymm e x)

-- Evicting the first one hides that block, and changes the view of no other.
pub ideal_get-remove :
    (budget : ℕ) (h : ℕ) (e : Entry) (m : List Entry)
    → Distinct m
    → get e.hash m ≡ some e
    → ((x : Entry) → In x m → Ranks e x)
    → budget < length m
    → ideal_get budget h (remove e.hash m) ≡ ideal_get budget h m
unfolding ideal_get
ideal_get-remove budget h e m d g top over = elim (Option-cases (get h m)) [
  | inl absent ↦ ground (arith, get-remove e.hash h m d)
  | inr (b, found) ↦ ground (
    arith,
    get-remove e.hash h m d,
    newer-remove b e.hash m e g,
    newer-first e m d g top,
    hash-get h m b found,
    top b (In-get h m b found),
    Ranks-of_outranks b e,
    Ranks-antisymm e b,
  )
]

-- Within the budget every block stays.
pub ideal_get_within :
    (budget h : ℕ) (m : List Entry) → length m ≤ budget → ideal_get budget h m ≡ get h m
unfolding ideal_get
ideal_get_within budget h m le = elim (Option-cases (get h m)) [
  | inl absent ↦ ground arith
  | inr (b, found) ↦ ground (arith, newer-lt-length b m (In-get h m b found))
]
