-- ===== src/Lru/BlockMap.antt =====
-- The laws of the block map: reads after writes, its size, and that no hash is bound twice.
use dynamo_router.Base.{
  ℕ, suc, ◌+◌, ◌≡◌, refl, ◌≢◌, none, some, List, [], ◌∷◌, arith, ◌==◌, if◌then◌else◌, length, In,
}
use dynamo_router.Lru.{Entry, get, contains_key, insert, remove}

-- No hash is bound twice.
abbrev pub Distinct : List Entry → Type 0
Distinct [] = Unit {0}
Distinct (b ∷ m) = (get b.hash m ≡ none) × Distinct m

pub hash-get : (h : ℕ) (m : List Entry) (b : Entry) → get h m ≡ some b → b.hash ≡ h
unfolding get
hash-get h [] b e = cc
hash-get h (x ∷ m) b e = ground (arith, hash-get h m b)

pub In-get : (h : ℕ) (m : List Entry) (b : Entry) → get h m ≡ some b → In b m
unfolding get
In-get h [] b e = cc
In-get h (x ∷ m) b e = ground (arith, In-get h m b)

pub get-insert :
    (e : Entry) (h : ℕ) (m : List Entry)
    → get h (insert e m) ≡ (if e.hash == h then some e else get h m)
unfolding get insert
get-insert e h [] = refl
get-insert e h (b ∷ m) = ground (arith, get-insert e h m)

pub get-remove :
    (k h : ℕ) (m : List Entry)
    → Distinct m
    → get h (remove k m) ≡ (if k == h then none else get h m)
unfolding get remove
get-remove k h [] d = ground arith
get-remove k h (b ∷ m) d = ground (arith, get-remove k h m d.1)

pub length-insert :
    (e : Entry) (m : List Entry)
    → length (insert e m) ≡ (if contains_key e.hash m then length m else suc (length m))
unfolding get insert contains_key
length-insert e [] = refl
length-insert e (b ∷ m) = ground (arith, length-insert e m)

pub length-remove :
    (h : ℕ) (m : List Entry) (b : Entry) → get h m ≡ some b → length (remove h m) + 1 ≡ length m
unfolding get remove
length-remove h [] b e = cc
length-remove h (x ∷ m) b e = ground (arith, length-remove h m b)

pub remove_absent : (h : ℕ) (m : List Entry) → get h m ≡ none → remove h m ≡ m
unfolding get remove
remove_absent h [] e = refl
remove_absent h (x ∷ m) e = ground (arith, remove_absent h m)

pub insert-Distinct : (e : Entry) (m : List Entry) → Distinct m → Distinct (insert e m)
unfolding insert get
insert-Distinct e [] d = (refl, tt)
insert-Distinct e (b ∷ m) d = ground (arith, insert-Distinct e m d.1, get-insert e b.hash m)

pub remove-Distinct : (h : ℕ) (m : List Entry) → Distinct m → Distinct (remove h m)
unfolding remove get
remove-Distinct h [] d = tt
remove-Distinct h (b ∷ m) d = ground (arith, remove-Distinct h m d.1, get-remove h b.hash m)

-- An entry of a map without repetitions is what its hash is bound to.
pub get_of_In : (m : List Entry) (b : Entry) → Distinct m → In b m → get b.hash m ≡ some b
unfolding get
get_of_In [] b d i = elim i [ ]
get_of_In (x ∷ m) b d i = ground (arith, get_of_In m b d.1)

pub In-remove :
    (h : ℕ) (m : List Entry) (b : Entry) → Distinct m → In b (remove h m) → In b m × (b.hash ≢ h)
In-remove h m b d i = ground (
  arith,
  get_of_In (remove h m) b (remove-Distinct h m d) i,
  get-remove h b.hash m d,
  In-get b.hash m b,
)
