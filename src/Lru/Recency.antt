-- ===== src/Lru/Recency.antt =====
-- The order in which blocks touched in one tick would be evicted: the last one first.
use dynamo_router.Base.{
  ℕ, suc, ◌+◌, ◌-◌, ◌≤◌, ◌<◌, min, ◌≡◌, refl, sym, ◌∙◌, subst, ◌≢◌, ◌⊎◌, inl, inr, none, some, List,
  [], ◌∷◌, arith, ◌==◌, if◌then◌else◌, Option-cases, length, In, All,
}
use dynamo_router.Lru.{
  Entry, Tables, get, contains_key, insert, outranks, touch_block, touch_all, count_present,
}
use dynamo_router.Lru.BlockMap.{Distinct, get-insert, insert-Distinct, get_of_In}
use dynamo_router.Lru.Ideal.{newer, ideal_get, newer-insert_fresh, newer-insert_present}

-- No block is named twice.
abbrev pub Unique : List ℕ → Type 0
Unique [] = Unit {0}
Unique (h ∷ hs) = (¬ In h hs) × Unique hs

-- How many blocks were touched in the tick `now`.
current : ℕ → List Entry → ℕ
current now [] = 0
current now (x ∷ m) = (if x.access == now then 1 else 0) + current now m

current-insert_fresh :
    (now : ℕ) (e : Entry) (m : List Entry)
    → get e.hash m ≡ none
    → current now (insert e m) ≡ current now m + (if e.access == now then 1 else 0)
unfolding current get insert
current-insert_fresh now e [] g = omega arith
current-insert_fresh now e (y ∷ m) g = ground (arith, current-insert_fresh now e m)

current-insert_present :
    (now : ℕ) (e : Entry) (m : List Entry) (x : Entry)
    → get e.hash m ≡ some x
    → current now (insert e m) + (if x.access == now then 1 else 0)
      ≡ current now m + (if e.access == now then 1 else 0)
unfolding current get insert
current-insert_present now e [] x g = cc
current-insert_present now e (y ∷ m) x g = ground (arith, current-insert_present now e m x)

-- In the middle of a tick: nothing is later than it, and what it touched came in order.
record InTick (now : ℕ) (t : Tables) : Type 0 where
  distinct : Distinct t.map
  latest : (x : Entry) → In x t.map → x.access ≤ now
  ordered : (x : Entry) → In x t.map → x.access ≡ now → x.seq ≤ t.seq

-- The tick has not reached this block yet.
abbrev Waiting : ℕ → List Entry → ℕ → Type 0
Waiting now m h = (b : Entry) → get h m ≡ some b → b.access < now

newer-current :
    (now : ℕ) (b : Entry) (m : List Entry)
    → b.access ≡ now
    → ((x : Entry) → In x m → x.access ≤ now)
    → ((x : Entry) → In x m → x.access ≡ now → x.seq < b.seq)
    → newer b m ≡ current now m
unfolding newer current outranks
newer-current now b [] e late order = refl
newer-current now b (x ∷ m) e late order = ground (
  arith,
  late x (inl refl),
  order x (inl refl),
  newer-current now b m e (λ y i. late y (inr i)) (λ y i. order y (inr i)),
)

In-insert : (e x : Entry) (m : List Entry) → In x (insert e m) → (x ≡ e) ⊎ In x m
unfolding insert
In-insert e x [] i = i
In-insert e x (y ∷ m) i = ground (arith, In-insert e x m)

touch_block-InTick : (now h : ℕ) (t : Tables) → InTick now t → InTick now (touch_block now t h)
unfolding touch_block
touch_block-InTick now h t s = record {
  distinct = insert-Distinct _ t.map s.distinct;
  latest = λ x i. grind (arith, In-insert e x t.map i, s.latest x);
  ordered = λ x i. grind (arith, In-insert e x t.map i, s.ordered x);
}
  where
    e : Entry
    e = record { access = now; seq = t.seq + 1; hash = h }

touch_block-Waiting :
    (now h k : ℕ) (t : Tables)
    → h ≢ k
    → Waiting now t.map k
    → Waiting now (touch_block now t h).map k
unfolding touch_block
touch_block-Waiting now h k t ne w b g =
    ground (arith, get-insert (record { access = now; seq = t.seq + 1; hash = h }) k t.map, w b)

-- A block that the tick touched keeps its place while the tick goes on to other blocks.
newer-touch_block :
    (now h : ℕ) (b : Entry) (t : Tables)
    → b.access ≡ now
    → b.seq ≤ t.seq
    → Waiting now t.map h
    → newer b (touch_block now t h).map ≡ newer b t.map
unfolding touch_block outranks
newer-touch_block now h b t a q w = elim (Option-cases (get h t.map)) [
  | inl absent ↦ ground (arith, newer-insert_fresh b e t.map absent)
  | inr (x, found) ↦ ground (arith, newer-insert_present b e t.map x found, w x found)
]
  where
    e : Entry
    e = record { access = now; seq = t.seq + 1; hash = h }

current-touch_block :
    (now h : ℕ) (t : Tables)
    → Waiting now t.map h
    → current now (touch_block now t h).map ≡ current now t.map + 1
unfolding touch_block
current-touch_block now h t w = elim (Option-cases (get h t.map)) [
  | inl absent ↦ ground (arith, current-insert_fresh now e t.map absent)
  | inr (x, found) ↦ ground (arith, current-insert_present now e t.map x found, w x found)
]
  where
    e : Entry
    e = record { access = now; seq = t.seq + 1; hash = h }

All-Waiting-touch_block :
    (now h : ℕ) (hs : List ℕ) (t : Tables)
    → (¬ In h hs)
    → All (Waiting now t.map) hs
    → All (Waiting now (touch_block now t h).map) hs
All-Waiting-touch_block now h [] t n all = tt
All-Waiting-touch_block now h (k ∷ hs) t n all = (
  touch_block-Waiting now h k t (λ e. n (inl e)) all.0,
  All-Waiting-touch_block now h hs t (λ i. n (inr i)) all.1,
)

get-touch_block_ne :
    (now h k : ℕ) (t : Tables) → h ≢ k → get k (touch_block now t h).map ≡ get k t.map
unfolding touch_block
get-touch_block_ne now h k t ne =
    ground (arith, get-insert (record { access = now; seq = t.seq + 1; hash = h }) k t.map)

touch_block_seq :
    (now h : ℕ) (b : Entry) (t : Tables) → b.seq ≤ t.seq → b.seq ≤ (touch_block now t h).seq
unfolding touch_block
touch_block_seq now h b t q = omega arith

touch_block_seq_self : (now h : ℕ) (t : Tables) → t.seq + 1 ≤ (touch_block now t h).seq
unfolding touch_block
touch_block_seq_self now h t = omega arith

newer-touch_all :
    (now : ℕ) (hs : List ℕ) (b : Entry) (t : Tables)
    → b.access ≡ now
    → b.seq ≤ t.seq
    → get b.hash t.map ≡ some b
    → Unique hs
    → (¬ In b.hash hs)
    → All (Waiting now t.map) hs
    → (get b.hash (touch_all now hs t).map ≡ some b)
      × (newer b (touch_all now hs t).map ≡ newer b t.map)
unfolding touch_all
newer-touch_all now [] b t a q g u n w = (g, refl)
newer-touch_all now (h ∷ hs) b t a q g u n w =
    let (g', e) =
      newer-touch_all now hs b (touch_block now t h) a (touch_block_seq now h b t q)
        (get-touch_block_ne now h b.hash t (λ e. n (inl (sym e))) ∙ g) u.1 (λ i. n (inr i))
        (All-Waiting-touch_block now h hs t u.0 w.1) in
    (g', e ∙ newer-touch_block now h b t a q w.0)

-- Block number i of the touched chain has i more recent blocks, counted from `n`.
abbrev pub InOrder : ℕ → List ℕ → List Entry → Type 0
InOrder n [] m = Unit {0}
InOrder n (h ∷ hs) m = ((b : Entry) × (get h m ≡ some b) × (newer b m ≡ n)) × InOrder (suc n) hs m

-- The block just touched is older than those that the tick touched before it, and no others.
newer-touch_block_self :
    (now h : ℕ) (t : Tables) (e : Entry)
    → e ≡ record { access = now; seq = t.seq + 1; hash = h }
    → InTick now t
    → Waiting now t.map h
    → (get h (touch_block now t h).map ≡ some e)
      × (newer e (touch_block now t h).map ≡ current now t.map)
unfolding touch_block outranks
newer-touch_block_self now h t e is s w = elim (Option-cases (get h t.map)) [
  | inl absent ↦ ground (arith, get-insert e h t.map, newer-insert_fresh e e t.map, counted, absent)
  | inr (x, found) ↦
      ground
        (arith, get-insert e h t.map, newer-insert_present e e t.map x, counted, found, w x found)
]
  where
    counted : newer e t.map ≡ current now t.map
    counted =
        newer-current now e t.map (ground arith) s.latest (λ x i a. ground (arith, s.ordered x i a))

touch_all-InOrder :
    (now : ℕ) (hs : List ℕ) (t : Tables)
    → InTick now t
    → Unique hs
    → All (Waiting now t.map) hs
    → InOrder (current now t.map) hs (touch_all now hs t).map
unfolding touch_all
touch_all-InOrder now [] t s u w = tt
touch_all-InOrder now (h ∷ hs) t s u w = (
  (e, kept.0, kept.1 ∙ place.1),
  subst (λ n. InOrder n hs (touch_all now hs (touch_block now t h)).map)
      (omega (arith, current-touch_block now h t w.0))
      (touch_all-InOrder now hs (touch_block now t h) (touch_block-InTick now h t s) u.1
        (All-Waiting-touch_block now h hs t u.0 w.1)),
)
  where
    e : Entry
    e = record { access = now; seq = t.seq + 1; hash = h }

    place :
        (get h (touch_block now t h).map ≡ some e)
        × (newer e (touch_block now t h).map ≡ current now t.map)
    place = newer-touch_block_self now h t e refl s w.0

    kept :
        (get h (touch_all now hs (touch_block now t h)).map ≡ some e)
        × (newer e (touch_all now hs (touch_block now t h)).map ≡ newer e (touch_block now t h).map)
    kept =
        newer-touch_all now hs e (touch_block now t h) refl (touch_block_seq_self now h t) place.0
          u.1 u.0 (All-Waiting-touch_block now h hs t u.0 w.1)

pub count_present-InOrder :
    (budget n : ℕ) (hs : List ℕ) (m m' : List Entry)
    → InOrder n hs m
    → ((h : ℕ) → get h m' ≡ ideal_get budget h m)
    → count_present hs m' ≡ min (length hs) (budget - n)
unfolding count_present contains_key ideal_get
count_present-InOrder budget n [] m m' o v = omega arith
count_present-InOrder budget n (h ∷ hs) m m' o v =
    ground (arith, v h, o.0.1, o.0.2, count_present-InOrder budget (suc n) hs m m' o.1 v)

Waiting-of_timely :
    (now : ℕ) (hs : List ℕ) (m : List Entry)
    → ((h : ℕ) (b : Entry) → get h m ≡ some b → b.access < now)
    → All (Waiting now m) hs
Waiting-of_timely now [] m f = tt
Waiting-of_timely now (h ∷ hs) m f = (f h, Waiting-of_timely now hs m f)

current_of_timely :
    (now : ℕ) (m : List Entry) → ((x : Entry) → In x m → x.access < now) → current now m ≡ 0
unfolding current
current_of_timely now [] f = refl
current_of_timely now (x ∷ m) f =
    ground (arith, f x (inl refl), current_of_timely now m (λ y i. f y (inr i)))

-- A whole tick: the blocks touched in it come first among all that are cached, in their order.
pub touch_all-InOrder_fresh :
    (now : ℕ) (hs : List ℕ) (t : Tables)
    → Distinct t.map
    → Unique hs
    → ((h : ℕ) (b : Entry) → get h t.map ≡ some b → b.access < now)
    → InOrder 0 hs (touch_all now hs t).map
touch_all-InOrder_fresh now hs t d u timely =
    subst (λ n. InOrder n hs (touch_all now hs t).map) (current_of_timely now t.map old)
      (touch_all-InOrder now hs t
        (record {
          distinct = d;
          latest = λ x i. omega (arith, old x i);
          ordered = λ x i a. absurd (omega (arith, old x i));
        })
        u (Waiting-of_timely now hs t.map timely))
  where
    old : (x : Entry) → In x t.map → x.access < now
    old x i = timely x.hash x (get_of_In t.map x d i)
