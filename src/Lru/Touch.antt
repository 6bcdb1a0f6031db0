-- ===== src/Lru/Touch.antt =====
-- What touching blocks does to the map, the heap and the counters.
use dynamo_router.Base.{
  ℕ, suc, ◌+◌, ◌*◌, ◌≤◌, max, ◌≡◌, refl, ap, ◌↔◌, ◌⊎◌, inl, inr, true, some, List, [], ◌∷◌, arith,
  ◌==◌, if◌then◌else◌, Bool-cases, Option-cases, length, In, All, take,
}
use dynamo_router.Lru.{
  Entry, Tables, compact_floor, get, contains_key, insert, touch_block, touch_all,
  compact_if_bloated, count_present,
}
use dynamo_router.Lru.BlockMap.{get-insert, length-insert}

pub contains_key_iff :
    (h : ℕ) (m : List Entry) → (contains_key h m ≡ true) ↔ ((b : Entry) × (get h m ≡ some b))
unfolding contains_key
contains_key_iff h m = elim (Option-cases (get h m)) [
  | inl absent ↦ (λ e. ground arith, λ w. ground arith)
  | inr (b, found) ↦ (λ e. (b, found), λ w. rw (found, contains_key))
]

pub contains_key-insert :
    (e : Entry) (h : ℕ) (m : List Entry)
    → contains_key h (insert e m) ≡ (if e.hash == h then true else contains_key h m)
unfolding contains_key
contains_key-insert e h m = ground (arith, get-insert e h m)

pub contains_key-touch_block :
    (access h k : ℕ) (t : Tables)
    → contains_key k (touch_block access t h).map ≡ (if h == k then true else contains_key k t.map)
unfolding touch_block
contains_key-touch_block access h k t =
    contains_key-insert (record { access = access; seq = t.seq + 1; hash = h }) k t.map

-- Touching a cached block hides and shows none.
pub count_present-touch_block :
    (access h : ℕ) (hs : List ℕ) (t : Tables)
    → contains_key h t.map ≡ true
    → count_present hs (touch_block access t h).map ≡ count_present hs t.map
unfolding count_present
count_present-touch_block access h [] t present = refl
count_present-touch_block access h (k ∷ hs) t present =
    ground (
      arith,
      count_present-touch_block access h hs t present,
      contains_key-touch_block access h k t,
    )

-- What is cached stays cached while blocks are touched.
pub contains_key-touch_all :
    (access : ℕ) (hs : List ℕ) (k : ℕ) (t : Tables)
    → contains_key k t.map ≡ true
    → contains_key k (touch_all access hs t).map ≡ true
unfolding touch_all
contains_key-touch_all access [] k t present = present
contains_key-touch_all access (h ∷ hs) k t present =
    contains_key-touch_all access hs k (touch_block access t h)
      (ground (arith, contains_key-touch_block access h k t))

pub contains_key-touch_all_iff :
    (access : ℕ) (hs : List ℕ) (k : ℕ) (t : Tables)
    → contains_key k (touch_all access hs t).map ≡ true
    → In k hs ⊎ (contains_key k t.map ≡ true)
unfolding touch_all
contains_key-touch_all_iff access [] k t present = inr present
contains_key-touch_all_iff access (h ∷ hs) k t present = ground (
  arith,
  contains_key-touch_all_iff access hs k (touch_block access t h) present,
  contains_key-touch_block access h k t,
)

pub contains_key-touch_all_self :
    (access : ℕ) (hs : List ℕ) (k : ℕ) (t : Tables)
    → In k hs
    → contains_key k (touch_all access hs t).map ≡ true
unfolding touch_all
contains_key-touch_all_self access [] k t i = elim i [ ]
contains_key-touch_all_self access (h ∷ hs) k t (inl e) =
    contains_key-touch_all access hs k (touch_block access t h)
      (ground (arith, contains_key-touch_block access h k t))
contains_key-touch_all_self access (h ∷ hs) k t (inr i) =
    contains_key-touch_all_self access hs k (touch_block access t h) i

count_present_of_all :
    (hs : List ℕ) (m : List Entry)
    → ((k : ℕ) → In k hs → contains_key k m ≡ true)
    → count_present hs m ≡ length hs
unfolding count_present
count_present_of_all [] m f = refl
count_present_of_all (h ∷ hs) m f =
    rw (f h (inl refl)) (ap suc (count_present_of_all hs m (λ k i. f k (inr i))))

-- Right after blocks are touched, all of them are found.
pub count_present-touch_all :
    (access : ℕ) (hs : List ℕ) (t : Tables)
    → count_present hs (touch_all access hs t).map ≡ length hs
count_present-touch_all access hs t =
    count_present_of_all hs (touch_all access hs t).map
      (λ k i. contains_key-touch_all_self access hs k t i)

pub count_present-le-length : (hs : List ℕ) (m : List Entry) → count_present hs m ≤ length hs
unfolding count_present
count_present-le-length [] m = omega arith
count_present-le-length (h ∷ hs) m = ground (arith, count_present-le-length hs m)

pub touch_all-counters :
    (access : ℕ) (hs : List ℕ) (t : Tables)
    → ((touch_all access hs t).clock ≡ t.clock)
      × ((touch_all access hs t).seq ≡ t.seq + length hs)
      × (length (touch_all access hs t).heap ≡ length t.heap + length hs)
unfolding touch_all touch_block
touch_all-counters access [] t = (refl, omega arith, omega arith)
touch_all-counters access (h ∷ hs) t =
    ground (arith, touch_all-counters access hs (touch_block access t h))

pub touch_block-length :
    (access h : ℕ) (t : Tables)
    → length (touch_block access t h).map
      ≡ (if contains_key h t.map then length t.map else suc (length t.map))
unfolding touch_block
touch_block-length access h t =
    length-insert (record { access = access; seq = t.seq + 1; hash = h }) t.map

-- Compaction leaves the map and the counters alone, and bounds the heap.
pub compact_if_bloated_lem :
    (t : Tables)
    → ((compact_if_bloated t).map ≡ t.map)
      × ((compact_if_bloated t).clock ≡ t.clock)
      × ((compact_if_bloated t).seq ≡ t.seq)
      × (length (compact_if_bloated t).heap ≤ 2 * max (length t.map) compact_floor)
unfolding compact_if_bloated
compact_if_bloated_lem t = ground arith

abbrev pub Present : List Entry → ℕ → Type 0
Present m h = contains_key h m ≡ true

pub take-count_present-Present :
    (hs : List ℕ) (m : List Entry) → All (Present m) (take (count_present hs m) hs)
unfolding count_present
take-count_present-Present [] m = tt
take-count_present-Present (h ∷ hs) m = elim (Bool-cases (contains_key h m)) [
  | inl present ↦ rw present (present, take-count_present-Present hs m)
  | inr absent ↦ rw absent tt
]

All-Present-touch_block :
    (access h : ℕ) (hs : List ℕ) (t : Tables)
    → All (Present t.map) hs
    → All (Present (touch_block access t h).map) hs
All-Present-touch_block access h [] t all = tt
All-Present-touch_block access h (k ∷ hs) t all = (
  ground (arith, contains_key-touch_block access h k t, all.0),
  All-Present-touch_block access h hs t all.1,
)

-- Touching cached blocks changes which blocks are cached, and how many, not at all.
pub touch_all-Present :
    (access : ℕ) (hs : List ℕ) (t : Tables)
    → All (Present t.map) hs
    → (length (touch_all access hs t).map ≡ length t.map)
      × ((k : ℕ) → contains_key k (touch_all access hs t).map ≡ contains_key k t.map)
unfolding touch_all
touch_all-Present access [] t all = (refl, λ k. refl)
touch_all-Present access (h ∷ hs) t all =
    let (size, keys) =
      touch_all-Present access hs (touch_block access t h)
        (All-Present-touch_block access h hs t all.1) in
    (
      ground (arith, size, touch_block-length access h t, all.0),
      λ k. ground (arith, keys k, contains_key-touch_block access h k t, all.0),
    )

pub count_present-congr :
    (hs : List ℕ) (m n : List Entry)
    → ((k : ℕ) → contains_key k m ≡ contains_key k n)
    → count_present hs m ≡ count_present hs n
unfolding count_present
count_present-congr [] m n e = refl
count_present-congr (h ∷ hs) m n e = rw (e h, count_present-congr hs m n e)

pub count_present_mono :
    (hs : List ℕ) (m n : List Entry)
    → ((k : ℕ) → contains_key k m ≡ true → contains_key k n ≡ true)
    → count_present hs m ≤ count_present hs n
unfolding count_present
count_present_mono [] m n f = omega arith
count_present_mono (h ∷ hs) m n f = ground (arith, count_present_mono hs m n f, f h)
