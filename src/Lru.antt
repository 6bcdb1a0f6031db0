-- ===== src/Lru.antt =====
-- What the router's `PrefixCache` (crates/router/src/prefix_cache.rs) and the mock replica's
-- `KvCacheSim` (crates/mock-triton/src/cache.rs) have in common: the hash map of blocks, the lazy
-- heap of eviction candidates, and the loops over both. The hash map is an association list with
-- each hash once, the heap a list of which `pop` takes the greatest entry; nothing that the program
-- does depends on the order of either.
pub mod BlockMap
pub mod Heap
pub mod Ideal
pub mod Invariant
pub mod Touch
pub mod Evict
pub mod Recency
use dynamo_router.Base.{
  ℕ, zero, suc, ◌+◌, ◌-◌, ◌*◌, ◌/◌, ◌%◌, ◌^◌, ◌≤◌, ◌<◌, min, max, ◌≡◌, refl, sym, ap, ◌∙◌, subst,
  ◌≢◌, ◌↔◌, ◌⊎◌, inl, inr, Bool, true, false, not, ◌&&◌, ◌||◌, Option, none, some, List, [], ◌∷◌,
  ◌++◌, map, arith, dec_lt, ℕ_discrete, ltb, leb, ◌==◌, if◌then◌else◌, ltb→lt, lt→ltb, ge→ltb,
  ltb→ge, ==_iff, ==_refl, ==_ne, tests, Bool-cases, Option-cases, length, get_elem?, head?, ◌>>=◌,
  set, In, All, take, drop, take_of_length-le, length-take_of_le, length-append, length-set,
  get_elem?-set_self, get_elem?-set_ne, get_elem?-lt, get_elem?_of_lt, All-In, All-of_In,
  length-map,
}

-- A binding `hash -> (access, seq)` of the map, and an entry `(Reverse(access), seq, hash)` of the
-- heap: both hold the same three numbers.
pub record Entry : Type 0 where
  pub access : ℕ
  pub seq : ℕ
  pub hash : ℕ

pub record Tables : Type 0 where
  pub map : List Entry
  pub heap : List Entry
  pub clock : ℕ
  pub seq : ℕ

abbrev pub compact_floor : ℕ
compact_floor = 1024

unfoldable pub get : ℕ → List Entry → Option Entry
get h [] = none
get h (b ∷ m) = if b.hash == h then some b else get h m

unfoldable pub contains_key : ℕ → List Entry → Bool
contains_key h m = elim (get h m) [ none ↦ false | some _ ↦ true ]

unfoldable pub insert : Entry → List Entry → List Entry
insert e [] = e ∷ []
insert e (b ∷ m) = if b.hash == e.hash then e ∷ m else b ∷ insert e m

unfoldable pub remove : ℕ → List Entry → List Entry
remove h [] = []
remove h (b ∷ m) = if b.hash == h then m else b ∷ remove h m

-- `a > b` for the tuples: a smaller access, else a larger seq, else a larger hash.
unfoldable pub outranks : Entry → Entry → Bool
outranks a b =
    ltb a.access b.access
    || (a.access == b.access && (ltb b.seq a.seq || (a.seq == b.seq && ltb b.hash a.hash)))

-- The greatest entry of a nonempty list, and the others.
unfoldable pub select : Entry → List Entry → Entry × List Entry
select best [] = (best, [])
select best (x ∷ xs) =
    let wins = outranks x best in
    let (top, rest) = select (if wins then x else best) xs in
    (top, (if wins then best else x) ∷ rest)

unfoldable pub pop : List Entry → Option (Entry × List Entry)
pop [] = none
pop (x ∷ xs) = some (select x xs)

-- `self.map.get(&hash) == Some(&(access, seq))`
unfoldable pub is_live : Entry → List Entry → Bool
is_live e m = elim (get e.hash m) [ none ↦ false | some b ↦ b.access == e.access && b.seq == e.seq ]

-- One round of the loop that touches blocks.
unfoldable pub touch_block : ℕ → Tables → ℕ → Tables
touch_block access t h = record t { seq = t.seq + 1; map = insert e t.map; heap = e ∷ t.heap }
  where
    e : Entry
    e = record { access = access; seq = t.seq + 1; hash = h }

unfoldable pub touch_all : ℕ → List ℕ → Tables → Tables
touch_all access [] t = t
touch_all access (h ∷ hs) t = touch_all access hs (touch_block access t h)

unfoldable pub compact_if_bloated : Tables → Tables
compact_if_bloated t =
    if ltb (2 * max (length t.map) compact_floor) (length t.heap)
    then record t { heap = t.map }
    else t

-- `hashes.iter().take_while(|h| map.contains_key(h)).count()`
unfoldable pub count_present : List ℕ → List Entry → ℕ
count_present [] m = 0
count_present (h ∷ hs) m = if contains_key h m then suc (count_present hs m) else 0

-- What one popped entry does.
unfoldable pub discard : Tables → Entry × List Entry → Tables
discard t (e, rest) =
    if is_live e t.map
    then record t { map = remove e.hash t.map; heap = rest }
    else record t { heap = rest }

-- `while map.len() > budget`, with a bound on the rounds.
unfoldable pub evict_loop : ℕ → ℕ → Tables → Tables
evict_loop zero budget t = t
evict_loop (suc fuel) budget t = elim (ltb budget (length t.map)) [
  | false ↦ t
  | true ↦ elim (pop t.heap) [ none ↦ t | some popped ↦ evict_loop fuel budget (discard t popped) ]
]

-- Each round pops, so as many rounds as the heap has entries are all that the loop can make.
unfoldable pub evict_to : ℕ → Tables → Tables
evict_to budget t = evict_loop (length t.heap) budget t
