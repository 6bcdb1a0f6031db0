-- ===== src/PrefixCache.antt =====
-- The router's picture of what a replica has cached (crates/router/src/prefix_cache.rs). Each
-- method takes the cache and returns the new one. `clock` and `seq` are unbounded here; in the
-- program they are u64 counters that go up by one for a call and for a block.
pub mod Touch
pub mod Eviction
pub mod Calls
pub mod Chains
pub mod Tree
mod UnitTests
mod Tests
use dynamo_router.Base.{
  ℕ, zero, suc, ◌+◌, ◌-◌, ◌*◌, ◌/◌, ◌%◌, ◌^◌, ◌≤◌, ◌<◌, min, max, ◌≡◌, refl, sym, ap, ◌∙◌, subst,
  ◌≢◌, ◌↔◌, ◌⊎◌, inl, inr, Bool, true, false, not, ◌&&◌, ◌||◌, Option, none, some, List, [], ◌∷◌,
  ◌++◌, map, arith, dec_lt, ℕ_discrete, ltb, leb, ◌==◌, if◌then◌else◌, ltb→lt, lt→ltb, ge→ltb,
  ltb→ge, ==_iff, ==_refl, ==_ne, tests, Bool-cases, Option-cases, length, get_elem?, head?, ◌>>=◌,
  set, In, All, take, drop, take_of_length-le, length-take_of_le, length-append, length-set,
  get_elem?-set_self, get_elem?-set_ne, get_elem?-lt, get_elem?_of_lt, All-In, All-of_In,
  All-append_left, All-append_right, length-map, range,
}
use dynamo_router.Lru
use dynamo_router.Lru.{
  Entry, Tables, contains_key, touch_block, touch_all, compact_if_bloated, count_present,
}

abbrev pub PrefixCache : Type 0
PrefixCache = Tables

unfoldable pub new : PrefixCache
new = record { map = []; heap = []; clock = 0; seq = 0 }

unfoldable pub num_blocks : PrefixCache → ℕ
num_blocks c = length c.map

unfoldable pub touch_loop : Bool → ℕ → List ℕ → PrefixCache → ℕ → PrefixCache × ℕ
touch_loop only_present access [] c touched = (c, touched)
touch_loop only_present access (h ∷ hs) c touched =
    let rest = touch_loop only_present access hs (touch_block access c h) (touched + 1) in
    if only_present && not (contains_key h c.map) then (c, touched) else rest

unfoldable pub touch : PrefixCache → List ℕ → Bool → PrefixCache × ℕ
touch c hashes only_present =
    let access = c.clock + 1 in
    let (c', touched) = touch_loop only_present access hashes (record c { clock = access }) 0 in
    (compact_if_bloated c', touched)

unfoldable pub match_prefix : PrefixCache → List ℕ → PrefixCache × ℕ
match_prefix c hashes = touch c hashes true

unfoldable pub insert : PrefixCache → List ℕ → PrefixCache
insert c hashes = (touch c hashes false).0

unfoldable pub lookup : PrefixCache → List ℕ → ℕ
lookup c hashes = count_present hashes c.map

unfoldable pub heap_len : PrefixCache → ℕ
heap_len c = length c.heap

unfoldable pub evict_to : PrefixCache → ℕ → PrefixCache
evict_to c budget = Lru.evict_to budget c
