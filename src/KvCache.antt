-- ===== src/KvCache.antt =====
-- The mock replica's block cache (crates/mock-triton/src/cache.rs), with its own capacity.
pub mod Mirror
mod UnitTests
mod Tests
use dynamo_router.Base.{
  ℕ, zero, suc, ◌+◌, ◌-◌, ◌*◌, ◌/◌, ◌%◌, ◌^◌, ◌≤◌, ◌<◌, min, max, ◌≡◌, refl, sym, ap, ◌∙◌, subst,
  ◌≢◌, ◌↔◌, ◌⊎◌, inl, inr, Bool, true, false, not, ◌&&◌, ◌||◌, Option, none, some, List, [], ◌∷◌,
  ◌++◌, map, arith, dec_lt, ℕ_discrete, ltb, leb, ◌==◌, if◌then◌else◌, ltb→lt, lt→ltb, ge→ltb,
  ltb→ge, ==_iff, ==_refl, ==_ne, tests, Bool-cases, Option-cases, length, get_elem?, head?, ◌>>=◌,
  set, In, All, take, drop, take_of_length-le, length-take_of_le, length-append, length-set,
  get_elem?-set_self, get_elem?-set_ne, get_elem?-lt, get_elem?_of_lt, All-In, All-of_In,
  All-append_left, All-append_right, length-map, range,
}
use dynamo_router.Lru
use dynamo_router.Lru.{Tables, touch_all, compact_if_bloated, count_present}

pub record KvCacheSim : Type 0 where
  pub capacity : ℕ
  pub tables : Tables

unfoldable pub new : ℕ → KvCacheSim
new capacity = record {
  capacity = capacity;
  tables = record { map = []; heap = []; clock = 0; seq = 0 };
}

unfoldable pub len : KvCacheSim → ℕ
len c = length c.tables.map

unfoldable pub is_empty : KvCacheSim → Bool
is_empty c = length c.tables.map == 0

unfoldable pub evict_over_capacity : KvCacheSim → KvCacheSim
evict_over_capacity c = record c { tables = Lru.evict_to c.capacity c.tables }

unfoldable pub lookup_insert : KvCacheSim → List ℕ → KvCacheSim × ℕ
unfolding evict_over_capacity
lookup_insert c hashes =
    let access = c.tables.clock + 1 in
    let cached = count_present hashes c.tables.map in
    let touched = touch_all access hashes (record (c.tables) { clock = access }) in
    (evict_over_capacity (record c { tables = compact_if_bloated touched }), cached)
