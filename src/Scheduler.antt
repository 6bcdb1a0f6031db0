-- ===== src/Scheduler.antt =====
-- The routing decision (crates/router/src/scheduler.rs) over abstract f64 scores. A method that
-- indexes or unwraps returns an Option, with `none` where the program would panic.
pub mod Scan
pub mod Choice
pub mod Pick
pub mod Routing
pub mod Invariant
pub mod UnitTests
mod Tests
use dynamo_router.Base.{
  ℕ, zero, suc, ◌+◌, ◌-◌, ◌*◌, ◌/◌, ◌%◌, ◌^◌, ◌≤◌, ◌<◌, min, max, ◌≡◌, refl, sym, ap, ◌∙◌, subst,
  ◌≢◌, ◌↔◌, ◌⊎◌, inl, inr, Bool, true, false, not, ◌&&◌, ◌||◌, Option, none, some, List, [], ◌∷◌,
  ◌++◌, map, arith, dec_lt, ℕ_discrete, ltb, leb, ◌==◌, if◌then◌else◌, ltb→lt, lt→ltb, ge→ltb,
  ltb→ge, ==_iff, ==_refl, ==_ne, tests, Bool-cases, Option-cases, length, get_elem?, head?, ◌>>=◌,
  set, In, All, take, drop, take_of_length-le, length-take_of_le, length-append, length-set,
  get_elem?-set_self, get_elem?-set_ne, get_elem?-lt, get_elem?_of_lt, All-In, All-of_In,
  All-append_left, All-append_right, length-map, range,
}
use dynamo_router.Float.{Float}
use dynamo_router.PrefixCache
use dynamo_router.PrefixCache.{PrefixCache}

pub data Policy : Type 0 where
  cache_aware round_robin : Policy

pub data PickError : Type 0 where
  no_healthy_replicas all_saturated : PickError

pub record RouteDecision : Type 0 where
  pub replica : ℕ
  pub matched_blocks : ℕ
  pub inflight_after : ℕ

-- `Result<RouteDecision, PickError>`
pub data Picked : Type 0 where
  routed : RouteDecision → Picked
  refused : PickError → Picked

pub record ReplicaState : Type 0 where
  pub cache : PrefixCache
  pub inflight : ℕ
  pub healthy : Bool

-- What the first loop of `pick` finds: `avail_mask`, `any_available` and `any_healthy`.
pub record Survey : Type 0 where
  pub avail_mask : List Bool
  pub any_available : Bool
  pub any_healthy : Bool

unfoldable pub survey : ℕ → List ReplicaState → Survey
survey max_inflight [] = record { avail_mask = []; any_available = false; any_healthy = false }
survey max_inflight (r ∷ rs) =
    let rest = survey max_inflight rs in
    if r.healthy
    then (if ltb r.inflight max_inflight
        then record {
          avail_mask = true ∷ rest.avail_mask;
          any_available = true;
          any_healthy = true;
        }
        else record rest { avail_mask = false ∷ rest.avail_mask; any_healthy = true })
    else record rest { avail_mask = false ∷ rest.avail_mask }

-- `for off in 0..n`, with the rounds that are left; `none` is the `expect` after it.
unfoldable pub round_robin_scan : ℕ → ℕ → ℕ → ℕ → List Bool → Option ℕ
round_robin_scan zero off n rr_next mask = none
round_robin_scan (suc left) off n rr_next mask = elim (get_elem? mask ((rr_next + off) % n)) [
  | none ↦ none
  | some available ↦ elim available [
    | true ↦ some ((rr_next + off) % n)
    | false ↦ round_robin_scan left (off + 1) n rr_next mask
  ]
]

-- `(0..n).filter(|&i| avail_mask[i]).collect()`, from index `i` on.
unfoldable pub available_from : ℕ → List Bool → List ℕ
available_from i [] = []
available_from i (b ∷ mask) = let rest = available_from (i + 1) mask in if b then i ∷ rest else rest

-- `min_by_key(|&&i| replicas[i].inflight)`: the first of the least, after `least` so far.
unfoldable pub least_loop : List ReplicaState → List ℕ → ℕ → ℕ → Option ℕ
least_loop replicas [] least inflight = some least
least_loop replicas (i ∷ rest) least inflight = elim (get_elem? replicas i) [
  | none ↦ none
  | some r ↦
      let less = ltb r.inflight inflight in
      least_loop replicas rest (if less then i else least) (if less then r.inflight else inflight)
]

unfoldable pub least_loaded : List ReplicaState → List ℕ → Option ℕ
unfolding least_loop
least_loaded replicas [] = none
least_loaded replicas (i ∷ rest) = elim (get_elem? replicas i) [
  | none ↦ none
  | some r ↦ least_loop replicas rest i r.inflight
]

pub record SchedulerConfig (fl : Float) : Type 0 where
  pub alpha : fl.F64
  pub beta : fl.F64
  pub min_match_blocks : ℕ
  pub block_budget : ℕ
  pub max_inflight : ℕ

pub record Scheduler (fl : Float) : Type 0 where
  pub replicas : List ReplicaState
  pub policy : Policy
  pub cfg : SchedulerConfig fl
  pub rr_next : ℕ

-- `best`, `best_score` and `best_matched` of the scoring loop.
pub record Best (fl : Float) : Type 0 where
  pub best : ℕ
  pub best_score : fl.F64
  pub best_matched : ℕ

abbrev pub idle_replica : ReplicaState
idle_replica = record { cache = PrefixCache.new; inflight = 0; healthy = true }

unfoldable pub idle_replicas : ℕ → List ReplicaState
idle_replicas zero = []
idle_replicas (suc n) = idle_replica ∷ idle_replicas n

-- `(least, least_matched)`
unfoldable pub fall_back : List ReplicaState → List ℕ → List ℕ → Option (ℕ × ℕ)
fall_back replicas hashes available = do
  least ← least_loaded replicas available
  r ← get_elem? replicas least
  some (least, PrefixCache.lookup r.cache hashes)

module _ {fl : Float} where
  unfoldable pub new : ℕ → Policy → SchedulerConfig fl → Scheduler fl
  new n policy cfg = record { replicas = idle_replicas n; policy = policy; cfg = cfg; rr_next = 0 }

  unfoldable pub score : SchedulerConfig fl → List ℕ → ReplicaState → fl.F64
  score cfg hashes r =
      fl.sub (fl.mul cfg.alpha (fl.of_usize (PrefixCache.lookup r.cache hashes)))
        (fl.mul cfg.beta (fl.of_usize r.inflight))

  unfoldable pub better : SchedulerConfig fl → List ℕ → ℕ → ReplicaState → Best fl → Best fl
  unfolding score
  better cfg hashes i r b =
      if fl.lt b.best_score (score cfg hashes r)
      then record {
        best = i;
        best_score = score cfg hashes r;
        best_matched = PrefixCache.lookup r.cache hashes;
      }
      else b

  -- `for &i in &available`
  unfoldable pub best_loop :
      SchedulerConfig fl → List ReplicaState → List ℕ → List ℕ → Best fl → Option (Best fl)
  best_loop cfg replicas hashes [] b = some b
  best_loop cfg replicas hashes (i ∷ rest) b = elim (get_elem? replicas i) [
    | none ↦ none
    | some r ↦ best_loop cfg replicas hashes rest (better cfg hashes i r b)
  ]

  -- A weak match of the winner falls back to the least loaded replica.
  unfoldable pub settle :
      SchedulerConfig fl → List ReplicaState → List ℕ → List ℕ → Best fl → Option (ℕ × ℕ)
  settle cfg replicas hashes available b =
      if ltb b.best_matched cfg.min_match_blocks
      then fall_back replicas hashes available
      else some (b.best, b.best_matched)

  -- The arm `Policy::CacheAware`: the replica and its matched blocks.
  unfoldable pub choose_cache_aware :
      SchedulerConfig fl → List ReplicaState → List ℕ → List Bool → Option (ℕ × ℕ)
  choose_cache_aware cfg replicas hashes mask = do
    let available = available_from 0 mask
    first ← head? available
    b ←
        best_loop cfg replicas hashes available
          (record { best = first; best_score = fl.lowest; best_matched = 0 })
    settle cfg replicas hashes available b

  -- The arms of the `match` on the policy, and the new `rr_next`.
  unfoldable pub choose : Scheduler fl → List ℕ → List Bool → Policy → Option (ℕ × ℕ × ℕ)
  choose s hashes mask round_robin = do
    cand ← round_robin_scan (length s.replicas) 0 (length s.replicas) s.rr_next mask
    some (cand, 0, (cand + 1) % length s.replicas)
  choose s hashes mask cache_aware = do
    (idx, matched) ← choose_cache_aware s.cfg s.replicas hashes mask
    some (idx, matched, s.rr_next)

  -- The chosen replica's state after the request is routed to it.
  unfoldable pub admit : Policy → SchedulerConfig fl → List ℕ → ReplicaState → ReplicaState
  admit cache_aware cfg hashes r = record {
    cache = PrefixCache.evict_to (PrefixCache.insert r.cache hashes) cfg.block_budget;
    inflight = r.inflight + 1;
    healthy = r.healthy;
  }
  admit round_robin cfg hashes r = record r { inflight = r.inflight + 1 }

  unfoldable pub route : Scheduler fl → List ℕ → List Bool → Option (Scheduler fl × Picked)
  route s hashes mask = do
    (idx, matched, rr_next) ← choose s hashes mask s.policy
    r ← get_elem? s.replicas idx
    let r' = admit s.policy s.cfg hashes r
    some (
      record s { replicas = set s.replicas idx r'; rr_next = rr_next },
      routed (record { replica = idx; matched_blocks = matched; inflight_after = r'.inflight }),
    )

  unfoldable pub pick : Scheduler fl → List ℕ → Option (Scheduler fl × Picked)
  pick s hashes =
      let found = survey s.cfg.max_inflight s.replicas in
      if found.any_available
      then route s hashes found.avail_mask
      else some (s, refused (if found.any_healthy then all_saturated else no_healthy_replicas))

  -- `self.replicas[replica]`, changed in place.
  unfoldable pub update_replica :
      Scheduler fl → ℕ → (ReplicaState → ReplicaState) → Option (Scheduler fl)
  update_replica s replica f = do
    r ← get_elem? s.replicas replica
    some (record s { replicas = set s.replicas replica (f r) })

  unfoldable pub complete : Scheduler fl → ℕ → Option (Scheduler fl)
  unfolding update_replica
  complete s replica = update_replica s replica (λ r. record r { inflight = r.inflight - 1 })

  unfoldable pub mark_unhealthy : Scheduler fl → ℕ → Option (Scheduler fl)
  unfolding update_replica
  mark_unhealthy s replica =
      update_replica s replica
        (λ r. record { healthy = false; inflight = 0; cache = PrefixCache.new })

  unfoldable pub mark_healthy : Scheduler fl → ℕ → Option (Scheduler fl)
  unfolding update_replica
  mark_healthy s replica = update_replica s replica (λ r. record r { healthy = true })

  unfoldable pub is_healthy : Scheduler fl → ℕ → Option Bool
  is_healthy s replica = do r ← get_elem? s.replicas replica; some r.healthy

  unfoldable pub inflight : Scheduler fl → ℕ → Option ℕ
  inflight s replica = do r ← get_elem? s.replicas replica; some r.inflight

  unfoldable pub replica_blocks : Scheduler fl → ℕ → Option ℕ
  replica_blocks s replica = do
    r ← get_elem? s.replicas replica
    some (PrefixCache.num_blocks r.cache)

  unfoldable pub num_replicas : Scheduler fl → ℕ
  num_replicas s = length s.replicas
