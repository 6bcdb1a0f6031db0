-- ===== src/Cluster/Execution.antt =====
-- A run of a unary request through the router (crates/router/src/server.rs) and a replica
-- (crates/mock-triton/src/service.rs), and what holds before and after the replica is called.
use dynamo_router.Base.{ℕ, ◌+◌, ◌%◌, ◌^◌, ◌<◌, ◌≡◌, refl, ◌≢◌, true, some, List, [], ◌∷◌, length}
use dynamo_router.Float.Integer.{pos_part}
use dynamo_router.Protocol.{ModelInferResponse}
use dynamo_router.Rpc.{Result, ok, err}
use dynamo_router.Loadgen.{result_of}
use dynamo_router.Float.{Float}
use dynamo_router.Rpc.{Packages}
use dynamo_router.Scheduler.{
  Scheduler, ReplicaState, SchedulerConfig, cache_aware, RouteDecision, routed, refused, Picked,
  score,
}
use dynamo_router.Scheduler.Scan.{At, is_available}
use dynamo_router.PrefixCache.{lookup, insert, evict_to}
use dynamo_router.Mock.{MockConfig, MockTriton}
use dynamo_router.Task.{Op, Reply, Task, ret, op}
use dynamo_router.Server.Shared.{Metrics}
use dynamo_router.Cluster.{Cluster, act, execute}

-- The cached blocks, and the blocks, that the replicas have counted in all.
abbrev pub cached_sum : List MockTriton → ℕ
cached_sum [] = 0
cached_sum (m ∷ mocks) = m.cached_blocks_total + cached_sum mocks

abbrev pub total_sum : List MockTriton → ℕ
total_sum [] = 0
total_sum (m ∷ mocks) = m.total_blocks_total + total_sum mocks

module _ {fl : Float} where
  -- Other counters and gauges.
  abbrev pub changed : Cluster fl → Metrics → List ℕ → Cluster fl
  changed c metrics gauges = record c {
    inner = record (c.inner) { metrics = metrics; replica_inflight_gauges = gauges };
  }

  -- Another state of the scheduler.
  abbrev pub scheduled : Cluster fl → Scheduler fl → Cluster fl
  scheduled c s = record c { inner = record (c.inner) { scheduler = s } }

module _ {fl : Float} (pkg : Packages) (mock : MockConfig) where
  -- A run of a task that ends as `Q` says.
  pub record Leads {A : Type 0} (Q : Cluster fl → A → Type 0) (t : Task A) (c : Cluster fl)
      : Type 0 where
    pub end : Cluster fl
    pub result : A
    pub done : execute pkg mock t c ≡ some (end, result)
    pub holds : Q end result

  pub ret-Leads :
      {A : Type 0} (Q : Cluster fl → A → Type 0) (a : A) (c : Cluster fl)
      → Q c a
      → Leads Q (ret a) c
  unfolding execute
  ret-Leads Q a c q = record { end = c; result = a; done = refl; holds = q }

  pub op-Leads :
      {A : Type 0} (Q : Cluster fl → A → Type 0) (o : Op) (k : Reply o → Task A) (c c' : Cluster fl)
      (r : Reply o)
      → act pkg mock c o ≡ some (c', r)
      → Leads Q (k r) c'
      → Leads Q (op o k) c
  unfolding execute
  op-Leads Q o k c c' r e l = record {
    end = l.end;
    result = l.result;
    done = rw (execute, e) l.done;
    holds = l.holds;
  }

-- The cached blocks, and the blocks, that responses report.
abbrev pub Reported : Type 0
Reported = ℕ × ℕ

abbrev pub plus : Reported → Reported → Reported
plus t u = (t.0 + u.0, t.1 + u.1)

abbrev pub reported : Result ModelInferResponse → Reported
reported (ok resp) = let r = result_of 0 resp in (pos_part r.cached_blocks, pos_part r.total_blocks)
reported (err status) = (0, 0)

abbrev pub reported_all : List (Result ModelInferResponse) → Reported
reported_all [] = (0, 0)
reported_all (result ∷ results) = plus (reported result) (reported_all results)

module _ {fl : Float} (n : ℕ) (cfg : SchedulerConfig fl) where
  -- What no operation of a unary request changes.
  pub record IsFrame (c : Cluster fl) : Type 0 where
    pub policy : c.inner.scheduler.policy ≡ cache_aware
    pub same_cfg : c.inner.scheduler.cfg ≡ cfg
    pub all_replicas : length c.inner.scheduler.replicas ≡ n
    pub all_gauges : length c.inner.replica_inflight_gauges ≡ n
    pub all_mocks : length c.mocks ≡ n

  -- The router's counters against the replicas', and against the blocks that were reported to clients:
  -- of both `matched` and `prompt` blocks are ahead.
  pub record IsCounted (t : Reported) (matched prompt : ℕ) (c : Cluster fl) : Type 0 where
    pub cached :
        cached_sum c.mocks % 2 ^ 64 ≡ (c.inner.metrics.matched_blocks_total + matched) % 2 ^ 64
    pub total : total_sum c.mocks % 2 ^ 64 ≡ (c.inner.metrics.prompt_blocks_total + prompt) % 2 ^ 64
    pub reported_cached : t.0 % 2 ^ 64 ≡ (c.inner.metrics.matched_blocks_total + matched) % 2 ^ 64
    pub reported_total : t.1 % 2 ^ 64 ≡ (c.inner.metrics.prompt_blocks_total + prompt) % 2 ^ 64
    pub small_matched : c.inner.metrics.matched_blocks_total < 2 ^ 64
    pub small_prompt : c.inner.metrics.prompt_blocks_total < 2 ^ 64

  -- The router's picture of a replica's cache is that cache.
  abbrev pub Mirrors : MockTriton → ReplicaState → Type 0
  Mirrors m r = (m.cache.tables ≡ r.cache) × (m.cache.capacity ≡ cfg.block_budget)

  pub record IsMirrored (t : Reported) (matched prompt : ℕ) (c : Cluster fl) : Type 0 where
    pub frame : IsFrame c
    pub counted : IsCounted t matched prompt c
    pub mirrors :
        (i : ℕ) (r : ReplicaState) (m : MockTriton)
        → At c.inner.scheduler.replicas i r
        → At c.mocks i m
        → Mirrors m r

  -- A prompt was routed to replica `d.replica`, which has not seen it yet.
  pub record IsAhead (t : Reported) (hashes : List ℕ) (d : RouteDecision) (c : Cluster fl)
      : Type 0 where
    pub frame : IsFrame c
    pub counted : IsCounted t 0 0 c
    pub m : MockTriton
    pub r : ReplicaState
    pub there_m : At c.mocks d.replica m
    pub there_r : At c.inner.scheduler.replicas d.replica r
    pub capacity : m.cache.capacity ≡ cfg.block_budget
    pub predicted : d.matched_blocks ≡ lookup m.cache.tables hashes
    pub cached : r.cache ≡ evict_to (insert m.cache.tables hashes) cfg.block_budget
    pub others :
        (i : ℕ) (r : ReplicaState) (m : MockTriton)
        → d.replica ≢ i
        → At c.inner.scheduler.replicas i r
        → At c.mocks i m
        → Mirrors m r

  -- With an order on the scores, and those of available replicas above `f64::MIN`.
  abbrev pub IsFinite : Type 0
  IsFinite =
      (hashes : List ℕ) (q : ReplicaState)
      → is_available cfg.max_inflight q ≡ true
      → fl.lt fl.lowest (score cfg hashes q) ≡ true

  abbrev pub PickLeads : Reported → List ℕ → Cluster fl → Cluster fl → Picked → Type 0
  PickLeads t hashes c c' (refused e) = c' ≡ c
  PickLeads t hashes c c' (routed d) = IsAhead t hashes d c'
