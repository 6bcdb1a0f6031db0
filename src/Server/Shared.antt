-- ===== src/Server/Shared.antt =====
-- The state that the tasks share (`RouterInner` of crates/router/src/server.rs, `Metrics` of
-- crates/router/src/telemetry.rs) and the effect of each operation on it. The clients are the world:
-- what it replies when an operation awaits it.
use dynamo_router.Base.{
  ℕ, zero, suc, ◌+◌, ◌%◌, ◌^◌, Bool, true, false, Option, none, some, List, [], ◌∷◌, if◌then◌else◌,
  get_elem?, ◌>>=◌, set,
}
use dynamo_router.Float.{Float}
use dynamo_router.Protocol.{
  ModelInferRequest, ModelInferResponse, ModelStreamInferResponse, ModelMetadataRequest,
  ModelMetadataResponse,
}
use dynamo_router.Scheduler
use dynamo_router.Scheduler.{Scheduler, Policy, SchedulerConfig}
use dynamo_router.Rpc.{Result}
use dynamo_router.Task.{
  Stream, Op, Reply, pick, complete, mark_unhealthy, any_healthy, first_healthy, apply_probes,
  observe_overhead, set_inflight_gauge, inc_requests, inc_matched, inc_prompt, set_healthy_gauge,
  call_infer, call_stream, call_metadata, probe_all, send,
}

-- The counters are u64, and wrap; `overheads` is the number of observations of the histogram.
pub record Metrics : Type 0 where
  pub requests_total : ℕ
  pub overheads : ℕ
  pub matched_blocks_total : ℕ
  pub prompt_blocks_total : ℕ
  pub healthy_replicas : ℕ

abbrev pub no_metrics : Metrics
no_metrics = record {
  requests_total = 0;
  overheads = 0;
  matched_blocks_total = 0;
  prompt_blocks_total = 0;
  healthy_replicas = 0;
}

-- `inc_by`
unfoldable pub inc_by : ℕ → ℕ → ℕ
inc_by total n = (total + n) % 2 ^ 64

pub record RouterInner (fl : Float) : Type 0 where
  pub scheduler : Scheduler fl
  pub metrics : Metrics
  pub replica_inflight_gauges : List ℕ

-- A client of one replica: what the replica replies at one moment.
pub record Client : Type 0 where
  pub infer : ModelInferRequest → Result ModelInferResponse
  pub stream : ModelInferRequest → Result (Stream ModelStreamInferResponse)
  pub metadata : ModelMetadataRequest → Result ModelMetadataResponse

-- What the world replies at one moment: the replicas, the probes of a health pass that were joined,
-- and whether the client that is sent to is still there.
pub record World : Type 0 where
  pub clients : List Client
  pub probes : List (ℕ × Bool)
  pub client_there : Bool

unfoldable pub zeros : ℕ → List ℕ
zeros zero = []
zeros (suc n) = 0 ∷ zeros n

module _ {fl : Float} where
  unfoldable pub new : Scheduler fl → ℕ → RouterInner fl
  new scheduler n = record {
    scheduler = scheduler;
    metrics = no_metrics;
    replica_inflight_gauges = zeros n;
  }

  -- `(0..num_replicas()).find(|&i| is_healthy(i))`, from `i` on with `left` to go.
  unfoldable pub find_healthy : Scheduler fl → ℕ → ℕ → Option (Option ℕ)
  find_healthy s zero i = some none
  find_healthy s (suc left) i = do
    healthy ← Scheduler.is_healthy s i
    elim healthy [ true ↦ some (some i) | false ↦ find_healthy s left (i + 1) ]

  -- One result of a health pass, and the count of the live ones.
  unfoldable pub apply_probe : Scheduler fl → ℕ → ℕ → Bool → Option (Scheduler fl × ℕ)
  apply_probe s healthy_count i true = do
    healthy ← Scheduler.is_healthy s i
    s' ← Scheduler.mark_healthy s i
    some (s', healthy_count + 1)
  apply_probe s healthy_count i false = do
    healthy ← Scheduler.is_healthy s i
    s' ← if healthy then Scheduler.mark_unhealthy s i else some s
    some (s', healthy_count)

  unfoldable pub apply_all : Scheduler fl → ℕ → List (ℕ × Bool) → Option (Scheduler fl × ℕ)
  apply_all s healthy_count [] = some (s, healthy_count)
  apply_all s healthy_count ((i, live) ∷ results) = do
    (s', count) ← apply_probe s healthy_count i live
    apply_all s' count results

  abbrev with_metrics : RouterInner fl → Metrics → RouterInner fl
  with_metrics inner metrics = record inner { metrics = metrics }

  -- The next state and the reply; `none` is a panic.
  unfoldable pub effect : World → RouterInner fl → (o : Op) → Option (RouterInner fl × Reply o)
  effect w inner (pick hashes) = do
    (s, picked) ← Scheduler.pick inner.scheduler hashes
    some (record inner { scheduler = s }, picked)
  effect w inner (complete replica) = do
    s ← Scheduler.complete inner.scheduler replica
    inflight ← Scheduler.inflight s replica
    some (record inner { scheduler = s }, inflight)
  effect w inner (mark_unhealthy replica) = do
    s ← Scheduler.mark_unhealthy inner.scheduler replica
    some (record inner { scheduler = s }, tt)
  effect w inner any_healthy = do
    found ← find_healthy inner.scheduler (Scheduler.num_replicas inner.scheduler) 0
    some (inner, elim found [ none ↦ false | some i ↦ true ])
  effect w inner first_healthy = do
    found ← find_healthy inner.scheduler (Scheduler.num_replicas inner.scheduler) 0
    some (inner, found)
  effect w inner (apply_probes results) = do
    (s, count) ← apply_all inner.scheduler 0 results
    some (record inner { scheduler = s }, count)
  effect w inner observe_overhead =
      let m = inner.metrics in
      some (with_metrics inner (record m { overheads = inc_by m.overheads 1 }), tt)
  effect w inner (set_inflight_gauge replica value) = do
    old ← get_elem? inner.replica_inflight_gauges replica
    some (
      record inner { replica_inflight_gauges = set inner.replica_inflight_gauges replica value },
      tt,
    )
  effect w inner inc_requests =
      let m = inner.metrics in
      some (with_metrics inner (record m { requests_total = inc_by m.requests_total 1 }), tt)
  effect w inner (inc_matched n) =
      let m = inner.metrics in
      some (
        with_metrics inner (record m { matched_blocks_total = inc_by m.matched_blocks_total n }),
        tt,
      )
  effect w inner (inc_prompt n) =
      let m = inner.metrics in
      some
        (with_metrics inner (record m { prompt_blocks_total = inc_by m.prompt_blocks_total n }), tt)
  effect w inner (set_healthy_gauge n) =
      let m = inner.metrics in some (with_metrics inner (record m { healthy_replicas = n }), tt)
  effect w inner (call_infer replica req) = do
    c ← get_elem? w.clients replica
    some (inner, c.infer req)
  effect w inner (call_stream replica req) = do
    c ← get_elem? w.clients replica
    some (inner, c.stream req)
  effect w inner (call_metadata replica req) = do
    c ← get_elem? w.clients replica
    some (inner, c.metadata req)
  effect w inner (probe_all n) = some (inner, w.probes)
  effect w inner (send item) = some (inner, w.client_there)
