-- ===== src/Cluster/Agreement.antt =====
-- What the router of crates/router/src/server.rs predicts against what the mock replicas
-- (crates/mock-triton/src/service.rs) then find in their caches, request after request.
use dynamo_router.Base.{
  ℕ, zero, suc, ◌%◌, ◌^◌, ◌≡◌, refl, sym, ap, ◌∙◌, subst, some, List, [], ◌∷◌, map, arith, length,
}
use dynamo_router.Float.{Float, IsOrder}
use dynamo_router.Text.{Text}
use dynamo_router.Protocol.{ModelInferResponse}
use dynamo_router.Rpc.{Result, Packages}
use dynamo_router.Loadgen.{infer_request}
use dynamo_router.Scheduler
use dynamo_router.Scheduler.{
  ReplicaState, SchedulerConfig, Policy, cache_aware, RouteDecision, Picked, routed, refused,
  no_healthy_replicas, all_saturated,
}
use dynamo_router.Scheduler.Scan.{At}
use dynamo_router.Scheduler.Invariant.{length-idle_replicas}
use dynamo_router.Server.Conservation.{length-zeros}
use dynamo_router.Server.Shared
use dynamo_router.PrefixCache
use dynamo_router.KvCache
use mathlib.Core.Option.{some-injective}
use dynamo_router.Mock
use dynamo_router.Mock.{MockConfig, MockTriton}
use dynamo_router.Server.Shared.{RouterInner, Metrics, effect, inc_by}
use dynamo_router.Cluster.{Cluster, spawn, spawn_mocks, spawn_router, serve_all}
use dynamo_router.Cluster.Serving.{zero_more}
use dynamo_router.Cluster.Requests.{request-Leads}
use mathlib.Core.Path.{ap₂}
use dynamo_router.Cluster.Execution.{
  Reported, plus, reported, reported_all, cached_sum, total_sum, IsMirrored, IsFinite,
}

idle-cache :
    (n i : ℕ) (r : ReplicaState) → At (Scheduler.idle_replicas n) i r → r.cache ≡ PrefixCache.new
unfolding Scheduler.idle_replicas
idle-cache zero i r at = cc
idle-cache (suc n) zero r at = ap (λ (z : ReplicaState). z.cache) (sym (some-injective _ _ at))
idle-cache (suc n) (suc i) r at = idle-cache n i r at

module _ (mock : MockConfig) where
  length-spawn_mocks : (n : ℕ) → length (spawn_mocks n mock) ≡ n
  unfolding spawn_mocks
  length-spawn_mocks zero = refl
  length-spawn_mocks (suc n) = ap suc (length-spawn_mocks n)

  spawn_mocks-sums :
      (n : ℕ) → (cached_sum (spawn_mocks n mock) ≡ 0) × (total_sum (spawn_mocks n mock) ≡ 0)
  unfolding spawn_mocks Mock.new
  spawn_mocks-sums zero = (refl, refl)
  spawn_mocks-sums (suc n) = let (cached, total) = spawn_mocks-sums n in (omega arith, omega arith)

  spawn_mocks-new :
      (n i : ℕ) (m : MockTriton)
      → At (spawn_mocks n mock) i m
      → (m.cache.tables ≡ PrefixCache.new) × (m.cache.capacity ≡ mock.cache_blocks)
  unfolding spawn_mocks Mock.new KvCache.new PrefixCache.new
  spawn_mocks-new zero i m at = cc
  spawn_mocks-new (suc n) zero m at =
      let it = sym (some-injective _ _ at) in
      (ap (λ (z : MockTriton). z.cache.tables) it, ap (λ (z : MockTriton). z.cache.capacity) it)
  spawn_mocks-new (suc n) (suc i) m at = spawn_mocks-new n i m at

plus_assoc : (t u w : Reported) → plus (plus t u) w ≡ plus t (plus u w)
plus_assoc t u w = ap₂ (λ a b. (a, b)) (omega arith) (omega arith)

module _ {fl : Float} (pkg : Packages) (mock : MockConfig) (n : ℕ) (cfg : SchedulerConfig fl) where
  all-Leads :
      (t : Reported) (texts : List Text) (c : Cluster fl)
      → IsOrder fl
      → IsFinite n cfg
      → IsMirrored n cfg t 0 0 c
      → (c' : Cluster fl) × (results : List (Result ModelInferResponse)) × (serve_all pkg mock
            (map infer_request texts)
            c
          ≡ some (c', results))
        × IsMirrored n cfg (plus t (reported_all results)) 0 0 c'
  unfolding serve_all
  all-Leads t [] c o finite v = (c, [], refl, zero_more n cfg t c v)
  all-Leads t (text ∷ texts) c o finite v =
      let one = request-Leads pkg mock n cfg t text c o finite v in
      let (c', results, e, v') =
        all-Leads (plus t (reported one.result)) texts one.end o finite one.holds in
      (
        c',
        one.result ∷ results,
        rw (serve_all, one.done, e),
        subst (λ w. IsMirrored n cfg w 0 0 c')
            (plus_assoc t (reported one.result) (reported_all results)) v',
      )

  spawn-IsMirrored :
      mock.cache_blocks ≡ cfg.block_budget
      → IsMirrored n cfg (0, 0) 0 0 (spawn n cache_aware cfg mock)
  unfolding spawn spawn_router Shared.new Scheduler.new
  spawn-IsMirrored same =
      let (cached, total) = spawn_mocks-sums mock n in
      record {
        frame = record {
          policy = refl;
          same_cfg = refl;
          all_replicas = length-idle_replicas n;
          all_gauges = length-zeros n;
          all_mocks = length-spawn_mocks mock n;
        };
        counted = record {
          cached = ap (λ k. k % 2 ^ 64) cached;
          total = ap (λ k. k % 2 ^ 64) total;
          reported_cached = refl;
          reported_total = refl;
          small_matched = omega arith;
          small_prompt = omega arith;
        };
        mirrors = λ i r m atr atm.
            let (tables, capacity) = spawn_mocks-new mock n i m atm in
            (tables ∙ sym (idle-cache n i r atr), capacity ∙ same);
      }

  -- The router's counters are those of the replicas together, and what the responses report together;
  -- its picture of each replica's cache is that cache.
  pub record Agrees (c : Cluster fl) (results : List (Result ModelInferResponse)) : Type 0 where
    pub reported_cached : c.inner.metrics.matched_blocks_total ≡ (reported_all results).0 % 2 ^ 64
    pub reported_total : c.inner.metrics.prompt_blocks_total ≡ (reported_all results).1 % 2 ^ 64
    pub matched : c.inner.metrics.matched_blocks_total ≡ cached_sum c.mocks % 2 ^ 64
    pub prompt : c.inner.metrics.prompt_blocks_total ≡ total_sum c.mocks % 2 ^ 64
    pub pictures :
        (i : ℕ) (r : ReplicaState) (m : MockTriton)
        → At c.inner.scheduler.replicas i r
        → At c.mocks i m
        → m.cache.tables ≡ r.cache

  IsMirrored-Agrees :
      (c : Cluster fl) (results : List (Result ModelInferResponse))
      → IsMirrored n cfg (plus (0, 0) (reported_all results)) 0 0 c
      → Agrees c results
  IsMirrored-Agrees c results v = record {
    reported_cached = omega (arith, v.counted.reported_cached, v.counted.small_matched);
    reported_total = omega (arith, v.counted.reported_total, v.counted.small_prompt);
    matched = omega (arith, v.counted.cached, v.counted.small_matched);
    prompt = omega (arith, v.counted.total, v.counted.small_prompt);
    pictures = λ i r m atr atm. (v.mirrors i r m atr atm).0;
  }

  -- A cache-aware router over mock replicas whose capacity is its block budget, from the start on: if
  -- the scores are ordered and those of available replicas are above `f64::MIN`, then any requests of
  -- the load generator, served one after the other, are all served without a panic, and after them
  -- the blocks that the router counted as matched, and as seen, are those that the replicas together
  -- counted as cached, and as seen, and those that the responses together report as cached, and in
  -- all (modulo 2 ^ 64); and its picture of each replica's cache is that cache.
  pub serve_all-Agrees :
      (texts : List Text)
      → IsOrder fl
      → IsFinite n cfg
      → mock.cache_blocks ≡ cfg.block_budget
      → (c : Cluster fl) × (results : List (Result ModelInferResponse)) × (serve_all pkg mock
            (map infer_request texts)
            (spawn n cache_aware cfg mock)
          ≡ some (c, results))
        × Agrees c results
  serve_all-Agrees texts o finite same =
      let (c, results, e, v) =
        all-Leads (0, 0) texts (spawn n cache_aware cfg mock) o finite (spawn-IsMirrored same) in
      (c, results, e, IsMirrored-Agrees c results v)
