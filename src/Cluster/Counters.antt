-- ===== src/Cluster/Counters.antt =====
-- The router's counters, gauges and scheduler change (crates/router/src/server.rs) between two calls
-- of a replica: what goes on to hold of them and of the replicas.
use dynamo_router.Base.{ℕ, ◌+◌, ◌%◌, ◌^◌, ◌≡◌, sym, ap, ◌∙◌, List, arith, length}
use dynamo_router.Float.{Float}
use dynamo_router.Scheduler.{Scheduler, SchedulerConfig, RouteDecision}
use dynamo_router.Server.Shared.{Metrics, inc_by}
use dynamo_router.Cluster.{Cluster}
use dynamo_router.Cluster.Execution.{
  changed, scheduled, Reported, IsFrame, IsCounted, IsMirrored, IsAhead,
}

module _ {fl : Float} (n : ℕ) (cfg : SchedulerConfig fl) where
  changed-IsFrame :
      (c : Cluster fl) (metrics : Metrics) (gauges : List ℕ)
      → length gauges ≡ n
      → IsFrame n cfg c
      → IsFrame n cfg (changed c metrics gauges)
  changed-IsFrame c metrics gauges size f = record {
    policy = f.policy;
    same_cfg = f.same_cfg;
    all_replicas = f.all_replicas;
    all_gauges = size;
    all_mocks = f.all_mocks;
  }

  pub scheduled-IsFrame :
      (c : Cluster fl) (s : Scheduler fl)
      → s.policy ≡ c.inner.scheduler.policy
      → s.cfg ≡ c.inner.scheduler.cfg
      → length s.replicas ≡ length c.inner.scheduler.replicas
      → IsFrame n cfg c
      → IsFrame n cfg (scheduled c s)
  scheduled-IsFrame c s policy same_cfg size f = record {
    policy = policy ∙ f.policy;
    same_cfg = same_cfg ∙ f.same_cfg;
    all_replicas = size ∙ f.all_replicas;
    all_gauges = f.all_gauges;
    all_mocks = f.all_mocks;
  }

  pub scheduled-IsCounted :
      (t : Reported) (a b : ℕ) (c : Cluster fl) (s : Scheduler fl)
      → IsCounted n cfg t a b c
      → IsCounted n cfg t a b (scheduled c s)
  scheduled-IsCounted t a b c s v = record {
    cached = v.cached;
    total = v.total;
    reported_cached = v.reported_cached;
    reported_total = v.reported_total;
    small_matched = v.small_matched;
    small_prompt = v.small_prompt;
  }

  pub changed-IsMirrored :
      (t : Reported) (a b a' b' : ℕ) (c : Cluster fl) (metrics : Metrics) (gauges : List ℕ)
      → length gauges ≡ n
      → IsCounted n cfg t a' b' (changed c metrics gauges)
      → IsMirrored n cfg t a b c
      → IsMirrored n cfg t a' b' (changed c metrics gauges)
  changed-IsMirrored t a b a' b' c metrics gauges size counted v = record {
    frame = changed-IsFrame c metrics gauges size v.frame;
    counted = counted;
    mirrors = v.mirrors;
  }

  pub changed-IsAhead :
      (t : Reported) (hashes : List ℕ) (d : RouteDecision) (c : Cluster fl) (metrics : Metrics)
      (gauges : List ℕ)
      → length gauges ≡ n
      → IsCounted n cfg t 0 0 (changed c metrics gauges)
      → IsAhead n cfg t hashes d c
      → IsAhead n cfg t hashes d (changed c metrics gauges)
  changed-IsAhead t hashes d c metrics gauges size counted v = record {
    frame = changed-IsFrame c metrics gauges size v.frame;
    counted = counted;
    m = v.m;
    r = v.r;
    there_m = v.there_m;
    there_r = v.there_r;
    capacity = v.capacity;
    predicted = v.predicted;
    cached = v.cached;
    others = v.others;
  }

  -- The same counters of blocks.
  pub kept-IsCounted :
      (t : Reported) (a b : ℕ) (c : Cluster fl) (metrics : Metrics) (gauges : List ℕ)
      → metrics.matched_blocks_total ≡ c.inner.metrics.matched_blocks_total
      → metrics.prompt_blocks_total ≡ c.inner.metrics.prompt_blocks_total
      → IsCounted n cfg t a b c
      → IsCounted n cfg t a b (changed c metrics gauges)
  kept-IsCounted t a b c metrics gauges same_matched same_prompt v = record {
    cached = v.cached ∙ ap (λ k. (k + a) % 2 ^ 64) (sym same_matched);
    total = v.total ∙ ap (λ k. (k + b) % 2 ^ 64) (sym same_prompt);
    reported_cached = v.reported_cached ∙ ap (λ k. (k + a) % 2 ^ 64) (sym same_matched);
    reported_total = v.reported_total ∙ ap (λ k. (k + b) % 2 ^ 64) (sym same_prompt);
    small_matched = omega (arith, v.small_matched);
    small_prompt = omega (arith, v.small_prompt);
  }

  pub matched-IsCounted :
      (t : Reported) (a b : ℕ) (c : Cluster fl)
      → IsCounted n cfg t a b c
      → IsCounted n cfg t 0 b (
          changed c
            (record (c.inner.metrics) {
              matched_blocks_total = inc_by c.inner.metrics.matched_blocks_total a;
            })
            c.inner.replica_inflight_gauges)
  unfolding inc_by
  matched-IsCounted t a b c v = record {
    cached = v.cached ∙ omega arith;
    total = v.total;
    reported_cached = v.reported_cached ∙ omega arith;
    reported_total = v.reported_total;
    small_matched = omega arith;
    small_prompt = v.small_prompt;
  }

  pub prompt-IsCounted :
      (t : Reported) (a b : ℕ) (c : Cluster fl)
      → IsCounted n cfg t a b c
      → IsCounted n cfg t a 0 (
          changed c
            (record (c.inner.metrics) {
              prompt_blocks_total = inc_by c.inner.metrics.prompt_blocks_total b;
            })
            c.inner.replica_inflight_gauges)
  unfolding inc_by
  prompt-IsCounted t a b c v = record {
    cached = v.cached;
    total = v.total ∙ omega arith;
    reported_cached = v.reported_cached;
    reported_total = v.reported_total ∙ omega arith;
    small_matched = v.small_matched;
    small_prompt = omega arith;
  }
