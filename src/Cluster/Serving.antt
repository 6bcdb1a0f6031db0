-- ===== src/Cluster/Serving.antt =====
-- A unary request of crates/router/src/server.rs from the answer of `pick` on.
use dynamo_router.Base.{
  ℕ, ◌+◌, ◌<◌, ◌≡◌, refl, sym, ◌∙◌, subst, inl, true, some, List, arith, length, set, length-set,
  get_elem?-lt, get_elem?_of_lt,
}
use dynamo_router.Float.{Float}
use dynamo_router.Text.{Text, is_utf8}
use dynamo_router.Blocks.{block_hashes}
use dynamo_router.Protocol.{ModelInferRequest, ModelInferResponse}
use dynamo_router.Rpc.{Status, Result, ok, err, Packages}
use dynamo_router.Loadgen.{infer_request}
use dynamo_router.Scheduler.{SchedulerConfig, RouteDecision}
use dynamo_router.Mock.{MockConfig}
use dynamo_router.Task
use dynamo_router.Task.{
  Op, Reply, Task, ret, op, pick, complete, set_inflight_gauge, inc_matched, inc_prompt,
  observe_overhead, inc_requests, call_infer,
}
use dynamo_router.Server
use dynamo_router.Server.{request_hashes, model_infer_attempts}
use dynamo_router.Server.Shared.{Metrics, effect, inc_by}
use dynamo_router.Cluster.{Cluster, act}
use dynamo_router.Cluster.Calling.{call-Leads, complete-Leads}
use dynamo_router.Cluster.Execution.{
  Reported, plus, reported, Leads, ret-Leads, op-Leads, IsFrame, IsMirrored, IsAhead, changed,
}
use dynamo_router.Cluster.Counters.{
  changed-IsMirrored, changed-IsAhead, kept-IsCounted, matched-IsCounted, prompt-IsCounted,
}

add_zero : (a : ℕ) → a ≡ a + 0
add_zero a = omega arith

module _ {fl : Float} (n : ℕ) (cfg : SchedulerConfig fl) where
  pub zero_more :
      (t : Reported) (c : Cluster fl)
      → IsMirrored n cfg t 0 0 c
      → IsMirrored n cfg (plus t (0, 0)) 0 0 c
  zero_more t c v =
      subst (λ a. IsMirrored n cfg (a, t.1 + 0) 0 0 c) (add_zero (t.0))
        (subst (λ b. IsMirrored n cfg (t.0, b) 0 0 c) (add_zero (t.1)) v)

  -- Level with the replicas, with what the result reports.
  abbrev pub Level : Reported → Cluster fl → Result ModelInferResponse → Type 0
  Level t c result = IsMirrored n cfg (plus t (reported result)) 0 0 c

module _ {fl : Float} (pkg : Packages) (mock : MockConfig) (n : ℕ) (cfg : SchedulerConfig fl) where
  gauge_act :
      (i value : ℕ) (c : Cluster fl)
      → i < n
      → IsFrame n cfg c
      → act pkg mock c (set_inflight_gauge i value)
        ≡ some (changed c c.inner.metrics (set c.inner.replica_inflight_gauges i value), tt)
  unfolding act effect
  gauge_act i value c lt f =
      let (old, at) =
        get_elem?_of_lt c.inner.replica_inflight_gauges i (omega (arith, f.all_gauges)) in
      rw at

  -- The counters at the end of a request.
  abbrev record_served_task :
      ℕ → RouteDecision → ModelInferResponse → Task (Result ModelInferResponse)
  record_served_task blocks d resp =
      op inc_requests
        (λ u. op (inc_matched d.matched_blocks) (λ v. op (inc_prompt blocks) (λ w. ret (ok resp))))

  served-Leads :
      (t : Reported) (blocks : ℕ) (d : RouteDecision) (resp : ModelInferResponse) (c : Cluster fl)
      → reported (ok resp) ≡ (d.matched_blocks, blocks)
      → IsMirrored n cfg (plus t (d.matched_blocks, blocks)) d.matched_blocks blocks c
      → Leads pkg mock (Level n cfg t) (record_served_task blocks d resp) c
  unfolding act effect
  served-Leads t blocks d resp c told v =
      let u = plus t (d.matched_blocks, blocks) in
      let gauges = c.inner.replica_inflight_gauges in
      let m = c.inner.metrics in
      let m1 : Metrics = record m { requests_total = inc_by m.requests_total 1 } in
      let c1 = changed c m1 gauges in
      let v1 =
        changed-IsMirrored n cfg u d.matched_blocks blocks d.matched_blocks blocks c m1 gauges
          v.frame.all_gauges
          (kept-IsCounted n cfg u d.matched_blocks blocks c m1 gauges refl refl v.counted) v in
      let m2 : Metrics = record m1 {
        matched_blocks_total = inc_by m1.matched_blocks_total d.matched_blocks;
      } in
      let c2 = changed c1 m2 gauges in
      let v2 =
        changed-IsMirrored n cfg u d.matched_blocks blocks 0 blocks c1 m2 gauges v1.frame.all_gauges
          (matched-IsCounted n cfg u d.matched_blocks blocks c1 v1.counted) v1 in
      let m3 : Metrics = record m2 { prompt_blocks_total = inc_by m2.prompt_blocks_total blocks } in
      let c3 = changed c2 m3 gauges in
      let v3 =
        changed-IsMirrored n cfg u 0 blocks 0 0 c2 m3 gauges v2.frame.all_gauges
          (prompt-IsCounted n cfg u 0 blocks c2 v2.counted) v2 in
      op-Leads pkg mock (Level n cfg t) inc_requests _ c c1 tt refl (
        op-Leads pkg mock (Level n cfg t) (inc_matched d.matched_blocks) _ c1 c2 tt refl (
          op-Leads pkg mock (Level n cfg t) (inc_prompt blocks) _ c2 c3 tt refl (
            ret-Leads pkg mock (Level n cfg t) (ok resp) c3
              (subst (λ w. IsMirrored n cfg (plus t w) 0 0 c3) (sym told) v3))))

  -- The code of a unary request from the answer of `pick` on.
  abbrev pub after_pick_task :
      ModelInferRequest → List ℕ → RouteDecision → Task (Result ModelInferResponse)
  after_pick_task req hashes d = op observe_overhead (λ u.
      op (set_inflight_gauge d.replica d.inflight_after) (λ v.
        op (call_infer d.replica req) (λ result. op (complete d.replica) (λ inflight.
          op (set_inflight_gauge d.replica inflight)
            (λ w. Server.finish_first pkg req hashes d result)))))

  pub routed-Leads :
      (t : Reported) (text : Text) (ids : List ℕ) (d : RouteDecision) (c : Cluster fl)
      → is_utf8 text ≡ true
      → pkg.encode text ≡ inl ids
      → IsAhead n cfg t (block_hashes ids) d c
      → Leads pkg mock (Level n cfg t) (after_pick_task (infer_request text) (block_hashes ids) d) c
  unfolding act effect Server.finish_first Server.serve Server.record_served Task.◌>>=◌
  routed-Leads t text ids d c utf8 e v =
      let hashes = block_hashes ids in
      let u = plus t (d.matched_blocks, length hashes) in
      let i = d.replica in
      let lt : i < n = omega (arith, get_elem?-lt c.mocks i v.m v.there_m, v.frame.all_mocks) in
      let m1 : Metrics = record (c.inner.metrics) {
        overheads = inc_by c.inner.metrics.overheads 1;
      } in
      let gs = c.inner.replica_inflight_gauges in
      let c1 = changed c m1 gs in
      let v1 =
        changed-IsAhead n cfg t hashes d c m1 gs v.frame.all_gauges
          (kept-IsCounted n cfg t 0 0 c m1 gs refl refl v.counted) v in
      let gs2 = set gs i d.inflight_after in
      let c2 = changed c1 m1 gs2 in
      let v2 =
        changed-IsAhead n cfg t hashes d c1 m1 gs2
          (length-set gs i d.inflight_after ∙ v.frame.all_gauges)
          (kept-IsCounted n cfg t 0 0 c1 m1 gs2 refl refl v1.counted) v1 in
      let (c3, resp, called, told, v3) = call-Leads pkg mock n cfg t text ids d c2 utf8 e v2 in
      let (c4, inflight, completed, v4) =
        complete-Leads pkg mock n cfg u d.matched_blocks (length hashes) i c3 lt v3 in
      let gs4 = c4.inner.replica_inflight_gauges in
      let gs5 = set gs4 i inflight in
      let c5 = changed c4 c4.inner.metrics gs5 in
      let v5 =
        changed-IsMirrored n cfg u d.matched_blocks (length hashes) d.matched_blocks (length hashes)
          c4 c4.inner.metrics gs5 (length-set gs4 i inflight ∙ v4.frame.all_gauges)
          (kept-IsCounted n cfg u d.matched_blocks (length hashes) c4 c4.inner.metrics gs5 refl refl
            v4.counted)
          v4 in
      op-Leads pkg mock (Level n cfg t) observe_overhead _ c c1 tt refl (
        op-Leads pkg mock (Level n cfg t) (set_inflight_gauge i d.inflight_after) _ c1 c2 tt
          (gauge_act i d.inflight_after c1 lt v1.frame)
          (op-Leads pkg mock (Level n cfg t) (call_infer i (infer_request text)) _ c2 c3 (ok resp)
            called
            (op-Leads pkg mock (Level n cfg t) (complete i) _ c3 c4 inflight completed (
              op-Leads pkg mock (Level n cfg t) (set_inflight_gauge i inflight) _ c4 c5 tt
                (gauge_act i inflight c4 lt v4.frame)
                (served-Leads t (length hashes) d resp c5 told v5)))))

  pub refused-Leads :
      (t : Reported) (status : Status) (c : Cluster fl)
      → IsMirrored n cfg t 0 0 c
      → Leads pkg mock (Level n cfg t) (op observe_overhead (λ u. ret (err status))) c
  unfolding act effect
  refused-Leads t status c v =
      let m1 : Metrics = record (c.inner.metrics) {
        overheads = inc_by c.inner.metrics.overheads 1;
      } in
      let gs = c.inner.replica_inflight_gauges in
      let c1 = changed c m1 gs in
      op-Leads pkg mock (Level n cfg t) observe_overhead _ c c1 tt refl (
        ret-Leads pkg mock (Level n cfg t) (err status) c1 (
          zero_more n cfg t c1 (
            changed-IsMirrored n cfg t 0 0 0 0 c m1 gs v.frame.all_gauges
              (kept-IsCounted n cfg t 0 0 c m1 gs refl refl v.counted) v)))
