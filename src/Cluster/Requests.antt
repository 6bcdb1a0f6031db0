-- ===== src/Cluster/Requests.antt =====
-- A unary request of crates/router/src/server.rs, from its text to its response.
use dynamo_router.Base.{ℕ, ◌≡◌, sym, ap, ◌∙◌, subst, inl, true, some, List}
use dynamo_router.Float.{Float, IsOrder}
use dynamo_router.Text.{Text, is_utf8}
use dynamo_router.Blocks.{block_hashes}
use dynamo_router.Rpc.{Status, Result, ok, err, Packages}
use dynamo_router.Loadgen.{infer_request}
use dynamo_router.Scheduler.{
  SchedulerConfig, Picked, routed, refused, no_healthy_replicas, all_saturated,
}
use dynamo_router.Mock.{MockConfig}
use dynamo_router.Task
use dynamo_router.Task.{
  Op, Reply, Task, ret, op, pick, complete, set_inflight_gauge, inc_matched, inc_prompt,
  observe_overhead, inc_requests, call_infer,
}
use dynamo_router.Server
use dynamo_router.Server.{request_hashes, model_infer_attempts}
use dynamo_router.Server.Shared.{effect}
use dynamo_router.Cluster.{Cluster, act}
use dynamo_router.Cluster.Picking.{pick-Leads}
use dynamo_router.Cluster.Execution.{
  Reported, Leads, ret-Leads, op-Leads, IsMirrored, IsFinite, PickLeads,
}
use dynamo_router.Cluster.Hashing.{Hashed, request-Hashed}
use dynamo_router.Cluster.Serving.{Level, zero_more, routed-Leads, refused-Leads}

module _ {fl : Float} (pkg : Packages) (mock : MockConfig) (n : ℕ) (cfg : SchedulerConfig fl) where
  infer_hashes-Leads :
      (t : Reported) (text : Text) (ids : List ℕ) (c : Cluster fl)
      → IsOrder fl
      → IsFinite n cfg
      → is_utf8 text ≡ true
      → pkg.encode text ≡ inl ids
      → IsMirrored n cfg t 0 0 c
      → Leads pkg mock
          (Level n cfg t)
          (Server.infer_hashes pkg (infer_request text) (ok (block_hashes ids)))
          c
  unfolding Server.infer_hashes Server.pick_replica Server.report_pick Server.attempt_first
      Server.upstream_infer Server.release Task.◌>>=◌ act effect
  infer_hashes-Leads t text ids c o finite utf8 e v =
      go (pick-Leads pkg mock n cfg t (block_hashes ids) c o finite v)
    where
      go :
          (c' : Cluster fl) × (picked : Picked) × (act pkg mock c (pick (block_hashes ids))
              ≡ some (c', picked))
            × PickLeads n cfg t (block_hashes ids) c c' picked
          → Leads pkg mock
              (Level n cfg t)
              (Server.infer_hashes pkg (infer_request text) (ok (block_hashes ids)))
              c
      go (c1, routed d, picks, ahead) =
          op-Leads pkg mock (Level n cfg t) (pick (block_hashes ids)) _ c c1 (routed d) picks
            (routed-Leads pkg mock n cfg t text ids d c1 utf8 e ahead)
      go (c1, refused no_healthy_replicas, picks, same) =
          op-Leads pkg mock (Level n cfg t) (pick (block_hashes ids)) _ c c1
            (refused no_healthy_replicas) picks
            (refused-Leads pkg mock n cfg t _ c1 (subst (IsMirrored n cfg t 0 0) (sym same) v))
      go (c1, refused all_saturated, picks, same) =
          op-Leads pkg mock (Level n cfg t) (pick (block_hashes ids)) _ c c1 (refused all_saturated)
            picks
            (refused-Leads pkg mock n cfg t _ c1 (subst (IsMirrored n cfg t 0 0) (sym same) v))

  err-Leads :
      (t : Reported) (text : Text) (status : Status) (c : Cluster fl)
      → IsMirrored n cfg t 0 0 c
      → Leads pkg mock (Level n cfg t) (Server.infer_hashes pkg (infer_request text) (err status)) c
  unfolding Server.infer_hashes
  err-Leads t text status c v =
      ret-Leads pkg mock (Level n cfg t) (err status) c (zero_more n cfg t c v)

  pub request-Leads :
      (t : Reported) (text : Text) (c : Cluster fl)
      → IsOrder fl
      → IsFinite n cfg
      → IsMirrored n cfg t 0 0 c
      → Leads pkg mock (Level n cfg t) (model_infer_attempts pkg (infer_request text)) c
  unfolding model_infer_attempts
  request-Leads t text c o finite v = go (request-Hashed pkg text)
    where
      go :
          (r : Result (List ℕ)) × (request_hashes pkg (infer_request text) ≡ r) × Hashed pkg text r
          → Leads pkg mock (Level n cfg t) (model_infer_attempts pkg (infer_request text)) c
      go (ok hashes, e, (ids, utf8, encoded, same)) =
          subst
            (λ r. Leads pkg mock (Level n cfg t) (Server.infer_hashes pkg (infer_request text) r) c)
            (ap ok (sym same) ∙ sym e) (infer_hashes-Leads t text ids c o finite utf8 encoded v)
      go (err status, e, h) =
          subst
            (λ r. Leads pkg mock (Level n cfg t) (Server.infer_hashes pkg (infer_request text) r) c)
            (sym e) (err-Leads t text status c v)
