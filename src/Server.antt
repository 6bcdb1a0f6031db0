-- ===== src/Server.antt =====
-- The router's service (crates/router/src/server.rs): the code of each handler as a task.
pub mod Streams
pub mod Attempts
pub mod Accounts
pub mod Settling
pub mod Delivery
pub mod Shared
pub mod System
pub mod Discipline
pub mod Balance
pub mod Load
pub mod Exact
pub mod Tasks
pub mod Probes
pub mod Health
pub mod Effects
pub mod Conservation
pub mod Events
pub mod Ledger
pub mod Step
pub mod Fate
pub mod Liveness
pub mod Runs
mod Tests
use dynamo_router.Base.{
  ℕ, zero, suc, ◌+◌, ◌-◌, ◌*◌, ◌/◌, ◌%◌, ◌^◌, ◌≤◌, ◌<◌, min, max, ◌≡◌, refl, sym, ap, ◌∙◌, subst,
  ◌≢◌, ◌↔◌, ◌⊎◌, inl, inr, Bool, true, false, not, ◌&&◌, ◌||◌, Option, none, some, List, [], ◌∷◌,
  ◌++◌, map, arith, dec_lt, ℕ_discrete, ltb, leb, ◌==◌, if◌then◌else◌, ltb→lt, lt→ltb, ge→ltb,
  ltb→ge, ==_iff, ==_refl, ==_ne, tests, Bool-cases, Option-cases, length, get_elem?, head?, set,
  In, All, take, drop, take_of_length-le, length-take_of_le, length-append, length-set,
  get_elem?-set_self, get_elem?-set_ne, get_elem?-lt, get_elem?_of_lt, All-In, All-of_In,
  All-append_left, All-append_right, length-map, range,
}
use dynamo_router.Text.{Text, codes}
use dynamo_router.Protocol.{
  ModelInferRequest, ModelInferResponse, ModelMetadataRequest, ModelMetadataResponse,
}
use dynamo_router.Scheduler.{
  RouteDecision, Picked, routed, refused, no_healthy_replicas, all_saturated,
}
use dynamo_router.Rpc.{Status, Result, ok, err, Packages, fmt_status, is_transport_failure}
use dynamo_router.Task.{
  Op, pick, complete, mark_unhealthy, any_healthy, first_healthy, apply_probes, observe_overhead,
  set_inflight_gauge, inc_requests, inc_matched, inc_prompt, set_healthy_gauge, call_infer,
  call_metadata, probe_all, Task, ret, perform, ◌>>=◌,
}
use dynamo_router.Prompt.{extract_text, hash_prompt}

-- `map_err`, and the gauge of the replica that was picked.
unfoldable pub report_pick : Packages → Picked → Task (Result RouteDecision)
report_pick pkg (refused no_healthy_replicas) =
    ret (err (record { code = pkg.unavailable; message = codes "no healthy replicas" }))
report_pick pkg (refused all_saturated) =
    ret (err (record { code = pkg.resource_exhausted; message = codes "all replicas saturated" }))
report_pick pkg (routed d) = do
  _ ← perform (set_inflight_gauge d.replica d.inflight_after)
  ret (ok d)

unfoldable pub pick_replica : Packages → List ℕ → Task (Result RouteDecision)
pick_replica pkg hashes = do
  picked ← perform (pick hashes)
  _ ← perform observe_overhead
  report_pick pkg picked

unfoldable pub record_served : ℕ → RouteDecision → Task (Unit {0})
record_served prompt_blocks d = do
  _ ← perform inc_requests
  _ ← perform (inc_matched d.matched_blocks)
  perform (inc_prompt prompt_blocks)

-- `RouterInner::complete`
unfoldable pub release : ℕ → Task (Unit {0})
release replica = do
  inflight ← perform (complete replica)
  perform (set_inflight_gauge replica inflight)

-- The call of the picked replica, and the release of its place.
unfoldable pub upstream_infer : ModelInferRequest → ℕ → Task (Result ModelInferResponse)
upstream_infer req replica = do
  result ← perform (call_infer replica req)
  _ ← release replica
  ret result

unfoldable pub serve : ℕ → RouteDecision → ModelInferResponse → Task (Result ModelInferResponse)
serve prompt_blocks d resp = do _ ← record_served prompt_blocks d; ret (ok resp)

-- The `match` on the result of attempt 2.
unfoldable pub finish_last :
    Packages → ℕ → RouteDecision → Result ModelInferResponse → Task (Result ModelInferResponse)
finish_last pkg prompt_blocks d (ok resp) = serve prompt_blocks d resp
finish_last pkg prompt_blocks d (err status) =
    if is_transport_failure pkg status
    then (do
      _ ← perform (mark_unhealthy d.replica)
      ret (
          err (record {
            code = pkg.unavailable;
            message = codes "all attempts failed: " ++ fmt_status pkg status;
          })))
    else ret (err status)

unfoldable pub attempt_last :
    Packages → ModelInferRequest → List ℕ → Result RouteDecision → Task (Result ModelInferResponse)
attempt_last pkg req hashes (err status) = ret (err status)
attempt_last pkg req hashes (ok d) = do
  result ← upstream_infer req d.replica
  finish_last pkg (length hashes) d result

-- The `match` on the result of attempt 1, and what follows it.
unfoldable pub finish_first :
    Packages
    → ModelInferRequest
    → List ℕ
    → RouteDecision
    → Result ModelInferResponse
    → Task (Result ModelInferResponse)
finish_first pkg req hashes d (ok resp) = serve (length hashes) d resp
finish_first pkg req hashes d (err status) =
    if is_transport_failure pkg status
    then (do
      _ ← perform (mark_unhealthy d.replica)
      picked ← pick_replica pkg hashes
      attempt_last pkg req hashes picked)
    else ret (err status)

unfoldable pub attempt_first :
    Packages → ModelInferRequest → List ℕ → Result RouteDecision → Task (Result ModelInferResponse)
attempt_first pkg req hashes (err status) = ret (err status)
attempt_first pkg req hashes (ok d) = do
  result ← upstream_infer req d.replica
  finish_first pkg req hashes d result

unfoldable pub infer_hashes :
    Packages → ModelInferRequest → Result (List ℕ) → Task (Result ModelInferResponse)
infer_hashes pkg req (err status) = ret (err status)
infer_hashes pkg req (ok hashes) = do
  picked ← pick_replica pkg hashes
  attempt_first pkg req hashes picked

-- `extract_text(req)` and then `hash_prompt(text)`, each with `?`.
unfoldable pub request_hashes : Packages → ModelInferRequest → Result (List ℕ)
request_hashes pkg req = elim (extract_text pkg req) [
  | ok text ↦ hash_prompt pkg text
  | err status ↦ err status
]

unfoldable pub model_infer_attempts :
    Packages → ModelInferRequest → Task (Result ModelInferResponse)
model_infer_attempts pkg req = infer_hashes pkg req (request_hashes pkg req)

unfoldable pub server_ready : Task Bool
server_ready = perform any_healthy

unfoldable pub forward_metadata :
    Packages → ModelMetadataRequest → Option ℕ → Task (Result ModelMetadataResponse)
forward_metadata pkg req none =
    ret (err (record { code = pkg.unavailable; message = codes "no healthy replicas" }))
forward_metadata pkg req (some idx) = perform (call_metadata idx req)

unfoldable pub model_metadata :
    Packages → ModelMetadataRequest → Task (Result ModelMetadataResponse)
model_metadata pkg req = do idx ← perform first_healthy; forward_metadata pkg req idx

-- One pass of the loop of `spawn_health_prober` over `n` clients.
unfoldable pub health_pass : ℕ → Task (Unit {0})
health_pass n = do
  results ← perform (probe_all n)
  healthy_count ← perform (apply_probes results)
  perform (set_healthy_gauge healthy_count)
