-- ===== src/Server/Balance.antt =====
-- Every handler of crates/router/src/server.rs gives back each place that it takes on a replica, and
-- names only replicas that there are, whatever the replies to its operations.
use dynamo_router.Base.{
  ℕ, ◌<◌, ◌≡◌, refl, sym, subst, Option, none, some, List, if◌then◌else◌, length,
}
use dynamo_router.Protocol.{
  ModelInferRequest, ModelInferResponse, ModelStreamInferResponse, ModelMetadataRequest,
}
use dynamo_router.Scheduler.{
  RouteDecision, Picked, routed, refused, no_healthy_replicas, all_saturated,
}
use dynamo_router.Rpc.{Status, Result, ok, err, Packages, is_transport_failure}
use dynamo_router.Task.{
  Stream, ends, yields, closed, broken, mark_unhealthy, Task, ret, perform, ◌>>=◌,
}
use dynamo_router.Server.{
  report_pick, pick_replica, record_served, release, upstream_infer, serve, finish_last,
  attempt_last, finish_first, attempt_first, infer_hashes, request_hashes, model_infer_attempts,
  server_ready, forward_metadata, model_metadata, health_pass,
}
use dynamo_router.Server.Streams.{
  forward_chunks, forward, stream_routed, stream_request, model_stream_infer, send_error,
  mark_if_transport,
}
use dynamo_router.Server.System.{Arrival, infer, stream, ready, metadata, tick, handler, finish}
use dynamo_router.Server.Discipline.{
  Holding, after_pick, InRangePick, InRangeIndex, Runs, Balanced, bind-Runs, Runs-mono, if-Runs,
}

module _ (n : ℕ) where
  abbrev Took : Holding → Result RouteDecision → Type 0
  Took h (ok d) = (h ≡ some d.replica) × (d.replica < n)
  Took h (err status) = h ≡ none

  report_pick-Runs :
      (pkg : Packages) (r : Picked)
      → InRangePick n r
      → Runs n Took (after_pick r) (report_pick pkg r)
  unfolding report_pick ◌>>=◌
  report_pick-Runs pkg (refused no_healthy_replicas) p = refl
  report_pick-Runs pkg (refused all_saturated) p = refl
  report_pick-Runs pkg (routed d) p = (p, λ r q. (refl, p))

  pick_replica-Runs :
      (pkg : Packages) (hashes : List ℕ) → Runs n Took none (pick_replica pkg hashes)
  unfolding pick_replica ◌>>=◌
  pick_replica-Runs pkg hashes = (refl, λ r p. (tt, λ _ _. report_pick-Runs pkg r p))

  release-Balanced : (i : ℕ) → i < n → Balanced n (some i) (release i)
  unfolding release ◌>>=◌
  release-Balanced i lt = ((refl, lt), λ r p. (lt, λ _ _. refl))

  upstream_infer-Balanced :
      (req : ModelInferRequest) (i : ℕ) → i < n → Balanced n (some i) (upstream_infer req i)
  unfolding upstream_infer release ◌>>=◌
  upstream_infer-Balanced req i lt = (lt, λ result _. ((refl, lt), λ r p. (lt, λ _ _. refl)))

  serve-Balanced :
      (m : ℕ) (d : RouteDecision) (resp : ModelInferResponse) → Balanced n none (serve m d resp)
  unfolding serve record_served ◌>>=◌
  serve-Balanced m d resp = (tt, λ _ _. (tt, λ _ _. (tt, λ _ _. refl)))

  finish_last-Balanced :
      (pkg : Packages) (m : ℕ) (d : RouteDecision) (result : Result ModelInferResponse)
      → d.replica < n
      → Balanced n none (finish_last pkg m d result)
  unfolding finish_last ◌>>=◌
  finish_last-Balanced pkg m d (ok resp) lt = serve-Balanced m d resp
  finish_last-Balanced pkg m d (err status) lt =
      if-Runs n _ none (is_transport_failure pkg status) _ _ (lt, λ _ _. refl) refl

  attempt_last-Balanced :
      (pkg : Packages) (req : ModelInferRequest) (hashes : List ℕ) (h : Holding)
      (picked : Result RouteDecision)
      → Took h picked
      → Balanced n h (attempt_last pkg req hashes picked)
  unfolding attempt_last
  attempt_last-Balanced pkg req hashes h (err status) none_held = none_held
  attempt_last-Balanced pkg req hashes h (ok d) (held, lt) =
      subst (λ h. Balanced n h (attempt_last pkg req hashes (ok d))) (sym held)
        (bind-Runs n _ (finish_last pkg (length hashes) d) (some d.replica)
          (upstream_infer req d.replica)
          (Runs-mono n _ _ (some d.replica) (upstream_infer req d.replica)
            (λ h result e.
              subst (λ h. Balanced n h (finish_last pkg (length hashes) d result)) (sym e)
                (finish_last-Balanced pkg (length hashes) d result lt))
            (upstream_infer-Balanced req d.replica lt)))

  finish_first-Balanced :
      (pkg : Packages) (req : ModelInferRequest) (hashes : List ℕ) (d : RouteDecision)
      (result : Result ModelInferResponse)
      → d.replica < n
      → Balanced n none (finish_first pkg req hashes d result)
  unfolding finish_first ◌>>=◌
  finish_first-Balanced pkg req hashes d (ok resp) lt = serve-Balanced (length hashes) d resp
  finish_first-Balanced pkg req hashes d (err status) lt =
      if-Runs n _ none (is_transport_failure pkg status) _ _
        (
          lt,
          λ _ _. bind-Runs n _ (attempt_last pkg req hashes) none (pick_replica pkg hashes) (
              Runs-mono n _ _ none (pick_replica pkg hashes) (attempt_last-Balanced pkg req hashes)
                (pick_replica-Runs pkg hashes)),
        )
        refl

  attempt_first-Balanced :
      (pkg : Packages) (req : ModelInferRequest) (hashes : List ℕ) (h : Holding)
      (picked : Result RouteDecision)
      → Took h picked
      → Balanced n h (attempt_first pkg req hashes picked)
  unfolding attempt_first
  attempt_first-Balanced pkg req hashes h (err status) none_held = none_held
  attempt_first-Balanced pkg req hashes h (ok d) (held, lt) =
      subst (λ h. Balanced n h (attempt_first pkg req hashes (ok d))) (sym held)
        (bind-Runs n _ (finish_first pkg req hashes d) (some d.replica)
          (upstream_infer req d.replica)
          (Runs-mono n _ _ (some d.replica) (upstream_infer req d.replica)
            (λ h result e.
              subst (λ h. Balanced n h (finish_first pkg req hashes d result)) (sym e)
                (finish_first-Balanced pkg req hashes d result lt))
            (upstream_infer-Balanced req d.replica lt)))

  infer_hashes-Balanced :
      (pkg : Packages) (req : ModelInferRequest) (hashes : Result (List ℕ))
      → Balanced n none (infer_hashes pkg req hashes)
  unfolding infer_hashes
  infer_hashes-Balanced pkg req (err status) = refl
  infer_hashes-Balanced pkg req (ok hashes) =
      bind-Runs n _ (attempt_first pkg req hashes) none (pick_replica pkg hashes) (
        Runs-mono n _ _ none (pick_replica pkg hashes) (attempt_first-Balanced pkg req hashes)
          (pick_replica-Runs pkg hashes))

  model_infer_attempts-Balanced :
      (pkg : Packages) (req : ModelInferRequest) → Balanced n none (model_infer_attempts pkg req)
  unfolding model_infer_attempts
  model_infer_attempts-Balanced pkg req = infer_hashes-Balanced pkg req (request_hashes pkg req)

  model_metadata-Balanced :
      (pkg : Packages) (req : ModelMetadataRequest) → Balanced n none (model_metadata pkg req)
  unfolding model_metadata forward_metadata ◌>>=◌
  model_metadata-Balanced pkg req = (tt, λ idx p. forwarded idx p)
    where
      forwarded :
          (idx : Option ℕ) → InRangeIndex n idx → Balanced n none (forward_metadata pkg req idx)
      forwarded none p = refl
      forwarded (some i) p = (p, λ _ _. refl)

  health_pass-Balanced : (m : ℕ) → Balanced n none (health_pass m)
  unfolding health_pass ◌>>=◌
  health_pass-Balanced m = (tt, λ results p. (p, λ _ _. (tt, λ _ _. refl)))

  forward_chunks-Runs :
      (pkg : Packages) (h : Holding) (chunks : Stream ModelStreamInferResponse)
      → Runs n (λ g here. g ≡ h) h (forward_chunks pkg chunks)
  unfolding forward_chunks send_error ◌>>=◌
  forward_chunks-Runs pkg h (ends closed) = refl
  forward_chunks-Runs pkg h (ends (broken status)) = (tt, λ _ _. refl)
  forward_chunks-Runs pkg h (yields chunk rest) =
      (tt, λ here _. if-Runs n _ h here _ _ (forward_chunks-Runs pkg h rest) refl)

  mark_if_transport-Runs :
      (pkg : Packages) (i : ℕ) (status : Status)
      → i < n
      → Runs n (λ g r. g ≡ some i) (some i) (mark_if_transport pkg i status)
  unfolding mark_if_transport
  mark_if_transport-Runs pkg i status lt =
      if-Runs n _ (some i) (is_transport_failure pkg status) (perform (mark_unhealthy i)) (ret tt)
        (lt, λ _ _. refl) refl

  forward-Runs :
      (pkg : Packages) (i : ℕ) (upstream : Result (Stream ModelStreamInferResponse))
      → i < n
      → Runs n (λ g here. g ≡ some i) (some i) (forward pkg i upstream)
  unfolding forward send_error ◌>>=◌
  forward-Runs pkg i (ok chunks) lt = forward_chunks-Runs pkg (some i) chunks
  forward-Runs pkg i (err status) lt = bind-Runs n _ _ (some i) (mark_if_transport pkg i status) (
      Runs-mono n _ _ (some i) (mark_if_transport pkg i status) (λ g r held. (tt, λ _ _. held))
        (mark_if_transport-Runs pkg i status lt))

  stream_routed-Balanced :
      (pkg : Packages) (req : ModelInferRequest) (m : ℕ) (h : Holding)
      (picked : Result RouteDecision)
      → Took h picked
      → Balanced n h (stream_routed pkg req m picked)
  unfolding stream_routed record_served send_error release ◌>>=◌
  stream_routed-Balanced pkg req m h (err status) held = (tt, λ _ _. held)
  stream_routed-Balanced pkg req m h (ok d) (held, lt) =
      subst (λ g. Balanced n g (stream_routed pkg req m (ok d))) (sym held)
        (
          tt,
          λ _ _. (
            tt,
            λ _ _. (
              tt,
              λ _ _. (
                lt,
                λ upstream _. bind-Runs n _ _ (some d.replica) (forward pkg d.replica upstream) (
                    Runs-mono n _ _ (some d.replica) (forward pkg d.replica upstream)
                      (λ g here e. ((e, lt), λ _ _. (lt, λ _ _. refl)))
                      (forward-Runs pkg d.replica upstream lt)),
              ),
            ),
          ),
        )

  stream_request-Balanced :
      (pkg : Packages) (req : ModelInferRequest) (hashes : Result (List ℕ))
      → Balanced n none (stream_request pkg req hashes)
  unfolding stream_request send_error ◌>>=◌
  stream_request-Balanced pkg req (err status) = (tt, λ _ _. refl)
  stream_request-Balanced pkg req (ok hashes) = bind-Runs n _ _ none (pick_replica pkg hashes) (
      Runs-mono n _ _ none (pick_replica pkg hashes)
        (stream_routed-Balanced pkg req (length hashes)) (pick_replica-Runs pkg hashes))

  model_stream_infer-Balanced :
      (pkg : Packages) (msgs : Stream ModelInferRequest)
      → Balanced n none (model_stream_infer pkg msgs)
  unfolding model_stream_infer ◌>>=◌
  model_stream_infer-Balanced pkg (ends closed) = refl
  model_stream_infer-Balanced pkg (ends (broken e)) = (tt, λ _ _. refl)
  model_stream_infer-Balanced pkg (yields req rest) =
      bind-Runs n _ _ none (stream_request pkg req (request_hashes pkg req)) (
        Runs-mono n _ _ none (stream_request pkg req (request_hashes pkg req))
          (λ h here e.
            subst (λ g. Balanced n g (if here then model_stream_infer pkg rest else ret tt)) (sym e)
              (if-Runs n _ none here _ _ (model_stream_infer-Balanced pkg rest) refl))
          (stream_request-Balanced pkg req (request_hashes pkg req)))

  finish-Balanced : {A : Type 0} (t : Task A) → Balanced n none t → Balanced n none (finish t)
  unfolding finish
  finish-Balanced t b = bind-Runs n _ _ none t b

  pub handler-Balanced : (pkg : Packages) (a : Arrival) → Balanced n none (handler pkg n a)
  unfolding handler server_ready
  handler-Balanced pkg (infer req) = finish-Balanced _ (model_infer_attempts-Balanced pkg req)
  handler-Balanced pkg (stream msgs) = model_stream_infer-Balanced pkg msgs
  handler-Balanced pkg ready = finish-Balanced _ (tt, λ _ _. refl)
  handler-Balanced pkg (metadata req) = finish-Balanced _ (model_metadata-Balanced pkg req)
  handler-Balanced pkg tick = health_pass-Balanced n
