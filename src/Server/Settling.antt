-- ===== src/Server/Settling.antt =====
-- The requests of one client's stream (crates/router/src/server.rs) are each settled in turn.
use dynamo_router.Base.{ℕ, ◌≡◌, refl, sym, ap, ◌∙◌, Bool, List, [], ◌∷◌, ◌++◌, length}
use dynamo_router.Protocol.{ModelInferRequest, ModelStreamInferResponse}
use dynamo_router.Scheduler.{
  RouteDecision, Picked, routed, refused, no_healthy_replicas, all_saturated, PickError,
}
use dynamo_router.Rpc.{Status, Result, ok, err, Packages, is_transport_failure}
use dynamo_router.Task.{Stream, ends, yields, closed, broken, Op, ret, perform, ◌>>=◌}
use dynamo_router.Task.Trace.{
  Event, did, Always, bind-Always, Always-mono, if-Always, call_of, stream_of, decision_of,
  release_of, Count, requests, matched, prompt, count_of,
}
use dynamo_router.Server.{report_pick, pick_replica, record_served, release, request_hashes}
use dynamo_router.Server.Streams.{
  send_error, forward_chunks, mark_if_transport, forward, stream_routed, stream_request,
  model_stream_infer,
}
use dynamo_router.Server.Accounts.{
  charges, Accounts, IsQuiet, quiet-Accounts, pick-Accounts, open-Accounts, release-Accounts,
  count-Accounts, replicas, routes, Settled, map-append, charges_snoc,
}

IsQuiet_lem :
    (e : Event)
    → call_of e ≡ []
    → decision_of e ≡ []
    → stream_of e ≡ []
    → release_of e ≡ []
    → count_of e ≡ []
    → IsQuiet e
IsQuiet_lem e a b c d f = record {
  calls_none = a;
  decides_none = b;
  opens_none = c;
  releases_none = d;
  counts_none = f;
}

sent-IsQuiet : (item : Result ModelStreamInferResponse) (r : Bool) → IsQuiet (did (Op.send item) r)
sent-IsQuiet item r = IsQuiet_lem _ refl refl refl refl refl

settle :
    (ps : List (RouteDecision × ℕ)) (d : RouteDecision) (n : ℕ) (done : List Event)
    → Accounts done
        (routes ps ++ d ∷ [])
        (replicas (routes ps) ++ d.replica ∷ [])
        (replicas (routes ps) ++ d.replica ∷ [])
        (charges ps ++ requests ∷ [] ++ matched d.matched_blocks ∷ [] ++ prompt n ∷ [])
    → Settled done
settle ps d n done a =
    let qs = ps ++ (d, n) ∷ [] in
    let rs : routes qs ≡ routes ps ++ d ∷ [] =
      map-append (λ (p : RouteDecision × ℕ). p.0) ps ((d, n) ∷ []) in
    let is : replicas (routes qs) ≡ replicas (routes ps) ++ d.replica ∷ [] =
      ap replicas rs ∙ map-append (λ d. d.replica) (routes ps) (d ∷ []) in
    (
      qs,
      record {
        decided = a.decided ∙ sym rs;
        opened_there = a.opened_there ∙ sym is;
        released_there = a.released_there ∙ sym is;
        charged = a.charged ∙ sym (charges_snoc ps d n);
        no_unary = a.no_unary;
      },
    )

keep-Settled : (done : List Event) (e : Event) → IsQuiet e → Settled done → Settled (done ++ e ∷ [])
keep-Settled done e q (ps, a) = (ps, quiet-Accounts done _ _ _ _ a e q)

refused-Settled :
    (hashes : List ℕ) (e : PickError) (u : Unit {0}) (done : List Event)
    → Settled done
    → Settled (done ++ did (Op.pick hashes) (refused e) ∷ [] ++ did Op.observe_overhead u ∷ [])
refused-Settled hashes e u done st =
    keep-Settled _ (did Op.observe_overhead u) (IsQuiet_lem _ refl refl refl refl refl) (
      keep-Settled done (did (Op.pick hashes) (refused e)) (IsQuiet_lem _ refl refl refl refl refl)
        st)

module _ (pkg : Packages) where
  module _ (ds : List RouteDecision) (opened gone : List ℕ) (cs : List Count) where
    abbrev Kept : List Event → Type 0
    Kept done = Accounts done ds opened gone cs

    keep : (done : List Event) (e : Event) → IsQuiet e → Kept done → Kept (done ++ e ∷ [])
    keep done e q a = quiet-Accounts done ds opened gone cs a e q

    forward_chunks-Kept :
        (done : List Event) (chunks : Stream ModelStreamInferResponse)
        → Kept done
        → Always (λ done here. Kept done) done (forward_chunks pkg chunks)
    unfolding forward_chunks send_error ◌>>=◌
    forward_chunks-Kept done (ends closed) a = a
    forward_chunks-Kept done (ends (broken status)) a = λ r. keep done _ (sent-IsQuiet _ r) a
    forward_chunks-Kept done (yields chunk rest) a = λ here.
        if-Always _ _ here _ _
          (λ e. forward_chunks-Kept _ rest (keep done _ (sent-IsQuiet _ here) a))
          (λ e. keep done _ (sent-IsQuiet _ here) a)

    mark-Kept :
        (done : List Event) (i : ℕ) (status : Status)
        → Kept done
        → Always (λ done r. Kept done) done (mark_if_transport pkg i status)
    unfolding mark_if_transport
    mark-Kept done i status a =
        if-Always _ done (is_transport_failure pkg status) (perform (Op.mark_unhealthy i)) (ret tt)
          (λ e r. keep done _ (IsQuiet_lem _ refl refl refl refl refl) a) (λ e. a)

    forward-Kept :
        (done : List Event) (i : ℕ) (upstream : Result (Stream ModelStreamInferResponse))
        → Kept done
        → Always (λ done here. Kept done) done (forward pkg i upstream)
    unfolding forward send_error ◌>>=◌
    forward-Kept done i (ok chunks) a = forward_chunks-Kept done chunks a
    forward-Kept done i (err status) a = bind-Always _ _ done (mark_if_transport pkg i status) (
        Always-mono _ _ done (mark_if_transport pkg i status)
          (λ done u b r. keep done _ (sent-IsQuiet _ r) b) (mark-Kept done i status a))

  -- The rest of a request that was routed, from the place in the accounts where it was picked.
  stream_routed-Settled :
      (req : ModelInferRequest) (n : ℕ) (d : RouteDecision) (ps : List (RouteDecision × ℕ))
      (done : List Event)
      → Accounts done
          (routes ps ++ d ∷ [])
          (replicas (routes ps))
          (replicas (routes ps))
          (charges ps)
      → Always (λ done here. Settled done) done (stream_routed pkg req n (ok d))
  unfolding stream_routed record_served release ◌>>=◌
  stream_routed-Settled req n d ps done a = λ u v w upstream.
      let a₁ = count-Accounts done _ _ _ _ a (did Op.inc_requests u) refl refl refl refl in
      let a₂ =
        count-Accounts _ _ _ _ _ a₁ (did (Op.inc_matched d.matched_blocks) v) refl refl refl refl in
      let a₃ = count-Accounts _ _ _ _ _ a₂ (did (Op.inc_prompt n) w) refl refl refl refl in
      let a₄ = open-Accounts _ _ _ _ _ a₃ d.replica req upstream in
      bind-Always _ _ _ (forward pkg d.replica upstream) (
        Always-mono _ _ _ (forward pkg d.replica upstream)
          (λ done here b left x. settle ps d n _ (
            quiet-Accounts _ _ _ _ _ (release-Accounts done _ _ _ _ b d.replica left)
              (did (Op.set_inflight_gauge d.replica left) x)
              (IsQuiet_lem _ refl refl refl refl refl)))
          (forward-Kept _ _ _ _ _ d.replica upstream a₄))

  picked-Settled :
      (req : ModelInferRequest) (hashes : List ℕ) (ps : List (RouteDecision × ℕ))
      (done : List Event) (r : Picked) (u : Unit {0})
      → Accounts done (routes ps) (replicas (routes ps)) (replicas (routes ps)) (charges ps)
      → Always
          (λ done here. Settled done)
          (done ++ did (Op.pick hashes) r ∷ [] ++ did Op.observe_overhead u ∷ [])
          (report_pick pkg r >>= stream_routed pkg req (length hashes))
  unfolding report_pick stream_routed send_error ◌>>=◌
  picked-Settled req hashes ps done (refused no_healthy_replicas) u a = λ r.
      keep-Settled _ _ (sent-IsQuiet _ r)
        (refused-Settled hashes no_healthy_replicas u done (ps, a))
  picked-Settled req hashes ps done (refused all_saturated) u a =
      λ r. keep-Settled _ _ (sent-IsQuiet _ r) (refused-Settled hashes all_saturated u done (ps, a))
  picked-Settled req hashes ps done (routed d) u a = λ x.
      stream_routed-Settled req (length hashes) d ps _ (
        quiet-Accounts _ _ _ _ _
          (quiet-Accounts _ _ _ _ _ (pick-Accounts done _ _ _ _ a hashes d)
            (did Op.observe_overhead u) (IsQuiet_lem _ refl refl refl refl refl))
          (did (Op.set_inflight_gauge d.replica d.inflight_after) x)
          (IsQuiet_lem _ refl refl refl refl refl))

  stream_request-Settled :
      (req : ModelInferRequest) (hashes : Result (List ℕ)) (done : List Event)
      → Settled done
      → Always (λ done here. Settled done) done (stream_request pkg req hashes)
  unfolding stream_request send_error pick_replica ◌>>=◌
  stream_request-Settled req (err status) done st = λ r. keep-Settled done _ (sent-IsQuiet _ r) st
  stream_request-Settled req (ok hashes) done (ps, a) =
      λ r u. picked-Settled req hashes ps done r u a

  from-Settled :
      (msgs : Stream ModelInferRequest) (done : List Event)
      → Settled done
      → Always (λ done u. Settled done) done (model_stream_infer pkg msgs)
  unfolding model_stream_infer ◌>>=◌
  from-Settled (ends closed) done st = st
  from-Settled (ends (broken e)) done st = λ r. keep-Settled done _ (sent-IsQuiet _ r) st
  from-Settled (yields req rest) done st =
      bind-Always _ _ done (stream_request pkg req (request_hashes pkg req)) (
        Always-mono _ _ done (stream_request pkg req (request_hashes pkg req))
          (λ done here st'. if-Always _ done here _ _ (λ e. from-Settled rest done st') (λ e. st'))
          (stream_request-Settled req (request_hashes pkg req) done st))

  -- For any messages of a client's stream, on every path: when the handler ends, each request that was
  -- routed had its stream opened once, on the replica of its one decision, in order, and the place
  -- there given back once, in order; it was counted once, with its decision's matched blocks; and no
  -- unary call was made, so that nothing was retried.
  pub model_stream_infer-Settled :
      (msgs : Stream ModelInferRequest)
      → Always (λ done u. Settled done) [] (model_stream_infer pkg msgs)
  model_stream_infer-Settled msgs = from-Settled msgs [] (
    [],
    record {
      decided = refl;
      opened_there = refl;
      released_there = refl;
      charged = refl;
      no_unary = refl;
    },
  )
