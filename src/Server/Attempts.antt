-- ===== src/Server/Attempts.antt =====
-- What `model_infer_attempts` (crates/router/src/server.rs) does with one request, whatever else
-- happens between its operations.
use dynamo_router.Base.{
  ℕ, ◌+◌, ◌≤◌, ◌≡◌, refl, true, Option, none, some, List, [], ◌∷◌, map, arith, if◌then◌else◌,
  length,
}
use dynamo_router.Protocol.{ModelInferRequest, ModelInferResponse}
use dynamo_router.Scheduler.{
  RouteDecision, Picked, routed, refused, no_healthy_replicas, all_saturated, PickError,
}
use dynamo_router.Rpc.{Status, Result, ok, err, Packages, is_transport_failure}
use dynamo_router.Task.{Op, ◌>>=◌}
use dynamo_router.Task.Trace.{
  Event, did, Always, if-Always, calls, decisions, released, marked, Count, requests, matched,
  prompt, counted,
}
use dynamo_router.Server.{
  report_pick, pick_replica, record_served, release, upstream_infer, serve, finish_last,
  attempt_last, finish_first, attempt_first, infer_hashes, request_hashes, model_infer_attempts,
}

-- The replicas whose call failed as a transport failure.
abbrev pub failed : Packages → List (ℕ × Result ModelInferResponse) → List ℕ
failed pkg [] = []
failed pkg ((i, ok resp) ∷ rest) = failed pkg rest
failed pkg ((i, err status) ∷ rest) =
    let others = failed pkg rest in if is_transport_failure pkg status then i ∷ others else others

abbrev pub last_of {ℓ} : {A : Type ℓ} → List A → Option A
last_of [] = none
last_of (x ∷ []) = some x
last_of (x ∷ y ∷ xs) = last_of (y ∷ xs)

-- The result against the last call and the last decision.
abbrev pub Answers :
    Packages
    → ℕ
    → List (ℕ × Result ModelInferResponse)
    → List RouteDecision
    → List Count
    → Result ModelInferResponse
    → Type 0
Answers pkg prompt_blocks cs ds counts (ok resp) =
    (d : RouteDecision) × (last_of ds ≡ some d)
    × (last_of cs ≡ some (d.replica, ok resp))
    × (counts ≡ requests ∷ matched d.matched_blocks ∷ prompt prompt_blocks ∷ [])
Answers pkg prompt_blocks cs ds counts (err status) = counts ≡ []

pub record Attempts (pkg : Packages) (prompt_blocks : ℕ) (done : List Event)
    (result : Result ModelInferResponse) : Type 0 where
  pub at_most_two : length (calls done) ≤ 2
  -- Only the last call may end in anything but a transport failure.
  pub retried : length (calls done) ≤ length (failed pkg (calls done)) + 1
  pub marked_failed : marked done ≡ failed pkg (calls done)
  pub routed_called : map (λ d. d.replica) (decisions done) ≡ map (λ c. c.0) (calls done)
  pub released_called : released done ≡ map (λ c. c.0) (calls done)
  pub answers : Answers pkg prompt_blocks (calls done) (decisions done) (counted done) result

module _ (pkg : Packages) (req : ModelInferRequest) (hashes : List ℕ) where
  -- The events of one attempt, up to the release.
  abbrev tried : RouteDecision → Result ModelInferResponse → ℕ → List Event → List Event
  tried d result left rest =
      did (Op.pick hashes) (routed d)
      ∷ did Op.observe_overhead tt
      ∷ did (Op.set_inflight_gauge d.replica d.inflight_after) tt
      ∷ did (Op.call_infer d.replica req) result
      ∷ did (Op.complete d.replica) left
      ∷ did (Op.set_inflight_gauge d.replica left) tt
      ∷ rest

  abbrev Good : List Event → Result ModelInferResponse → Type 0
  Good = Attempts pkg (length hashes)

  -- Attempt 2, after an attempt 1 whose call failed as a transport failure.
  finish_last-Good :
      (d₁ d : RouteDecision) (status₁ : Status) (m₁ m : ℕ) (result : Result ModelInferResponse)
      → is_transport_failure pkg status₁ ≡ true
      → Always Good
          (tried d₁ (err status₁) m₁ (did (Op.mark_unhealthy d₁.replica) tt ∷ tried d result m []))
          (finish_last pkg (length hashes) d result)
  unfolding finish_last serve record_served ◌>>=◌
  finish_last-Good d₁ d status₁ m₁ m (ok resp) e₁ = λ _ _ _. record {
    at_most_two = omega arith;
    retried = rw e₁ (omega arith);
    marked_failed = rw e₁;
    routed_called = refl;
    released_called = refl;
    answers = (d, refl, refl, refl);
  }
  finish_last-Good d₁ d status₁ m₁ m (err status) e₁ =
      if-Always Good _ (is_transport_failure pkg status) _ _
        (λ e _. record {
          at_most_two = omega arith;
          retried = rw (e₁, e) (omega arith);
          marked_failed = rw (e₁, e);
          routed_called = refl;
          released_called = refl;
          answers = refl;
        })
        (λ e. record {
          at_most_two = omega arith;
          retried = rw (e₁, e) (omega arith);
          marked_failed = rw (e₁, e);
          routed_called = refl;
          released_called = refl;
          answers = refl;
        })

  refused_last-Good :
      (d₁ : RouteDecision) (status₁ status : Status) (m₁ : ℕ) (e : PickError)
      → is_transport_failure pkg status₁ ≡ true
      → Good
          (tried d₁ (err status₁) m₁ (
            did (Op.mark_unhealthy d₁.replica) tt
            ∷ did (Op.pick hashes) (refused e)
            ∷ did Op.observe_overhead tt
            ∷ []))
          (err status)
  refused_last-Good d₁ status₁ status m₁ e e₁ = record {
    at_most_two = omega arith;
    retried = rw e₁ (omega arith);
    marked_failed = rw e₁;
    routed_called = refl;
    released_called = refl;
    answers = refl;
  }

  retry-Good :
      (d₁ : RouteDecision) (status₁ : Status) (m₁ : ℕ) (r : Picked)
      → is_transport_failure pkg status₁ ≡ true
      → Always Good
          (tried d₁ (err status₁) m₁ (
            did (Op.mark_unhealthy d₁.replica) tt
            ∷ did (Op.pick hashes) r
            ∷ did Op.observe_overhead tt
            ∷ []))
          (report_pick pkg r >>= attempt_last pkg req hashes)
  unfolding report_pick attempt_last upstream_infer release ◌>>=◌
  retry-Good d₁ status₁ m₁ (refused no_healthy_replicas) e₁ =
      refused_last-Good d₁ status₁ _ m₁ no_healthy_replicas e₁
  retry-Good d₁ status₁ m₁ (refused all_saturated) e₁ =
      refused_last-Good d₁ status₁ _ m₁ all_saturated e₁
  retry-Good d₁ status₁ m₁ (routed d) e₁ =
      λ _ result m _. finish_last-Good d₁ d status₁ m₁ m result e₁

  finish_first-Good :
      (d : RouteDecision) (m : ℕ) (result : Result ModelInferResponse)
      → Always Good (tried d result m []) (finish_first pkg req hashes d result)
  unfolding finish_first pick_replica serve record_served ◌>>=◌
  finish_first-Good d m (ok resp) = λ _ _ _. record {
    at_most_two = omega arith;
    retried = omega arith;
    marked_failed = refl;
    routed_called = refl;
    released_called = refl;
    answers = (d, refl, refl, refl);
  }
  finish_first-Good d m (err status) =
      if-Always Good _ (is_transport_failure pkg status) _ _ (λ e _ r _. retry-Good d status m r e)
        (λ e. record {
          at_most_two = omega arith;
          retried = rw e (omega arith);
          marked_failed = rw e;
          routed_called = refl;
          released_called = refl;
          answers = refl;
        })

  refused_first-Good :
      (e : PickError) (status : Status)
      → Good (did (Op.pick hashes) (refused e) ∷ did Op.observe_overhead tt ∷ []) (err status)
  refused_first-Good e status = record {
    at_most_two = omega arith;
    retried = omega arith;
    marked_failed = refl;
    routed_called = refl;
    released_called = refl;
    answers = refl;
  }

  picked-Good :
      (r : Picked)
      → Always Good
          (did (Op.pick hashes) r ∷ did Op.observe_overhead tt ∷ [])
          (report_pick pkg r >>= attempt_first pkg req hashes)
  unfolding report_pick attempt_first upstream_infer release ◌>>=◌
  picked-Good (refused no_healthy_replicas) = refused_first-Good no_healthy_replicas _
  picked-Good (refused all_saturated) = refused_first-Good all_saturated _
  picked-Good (routed d) = λ _ result m _. finish_first-Good d m result

  infer_hashes-Good : Always Good [] (infer_hashes pkg req (ok hashes))
  unfolding infer_hashes pick_replica ◌>>=◌
  infer_hashes-Good = λ r _. picked-Good r

-- A request whose hashes are known, on every path, whatever the replies and whatever other tasks do
-- between its operations: it makes at most two calls, the second only after a transport failure. The
-- replicas marked unhealthy are exactly those whose call failed so. The replicas called are those of
-- the decisions, in order, and so are the replicas released. A response is the last call's, of the
-- last decision's replica, and then the three counters were raised once, by that decision's matched
-- blocks and the number of the prompt's blocks. On an error no counter was raised.
pub model_infer_attempts-Attempts :
    (pkg : Packages) (req : ModelInferRequest) (hashes : List ℕ)
    → request_hashes pkg req ≡ ok hashes
    → Always (Attempts pkg (length hashes)) [] (model_infer_attempts pkg req)
unfolding model_infer_attempts
model_infer_attempts-Attempts pkg req hashes e = rw e (infer_hashes-Good pkg req hashes)
