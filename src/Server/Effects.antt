-- ===== src/Server/Effects.antt =====
-- What one operation of a task does to the state of the router (crates/router/src/server.rs).
use dynamo_router.Base.{
  ℕ, ◌+◌, ◌<◌, ◌≡◌, refl, sym, ap, ◌∙◌, subst, Bool, true, false, none, some, List, arith, length,
  set, All, length-set, get_elem?-lt, get_elem?_of_lt,
}
use mathlib.Core.Option.{some-injective}
use dynamo_router.Float.{Float}
use dynamo_router.Scheduler
use dynamo_router.Scheduler.{ReplicaState, SchedulerConfig, Scheduler, routed, refused, Picked}
use dynamo_router.Scheduler.Routing.{Picks, pick-Picks}
use dynamo_router.Scheduler.Invariant.{
  picks, completes, marks_unhealthy, IsValid, step, step-IsValid,
}
use dynamo_router.Task.{
  Op, Reply, pick, complete, mark_unhealthy, any_healthy, first_healthy, apply_probes,
  observe_overhead, set_inflight_gauge, inc_requests, inc_matched, inc_prompt, set_healthy_gauge,
  call_infer, call_stream, call_metadata, probe_all, send,
}
use dynamo_router.Server.Shared.{RouterInner, World, effect}
use dynamo_router.Server.Discipline.{Holding, after, Allowed, Possible, InRangePick}
use dynamo_router.Server.Load.{held, pick-Within, Within-mono}
use dynamo_router.Task.Trace.{did}
use dynamo_router.Server.Exact.{
  taken, given, moved, Quiet, Exact, Exact-mono, pick-Exact, complete-Exact, apply_all-Exact,
}
use dynamo_router.Server.Probes.{
  Counts, find_healthy-InRange, unhealthy-Within, complete-Within, apply_all-Goes,
}

-- There is a client for each replica, and probes are of replicas.
pub record IsWorld (n : ℕ) (w : World) : Type 0 where
  pub all_clients : length w.clients ≡ n
  pub probes_in_range : All (λ (p : ℕ × Bool). p.0 < n) w.probes

module _ {fl : Float} (n : ℕ) (cfg : SchedulerConfig fl) where
  pub record IsRouter (inner : RouterInner fl) : Type 0 where
    pub valid : IsValid n cfg inner.scheduler
    pub all_gauges : length inner.replica_inflight_gauges ≡ n

  -- An operation that is allowed does not panic, keeps the router valid, gets a reply in range, and
  -- keeps every in-flight count within the places that are held.
  pub record Goes (w : World) (inner : RouterInner fl) (h : Holding) (o : Op) : Type 0 where
    pub inner' : RouterInner fl
    pub reply : Reply o
    pub done : effect w inner o ≡ some (inner', reply)
    pub possible : Possible n o reply
    pub router : IsRouter inner'
    pub counts :
        (others : ℕ → ℕ)
        → Counts n cfg inner.scheduler others h
        → Counts n cfg inner'.scheduler others (after h o reply)
    pub exact :
        (total : ℕ → ℕ)
        → Quiet (did o reply)
        → Exact inner.scheduler total
        → Exact inner'.scheduler (moved total (did o reply))

  -- An operation that leaves the scheduler as it is.
  same_scheduler :
      (w : World) (inner inner' : RouterInner fl) (h : Holding) (o : Op) (reply : Reply o)
      → effect w inner o ≡ some (inner', reply)
      → Possible n o reply
      → inner'.scheduler ≡ inner.scheduler
      → length inner'.replica_inflight_gauges ≡ n
      → after h o reply ≡ h
      → ((i : ℕ) → taken (did o reply) i + given (did o reply) i ≡ 0)
      → IsRouter inner
      → Goes w inner h o
  same_scheduler w inner inner' h o reply e p same gauges kept still v = record {
    inner' = inner';
    reply = reply;
    done = e;
    possible = p;
    router = record { valid = subst (IsValid n cfg) (sym same) v.valid; all_gauges = gauges };
    counts = λ others within.
        subst (λ z. Counts n cfg z others (after h o reply)) (sym same)
          (subst (Counts n cfg inner.scheduler others) (sym kept) within);
    exact = λ total quiet exact.
        subst (λ z. Exact z (moved total (did o reply))) (sym same)
          (Exact-mono inner.scheduler total _ (λ i. omega (arith, still i)) exact);
  }

  picked-InRange :
      (s s' : Scheduler fl) (hashes : List ℕ) (res : Picked)
      → IsValid n cfg s
      → Picks s hashes s' res
      → InRangePick n res
  picked-InRange s s' hashes (refused e) v p = tt
  picked-InRange s s' hashes (routed d) v p =
      omega (arith, get_elem?-lt s.replicas d.replica p.before p.there, v.size)

  pick-IsValid_lem :
      (s s' : Scheduler fl) (hashes : List ℕ) (res : Picked)
      → IsValid n cfg s
      → Scheduler.pick s hashes ≡ some (s', res)
      → IsValid n cfg s'
  unfolding step
  pick-IsValid_lem s s' hashes res v e =
      let (t, e', v') = step-IsValid n cfg s (picks hashes) tt v in
      subst (IsValid n cfg) (sym (some-injective _ _ (sym (rw e) ∙ e'))) v'

  pub effect-Goes :
      (w : World) (inner : RouterInner fl) (h : Holding) (o : Op)
      → IsWorld n w
      → Allowed n h o
      → IsRouter inner
      → Goes w inner h o
  unfolding effect step Scheduler.num_replicas Scheduler.inflight
  effect-Goes w inner h (pick hashes) iw none_held v =
      let (s', res, e, p) = pick-Picks inner.scheduler hashes in
      record {
        inner' = record inner { scheduler = s' };
        reply = res;
        done = rw e;
        possible = picked-InRange inner.scheduler s' hashes res v.valid p;
        router = record {
          valid = pick-IsValid_lem inner.scheduler s' hashes res v.valid e;
          all_gauges = v.all_gauges;
        };
        counts = λ others within.
            Within-mono s' _ _ (λ i. omega (arith, ap (λ x. held x i) none_held))
              (pick-Within inner.scheduler s' hashes res (λ i. others i + held h i) p within);
        exact = λ total quiet. pick-Exact inner.scheduler s' hashes res total p;
      }
  effect-Goes w inner h (complete i) iw (held_there, lt) v =
      let (s', e, v') = step-IsValid n cfg inner.scheduler (completes i) lt v.valid in
      let (r, at) = get_elem?_of_lt s'.replicas i (omega (arith, v'.size)) in
      record {
        inner' = record inner { scheduler = s' };
        reply = r.inflight;
        done = rw (e, at);
        possible = tt;
        router = record { valid = v'; all_gauges = v.all_gauges };
        counts = λ others within.
            complete-Within n cfg inner.scheduler s' i others e
              (subst (Counts n cfg inner.scheduler others) held_there within);
        exact = λ total quiet. complete-Exact inner.scheduler s' i r.inflight total e;
      }
  effect-Goes w inner h (mark_unhealthy i) iw lt v =
      let (s', e, v') = step-IsValid n cfg inner.scheduler (marks_unhealthy i) lt v.valid in
      record {
        inner' = record inner { scheduler = s' };
        reply = tt;
        done = rw e;
        possible = tt;
        router = record { valid = v'; all_gauges = v.all_gauges };
        counts = λ others within. unhealthy-Within n cfg inner.scheduler s' i _ e within;
        exact = λ total quiet. absurd quiet;
      }
  effect-Goes w inner h any_healthy iw lt v =
      let (found, e, there) =
        find_healthy-InRange n cfg inner.scheduler (length inner.scheduler.replicas) 0
          (omega (arith, v.valid.size)) v.valid in
      same_scheduler w inner inner h any_healthy (elim found [ none ↦ false | some i ↦ true ])
        (rw e) tt refl v.all_gauges refl (λ i. refl) v
  effect-Goes w inner h first_healthy iw lt v =
      let (found, e, there) =
        find_healthy-InRange n cfg inner.scheduler (length inner.scheduler.replicas) 0
          (omega (arith, v.valid.size)) v.valid in
      same_scheduler w inner inner h first_healthy found (rw e) there refl v.all_gauges refl
        (λ i. refl) v
  effect-Goes w inner h (apply_probes results) iw all v =
      let (s', count, e, v', keeps) = apply_all-Goes n cfg inner.scheduler 0 results all v.valid in
      record {
        inner' = record inner { scheduler = s' };
        reply = count;
        done = rw e;
        possible = tt;
        router = record { valid = v'; all_gauges = v.all_gauges };
        counts = λ others within. keeps _ within;
        exact = λ total quiet exact.
            Exact-mono s' total _ (λ i. omega arith)
              (apply_all-Exact inner.scheduler s' 0 count results total quiet e exact);
      }
  effect-Goes w inner h (set_inflight_gauge i value) iw lt v =
      let (old, at) =
        get_elem?_of_lt inner.replica_inflight_gauges i (omega (arith, v.all_gauges)) in
      same_scheduler w inner
        (record inner { replica_inflight_gauges = set inner.replica_inflight_gauges i value }) h
        (set_inflight_gauge i value) tt (rw at) tt refl
        (length-set inner.replica_inflight_gauges i value ∙ v.all_gauges) refl (λ i. refl) v
  effect-Goes w inner h (call_infer i req) iw lt v =
      let (c, at) = get_elem?_of_lt w.clients i (omega (arith, iw.all_clients)) in
      same_scheduler w inner inner h (call_infer i req) (c.infer req) (rw at) tt refl v.all_gauges
        refl (λ i. refl) v
  effect-Goes w inner h (call_stream i req) iw lt v =
      let (c, at) = get_elem?_of_lt w.clients i (omega (arith, iw.all_clients)) in
      same_scheduler w inner inner h (call_stream i req) (c.stream req) (rw at) tt refl v.all_gauges
        refl (λ i. refl) v
  effect-Goes w inner h (call_metadata i req) iw lt v =
      let (c, at) = get_elem?_of_lt w.clients i (omega (arith, iw.all_clients)) in
      same_scheduler w inner inner h (call_metadata i req) (c.metadata req) (rw at) tt refl
        v.all_gauges refl (λ i. refl) v
  effect-Goes w inner h observe_overhead iw lt v =
      same_scheduler w inner _ h observe_overhead tt refl tt refl v.all_gauges refl (λ i. refl) v
  effect-Goes w inner h inc_requests iw lt v =
      same_scheduler w inner _ h inc_requests tt refl tt refl v.all_gauges refl (λ i. refl) v
  effect-Goes w inner h (inc_matched m) iw lt v =
      same_scheduler w inner _ h (inc_matched m) tt refl tt refl v.all_gauges refl (λ i. refl) v
  effect-Goes w inner h (inc_prompt m) iw lt v =
      same_scheduler w inner _ h (inc_prompt m) tt refl tt refl v.all_gauges refl (λ i. refl) v
  effect-Goes w inner h (set_healthy_gauge m) iw lt v =
      same_scheduler w inner _ h (set_healthy_gauge m) tt refl tt refl v.all_gauges refl (λ i. refl)
        v
  effect-Goes w inner h (probe_all m) iw lt v =
      same_scheduler w inner inner h (probe_all m) w.probes refl iw.probes_in_range refl
        v.all_gauges refl (λ i. refl) v
  effect-Goes w inner h (send item) iw lt v =
      same_scheduler w inner inner h (send item) w.client_there refl tt refl v.all_gauges refl
        (λ i. refl) v
