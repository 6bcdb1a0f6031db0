-- ===== src/Cluster/Picking.antt =====
-- The scheduler's decision (crates/router/src/scheduler.rs) over replicas whose caches it mirrors.
use dynamo_router.Base.{
  ℕ, ◌≡◌, refl, sym, ap, ◌∙◌, subst, inl, inr, true, some, List, arith, length, get_elem?,
  length-set, get_elem?-set_self, get_elem?-lt, get_elem?_of_lt,
}
use dynamo_router.Float.{Float, IsOrder}
use dynamo_router.Rpc.{Packages}
use dynamo_router.Scheduler
use dynamo_router.Scheduler.{
  ReplicaState, Scheduler, SchedulerConfig, Policy, cache_aware, RouteDecision, routed, refused,
  Picked, no_healthy_replicas, all_saturated, score, admit, update_replica,
}
use dynamo_router.Scheduler.Scan.{At, is_available}
use dynamo_router.Scheduler.Routing.{Picks, Routed, pick-Picks, pick-cache_aware}
use dynamo_router.PrefixCache.{lookup, insert, evict_to}
use dynamo_router.Mock.{MockConfig}
use dynamo_router.Task.{pick}
use dynamo_router.Server.Shared.{effect}
use dynamo_router.Server.Load.{At-set_cases}
use dynamo_router.Cluster.{Cluster, act}
use dynamo_router.Cluster.Execution.{scheduled, Reported, IsMirrored, IsAhead, IsFinite, PickLeads}
use dynamo_router.Cluster.Counters.{scheduled-IsFrame, scheduled-IsCounted}

module _ {fl : Float} (pkg : Packages) (mock : MockConfig) (n : ℕ) (cfg : SchedulerConfig fl) where
  admit-cache :
      (hashes : List ℕ) (r : ReplicaState)
      → (admit cache_aware cfg hashes r).cache ≡ evict_to (insert r.cache hashes) cfg.block_budget
  unfolding admit
  admit-cache hashes r = refl

  At-length :
      {A B : Type 0} (xs : List A) (ys : List B) (i : ℕ) (x : A)
      → length xs ≡ n
      → length ys ≡ n
      → At xs i x
      → (y : B) × At ys i y
  At-length xs ys i x e e' at = get_elem?_of_lt ys i (omega (arith, get_elem?-lt xs i x at))

  routed-IsAhead :
      (t : Reported) (hashes : List ℕ) (c : Cluster fl) (s' : Scheduler fl) (d : RouteDecision)
      → IsOrder fl
      → IsFinite n cfg
      → IsMirrored n cfg t 0 0 c
      → Scheduler.pick c.inner.scheduler hashes ≡ some (s', routed d)
      → Routed c.inner.scheduler hashes s' d
      → IsAhead n cfg t hashes d (scheduled c s')
  routed-IsAhead t hashes c s' d o finite v e p =
      let f = v.frame in
      let s = c.inner.scheduler in
      let (i, w, r, aw, unbeaten, how, (there, free), true_match, replicas) =
        pick-cache_aware s hashes s' d o
          (λ j q a.
            subst
              (λ (z : SchedulerConfig fl).
                is_available z.max_inflight q ≡ true → fl.lt fl.lowest (score z hashes q) ≡ true)
              (sym f.same_cfg) (finite hashes q) a.1)
          f.policy e in
      let (m, at) = At-length s.replicas c.mocks d.replica r f.all_replicas f.all_mocks there in
      let mirror = v.mirrors d.replica r m there at in
      record {
        frame =
            scheduled-IsFrame n cfg c s' p.same_policy p.same_cfg
              (ap length replicas ∙ length-set s.replicas d.replica _) f;
        counted = scheduled-IsCounted n cfg t 0 0 c s' v.counted;
        m = m;
        r = admit cache_aware s.cfg hashes r;
        there_m = at;
        there_r =
            ap (λ rs. get_elem? rs d.replica) replicas
            ∙ get_elem?-set_self s.replicas d.replica _ (get_elem?-lt s.replicas d.replica r there);
        capacity = mirror.1;
        predicted = true_match ∙ ap (λ t. lookup t hashes) (sym mirror.0);
        cached =
            ap (λ (z : SchedulerConfig fl). (admit cache_aware z hashes r).cache) f.same_cfg
            ∙ admit-cache hashes r
            ∙ ap (λ t. evict_to (insert t hashes) cfg.block_budget) (sym mirror.0);
        others = λ j q k other atr atm.
            elim (At-set_cases s.replicas d.replica j _ q
              (ap (λ rs. get_elem? rs j) (sym replicas) ∙ atr)) [
                | inl (same, it) ↦ absurd (other same)
                | inr (different, old) ↦ v.mirrors j q k old atm
              ];
      }

  pub pick-Leads :
      (t : Reported) (hashes : List ℕ) (c : Cluster fl)
      → IsOrder fl
      → IsFinite n cfg
      → IsMirrored n cfg t 0 0 c
      → (c' : Cluster fl) × (picked : Picked) × (act pkg mock c (pick hashes) ≡ some (c', picked))
        × PickLeads n cfg t hashes c c' picked
  unfolding act effect
  pick-Leads t hashes c o finite v = go (pick-Picks c.inner.scheduler hashes)
    where
      go :
          (s' : Scheduler fl) × (picked : Picked) × (Scheduler.pick c.inner.scheduler hashes
              ≡ some (s', picked))
            × Picks c.inner.scheduler hashes s' picked
          → (c' : Cluster fl) × (picked : Picked) × (act pkg mock c (pick hashes)
              ≡ some (c', picked))
            × PickLeads n cfg t hashes c c' picked
      go (s', refused no_healthy_replicas, e, p) =
          (scheduled c s', refused no_healthy_replicas, rw e, ap (scheduled c) p.0)
      go (s', refused all_saturated, e, p) =
          (scheduled c s', refused all_saturated, rw e, ap (scheduled c) p.0)
      go (s', routed d, e, p) =
          (scheduled c s', routed d, rw e, routed-IsAhead t hashes c s' d o finite v e p)
