-- ===== src/Scheduler/Invariant.antt =====
-- What every call on the scheduler (crates/router/src/scheduler.rs) keeps.
use dynamo_router.Base.{
  ℕ, zero, suc, ◌-◌, ◌≤◌, ◌<◌, ◌≡◌, refl, sym, ap, ◌∙◌, subst, ◌⊎◌, inl, inr, true, false, Option,
  some, List, [], ◌∷◌, arith, length, get_elem?, ◌>>=◌, set, All, length-set, get_elem?_of_lt,
}
use mathlib.Core.Option.{some-injective}
use dynamo_router.Float.{Float}
use dynamo_router.Lru.Invariant.{IsSound}
use dynamo_router.PrefixCache
use dynamo_router.PrefixCache.{num_blocks}
use dynamo_router.PrefixCache.Eviction.{get-evict_to, insert-IsSound, evict_to-IsSound}
use dynamo_router.PrefixCache.Calls.{new-IsSound}
use dynamo_router.Scheduler.{
  ReplicaState, SchedulerConfig, Scheduler, Policy, cache_aware, round_robin, Picked, routed,
  refused, no_healthy_replicas, all_saturated, idle_replicas, new, admit, pick, update_replica,
  complete, mark_unhealthy, mark_healthy,
}
use dynamo_router.Scheduler.Scan.{At}
use dynamo_router.Scheduler.Routing.{Picks, pick-Picks}

pub data Event : Type 0 where
  picks : List ℕ → Event
  completes marks_unhealthy marks_healthy : ℕ → Event

-- The calls with a replica's index are made with a replica that there is.
abbrev pub InRange : ℕ → Event → Type 0
InRange n (picks hashes) = Unit {0}
InRange n (completes i) = i < n
InRange n (marks_unhealthy i) = i < n
InRange n (marks_healthy i) = i < n

pub record IsFit (max_inflight block_budget : ℕ) (r : ReplicaState) : Type 0 where
  pub sound : IsSound r.cache
  pub within_budget : num_blocks r.cache ≤ block_budget
  pub within_cap : r.inflight ≤ max_inflight
  -- A replica that is out of routing has no load and no cached blocks.
  pub cleared : r.healthy ≡ false → (r.inflight ≡ 0) × (num_blocks r.cache ≡ 0)

At-set : {A : Type 0} (xs : List A) (i j : ℕ) (v x : A) → At (set xs i v) j x → (x ≡ v) ⊎ At xs j x
At-set [] i j v x at = cc
At-set (y ∷ xs) zero zero v x at = inl (sym (some-injective _ _ at))
At-set (y ∷ xs) zero (suc j) v x at = inr at
At-set (y ∷ xs) (suc i) zero v x at = inr at
At-set (y ∷ xs) (suc i) (suc j) v x at = At-set xs i j v x at

pub idle-IsFit :
    (n : ℕ) (max_inflight block_budget : ℕ) (i : ℕ) (r : ReplicaState)
    → At (idle_replicas n) i r
    → IsFit max_inflight block_budget r
unfolding idle_replicas num_blocks PrefixCache.new
idle-IsFit zero m b i r at = cc
idle-IsFit (suc n) m b zero r at = subst (IsFit m b) (some-injective _ _ at) (record {
  sound = new-IsSound;
  within_budget = omega arith;
  within_cap = omega arith;
  cleared = λ h. absurd (cc h);
})
idle-IsFit (suc n) m b (suc i) r at = idle-IsFit n m b i r at

pub length-idle_replicas : (n : ℕ) → length (idle_replicas n) ≡ n
unfolding idle_replicas
length-idle_replicas zero = refl
length-idle_replicas (suc n) = ap suc (length-idle_replicas n)

module _ {fl : Float} where
  unfoldable pub step : Scheduler fl → Event → Option (Scheduler fl)
  step s (picks hashes) = do (s', res) ← pick s hashes; some s'
  step s (completes i) = complete s i
  step s (marks_unhealthy i) = mark_unhealthy s i
  step s (marks_healthy i) = mark_healthy s i

  unfoldable pub run : Scheduler fl → List Event → Option (Scheduler fl)
  run s [] = some s
  run s (e ∷ events) = do s' ← step s e; run s' events

  -- The scheduler of `n` replicas, each within its limits.
  pub record IsValid (n : ℕ) (cfg : SchedulerConfig fl) (s : Scheduler fl) : Type 0 where
    pub size : length s.replicas ≡ n
    pub same_cfg : s.cfg ≡ cfg
    pub fit :
        (i : ℕ) (r : ReplicaState) → At s.replicas i r → IsFit cfg.max_inflight cfg.block_budget r

  module _ (n : ℕ) (cfg : SchedulerConfig fl) where
    abbrev Fit : ReplicaState → Type 0
    Fit = IsFit cfg.max_inflight cfg.block_budget

    set-IsValid :
        (s s' : Scheduler fl) (i : ℕ) (r : ReplicaState)
        → IsValid n cfg s
        → s'.replicas ≡ set s.replicas i r
        → s'.cfg ≡ s.cfg
        → Fit r
        → IsValid n cfg s'
    set-IsValid s s' i r v e c f = record {
      size = ap length e ∙ length-set s.replicas i r ∙ v.size;
      same_cfg = c ∙ v.same_cfg;
      fit = λ j q at. elim (At-set s.replicas i j r q (ap (λ rs. get_elem? rs j) (sym e) ∙ at)) [
        | inl same ↦ subst Fit (sym same) f
        | inr old ↦ v.fit j q old
      ];
    }

    admit-Fit :
        (policy : Policy) (hashes : List ℕ) (r : ReplicaState)
        → r.healthy ≡ true
        → r.inflight < cfg.max_inflight
        → Fit r
        → Fit (admit policy cfg hashes r)
    unfolding admit
    admit-Fit cache_aware hashes r h room f =
        let s = insert-IsSound r.cache hashes f.sound in
        record {
          sound = evict_to-IsSound (PrefixCache.insert r.cache hashes) cfg.block_budget s;
          within_budget =
              omega
                (arith, (get-evict_to (PrefixCache.insert r.cache hashes) cfg.block_budget s).1);
          within_cap = omega arith;
          cleared = λ e. absurd (cc);
        }
    admit-Fit round_robin hashes r h room f = record {
      sound = f.sound;
      within_budget = f.within_budget;
      within_cap = omega arith;
      cleared = λ e. absurd (cc);
    }

    pick-IsValid :
        (s : Scheduler fl) (hashes : List ℕ)
        → IsValid n cfg s
        → (s' : Scheduler fl) × (step s (picks hashes) ≡ some s') × IsValid n cfg s'
    unfolding step
    pick-IsValid s hashes v =
        let (s', res, e, p) = pick-Picks s hashes in (s', rw e, after s' res p)
      where
        after : (s' : Scheduler fl) (res : Picked) → Picks s hashes s' res → IsValid n cfg s'
        after s' (refused no_healthy_replicas) p = subst (IsValid n cfg) (sym p.0) v
        after s' (refused all_saturated) p = subst (IsValid n cfg) (sym p.0) v
        after s' (routed d) p = set-IsValid s s' d.replica _ v p.replicas p.same_cfg (
            subst (λ (c : SchedulerConfig fl). Fit (admit s.policy c hashes p.before))
              (sym v.same_cfg)
              (admit-Fit s.policy hashes p.before p.was_healthy
                (subst (λ (c : SchedulerConfig fl). p.before.inflight < c.max_inflight) v.same_cfg
                  p.had_room)
                (v.fit d.replica p.before p.there)))

    update-IsValid :
        (s : Scheduler fl) (i : ℕ) (f : ReplicaState → ReplicaState)
        → i < n
        → ((r : ReplicaState) → Fit r → Fit (f r))
        → IsValid n cfg s
        → (s' : Scheduler fl) × (update_replica s i f ≡ some s') × IsValid n cfg s'
    unfolding update_replica
    update-IsValid s i f lt keep v =
        let (r, at) = get_elem?_of_lt s.replicas i (omega (arith, v.size)) in
        (
          record s { replicas = set s.replicas i (f r) },
          rw at,
          set-IsValid s _ i (f r) v refl refl (keep r (v.fit i r at)),
        )

    new-num_blocks : num_blocks PrefixCache.new ≡ 0
    unfolding num_blocks PrefixCache.new
    new-num_blocks = refl

    pub step-IsValid :
        (s : Scheduler fl) (e : Event)
        → InRange n e
        → IsValid n cfg s
        → (s' : Scheduler fl) × (step s e ≡ some s') × IsValid n cfg s'
    unfolding step complete mark_unhealthy mark_healthy
    step-IsValid s (picks hashes) here v = pick-IsValid s hashes v
    step-IsValid s (completes i) here v =
        update-IsValid s i (λ r. record r { inflight = r.inflight - 1 }) here
          (λ r f. record {
            sound = f.sound;
            within_budget = f.within_budget;
            within_cap = omega (arith, f.within_cap);
            cleared = λ h. ground (arith, f.cleared h);
          })
          v
    step-IsValid s (marks_unhealthy i) here v =
        update-IsValid s i (λ r. record { healthy = false; inflight = 0; cache = PrefixCache.new })
          here
          (λ r f. record {
            sound = new-IsSound;
            within_budget = omega (arith, new-num_blocks);
            within_cap = omega arith;
            cleared = λ h. (refl, new-num_blocks);
          })
          v
    step-IsValid s (marks_healthy i) here v =
        update-IsValid s i (λ r. record r { healthy = true }) here
          (λ r f. record {
            sound = f.sound;
            within_budget = f.within_budget;
            within_cap = f.within_cap;
            cleared = λ h. absurd (cc h);
          })
          v

    run_from-IsValid :
        (s : Scheduler fl) (events : List Event)
        → All (InRange n) events
        → IsValid n cfg s
        → (s' : Scheduler fl) × (run s events ≡ some s') × IsValid n cfg s'
    unfolding run
    run_from-IsValid s [] here v = (s, refl, v)
    run_from-IsValid s (e ∷ events) here v =
        let (t, stepped, v') = step-IsValid s e here.0 v in
        let (s', ran, v'') = run_from-IsValid t events here.1 v' in (s', rw stepped ran, v'')

  -- From a new scheduler of `n` replicas, no sequence of calls with replicas that exist panics, and
  -- after it each replica's in-flight count is within `max_inflight`, its cached blocks within
  -- `block_budget` with sound tables, and an unhealthy replica has neither load nor cached blocks.
  pub run-IsValid :
      (n : ℕ) (policy : Policy) (cfg : SchedulerConfig fl) (events : List Event)
      → All (InRange n) events
      → (s : Scheduler fl) × (run (new n policy cfg) events ≡ some s) × IsValid n cfg s
  unfolding new
  run-IsValid n policy cfg events here =
      run_from-IsValid n cfg (new n policy cfg) events here (record {
        size = length-idle_replicas n;
        same_cfg = refl;
        fit = λ i r at. idle-IsFit n cfg.max_inflight cfg.block_budget i r at;
      })
