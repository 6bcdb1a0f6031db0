-- ===== src/Server/Exact.antt =====
-- The in-flight counts of the scheduler against the places taken and given back, one operation of
-- crates/router/src/server.rs at a time.
use dynamo_router.Base.{
  ℕ, ◌+◌, ◌-◌, ◌≡◌, refl, sym, ap, ◌∙◌, subst, ◌≢◌, inl, inr, Bool, true, false, some, List, [],
  ◌∷◌, arith, Option-cases, get_elem?, set, All,
}
use mathlib.Core.Option.{some-injective}
use dynamo_router.Float.{Float}
use dynamo_router.Scheduler
use dynamo_router.Scheduler.{
  ReplicaState, Scheduler, Picked, routed, refused, no_healthy_replicas, all_saturated, admit,
  update_replica,
}
use dynamo_router.Scheduler.Scan.{At}
use dynamo_router.Scheduler.Routing.{Picks, admit-inflight}
use dynamo_router.Task.{
  Op, Reply, pick, complete, mark_unhealthy, any_healthy, first_healthy, apply_probes,
  observe_overhead, set_inflight_gauge, inc_requests, inc_matched, inc_prompt, set_healthy_gauge,
  call_infer, call_stream, call_metadata, probe_all, send,
}
use dynamo_router.Task.Trace.{Event, did}
use dynamo_router.Server.Shared.{apply_probe, apply_all}
use dynamo_router.Server.Discipline.{Holding, after, after_pick, Allowed}
use dynamo_router.Server.Load.{held, held_self, held_ne, At-set_cases, update_replica-At}

-- The places on replica `i` that an event takes, and gives back.
abbrev pub taken : Event → ℕ → ℕ
taken (did (pick hashes) r) i = held (after_pick r) i
taken (did o r) i = 0

abbrev pub given : Event → ℕ → ℕ
given (did (complete replica) r) i = held (some replica) i
given (did o r) i = 0

-- No replica is marked unhealthy, by a request or by the prober.
abbrev pub Quiet : Event → Type 0
Quiet (did (mark_unhealthy replica) r) = ⊥
Quiet (did (apply_probes results) r) = All (λ (p : ℕ × Bool). p.1 ≡ true) results
Quiet (did o r) = Unit {0}

-- A task's places change as its events say.
pub after-held :
    (n : ℕ) (h : Holding) (o : Op) (r : Reply o) (i : ℕ)
    → Allowed n h o
    → held (after h o r) i + given (did o r) i ≡ held h i + taken (did o r) i
after-held n h (pick hashes) r i none_held = omega (arith, ap (λ x. held x i) none_held)
after-held n h (complete replica) r i a = omega (arith, ap (λ x. held x i) a.0)
after-held n h (mark_unhealthy replica) r i a = refl
after-held n h any_healthy r i a = refl
after-held n h first_healthy r i a = refl
after-held n h (apply_probes results) r i a = refl
after-held n h observe_overhead r i a = refl
after-held n h (set_inflight_gauge replica value) r i a = refl
after-held n h inc_requests r i a = refl
after-held n h (inc_matched m) r i a = refl
after-held n h (inc_prompt m) r i a = refl
after-held n h (set_healthy_gauge m) r i a = refl
after-held n h (call_infer replica req) r i a = refl
after-held n h (call_stream replica req) r i a = refl
after-held n h (call_metadata replica req) r i a = refl
after-held n h (probe_all m) r i a = refl
after-held n h (send item) r i a = refl

-- A total after an event; the count stops at 0.
abbrev pub moved : (ℕ → ℕ) → Event → ℕ → ℕ
moved total e i = total i + taken e i - given e i

module _ {fl : Float} where
  -- Every in-flight count is what `total` says.
  abbrev pub Exact : Scheduler fl → (ℕ → ℕ) → Type 0
  Exact s total = (i : ℕ) (r : ReplicaState) → At s.replicas i r → r.inflight ≡ total i

  pub Exact-mono :
      (s : Scheduler fl) (total total' : ℕ → ℕ)
      → ((i : ℕ) → total i ≡ total' i)
      → Exact s total
      → Exact s total'
  Exact-mono s total total' same exact i r at = exact i r at ∙ same i

  set-Exact :
      (s s' : Scheduler fl) (i : ℕ) (r r' : ReplicaState) (total total' : ℕ → ℕ)
      → At s.replicas i r
      → s'.replicas ≡ set s.replicas i r'
      → ((j : ℕ) → i ≢ j → total j ≡ total' j)
      → (r.inflight ≡ total i → r'.inflight ≡ total' i)
      → Exact s total
      → Exact s' total'
  set-Exact s s' i r r' total total' there e others here exact j q at =
      elim (At-set_cases s.replicas i j r' q (ap (λ rs. get_elem? rs j) (sym e) ∙ at)) [
        | inl (same, it) ↦
            subst (λ k. q.inflight ≡ total' k) same
              (ap (λ (z : ReplicaState). z.inflight) it ∙ here (exact i r there))
        | inr (other, old) ↦ exact j q old ∙ others j other
      ]

  update-Exact :
      (s s' : Scheduler fl) (i : ℕ) (f : ReplicaState → ReplicaState) (total total' : ℕ → ℕ)
      → update_replica s i f ≡ some s'
      → ((j : ℕ) → i ≢ j → total j ≡ total' j)
      → ((r : ReplicaState) → r.inflight ≡ total i → (f r).inflight ≡ total' i)
      → Exact s total
      → Exact s' total'
  unfolding update_replica
  update-Exact s s' i f total total' e others here exact =
      elim (Option-cases (get_elem? s.replicas i)) [
        | inl gone ↦ absurd (cc)
        | inr (r, there) ↦
            set-Exact s s' i r (f r) total total' there
              (sym (
                ap (λ (z : Scheduler fl). z.replicas)
                  (some-injective _ _ (sym (update_replica-At s i f r there) ∙ e))))
              others (here r) exact
      ]

  pub pick-Exact :
      (s s' : Scheduler fl) (hashes : List ℕ) (res : Picked) (total : ℕ → ℕ)
      → Picks s hashes s' res
      → Exact s total
      → Exact s' (moved total (did (pick hashes) res))
  pick-Exact s s' hashes (refused no_healthy_replicas) total p exact =
      subst (λ z. Exact z (λ i. total i + 0 - 0)) (sym p.0)
        (Exact-mono s total _ (λ i. omega arith) exact)
  pick-Exact s s' hashes (refused all_saturated) total p exact =
      subst (λ z. Exact z (λ i. total i + 0 - 0)) (sym p.0)
        (Exact-mono s total _ (λ i. omega arith) exact)
  pick-Exact s s' hashes (routed d) total p exact =
      set-Exact s s' d.replica p.before (admit s.policy s.cfg hashes p.before) total _ p.there
        p.replicas (λ j other. omega (arith, held_ne d.replica j other))
        (λ h. omega (arith, admit-inflight s.policy s.cfg hashes p.before, held_self d.replica))
        exact

  pub complete-Exact :
      (s s' : Scheduler fl) (i reply : ℕ) (total : ℕ → ℕ)
      → Scheduler.complete s i ≡ some s'
      → Exact s total
      → Exact s' (moved total (did (complete i) reply))
  unfolding Scheduler.complete
  complete-Exact s s' i reply total e =
      update-Exact s s' i _ total _ e (λ j other. omega (arith, held_ne i j other))
        (λ r lt. omega (arith, held_self i))

  healthy-Exact :
      (s s' : Scheduler fl) (i : ℕ) (total : ℕ → ℕ)
      → Scheduler.mark_healthy s i ≡ some s'
      → Exact s total
      → Exact s' total
  unfolding Scheduler.mark_healthy
  healthy-Exact s s' i total e =
      update-Exact s s' i _ total total e (λ j other. refl) (λ r same. same)

  apply_probe-Exact :
      (s s' : Scheduler fl) (count count' i : ℕ) (total : ℕ → ℕ)
      → apply_probe s count i true ≡ some (s', count')
      → Exact s total
      → Exact s' total
  unfolding apply_probe
  apply_probe-Exact s s' count count' i total e exact =
      elim (Option-cases (Scheduler.is_healthy s i)) [
        | inl gone ↦ absurd (cc)
        | inr (b, is) ↦ elim (Option-cases (Scheduler.mark_healthy s i)) [
          | inl gone ↦ absurd (cc)
          | inr (t, marked) ↦
              subst (λ z. Exact z total)
                (ap (λ (p : Scheduler fl × ℕ). p.0)
                  (some-injective (t, count + 1) (s', count') (sym (rw (is, marked)) ∙ e)))
                (healthy-Exact s t i total marked exact)
        ]
      ]

  pub apply_all-Exact :
      (s s' : Scheduler fl) (count count' : ℕ) (results : List (ℕ × Bool)) (total : ℕ → ℕ)
      → All (λ (p : ℕ × Bool). p.1 ≡ true) results
      → apply_all s count results ≡ some (s', count')
      → Exact s total
      → Exact s' total
  unfolding apply_all
  apply_all-Exact s s' count count' [] total all e exact =
      subst (λ z. Exact z total) (ap (λ (p : Scheduler fl × ℕ). p.0) (some-injective _ _ e)) exact
  apply_all-Exact s s' count count' ((i, false) ∷ results) total (live, all) e exact = absurd (cc)
  apply_all-Exact s s' count count' ((i, true) ∷ results) total (live, all) e exact =
      elim (Option-cases (apply_probe s count i true)) [
        | inl gone ↦ absurd (cc)
        | inr ((t, m), first) ↦
            apply_all-Exact t s' m count' results total all (cc)
              (apply_probe-Exact s t count m i total first exact)
      ]
