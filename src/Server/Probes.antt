-- ===== src/Server/Probes.antt =====
-- What the search for a healthy replica and a health pass (crates/router/src/server.rs) do to the
-- scheduler, with its in-flight counts.
use dynamo_router.Base.{
  ℕ, zero, suc, ◌+◌, ◌<◌, ◌≡◌, refl, ◌⊎◌, inl, inr, Bool, true, false, Option, none, some, List, [],
  ◌∷◌, arith, Bool-cases, All, get_elem?_of_lt,
}
use dynamo_router.Float.{Float}
use dynamo_router.Scheduler
use dynamo_router.Scheduler.{ReplicaState, SchedulerConfig, Scheduler, routed, refused, Picked}
use dynamo_router.Scheduler.Invariant.{marks_unhealthy, marks_healthy, IsValid, step, step-IsValid}
use dynamo_router.Server.Shared.{find_healthy, apply_probe, apply_all}
use dynamo_router.Server.Discipline.{Holding, InRangeIndex}
use dynamo_router.Server.Load.{held, held_self, held_ne, Within, update-Within}

module _ {fl : Float} (n : ℕ) (cfg : SchedulerConfig fl) where
  -- The scheduler's counts with those of the other tasks and the place that this one holds.
  abbrev pub Counts : Scheduler fl → (ℕ → ℕ) → Holding → Type 0
  Counts s others h = Within s (λ i. others i + held h i)

  is_healthy-cases :
      (s : Scheduler fl) (i : ℕ)
      → i < n
      → IsValid n cfg s
      → (Scheduler.is_healthy s i ≡ some true) ⊎ (Scheduler.is_healthy s i ≡ some false)
  unfolding Scheduler.is_healthy
  is_healthy-cases s i lt v =
      let (r, at) = get_elem?_of_lt s.replicas i (omega (arith, v.size)) in
      elim (Bool-cases r.healthy) [ inl up ↦ inl (rw (at, up)) | inr down ↦ inr (rw (at, down)) ]

  pub find_healthy-InRange :
      (s : Scheduler fl) (left i : ℕ)
      → i + left ≡ n
      → IsValid n cfg s
      → (found : Option ℕ) × (find_healthy s left i ≡ some found) × InRangeIndex n found
  unfolding find_healthy
  find_healthy-InRange s zero i e v = (none, refl, tt)
  find_healthy-InRange s (suc left) i e v = elim (is_healthy-cases s i (omega arith) v) [
    | inl is ↦ (some i, rw is, omega arith)
    | inr is ↦
        let (found, searched, lt) = find_healthy-InRange s left (i + 1) (omega arith) v in
        (found, rw (is, searched), lt)
  ]

  -- The steps of a scheduler that do not raise any count.
  pub unhealthy-Within :
      (s s' : Scheduler fl) (i : ℕ) (total : ℕ → ℕ)
      → Scheduler.mark_unhealthy s i ≡ some s'
      → Within s total
      → Within s' total
  unfolding Scheduler.mark_unhealthy
  unhealthy-Within s s' i total e =
      update-Within s s' i _ total total e (λ j other. omega arith) (λ r lt. omega arith)

  healthy-Within :
      (s s' : Scheduler fl) (i : ℕ) (total : ℕ → ℕ)
      → Scheduler.mark_healthy s i ≡ some s'
      → Within s total
      → Within s' total
  unfolding Scheduler.mark_healthy
  healthy-Within s s' i total e =
      update-Within s s' i _ total total e (λ j other. omega arith) (λ r lt. lt)

  pub complete-Within :
      (s s' : Scheduler fl) (i : ℕ) (others : ℕ → ℕ)
      → Scheduler.complete s i ≡ some s'
      → Counts s others (some i)
      → Counts s' others none
  unfolding Scheduler.complete
  complete-Within s s' i others e =
      update-Within s s' i _ (λ j. others j + held (some i) j) (λ j. others j + 0) e
        (λ j other. omega (arith, held_ne i j other)) (λ r lt. omega (arith, held_self i))

  apply_probe-Goes :
      (s : Scheduler fl) (count i : ℕ) (live : Bool)
      → i < n
      → IsValid n cfg s
      → (s' : Scheduler fl) × (count' : ℕ) × (apply_probe s count i live ≡ some (s', count'))
        × IsValid n cfg s'
        × ((total : ℕ → ℕ) → Within s total → Within s' total)
  unfolding apply_probe step
  apply_probe-Goes s count i true lt v =
      let (s', e, v') = step-IsValid n cfg s (marks_healthy i) lt v in
      let keeps : (total : ℕ → ℕ) → Within s total → Within s' total =
        λ total. healthy-Within s s' i total e in
      elim (is_healthy-cases s i lt v) [
        | inl is ↦ (s', count + 1, rw (is, e), v', keeps)
        | inr is ↦ (s', count + 1, rw (is, e), v', keeps)
      ]
  apply_probe-Goes s count i false lt v = elim (is_healthy-cases s i lt v) [
    | inl is ↦
        let (s', e, v') = step-IsValid n cfg s (marks_unhealthy i) lt v in
        (s', count, rw (is, e), v', λ total. unhealthy-Within s s' i total e)
    | inr is ↦ (s, count, rw is, v, λ total within. within)
  ]

  pub apply_all-Goes :
      (s : Scheduler fl) (count : ℕ) (results : List (ℕ × Bool))
      → All (λ (p : ℕ × Bool). p.0 < n) results
      → IsValid n cfg s
      → (s' : Scheduler fl) × (count' : ℕ) × (apply_all s count results ≡ some (s', count'))
        × IsValid n cfg s'
        × ((total : ℕ → ℕ) → Within s total → Within s' total)
  unfolding apply_all
  apply_all-Goes s count [] all v = (s, count, refl, v, λ total within. within)
  apply_all-Goes s count ((i, live) ∷ results) (lt, all) v =
      let (t, m, e, v', keeps) = apply_probe-Goes s count i live lt v in
      let (s', count', e', v'', keeps') = apply_all-Goes t m results all v' in
      (s', count', rw (e, e'), v'', λ total within. keeps' total (keeps total within))
