-- ===== src/Server/Load.antt =====
-- The in-flight counts of the scheduler against the places that the tasks of the router
-- (crates/router/src/server.rs) hold.
use dynamo_router.Base.{
  ℕ, zero, suc, ◌+◌, ◌≤◌, ◌≡◌, refl, sym, ap, ◌∙◌, subst, ◌≢◌, ◌⊎◌, inl, inr, none, some, List, [],
  ◌∷◌, ◌++◌, arith, ◌==◌, if◌then◌else◌, ==_refl, ==_ne, Option-cases, get_elem?, set,
}
use mathlib.Core.Option.{some-injective}
use dynamo_router.Float.{Float}
use dynamo_router.Scheduler.{
  ReplicaState, Scheduler, Picked, routed, refused, no_healthy_replicas, all_saturated, admit,
  update_replica,
}
use dynamo_router.Scheduler.Scan.{At}
use dynamo_router.Scheduler.Routing.{Picks, admit-inflight}
use dynamo_router.Server.Discipline.{Holding, after_pick}

-- The places on replica `i` that are held.
abbrev pub held : Holding → ℕ → ℕ
held none i = 0
held (some j) i = if j == i then 1 else 0

abbrev pub count : List Holding → ℕ → ℕ
count [] i = 0
count (h ∷ hs) i = held h i + count hs i

pub held_self : (i : ℕ) → held (some i) i ≡ 1
held_self i = rw (==_refl i)

pub held_ne : (i j : ℕ) → i ≢ j → held (some i) j ≡ 0
held_ne i j other = rw (==_ne i j other)

pub count-set :
    (hs : List Holding) (k : ℕ) (h h' : Holding) (i : ℕ)
    → At hs k h
    → count (set hs k h') i + held h i ≡ count hs i + held h' i
count-set [] k h h' i at = cc
count-set (g ∷ hs) zero h h' i at = omega (arith, ap (λ x. held x i) (some-injective _ _ at))
count-set (g ∷ hs) (suc k) h h' i at = omega (arith, count-set hs k h h' i at)

pub drop_count : (hs : List Holding) (k i : ℕ) → count (set hs k none) i ≤ count hs i
drop_count [] k i = omega arith
drop_count (h ∷ hs) zero i = omega arith
drop_count (h ∷ hs) (suc k) i = omega (arith, drop_count hs k i)

pub count-append : (hs : List Holding) (i : ℕ) → count (hs ++ none ∷ []) i ≡ count hs i
count-append [] i = refl
count-append (h ∷ hs) i = omega (arith, count-append hs i)

pub At-set_cases :
    {A : Type 0} (xs : List A) (i j : ℕ) (v x : A)
    → At (set xs i v) j x
    → ((i ≡ j) × (x ≡ v)) ⊎ ((i ≢ j) × At xs j x)
At-set_cases [] i j v x at = cc
At-set_cases (y ∷ xs) zero zero v x at = inl (refl, sym (some-injective _ _ at))
At-set_cases (y ∷ xs) zero (suc j) v x at = inr (omega arith, at)
At-set_cases (y ∷ xs) (suc i) zero v x at = inr (omega arith, at)
At-set_cases (y ∷ xs) (suc i) (suc j) v x at = elim (At-set_cases xs i j v x at) [
  | inl (same, it) ↦ inl (ap suc same, it)
  | inr (other, old) ↦ inr (omega (arith, other), old)
]

module _ {fl : Float} where
  -- No in-flight count is above `total`.
  abbrev pub Within : Scheduler fl → (ℕ → ℕ) → Type 0
  Within s total = (i : ℕ) (r : ReplicaState) → At s.replicas i r → r.inflight ≤ total i

  pub Within-mono :
      (s : Scheduler fl) (total total' : ℕ → ℕ)
      → ((i : ℕ) → total i ≤ total' i)
      → Within s total
      → Within s total'
  Within-mono s total total' le within i r at = omega (arith, le i, within i r at)

  pub set-Within :
      (s s' : Scheduler fl) (i : ℕ) (r r' : ReplicaState) (total total' : ℕ → ℕ)
      → At s.replicas i r
      → s'.replicas ≡ set s.replicas i r'
      → ((j : ℕ) → i ≢ j → total j ≤ total' j)
      → (r.inflight ≤ total i → r'.inflight ≤ total' i)
      → Within s total
      → Within s' total'
  set-Within s s' i r r' total total' there e others here within j q at =
      elim (At-set_cases s.replicas i j r' q (ap (λ rs. get_elem? rs j) (sym e) ∙ at)) [
        | inl (same, it) ↦
            subst (λ k. q.inflight ≤ total' k) same
              (omega (arith, here (within i r there), ap (λ (z : ReplicaState). z.inflight) it))
        | inr (other, old) ↦ omega (arith, others j other, within j q old)
      ]

  pub update_replica-At :
      (s : Scheduler fl) (i : ℕ) (f : ReplicaState → ReplicaState) (r : ReplicaState)
      → At s.replicas i r
      → update_replica s i f ≡ some (record s { replicas = set s.replicas i (f r) })
  unfolding update_replica
  update_replica-At s i f r there = rw there

  pub update-Within :
      (s s' : Scheduler fl) (i : ℕ) (f : ReplicaState → ReplicaState) (total total' : ℕ → ℕ)
      → update_replica s i f ≡ some s'
      → ((j : ℕ) → i ≢ j → total j ≤ total' j)
      → ((r : ReplicaState) → r.inflight ≤ total i → (f r).inflight ≤ total' i)
      → Within s total
      → Within s' total'
  unfolding update_replica
  update-Within s s' i f total total' e others here within =
      elim (Option-cases (get_elem? s.replicas i)) [
        | inl gone ↦ absurd (cc)
        | inr (r, there) ↦
            set-Within s s' i r (f r) total total' there
              (sym (
                ap (λ (z : Scheduler fl). z.replicas)
                  (some-injective _ _ (sym (update_replica-At s i f r there) ∙ e))))
              others (here r) within
      ]

  pub pick-Within :
      (s s' : Scheduler fl) (hashes : List ℕ) (res : Picked) (total : ℕ → ℕ)
      → Picks s hashes s' res
      → Within s total
      → Within s' (λ i. total i + held (after_pick res) i)
  pick-Within s s' hashes (refused no_healthy_replicas) total p within =
      subst (λ z. Within z (λ i. total i + 0)) (sym p.0) (λ i r at. omega (arith, within i r at))
  pick-Within s s' hashes (refused all_saturated) total p within =
      subst (λ z. Within z (λ i. total i + 0)) (sym p.0) (λ i r at. omega (arith, within i r at))
  pick-Within s s' hashes (routed d) total p within =
      set-Within s s' d.replica p.before (admit s.policy s.cfg hashes p.before) total _ p.there
        p.replicas (λ j other. omega arith)
        (λ h. omega (arith, admit-inflight s.policy s.cfg hashes p.before, held_self d.replica))
        within
