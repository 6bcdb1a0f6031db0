-- ===== src/Server/Health.antt =====
-- What a health pass decides, and how the handlers find a healthy replica
-- (crates/router/src/server.rs).
use dynamo_router.Base.{
  ℕ, zero, suc, ◌+◌, ◌≤◌, ◌<◌, ◌≡◌, refl, sym, ap, ◌∙◌, subst, ◌⊎◌, inl, inr, Bool, true, false,
  Option, none, some, List, [], ◌∷◌, arith, dec_lt, ℕ_discrete, ◌==◌, if◌then◌else◌, ==_refl, ==_ne,
  Bool-cases, length, set, All, length-set, get_elem?-set_self, get_elem?-set_ne, get_elem?_of_lt,
}
use dynamo_router.Float.{Float}
use dynamo_router.PrefixCache
use dynamo_router.Scheduler
use dynamo_router.Scheduler.{ReplicaState, Scheduler, update_replica}
use dynamo_router.Scheduler.Scan.{At}
use dynamo_router.Server.Shared.{find_healthy, apply_probe, apply_all}
use dynamo_router.Server.Load.{update_replica-At}

-- The health of replica `i`, of health `b` before, by the last result for it.
abbrev pub health_after : Bool → ℕ → List (ℕ × Bool) → Bool
health_after b i [] = b
health_after b i ((j, live) ∷ results) = health_after (if j == i then live else b) i results

abbrev pub lives : List (ℕ × Bool) → ℕ
lives [] = 0
lives ((j, live) ∷ results) = (if live then 1 else 0) + lives results

least_cases : (i j : ℕ) → i ≤ j → (i ≡ j) ⊎ (i + 1 ≤ j)
least_cases i j le = elim (dec_lt i j) [ yes lt ↦ inr (omega arith) | no ge ↦ inl (omega arith) ]

plus_zero : (m : ℕ) → m ≡ m + 0
plus_zero m = omega arith

module _ {fl : Float} where
  -- The healths of the replicas after one of them changes.
  abbrev Healths : Scheduler fl → Scheduler fl → ℕ → Bool → Type 0
  Healths s s' j v =
      (i : ℕ) (b : Bool)
      → Scheduler.is_healthy s i ≡ some b
      → Scheduler.is_healthy s' i ≡ some (if j == i then v else b)

  is_healthy-At :
      (s : Scheduler fl) (i : ℕ) (r : ReplicaState)
      → At s.replicas i r
      → Scheduler.is_healthy s i ≡ some r.healthy
  unfolding Scheduler.is_healthy
  is_healthy-At s i r at = rw at

  set-Healths :
      (s : Scheduler fl) (j : ℕ) (r : ReplicaState)
      → j < length s.replicas
      → Healths s (record s { replicas = set s.replicas j r }) j r.healthy
  unfolding Scheduler.is_healthy
  set-Healths s j r lt i b is = elim (ℕ_discrete j i) [
    | yes same ↦
        subst
          (λ k.
            Scheduler.is_healthy (record s { replicas = set s.replicas j r }) k
            ≡ some (if j == k then r.healthy else b))
          same (rw (get_elem?-set_self s.replicas j r lt, ==_refl j))
    | no other ↦ rw (get_elem?-set_ne s.replicas j i r other, ==_ne j i other) is
  ]

  -- A replica that is unhealthy already.
  same_health :
      (s : Scheduler fl) (j : ℕ) → Scheduler.is_healthy s j ≡ some false → Healths s s j false
  same_health s j down i b is = elim (ℕ_discrete j i) [
    | yes same ↦
        subst (λ k. Scheduler.is_healthy s k ≡ some (if j == k then false else b)) same
          (rw (==_refl j) down)
    | no other ↦ rw (==_ne j i other) is
  ]

  record Probed (s : Scheduler fl) (count j : ℕ) (live : Bool) : Type 0 where
    pub s' : Scheduler fl
    pub done : apply_probe s count j live ≡ some (s', count + (if live then 1 else 0))
    pub size : length s'.replicas ≡ length s.replicas
    pub healths : Healths s s' j live

  apply_probe-Probed :
      (s : Scheduler fl) (count j : ℕ) (live : Bool) → j < length s.replicas → Probed s count j live
  unfolding apply_probe Scheduler.mark_healthy Scheduler.mark_unhealthy
  apply_probe-Probed s count j true lt =
      let (r, at) = get_elem?_of_lt s.replicas j lt in
      record {
        s' = record s { replicas = set s.replicas j (record r { healthy = true }) };
        done =
            rw (
              is_healthy-At s j r at,
              update_replica-At s j (λ r. record r { healthy = true }) r at,
            );
        size = length-set s.replicas j _;
        healths = set-Healths s j _ lt;
      }
  apply_probe-Probed s count j false lt =
      let (r, at) = get_elem?_of_lt s.replicas j lt in
      elim (Bool-cases r.healthy) [
        | inl up ↦ record {
          s' = record s {
            replicas =
                set s.replicas j
                  (record { healthy = false; inflight = 0; cache = PrefixCache.new });
          };
          done =
              rw
                (
                  is_healthy-At s j r at,
                  up,
                  update_replica-At s j
                      (λ r. record { healthy = false; inflight = 0; cache = PrefixCache.new }) r at,
                )
                (ap (λ m. some (_, m)) (plus_zero count));
          size = length-set s.replicas j _;
          healths = set-Healths s j _ lt;
        }
        | inr down ↦ record {
          s' = s;
          done = rw (is_healthy-At s j r at, down) (ap (λ m. some (_, m)) (plus_zero count));
          size = refl;
          healths = same_health s j (is_healthy-At s j r at ∙ ap some down);
        }
      ]

  -- The results of a health pass, applied to a scheduler that has the replicas they name: no panic,
  -- each replica is as healthy as the last result for it says, or as it was if there is none, and the
  -- gauge's new value is the number of results that were live.
  pub apply_all-health_after :
      (s : Scheduler fl) (count : ℕ) (results : List (ℕ × Bool))
      → All (λ (p : ℕ × Bool). p.0 < length s.replicas) results
      → (s' : Scheduler fl) × (apply_all s count results ≡ some (s', count + lives results))
        × ((i : ℕ) (b : Bool)
            → Scheduler.is_healthy s i ≡ some b
            → Scheduler.is_healthy s' i ≡ some (health_after b i results))
  unfolding apply_all
  apply_all-health_after s count [] all = (s, ap (λ m. some (s, m)) (omega arith), λ i b is. is)
  apply_all-health_after s count ((j, live) ∷ results) (lt, all) =
      let p = apply_probe-Probed s count j live lt in
      let (s', e, healths) =
        apply_all-health_after p.s' (count + (if live then 1 else 0)) results
          (subst (λ n. All (λ (q : ℕ × Bool). q.0 < n) results) (sym p.size) all) in
      (
        s',
        rw (p.done, e) (ap (λ m. some (s', m)) (omega arith)),
        λ i b is. healths i (if j == i then live else b) (p.healths i b is),
      )

  -- What a search from `i` on finds: the first healthy replica, or none if none is healthy.
  abbrev pub Finds : Scheduler fl → ℕ → ℕ → Option ℕ → Type 0
  Finds s i n none = (j : ℕ) → i ≤ j → j < n → Scheduler.is_healthy s j ≡ some false
  Finds s i n (some k) =
      (Scheduler.is_healthy s k ≡ some true)
      × (k < n)
      × ((j : ℕ) → i ≤ j → j < k → Scheduler.is_healthy s j ≡ some false)

  Finds-from :
      (s : Scheduler fl) (i : ℕ) (found : Option ℕ)
      → Scheduler.is_healthy s i ≡ some false
      → Finds s (i + 1) (length s.replicas) found
      → Finds s i (length s.replicas) found
  Finds-from s i none down finds = λ j le lt. elim (least_cases i j le) [
    | inl same ↦ subst (λ k. Scheduler.is_healthy s k ≡ some false) same down
    | inr later ↦ finds j later lt
  ]
  Finds-from s i (some k) down (up, there, before) = (
    up,
    there,
    λ j le lt. elim (least_cases i j le) [
      | inl same ↦ subst (λ k. Scheduler.is_healthy s k ≡ some false) same down
      | inr later ↦ before j later lt
    ],
  )

  find_healthy-from :
      (s : Scheduler fl) (left i : ℕ)
      → i + left ≡ length s.replicas
      → (found : Option ℕ) × (find_healthy s left i ≡ some found)
        × Finds s i (length s.replicas) found
  unfolding find_healthy
  find_healthy-from s zero i e = (none, refl, λ j le lt. absurd (omega arith))
  find_healthy-from s (suc left) i e =
      let (r, at) = get_elem?_of_lt s.replicas i (omega arith) in
      let is = is_healthy-At s i r at in
      elim (Bool-cases r.healthy) [
        | inl up ↦
            (some i, rw (is, up), (is ∙ ap some up, omega arith, λ j le lt. absurd (omega arith)))
        | inr down ↦
            let (found, searched, finds) = find_healthy-from s left (i + 1) (omega arith) in
            (found, rw (is, down, searched), Finds-from s i found (is ∙ ap some down) finds)
      ]

  -- `server_ready` and `model_metadata` look through all replicas without a panic, and find the first
  -- healthy one, or nothing if none is healthy.
  pub find_healthy-Finds :
      (s : Scheduler fl)
      → (found : Option ℕ) × (find_healthy s (Scheduler.num_replicas s) 0 ≡ some found)
        × Finds s 0 (length s.replicas) found
  unfolding Scheduler.num_replicas
  find_healthy-Finds s = find_healthy-from s (length s.replicas) 0 (omega arith)
