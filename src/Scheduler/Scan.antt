-- ===== src/Scheduler/Scan.antt =====
-- The survey of the replicas and the round-robin scan of `pick` (crates/router/src/scheduler.rs).
use dynamo_router.Base.{
  ℕ, zero, suc, ◌+◌, ◌-◌, ◌%◌, ◌<◌, ◌≡◌, refl, sym, ap, ◌∙◌, subst, ◌⊎◌, inl, inr, Bool, true,
  false, ◌&&◌, some, List, [], ◌∷◌, map, arith, dec_lt, ltb, Bool-cases, length, get_elem?,
  get_elem?-lt, get_elem?_of_lt,
}
use mathlib.Core.Option
use mathlib.Core.Option.{some-injective}
use native.Mathlib.Nat.{add-zero, add-mod_right, mod-eq_of_lt, mod-add-mod}
use dynamo_router.Scheduler.{ReplicaState, survey, round_robin_scan}

-- A replica that may be routed to.
unfoldable pub is_available : ℕ → ReplicaState → Bool
is_available max_inflight r = r.healthy && ltb r.inflight max_inflight

abbrev pub At {ℓ} : {A : Type ℓ} → List A → ℕ → A → Type ℓ
At xs i x = get_elem? xs i ≡ some x

pub survey-avail_mask :
    (max_inflight : ℕ) (rs : List ReplicaState)
    → (survey max_inflight rs).avail_mask ≡ map (is_available max_inflight) rs
unfolding survey is_available
survey-avail_mask max_inflight [] = refl
survey-avail_mask max_inflight (r ∷ rs) = ground (arith, survey-avail_mask max_inflight rs)

pub At-map {ℓ κ} :
    {A : Type ℓ} {B : Type κ} (f : A → B) (xs : List A) (i : ℕ) (x : A)
    → At xs i x
    → At (map f xs) i (f x)
At-map f [] i x e = cc
At-map f (y ∷ xs) zero x e = ap (λ o. Option.map f o) e
At-map f (y ∷ xs) (suc i) x e = At-map f xs i x e

pub At-map_inv {ℓ κ} :
    {A : Type ℓ} {B : Type κ} (f : A → B) (xs : List A) (i : ℕ) (y : B)
    → At (map f xs) i y
    → (x : A) × At xs i x × (f x ≡ y)
At-map_inv f [] i y e = cc
At-map_inv f (x ∷ xs) zero y e = (x, refl, some-injective _ _ e)
At-map_inv f (x ∷ xs) (suc i) y e = At-map_inv f xs i y e

-- Either some replica is available, or none is; the two flags say which replicas there are.
pub survey-any_available :
    (max_inflight : ℕ) (rs : List ReplicaState)
    → (survey max_inflight rs).any_available ≡ true
    → (i : ℕ) × (r : ReplicaState) × At rs i r × (is_available max_inflight r ≡ true)
unfolding survey is_available
survey-any_available max_inflight [] e = cc
survey-any_available max_inflight (r ∷ rs) e =
    elim (Bool-cases (r.healthy && ltb r.inflight max_inflight)) [
      | inl here ↦ (0, r, refl, here)
      | inr not_here ↦
          let (i, q, at, ok) = survey-any_available max_inflight rs (ground arith) in
          (suc i, q, at, ok)
    ]

pub survey-none_available :
    (max_inflight : ℕ) (rs : List ReplicaState) (i : ℕ) (r : ReplicaState)
    → (survey max_inflight rs).any_available ≡ false
    → At rs i r
    → is_available max_inflight r ≡ false
unfolding survey is_available
survey-none_available max_inflight [] i r e at = cc
survey-none_available max_inflight (q ∷ rs) zero r e at = ground arith
survey-none_available max_inflight (q ∷ rs) (suc i) r e at =
    survey-none_available max_inflight rs i r (ground arith) at

pub survey-any_healthy :
    (max_inflight : ℕ) (rs : List ReplicaState)
    → (survey max_inflight rs).any_healthy ≡ true
    → (i : ℕ) × (r : ReplicaState) × At rs i r × (r.healthy ≡ true)
unfolding survey
survey-any_healthy max_inflight [] e = cc
survey-any_healthy max_inflight (r ∷ rs) e = elim (Bool-cases r.healthy) [
  | inl here ↦ (0, r, refl, here)
  | inr not_here ↦
      let (i, q, at, ok) = survey-any_healthy max_inflight rs (ground arith) in (suc i, q, at, ok)
]

pub survey-none_healthy :
    (max_inflight : ℕ) (rs : List ReplicaState) (i : ℕ) (r : ReplicaState)
    → (survey max_inflight rs).any_healthy ≡ false
    → At rs i r
    → r.healthy ≡ false
unfolding survey
survey-none_healthy max_inflight [] i r e at = cc
survey-none_healthy max_inflight (q ∷ rs) zero r e at = ground arith
survey-none_healthy max_inflight (q ∷ rs) (suc i) r e at =
    survey-none_healthy max_inflight rs i r (ground arith) at

-- The scan finds the first set place of the mask from `rr_next + off` on, going round.
pub record FirstFrom (rr_next n : ℕ) (mask : List Bool) (off cand : ℕ) : Type 0 where
  pub steps : ℕ
  pub place : cand ≡ (rr_next + off + steps) % n
  pub set_there : At mask cand true
  pub unset_before : (k : ℕ) → k < steps → At mask ((rr_next + off + k) % n) false

unset_step :
    (rr_next n off bound : ℕ) (mask : List Bool)
    → At mask ((rr_next + off) % n) false
    → ((k : ℕ) → k < bound → At mask ((rr_next + (off + 1) + k) % n) false)
    → (k : ℕ) → k < suc bound
    → At mask ((rr_next + off + k) % n) false
unset_step rr_next n off bound mask here later zero lt =
    subst (λ i. At mask (i % n) false) (omega arith) here
unset_step rr_next n off bound mask here later (suc k) lt =
    subst (λ i. At mask (i % n) false) (omega arith) (later k (omega arith))

round_robin_scan_cases :
    (left off n rr_next : ℕ) (mask : List Bool)
    → 0 < n
    → length mask ≡ n
    → ((cand : ℕ) × (round_robin_scan left off n rr_next mask ≡ some cand)
        × FirstFrom rr_next n mask off cand)
      ⊎ ((k : ℕ) → k < left → At mask ((rr_next + off + k) % n) false)
unfolding round_robin_scan
round_robin_scan_cases zero off n rr_next mask pos len = inr (λ k lt. elim lt [ ])
round_robin_scan_cases (suc left) off n rr_next mask pos len =
    let (here, at) = get_elem?_of_lt mask ((rr_next + off) % n) (omega arith) in
    elim (Bool-cases here) [
      | inl is_set ↦
          let at' : At mask ((rr_next + off) % n) true = at ∙ ap some is_set in
          inl (
            (rr_next + off) % n,
            rw (at', round_robin_scan),
            record {
              steps = 0;
              place = ap (λ i. i % n) (omega arith);
              set_there = at';
              unset_before = λ k lt. elim lt [ ];
            },
          )
      | inr unset ↦
          let at' : At mask ((rr_next + off) % n) false = at ∙ ap some unset in
          elim (round_robin_scan_cases left (off + 1) n rr_next mask pos len) [
            | inl (cand, e, f) ↦ inl (
              cand,
              rw (at', round_robin_scan) e,
              record {
                steps = suc f.steps;
                place = f.place ∙ ap (λ i. i % n) (omega arith);
                set_there = f.set_there;
                unset_before = unset_step rr_next n off f.steps mask at' f.unset_before;
              },
            )
            | inr none_set ↦ inr (unset_step rr_next n off left mask at' none_set)
          ]
    ]

-- Every place is met once in a full round.
round_reaches : (rr_next n i : ℕ) → i < n → (k : ℕ) × (k < n) × ((rr_next + 0 + k) % n ≡ i)
round_reaches rr_next n i lt =
    let below : rr_next % n < n = omega arith in
    elim (dec_lt i (rr_next % n)) [
      | yes under ↦
          let k = i + n - rr_next % n in
          let sum : rr_next % n + k ≡ i + n = omega arith in
          (
            k,
            omega arith,
            ap (λ x. x % n) (ap (λ x. x + k) (add-zero rr_next))
                ∙ sym (mod-add-mod rr_next n k)
                ∙ ap (λ x. x % n) sum
                ∙ add-mod_right i n
                ∙ mod-eq_of_lt lt,
          )
      | no over ↦
          let k = i - rr_next % n in
          let sum : rr_next % n + k ≡ i = omega arith in
          (
            k,
            omega arith,
            ap (λ x. x % n) (ap (λ x. x + k) (add-zero rr_next))
                ∙ sym (mod-add-mod rr_next n k)
                ∙ ap (λ x. x % n) sum
                ∙ mod-eq_of_lt lt,
          )
    ]

-- With a set place in the mask the scan finds one, the first from `rr_next` on.
pub round_robin_scan-FirstFrom :
    (n rr_next i : ℕ) (mask : List Bool)
    → length mask ≡ n
    → At mask i true
    → (cand : ℕ) × (round_robin_scan n 0 n rr_next mask ≡ some cand)
      × FirstFrom rr_next n mask 0 cand
round_robin_scan-FirstFrom n rr_next i mask len at =
    let lt = get_elem?-lt mask i true at in
    elim (round_robin_scan_cases n 0 n rr_next mask (omega arith) len) [
      | inl found ↦ found
      | inr none_set ↦
          let (k, below, here) = round_reaches rr_next n i (omega arith) in
          absurd (cc (none_set k below, at, ap (get_elem? mask) here))
    ]
