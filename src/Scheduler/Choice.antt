-- ===== src/Scheduler/Choice.antt =====
-- The two loops of the cache-aware arm of `pick` (crates/router/src/scheduler.rs).
use dynamo_router.Base.{
  ℕ, zero, suc, ◌+◌, ◌≤◌, ◌≡◌, refl, sym, ap, ◌∙◌, subst, ◌↔◌, ◌⊎◌, inl, inr, Bool, true, false,
  some, List, [], ◌∷◌, arith, ltb, ltb→lt, Bool-cases, get_elem?, In,
}
use mathlib.Core.Option.{some-injective}
use dynamo_router.Float.{Float, IsOrder}
use dynamo_router.PrefixCache.{lookup}
use dynamo_router.Scheduler.{
  ReplicaState, SchedulerConfig, Best, available_from, least_loop, least_loaded, score, better,
  best_loop,
}
use dynamo_router.Scheduler.Scan.{At}

In-available_from :
    (j k : ℕ) (mask : List Bool) → At mask k true → In (j + k) (available_from j mask)
unfolding available_from
In-available_from j k [] at = cc
In-available_from j zero (b ∷ mask) at = ground arith
In-available_from j (suc k) (b ∷ mask) at =
    let later : In (j + suc k) (available_from (j + 1) mask) =
      subst (λ i. In i (available_from (j + 1) mask)) (omega arith)
        (In-available_from (j + 1) k mask at) in
    elim (Bool-cases b) [ inl e ↦ rw e (inr later) | inr e ↦ rw e later ]

available_from-In :
    (j i : ℕ) (mask : List Bool)
    → In i (available_from j mask)
    → (k : ℕ) × (i ≡ j + k) × At mask k true
unfolding available_from
available_from-In j i [] m = elim m [ ]
available_from-In j i (false ∷ mask) m =
    let (k, e, at) = available_from-In (j + 1) i mask m in (suc k, omega arith, at)
available_from-In j i (true ∷ mask) (inl e) = (0, omega arith, refl)
available_from-In j i (true ∷ mask) (inr m) =
    let (k, e, at) = available_from-In (j + 1) i mask m in (suc k, omega arith, at)

-- The list of available replicas holds exactly the set places of the mask.
pub In-available : (i : ℕ) (mask : List Bool) → In i (available_from 0 mask) ↔ At mask i true
In-available i mask = (
  λ m.
      let (k, e, at) = available_from-In 0 i mask m in subst (λ x. At mask x true) (omega arith) at,
  λ at. subst (λ x. In x (available_from 0 mask)) (omega arith) (In-available_from 0 i mask at),
)

abbrev pub Valid : List ReplicaState → List ℕ → Type 0
Valid rs is = (i : ℕ) → In i is → (r : ReplicaState) × At rs i r

-- The loop ends at a listed replica, or where it began, with the least load of all.
pub record Least (rs : List ReplicaState) (is : List ℕ) (start load idx : ℕ) : Type 0 where
  pub value : ℕ
  pub below_start : value ≤ load
  pub below_all : (i : ℕ) (r : ReplicaState) → In i is → At rs i r → value ≤ r.inflight
  pub source :
      ((idx ≡ start) × (value ≡ load))
      ⊎ (In idx is × ((r : ReplicaState) × At rs idx r × (r.inflight ≡ value)))

least_loop_lem :
    (rs : List ReplicaState) (is : List ℕ) (start load : ℕ)
    → Valid rs is
    → (idx : ℕ) × (least_loop rs is start load ≡ some idx) × Least rs is start load idx
unfolding least_loop
least_loop_lem rs [] start load v = (
  start,
  refl,
  record {
    value = load;
    below_start = omega arith;
    below_all = λ i r m at. absurd m;
    source = inl (refl, refl);
  },
)
least_loop_lem rs (i ∷ is) start load v =
    let (r, at) = v i (inl refl) in
    elim (Bool-cases (ltb r.inflight load)) [
      | inl less ↦
          let (idx, e, l) = least_loop_lem rs is i r.inflight (λ j m. v j (inr m)) in
          (
            idx,
            rw (at, least_loop, less) e,
            record {
              value = l.value;
              below_start = omega (arith, l.below_start, ltb→lt _ _ less);
              below_all = λ j q m at'. ground (arith, l.below_start, at, l.below_all j q);
              source = ground (arith, l.source);
            },
          )
      | inr more ↦
          let (idx, e, l) = least_loop_lem rs is start load (λ j m. v j (inr m)) in
          (
            idx,
            rw (at, least_loop, more) e,
            record {
              value = l.value;
              below_start = l.below_start;
              below_all = λ j q m at'. ground (arith, l.below_start, at, l.below_all j q);
              source = ground (arith, l.source);
            },
          )
    ]

-- `min_by_key` on a list that is not empty gives a listed replica with the least load.
pub least_loaded_lem :
    (rs : List ReplicaState) (first : ℕ) (is : List ℕ)
    → Valid rs (first ∷ is)
    → (idx : ℕ) × (r : ReplicaState) × (least_loaded rs (first ∷ is) ≡ some idx)
      × In idx (first ∷ is)
      × At rs idx r
      × ((j : ℕ) (q : ReplicaState) → In j (first ∷ is) → At rs j q → r.inflight ≤ q.inflight)
unfolding least_loaded
least_loaded_lem rs first is v =
    let (r, at) = v first (inl refl) in
    let (idx, e, l) = least_loop_lem rs is first r.inflight (λ j m. v j (inr m)) in
    elim l.source [
      | inl (here, same) ↦ (
        idx,
        r,
        rw (at, least_loaded) e,
        inl here,
        ap (get_elem? rs) here ∙ at,
        λ j q m at'. ground (arith, at, l.below_all j q),
      )
      | inr (m', (q', at', same)) ↦ (
        idx,
        q',
        rw (at, least_loaded) e,
        inr m',
        at',
        λ j q m at''. ground (arith, at, l.below_start, l.below_all j q),
      )
    ]

-- What does not exceed the old best does not exceed a better one.
not_above :
    {fl : Float}
    → IsOrder fl
    → (low high x : fl.F64) → fl.lt low high ≡ true
    → fl.lt low x ≡ false
    → fl.lt high x ≡ false
not_above {fl} o low high x up e = elim (Bool-cases (fl.lt high x)) [
  | inl more ↦ absurd (cc (o.trans low high x up more))
  | inr less ↦ less
]

same-At :
    (rs : List ReplicaState) (i j : ℕ) (r q : ReplicaState) → At rs i r → At rs j q → j ≡ i → r ≡ q
same-At rs i j r q at at' e = some-injective _ _ (sym at ∙ ap (get_elem? rs) (sym e) ∙ at')

module _ {fl : Float} (cfg : SchedulerConfig fl) (rs : List ReplicaState) (hashes : List ℕ) where
  abbrev scored : ℕ → ReplicaState → Best fl
  scored i r = record {
    best = i;
    best_score = score cfg hashes r;
    best_matched = lookup r.cache hashes;
  }

  -- The scoring loop ends at a listed replica, or where it began, and no listed replica scores more.
  pub record Winner (is : List ℕ) (b b' : Best fl) : Type 0 where
    pub source : (b' ≡ b) ⊎ ((i : ℕ) × (r : ReplicaState) × In i is × At rs i r × (b' ≡ scored i r))
    pub keeps :
        IsOrder fl → (x : fl.F64) → fl.lt b.best_score x ≡ false → fl.lt b'.best_score x ≡ false
    pub unbeaten :
        IsOrder fl
        → (i : ℕ) (r : ReplicaState) → In i is
        → At rs i r
        → fl.lt b'.best_score (score cfg hashes r) ≡ false

  pub best_loop_lem :
      (is : List ℕ) (b : Best fl)
      → Valid rs is
      → (b' : Best fl) × (best_loop cfg rs hashes is b ≡ some b') × Winner is b b'
  unfolding best_loop better
  best_loop_lem [] b v =
      (b, refl, record { source = inl refl; keeps = λ o x e. e; unbeaten = λ o i r m at. absurd m })
  best_loop_lem (i ∷ is) b v =
      let (r, at) = v i (inl refl) in
      let tail : Valid rs is = λ j m. v j (inr m) in
      elim (Bool-cases (fl.lt b.best_score (score cfg hashes r))) [
        | inl wins ↦
            let (b', e, w) = best_loop_lem is (scored i r) tail in
            (
              b',
              rw (at, best_loop, better, wins) e,
              record {
                source = elim w.source [
                  | inl same ↦ inr (i, r, inl refl, at, same)
                  | inr (j, q, m, at', same) ↦ inr (j, q, inr m, at', same)
                ];
                keeps = λ o x low.
                    w.keeps o x (not_above o b.best_score (score cfg hashes r) x wins low);
                unbeaten = λ o j q m at'. elim m [
                  | inl here ↦
                      subst (λ z. fl.lt b'.best_score (score cfg hashes z) ≡ false)
                        (same-At rs i j r q at at' here)
                        (w.keeps o (score cfg hashes r) (o.irrefl (score cfg hashes r)))
                  | inr later ↦ w.unbeaten o j q later at'
                ];
              },
            )
        | inr loses ↦
            let (b', e, w) = best_loop_lem is b tail in
            (
              b',
              rw (at, best_loop, better, loses) e,
              record {
                source = elim w.source [
                  | inl same ↦ inl same
                  | inr (j, q, m, at', same) ↦ inr (j, q, inr m, at', same)
                ];
                keeps = w.keeps;
                unbeaten = λ o j q m at'. elim m [
                  | inl here ↦
                      subst (λ z. fl.lt b'.best_score (score cfg hashes z) ≡ false)
                        (same-At rs i j r q at at' here) (w.keeps o (score cfg hashes r) loses)
                  | inr later ↦ w.unbeaten o j q later at'
                ];
              },
            )
      ]
