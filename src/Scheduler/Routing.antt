-- ===== src/Scheduler/Routing.antt =====
-- The theorems about one call of `pick` (crates/router/src/scheduler.rs).
use dynamo_router.Base.{
  ℕ, zero, suc, ◌+◌, ◌%◌, ◌≤◌, ◌<◌, ◌≡◌, refl, sym, ap, ◌∙◌, subst, ◌⊎◌, inl, inr, true, false,
  some, List, [], ◌∷◌, map, arith, dec_lt, Bool-cases, length, get_elem?, set, length-map,
}
use mathlib.Core.Option.{some-injective}
use dynamo_router.Float.{Float, IsOrder}
use dynamo_router.PrefixCache.{lookup}
use dynamo_router.Scheduler.{
  ReplicaState, SchedulerConfig, Scheduler, Policy, cache_aware, round_robin, Picked, RouteDecision,
  routed, refused, no_healthy_replicas, all_saturated, survey, score, choose, admit, route, pick,
}
use dynamo_router.Scheduler.Scan.{
  At, is_available, survey-avail_mask, survey-any_available, survey-none_available,
  survey-any_healthy, survey-none_healthy, At-map, At-map_inv, FirstFrom,
  round_robin_scan-FirstFrom,
}
use dynamo_router.Scheduler.Pick.{Available, Chosen, Chosen-winner, choose_cache_aware-Chosen}

at_cap :
    (max_inflight : ℕ) (r : ReplicaState)
    → is_available max_inflight r ≡ false
    → r.healthy ≡ true
    → max_inflight ≤ r.inflight
unfolding is_available
at_cap max_inflight r busy h = ground arith

-- A write that keeps a field of the element there keeps the list of those fields.
map-set_same {ℓ κ} :
    {A : Type ℓ} {B : Type κ} (f : A → B) (xs : List A) (i : ℕ) (x y : A)
    → At xs i x
    → f y ≡ f x
    → map f (set xs i y) ≡ map f xs
map-set_same f [] i x y at e = refl
map-set_same f (z ∷ xs) zero x y at e =
    ap (λ b. b ∷ map f xs) (e ∙ ap f (sym (some-injective _ _ at)))
map-set_same f (z ∷ xs) (suc i) x y at e = ap (◌∷◌ (f z)) (map-set_same f xs i x y at e)

module _ {fl : Float} where
  -- How the policy's arm came to its choice.
  abbrev Explains : Scheduler fl → List ℕ → Policy → ℕ → ℕ → ReplicaState → ℕ → Type 0
  Explains s hashes cache_aware idx matched r rr_next =
      Chosen s.cfg s.replicas hashes idx matched r × (rr_next ≡ s.rr_next)
  Explains s hashes round_robin idx matched r rr_next =
      FirstFrom s.rr_next (length s.replicas) (map (is_available s.cfg.max_inflight) s.replicas) 0
        idx
      × (matched ≡ 0)
      × (rr_next ≡ (idx + 1) % length s.replicas)

  choose_lem :
      (s : Scheduler fl) (hashes : List ℕ) (policy : Policy) (i : ℕ) (q : ReplicaState)
      → Available s.cfg.max_inflight s.replicas i q
      → (idx matched rr_next : ℕ) × (r : ReplicaState) × (choose s hashes
            (map (is_available s.cfg.max_inflight) s.replicas)
            policy
          ≡ some (idx, matched, rr_next))
        × Available s.cfg.max_inflight s.replicas idx r
        × Explains s hashes policy idx matched r rr_next
  unfolding choose
  choose_lem s hashes cache_aware i q a =
      let (idx, matched, r, e, c) = choose_cache_aware-Chosen s.cfg s.replicas hashes i q a in
      (idx, matched, s.rr_next, r, rw e, c.available_there, (c, refl))
  choose_lem s hashes round_robin i q a =
      let mask = map (is_available s.cfg.max_inflight) s.replicas in
      let (cand, e, f) =
        round_robin_scan-FirstFrom (length s.replicas) s.rr_next i mask
          (length-map (is_available s.cfg.max_inflight) s.replicas)
          (At-map (is_available s.cfg.max_inflight) s.replicas i q a.0 ∙ ap some a.1) in
      let (r, at, ok) =
        At-map_inv (is_available s.cfg.max_inflight) s.replicas cand true f.set_there in
      (cand, 0, (cand + 1) % length s.replicas, r, rw e, (at, ok), (f, refl, refl))

  -- The state after a request is routed: one replica is changed, and the round-robin place.
  pub record Routed (s : Scheduler fl) (hashes : List ℕ) (s' : Scheduler fl) (d : RouteDecision)
      : Type 0 where
    pub before : ReplicaState
    pub there : At s.replicas d.replica before
    pub was_healthy : before.healthy ≡ true
    pub had_room : before.inflight < s.cfg.max_inflight
    pub counted : d.inflight_after ≡ before.inflight + 1
    pub replicas : s'.replicas ≡ set s.replicas d.replica (admit s.policy s.cfg hashes before)
    pub same_policy : s'.policy ≡ s.policy
    pub same_cfg : s'.cfg ≡ s.cfg
    pub explained : Explains s hashes s.policy d.replica d.matched_blocks before s'.rr_next

  -- The three ways in which `pick` ends.
  abbrev pub Picks : Scheduler fl → List ℕ → Scheduler fl → Picked → Type 0
  Picks s hashes s' (routed d) = Routed s hashes s' d
  Picks s hashes s' (refused no_healthy_replicas) =
      (s' ≡ s) × ((i : ℕ) (r : ReplicaState) → At s.replicas i r → r.healthy ≡ false)
  Picks s hashes s' (refused all_saturated) =
      (s' ≡ s)
      × ((i : ℕ) × (r : ReplicaState) × At s.replicas i r × (r.healthy ≡ true))
      × ((i : ℕ) (r : ReplicaState)
          → At s.replicas i r
          → r.healthy ≡ true
          → s.cfg.max_inflight ≤ r.inflight)

  pub admit-inflight :
      (policy : Policy) (cfg : SchedulerConfig fl) (hashes : List ℕ) (r : ReplicaState)
      → (admit policy cfg hashes r).inflight ≡ r.inflight + 1
  unfolding admit
  admit-inflight cache_aware cfg hashes r = refl
  admit-inflight round_robin cfg hashes r = refl

  route-Picks :
      (s : Scheduler fl) (hashes : List ℕ) (i : ℕ) (q : ReplicaState)
      → Available s.cfg.max_inflight s.replicas i q
      → (s' : Scheduler fl) × (res : Picked) × (route s hashes
            (map (is_available s.cfg.max_inflight) s.replicas)
          ≡ some (s', res))
        × Picks s hashes s' res
  unfolding route is_available
  route-Picks s hashes i q a =
      let (idx, matched, rr_next, r, e, (at, ok), x) = choose_lem s hashes s.policy i q a in
      let r' = admit s.policy s.cfg hashes r in
      (
        record s { replicas = set s.replicas idx r'; rr_next = rr_next },
        routed (record { replica = idx; matched_blocks = matched; inflight_after = r'.inflight }),
        rw (e, at),
        record {
          before = r;
          there = at;
          was_healthy = ground arith;
          had_room = ground arith;
          counted = admit-inflight s.policy s.cfg hashes r;
          replicas = refl;
          same_policy = refl;
          same_cfg = refl;
          explained = x;
        },
      )

  -- `pick` never panics. It refuses with `NoHealthyReplicas` only if no replica is healthy, and with
  -- `AllSaturated` only if some are and each of those is at its cap, and then changes nothing.
  -- Otherwise it routes to a replica that was healthy and below its cap, raises that one's count by
  -- one and reports it, and changes no other replica.
  pub pick-Picks :
      (s : Scheduler fl) (hashes : List ℕ)
      → (s' : Scheduler fl) × (res : Picked) × (pick s hashes ≡ some (s', res))
        × Picks s hashes s' res
  unfolding pick
  pick-Picks s hashes = elim (Bool-cases (survey s.cfg.max_inflight s.replicas).any_available) [
    | inl any ↦
        let (i, q, at, ok) = survey-any_available s.cfg.max_inflight s.replicas any in
        rw (any, survey-avail_mask) (route-Picks s hashes i q (at, ok))
    | inr none_there ↦ elim (Bool-cases (survey s.cfg.max_inflight s.replicas).any_healthy) [
      | inl healthy ↦ (
        s,
        refused all_saturated,
        rw (none_there, healthy),
        (
          refl,
          survey-any_healthy s.cfg.max_inflight s.replicas healthy,
          λ i r at h.
              at_cap s.cfg.max_inflight r
                (survey-none_available s.cfg.max_inflight s.replicas i r none_there at) h,
        ),
      )
      | inr sick ↦ (
        s,
        refused no_healthy_replicas,
        rw (none_there, sick),
        (refl, λ i r at. survey-none_healthy s.cfg.max_inflight s.replicas i r sick at),
      )
    ]
  ]

  pub Picks-of_pick :
      (s : Scheduler fl) (hashes : List ℕ) (s' : Scheduler fl) (res : Picked)
      → pick s hashes ≡ some (s', res)
      → Picks s hashes s' res
  Picks-of_pick s hashes s' res e =
      let (t, out, found, p) = pick-Picks s hashes in
      subst (λ (z : Scheduler fl × Picked). Picks s hashes z.0 z.1)
        (some-injective _ _ (sym found ∙ e)) p

  -- There is an available replica `w` that no available one outscores. The request goes to it if its
  -- match reaches `min_match_blocks`, else to an available replica with the least in-flight count.
  abbrev pub CacheAwareRoute : Scheduler fl → List ℕ → Scheduler fl → RouteDecision → Type 0
  CacheAwareRoute s hashes s' d =
      (i : ℕ) × (w r : ReplicaState) × Available s.cfg.max_inflight s.replicas i w
      × ((j : ℕ) (q : ReplicaState)
          → Available s.cfg.max_inflight s.replicas j q
          → fl.lt (score s.cfg hashes w) (score s.cfg hashes q) ≡ false)
      × (((s.cfg.min_match_blocks ≤ lookup w.cache hashes) × (d.replica ≡ i))
          ⊎ ((lookup w.cache hashes < s.cfg.min_match_blocks)
              × ((j : ℕ) (q : ReplicaState)
                  → Available s.cfg.max_inflight s.replicas j q
                  → r.inflight ≤ q.inflight)))
      × Available s.cfg.max_inflight s.replicas d.replica r
      × (d.matched_blocks ≡ lookup r.cache hashes)
      × (s'.replicas ≡ set s.replicas d.replica (admit cache_aware s.cfg hashes r))

  settled :
      (cfg : SchedulerConfig fl) (rs : List ReplicaState) (hashes : List ℕ) (d : RouteDecision)
      (r w : ReplicaState) (c : Chosen cfg rs hashes d.replica d.matched_blocks r)
      → Available cfg.max_inflight rs c.winner.best w
      → c.winner.best_matched ≡ lookup w.cache hashes
      → (((cfg.min_match_blocks ≤ lookup w.cache hashes) × (d.replica ≡ c.winner.best))
          ⊎ ((lookup w.cache hashes < cfg.min_match_blocks)
              × ((j : ℕ) (q : ReplicaState)
                  → Available cfg.max_inflight rs j q
                  → r.inflight ≤ q.inflight)))
        × (d.matched_blocks ≡ lookup r.cache hashes)
  settled cfg rs hashes d r w c aw match =
      elim (dec_lt c.winner.best_matched cfg.min_match_blocks) [
        | yes weak ↦
            let (true_match, least) = c.weak weak in (inr (omega (arith, match), least), true_match)
        | no strong ↦
            let (here, same) = c.strong (omega arith) in
            let it : r ≡ w =
              some-injective _ _ (sym c.available_there.0 ∙ ap (get_elem? rs) here ∙ aw.0) in
            (
              inl (omega (arith, match), here),
              same ∙ match ∙ ap (λ (z : ReplicaState). lookup z.cache hashes) (sym it),
            )
      ]

  -- A request that `pick` routes by the cache-aware policy: with an order on the scores, and the
  -- scores of available replicas above `f64::MIN`, there is an available replica that no available
  -- one outscores. If its match reaches `min_match_blocks` the request goes there. If not, it goes to
  -- an available replica with the least in-flight count. The decision reports the true match of the
  -- replica it names, and that replica's cache takes the prompt and is cut to the budget.
  pub pick-cache_aware :
      (s : Scheduler fl) (hashes : List ℕ) (s' : Scheduler fl) (d : RouteDecision)
      → IsOrder fl
      → ((j : ℕ) (q : ReplicaState)
          → Available s.cfg.max_inflight s.replicas j q
          → fl.lt fl.lowest (score s.cfg hashes q) ≡ true)
      → s.policy ≡ cache_aware
      → pick s hashes ≡ some (s', routed d)
      → CacheAwareRoute s hashes s' d
  pick-cache_aware s hashes s' d o finite policy e =
      let p : Routed s hashes s' d = Picks-of_pick s hashes s' (routed d) e in
      let c : Chosen s.cfg s.replicas hashes d.replica d.matched_blocks p.before =
        (subst (λ z. Explains s hashes z d.replica d.matched_blocks p.before s'.rr_next) policy
          p.explained).0 in
      let (w, aw, match, unbeaten) =
        Chosen-winner s.cfg s.replicas hashes d.replica d.matched_blocks p.before c o finite in
      let (how, true_match) = settled s.cfg s.replicas hashes d p.before w c aw match in
      (
        c.winner.best,
        w,
        p.before,
        aw,
        unbeaten,
        how,
        c.available_there,
        true_match,
        p.replicas ∙ ap (λ z. set s.replicas d.replica (admit z s.cfg hashes p.before)) policy,
      )

  abbrev pub RoundRobinRoute : Scheduler fl → Scheduler fl → RouteDecision → Type 0
  RoundRobinRoute s s' d =
      FirstFrom s.rr_next (length s.replicas) (map (is_available s.cfg.max_inflight) s.replicas) 0
        d.replica
      × (d.matched_blocks ≡ 0)
      × (s'.rr_next ≡ (d.replica + 1) % length s.replicas)
      × (map (λ r. r.cache) s'.replicas ≡ map (λ r. r.cache) s.replicas)
      × (map (λ r. r.healthy) s'.replicas ≡ map (λ r. r.healthy) s.replicas)

  -- A request that `pick` routes by round robin goes to the first available replica from `rr_next` on,
  -- going round; the next scan starts behind it; and no replica's cache or health changes.
  pub pick-round_robin :
      (s : Scheduler fl) (hashes : List ℕ) (s' : Scheduler fl) (d : RouteDecision)
      → s.policy ≡ round_robin
      → pick s hashes ≡ some (s', routed d)
      → RoundRobinRoute s s' d
  unfolding admit
  pick-round_robin s hashes s' d policy e =
      let p : Routed s hashes s' d = Picks-of_pick s hashes s' (routed d) e in
      let (first, unmatched, next) =
        subst (λ z. Explains s hashes z d.replica d.matched_blocks p.before s'.rr_next) policy
          p.explained in
      let changed =
        p.replicas ∙ ap (λ z. set s.replicas d.replica (admit z s.cfg hashes p.before)) policy in
      (
        first,
        unmatched,
        next,
        ap (map (λ r. r.cache)) changed
            ∙ map-set_same (λ r. r.cache) s.replicas d.replica p.before _ p.there refl,
        ap (map (λ r. r.healthy)) changed
            ∙ map-set_same (λ r. r.healthy) s.replicas d.replica p.before _ p.there refl,
      )
