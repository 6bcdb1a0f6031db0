-- ===== src/Scheduler/Pick.antt =====
-- What `pick` (crates/router/src/scheduler.rs) returns and changes, on every branch.
use dynamo_router.Base.{
  ℕ, ◌≤◌, ◌<◌, ◌≡◌, refl, sym, ap, ◌∙◌, subst, inl, inr, Bool, true, false, some, List, [], ◌∷◌,
  map, ltb, ltb→lt, ltb→ge, tests, Bool-cases, get_elem?, head?, In,
}
use mathlib.Core.Option.{some-injective}
use dynamo_router.Float.{Float, IsOrder}
use dynamo_router.PrefixCache.{lookup}
use dynamo_router.Scheduler.{
  ReplicaState, SchedulerConfig, Best, available_from, score, fall_back, settle, choose_cache_aware,
}
use dynamo_router.Scheduler.Scan.{At, is_available, At-map, At-map_inv}
use dynamo_router.Scheduler.Choice.{In-available, Valid, least_loaded_lem, Winner, best_loop_lem}

abbrev mask_of : ℕ → List ReplicaState → List Bool
mask_of max_inflight rs = map (is_available max_inflight) rs

abbrev pub Available : ℕ → List ReplicaState → ℕ → ReplicaState → Type 0
Available max_inflight rs i r = At rs i r × (is_available max_inflight r ≡ true)

Available-of_In :
    (max_inflight : ℕ) (rs : List ReplicaState) (i : ℕ)
    → In i (available_from 0 (mask_of max_inflight rs))
    → (r : ReplicaState) × At rs i r × (is_available max_inflight r ≡ true)
Available-of_In max_inflight rs i m =
    At-map_inv (is_available max_inflight) rs i true
      ((In-available i (mask_of max_inflight rs)).0 m)

In-of_Available :
    (max_inflight : ℕ) (rs : List ReplicaState) (i : ℕ) (r : ReplicaState)
    → Available max_inflight rs i r
    → In i (available_from 0 (mask_of max_inflight rs))
In-of_Available max_inflight rs i r (at, ok) =
    (In-available i (mask_of max_inflight rs)).1
      (At-map (is_available max_inflight) rs i r at ∙ ap some ok)

nonempty :
    {A : Type 0} (a : A) (xs : List A) → In a xs → (x : A) × (rest : List A) × (xs ≡ x ∷ rest)
nonempty a [] i = absurd i
nonempty a (x ∷ xs) i = (x, xs, refl)

Valid-available :
    (max_inflight : ℕ) (rs : List ReplicaState)
    → Valid rs (available_from 0 (mask_of max_inflight rs))
Valid-available max_inflight rs i m =
    let (r, at, ok) = Available-of_In max_inflight rs i m in (r, at)

-- The fallback takes an available replica with the least load, and reports its own match.
pub fall_back_lem :
    (max_inflight : ℕ) (rs : List ReplicaState) (hashes : List ℕ) (i : ℕ) (q : ReplicaState)
    → Available max_inflight rs i q
    → (idx : ℕ) × (r : ReplicaState) × (fall_back rs hashes
          (available_from 0 (mask_of max_inflight rs))
        ≡ some (idx, lookup r.cache hashes))
      × Available max_inflight rs idx r
      × ((j : ℕ) (p : ReplicaState) → Available max_inflight rs j p → r.inflight ≤ p.inflight)
unfolding fall_back
fall_back_lem max_inflight rs hashes i q a =
    let av = available_from 0 (mask_of max_inflight rs) in
    let (first, rest, e) = nonempty i av (In-of_Available max_inflight rs i q a) in
    let valid : Valid rs (first ∷ rest) = subst (Valid rs) e (Valid-available max_inflight rs) in
    let (idx, r, found, m, at, least) = least_loaded_lem rs first rest valid in
    let (r', at', ok) = Available-of_In max_inflight rs idx (subst (In idx) (sym e) m) in
    (
      idx,
      r,
      rw (e, found, at),
      (at, ap (is_available max_inflight) (some-injective _ _ (sym at ∙ at')) ∙ ok),
      λ j p b. least j p (subst (In j) e (In-of_Available max_inflight rs j p b)) b.0,
    )

-- What the cache-aware arm chose: the winner of the scoring loop, or the least loaded replica if the
-- winner's own match is weak.
module _ {fl : Float} (cfg : SchedulerConfig fl) (rs : List ReplicaState) (hashes : List ℕ) where
  abbrev available : List ℕ
  available = available_from 0 (mask_of cfg.max_inflight rs)

  -- The scoring loop starts at the first available replica, with `f64::MIN` and no match.
  pub record Chosen (idx matched : ℕ) (r : ReplicaState) : Type 0 where
    pub available_there : Available cfg.max_inflight rs idx r
    pub first : ℕ
    pub first_there : (q : ReplicaState) × Available cfg.max_inflight rs first q
    pub winner : Best fl
    pub wins :
        Winner cfg rs hashes available
          (record { best = first; best_score = fl.lowest; best_matched = 0 })
          winner
    pub strong :
        cfg.min_match_blocks ≤ winner.best_matched
        → (idx ≡ winner.best) × (matched ≡ winner.best_matched)
    pub weak :
        winner.best_matched < cfg.min_match_blocks
        → (matched ≡ lookup r.cache hashes)
          × ((j : ℕ) (p : ReplicaState)
              → Available cfg.max_inflight rs j p
              → r.inflight ≤ p.inflight)

  pub choose_cache_aware-Chosen :
      (i : ℕ) (q : ReplicaState)
      → Available cfg.max_inflight rs i q
      → (idx matched : ℕ) × (r : ReplicaState) × (choose_cache_aware cfg rs hashes
            (mask_of cfg.max_inflight rs)
          ≡ some (idx, matched))
        × Chosen idx matched r
  unfolding choose_cache_aware settle
  choose_cache_aware-Chosen i q a =
      let (first, rest, e) = nonempty i available (In-of_Available cfg.max_inflight rs i q a) in
      let start : Best fl = record { best = first; best_score = fl.lowest; best_matched = 0 } in
      let (b, looped, w) =
        best_loop_lem cfg rs hashes available start (Valid-available cfg.max_inflight rs) in
      let head : head? available ≡ some first = ap head? e in
      elim (Bool-cases (ltb b.best_matched cfg.min_match_blocks)) [
        | inl weak ↦
            let (idx, r, fell, ok, least) = fall_back_lem cfg.max_inflight rs hashes i q a in
            (
              idx,
              lookup r.cache hashes,
              r,
              rw (head, looped, weak) fell,
              record {
                available_there = ok;
                first = first;
                first_there = first_available first (subst (In first) (sym e) (inl refl));
                winner = b;
                wins = w;
                strong = λ h. absurd (omega (tests, ltb→lt _ _ weak));
                weak = λ h. (refl, least);
              },
            )
        | inr strong ↦
            let (r, ok) = there first b w (subst (In first) (sym e) (inl refl)) in
            (
              b.best,
              b.best_matched,
              r,
              rw (head, looped, strong),
              record {
                available_there = ok;
                first = first;
                first_there = first_available first (subst (In first) (sym e) (inl refl));
                winner = b;
                wins = w;
                strong = λ h. (refl, refl);
                weak = λ h. absurd (omega (tests, ltb→ge _ _ strong));
              },
            )
      ]
    where
      first_available :
          (j : ℕ) → In j available → (p : ReplicaState) × Available cfg.max_inflight rs j p
      first_available j m =
          let (p, at, ok) = Available-of_In cfg.max_inflight rs j m in (p, (at, ok))

      there :
          (first : ℕ) (b : Best fl)
          → Winner cfg rs hashes available
              (record { best = first; best_score = fl.lowest; best_matched = 0 })
              b
          → In first available
          → (r : ReplicaState) × Available cfg.max_inflight rs b.best r
      there first b w m = elim w.source [
        | inl same ↦
            subst (λ (z : Best fl). (r : ReplicaState) × Available cfg.max_inflight rs z.best r)
              (sym same) (first_available first m)
        | inr (j, p, m', at, same) ↦
            subst (λ (z : Best fl). (r : ReplicaState) × Available cfg.max_inflight rs z.best r)
              (sym same) (first_available j m')
      ]

  -- The winner is a real replica, with its real match, that no available one outscores, when the
  -- scores are numbers above `f64::MIN`.
  pub Chosen-winner :
      (idx matched : ℕ) (r : ReplicaState) (c : Chosen idx matched r)
      → IsOrder fl
      → ((j : ℕ) (q : ReplicaState)
          → Available cfg.max_inflight rs j q
          → fl.lt fl.lowest (score cfg hashes q) ≡ true)
      → (w : ReplicaState) × Available cfg.max_inflight rs c.winner.best w
        × (c.winner.best_matched ≡ lookup w.cache hashes)
        × ((j : ℕ) (q : ReplicaState)
            → Available cfg.max_inflight rs j q
            → fl.lt (score cfg hashes w) (score cfg hashes q) ≡ false)
  Chosen-winner idx matched r c o finite = elim c.wins.source [
    | inl same ↦
        let (q, a) = c.first_there in
        absurd (
          cc (
            finite c.first q a,
            c.wins.unbeaten o c.first q (In-of_Available cfg.max_inflight rs c.first q a) a.0,
            ap (λ (z : Best fl). z.best_score) same,
          ))
    | inr (j, w, m, at, same) ↦
        let (w', at', ok) = Available-of_In cfg.max_inflight rs j m in
        (
          w,
          (
            ap (get_elem? rs) (ap (λ (z : Best fl). z.best) same) ∙ at,
            ap (is_available cfg.max_inflight) (some-injective _ _ (sym at ∙ at')) ∙ ok,
          ),
          ap (λ (z : Best fl). z.best_matched) same,
          λ i q a.
              subst (λ (x : fl.F64). fl.lt x (score cfg hashes q) ≡ false)
                (ap (λ (z : Best fl). z.best_score) same)
                (c.wins.unbeaten o i q (In-of_Available cfg.max_inflight rs i q a) a.0),
        )
  ]
