-- ===== src/Startup/Built.antt =====
-- The router that `main` of crates/router/src/main.rs builds.
use dynamo_router.Base.{
  ℕ, ◌≤◌, ◌≡◌, refl, sym, ap, ◌∙◌, subst, ◌⊎◌, inl, inr, Bool, true, false, Option, none, some,
  List, [], ◌∷◌, arith, ◌==◌, Bool-cases, Option-cases, length, All,
}
use dynamo_router.Float.{Float}
use dynamo_router.Text.{Text, codes, text_eq}
use dynamo_router.Rpc.{Packages}
use dynamo_router.Scheduler
use dynamo_router.PrefixCache.{num_blocks}
use dynamo_router.Scheduler.{Policy, cache_aware, round_robin, ReplicaState}
use dynamo_router.Scheduler.Scan.{At}
use dynamo_router.Scheduler.Invariant.{length-idle_replicas}
use dynamo_router.Server.Shared
use dynamo_router.Server.Shared.{RouterInner}
use dynamo_router.Server.System.{System, Move, moves}
use dynamo_router.Server.Effects.{IsRouter}
use dynamo_router.Server.Step.{IsMove}
use dynamo_router.Server.Conservation.{moves-IsRouter}
use dynamo_router.Startup.{Args, parse_policy, bad_url, config, build_with, build}

parsed : {A B : Type 0} (x : A ⊎ B) → ((a : A) × (x ≡ inl a)) ⊎ ((b : B) × (x ≡ inr b))
parsed (inl a) = inl (a, refl)
parsed (inr b) = inr (b, refl)

text_eq_sound : (s t : Text) → text_eq s t ≡ true → s ≡ t
unfolding text_eq
text_eq_sound [] [] e = refl
text_eq_sound [] (y ∷ ys) e = cc
text_eq_sound (x ∷ xs) [] e = cc
text_eq_sound (x ∷ xs) (y ∷ ys) e = ground (arith, text_eq_sound xs ys)

abbrev Named : Text → Policy → Type 0
Named name policy =
    ((name ≡ codes "cache-aware") × (policy ≡ cache_aware))
    ⊎ ((name ≡ codes "round-robin") × (policy ≡ round_robin))

parse_policy-Named :
    (name : Text) (policy : Policy) → parse_policy name ≡ inr policy → Named name policy
unfolding parse_policy
parse_policy-Named name policy e = elim (Bool-cases (text_eq name (codes "cache-aware"))) [
  | inl aware ↦ inl (text_eq_sound name _ aware, cc (rw aware at e))
  | inr other ↦ elim (Bool-cases (text_eq name (codes "round-robin"))) [
    | inl robin ↦ inr (text_eq_sound name _ robin, cc (rw (other, robin) at e))
    | inr unknown ↦ absurd (cc (rw (other, unknown) at e))
  ]
]

bad_url-All :
    (is_url : Text → Bool) (urls : List Text)
    → bad_url is_url urls ≡ none
    → All (λ url. is_url url ≡ true) urls
unfolding bad_url
bad_url-All is_url [] e = tt
bad_url-All is_url (url ∷ urls) e = elim (Bool-cases (is_url url)) [
  | inl good ↦ (good, bad_url-All is_url urls (rw good at e))
  | inr bad ↦ absurd (cc (rw bad at e))
]

All-bad_url :
    (is_url : Text → Bool) (urls : List Text)
    → All (λ url. is_url url ≡ true) urls
    → bad_url is_url urls ≡ none
unfolding bad_url
All-bad_url is_url [] all = refl
All-bad_url is_url (url ∷ urls) (good, all) = rw good (All-bad_url is_url urls all)

known_policy :
    (name : Text)
    → (name ≡ codes "cache-aware") ⊎ (name ≡ codes "round-robin")
    → (policy : Policy) × (parse_policy name ≡ inr policy)
unfolding parse_policy text_eq
known_policy name (inl aware) = (cache_aware, rw aware)
known_policy name (inr robin) = (round_robin, rw robin)

named_policy :
    (name : Text) (policy : Policy)
    → parse_policy name ≡ inr policy
    → (name ≡ codes "cache-aware") ⊎ (name ≡ codes "round-robin")
named_policy name policy e = elim (parse_policy-Named name policy e) [
  | inl (aware, p) ↦ inl aware
  | inr (robin, p) ↦ inr robin
]

module _ {fl : Float} (is_url : Text → Bool) (load : Text → Option Text) (args : Args fl) where
  -- A router of the replicas that are named, with a policy.
  abbrev pub IsBuilt : RouterInner fl → Policy → Type 0
  IsBuilt inner policy =
      inner
      ≡ Shared.new (Scheduler.new (length args.replicas) policy (config args))
          (length args.replicas)

  build_with-IsBuilt :
      (inner : RouterInner fl) (policy : Policy)
      → build_with is_url load args policy ≡ inr inner
      → (bad_url is_url args.replicas ≡ none)
        × (load args.tokenizer_path ≡ none)
        × IsBuilt inner policy
  unfolding build_with
  build_with-IsBuilt inner policy e = elim (Option-cases (bad_url is_url args.replicas)) [
    | inr (url, bad) ↦ absurd (cc)
    | inl good ↦ elim (Option-cases (load args.tokenizer_path)) [
      | inr (m, failed) ↦ absurd (cc)
      | inl loaded ↦ (good, loaded, cc)
    ]
  ]

  build-IsBuilt :
      (inner : RouterInner fl)
      → build is_url load args ≡ inr inner
      → (1 ≤ length args.replicas)
        × (bad_url is_url args.replicas ≡ none)
        × (load args.tokenizer_path ≡ none)
        × ((policy : Policy) × (parse_policy args.policy ≡ inr policy) × IsBuilt inner policy)
  unfolding build
  build-IsBuilt inner e = elim (Bool-cases (length args.replicas == 0)) [
    | inl empty ↦ absurd (cc)
    | inr some_there ↦ elim (parsed (parse_policy args.policy)) [
      | inl (m, unknown) ↦ absurd (cc)
      | inr (policy, known) ↦
          let (good, loaded, built) =
            build_with-IsBuilt inner policy (rw (some_there, known) at e) in
          (ground arith, good, loaded, (policy, known, built))
    ]
  ]

  -- What the arguments say of a router that is built: the policy that they name, so many replicas, and
  -- their weights; the threshold is the default.
  pub record IsAsked (inner : RouterInner fl) : Type 0 where
    pub named :
        ((args.policy ≡ codes "cache-aware") × (inner.scheduler.policy ≡ cache_aware))
        ⊎ ((args.policy ≡ codes "round-robin") × (inner.scheduler.policy ≡ round_robin))
    pub all_replicas : length inner.scheduler.replicas ≡ length args.replicas
    pub alpha : inner.scheduler.cfg.alpha ≡ args.alpha
    pub beta : inner.scheduler.cfg.beta ≡ args.beta
    pub threshold : inner.scheduler.cfg.min_match_blocks ≡ 2

  -- The limits that the arguments set.
  pub record IsLimited (sys : System fl) : Type 0 where
    pub all_replicas : length sys.inner.scheduler.replicas ≡ length args.replicas
    pub within_cap :
        (i : ℕ) (r : ReplicaState)
        → At sys.inner.scheduler.replicas i r
        → r.inflight ≤ args.max_inflight
    pub within_budget :
        (i : ℕ) (r : ReplicaState)
        → At sys.inner.scheduler.replicas i r
        → num_blocks r.cache ≤ args.block_budget

  router-IsLimited :
      (sys : System fl) → IsRouter (length args.replicas) (config args) sys.inner → IsLimited sys
  unfolding config
  router-IsLimited sys router = record {
    all_replicas = router.valid.size;
    within_cap = λ i r at. (router.valid.fit i r at).within_cap;
    within_budget = λ i r at. (router.valid.fit i r at).within_budget;
  }

  new-IsAsked :
      (policy : Policy)
      → parse_policy args.policy ≡ inr policy
      → IsAsked (
          Shared.new
            (Scheduler.new (length args.replicas) policy (config args))
            (length args.replicas))
  unfolding config Scheduler.new Shared.new
  new-IsAsked policy known = record {
    named = parse_policy-Named args.policy policy known;
    all_replicas = length-idle_replicas (length args.replicas);
    alpha = refl;
    beta = refl;
    threshold = refl;
  }

  -- The arguments with which a router starts.
  pub record IsAccepted : Type 0 where
    pub some_there : 1 ≤ length args.replicas
    pub urls : All (λ url. is_url url ≡ true) args.replicas
    pub loaded : load args.tokenizer_path ≡ none
    pub named : (args.policy ≡ codes "cache-aware") ⊎ (args.policy ≡ codes "round-robin")

  build_with_lem :
      (policy : Policy)
      → bad_url is_url args.replicas ≡ none
      → load args.tokenizer_path ≡ none
      → build_with is_url load args policy
        ≡ inr (
            Shared.new
              (Scheduler.new (length args.replicas) policy (config args))
              (length args.replicas))
  unfolding build_with
  build_with_lem policy good loaded = rw (build_with, good, loaded)

  IsAccepted-build : IsAccepted → (inner : RouterInner fl) × (build is_url load args ≡ inr inner)
  unfolding build
  IsAccepted-build acc =
      let (policy, known) = known_policy args.policy acc.named in
      let some_there : (length args.replicas == 0) ≡ false = ground (arith, acc.some_there) in
      let n = length args.replicas in
      let there : build is_url load args
          ≡ inr (Shared.new (Scheduler.new n policy (config args)) n) =
        rw (build, some_there, known)
          (build_with_lem policy (All-bad_url is_url args.replicas acc.urls) acc.loaded) in
      (_, there)

  -- `main` stops with a message exactly if no replica is named, or one with a URL that is none, or the
  -- tokenizer's file cannot be loaded, or no policy has the name in the arguments. Else it builds a
  -- router with the policy that the arguments name, their weights, a threshold of two matched blocks,
  -- and a replica for each URL. However the operations of its requests, streams, probes and dropped
  -- requests interleave, if there is a client for each replica and only these are probed, no step
  -- panics, there stay as many replicas, no in-flight count is ever above the argument `max_inflight`,
  -- and no cache has more blocks than the argument `block_budget`.
  pub build-IsLimited :
      (pkg : Packages) (ms : List Move)
      → All (IsMove (length args.replicas)) ms
      → ((message : Text) × (build is_url load args ≡ inl message) × (¬ IsAccepted))
        ⊎ ((inner : RouterInner fl) × (build is_url load args ≡ inr inner)
            × IsAccepted
            × IsAsked inner
            × ((sys : System fl) × (moves pkg
                    (length args.replicas)
                    (record { inner = inner; tasks = [] })
                    ms
                  ≡ some sys)
                × IsLimited sys))
  build-IsLimited pkg ms all = elim (parsed (build is_url load args)) [
    | inl (message, e) ↦ inl (message, e, λ acc. let (inner, e') = IsAccepted-build acc in cc)
    | inr (inner, e) ↦
        let (some_there, good, loaded, (policy, known, built)) = build-IsBuilt inner e in
        let n = length args.replicas in
        let (sys, done, router) = moves-IsRouter pkg n (config args) policy ms all in
        inr (
          inner,
          e,
          record {
            some_there = some_there;
            urls = bad_url-All is_url args.replicas good;
            loaded = loaded;
            named = named_policy args.policy policy known;
          },
          subst IsAsked (sym built) (new-IsAsked policy known),
          (
            sys,
            ap (λ z. moves pkg n (record { inner = z; tasks = [] }) ms) built ∙ done,
            router-IsLimited sys router,
          ),
        )
  ]
