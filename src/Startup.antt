-- ===== src/Startup.antt =====
-- How the router starts (`main` of crates/router/src/main.rs): from its arguments to the state that
-- the handlers share, or the message with which it stops.
pub mod Built
mod Tests
use dynamo_router.Base.{
  ℕ, zero, suc, ◌+◌, ◌-◌, ◌*◌, ◌/◌, ◌%◌, ◌^◌, ◌≤◌, ◌<◌, min, max, ◌≡◌, refl, sym, ap, ◌∙◌, subst,
  ◌≢◌, ◌↔◌, ◌⊎◌, inl, inr, Bool, true, false, not, ◌&&◌, ◌||◌, Option, none, some, List, [], ◌∷◌,
  ◌++◌, map, arith, dec_lt, ℕ_discrete, ltb, leb, ◌==◌, if◌then◌else◌, ltb→lt, lt→ltb, ge→ltb,
  ltb→ge, ==_iff, ==_refl, ==_ne, tests, Bool-cases, Option-cases, length, get_elem?, head?, ◌>>=◌,
  set, In, All, take, drop, take_of_length-le, length-take_of_le, length-append, length-set,
  get_elem?-set_self, get_elem?-set_ne, get_elem?-lt, get_elem?_of_lt, All-In, All-of_In,
  length-map,
}
use dynamo_router.Float.{Float}
use dynamo_router.Text.{Text, codes, text_eq}
use dynamo_router.Scheduler
use dynamo_router.Scheduler.{Policy, cache_aware, round_robin, SchedulerConfig}
use dynamo_router.Server.Shared
use dynamo_router.Server.Shared.{RouterInner}

pub record Args (fl : Float) : Type 0 where
  pub replicas : List Text
  pub policy : Text
  pub tokenizer_path : Text
  pub alpha : fl.F64
  pub beta : fl.F64
  pub block_budget : ℕ
  pub max_inflight : ℕ

unfoldable pub parse_policy : Text → Text ⊎ Policy
parse_policy name =
    if text_eq name (codes "cache-aware")
    then inr cache_aware
    else if text_eq name (codes "round-robin")
    then inr round_robin
    else inl (codes "unknown policy: " ++ name)

-- The first URL that `Endpoint::from_shared` refuses.
unfoldable pub bad_url : (Text → Bool) → List Text → Option Text
bad_url is_url [] = none
bad_url is_url (url ∷ urls) =
    let rest = bad_url is_url urls in if is_url url then rest else some url

module _ {fl : Float} where
  -- `..Default::default()` is the 2 of `min_match_blocks`.
  unfoldable pub config : Args fl → SchedulerConfig fl
  config args = record {
    alpha = args.alpha;
    beta = args.beta;
    min_match_blocks = 2;
    block_budget = args.block_budget;
    max_inflight = args.max_inflight;
  }

  -- What is left once the replicas and the policy are there; `load` is the tokenizer's `from_file`, to
  -- its error.
  unfoldable pub build_with :
      (Text → Bool) → (Text → Option Text) → Args fl → Policy → Text ⊎ RouterInner fl
  build_with is_url load args policy = elim (bad_url is_url args.replicas) [
    | some url ↦ inl (codes "bad replica url: " ++ url)
    | none ↦ elim (load args.tokenizer_path) [
      | some e ↦ inl e
      | none ↦ inr (
          Shared.new (Scheduler.new (length args.replicas) policy (config args))
            (length args.replicas))
    ]
  ]

  unfoldable pub build : (Text → Bool) → (Text → Option Text) → Args fl → Text ⊎ RouterInner fl
  build is_url load args =
      if length args.replicas == 0
      then inl (codes "need at least one replica URL")
      else elim (parse_policy args.policy) [
        | inl e ↦ inl e
        | inr policy ↦ build_with is_url load args policy
      ]
