-- ===== src/Startup/Tests.antt =====
-- Runs of the start of the router (crates/router/src/main.rs), and an instance of its theorem.
use dynamo_router.Base.{
  ◌≡◌, refl, ◌⊎◌, inl, inr, Bool, true, Option, none, some, List, [], ◌∷◌, ◌++◌,
}
use dynamo_router.Float.Integer.{pos, integers}
use dynamo_router.Text
use dynamo_router.Text.{Text, codes}
use dynamo_router.Rpc.{Packages}
use dynamo_router.Scheduler.{cache_aware}
use dynamo_router.Server.Shared.{RouterInner}
use dynamo_router.Server.System.{System, arrives, tick, moves}
use dynamo_router.Server.Conservation.{start}
use dynamo_router.Startup
use dynamo_router.Startup.{Args, config, build}
use dynamo_router.Startup.Built.{IsAccepted, IsAsked, IsLimited, build-IsLimited}

abbrev packages : Packages
packages = record {
  cancelled = 1;
  unknown = 2;
  invalid_argument = 3;
  deadline_exceeded = 4;
  resource_exhausted = 8;
  internal = 13;
  unavailable = 14;
  describe = λ code. codes "code";
  display = λ code message. codes "status: " ++ message;
  encode = λ text. inl text;
}

program : Unit {0}
unfolding Text.text_eq Startup.parse_policy Startup.bad_url Startup.config Startup.build_with
    Startup.build
program = tt

abbrev args : Text → List Text → Args integers
args policy replicas = record {
  replicas = replicas;
  policy = policy;
  tokenizer_path = codes "data/tokenizer.json";
  alpha = pos 1;
  beta = pos 2;
  block_budget = 65_536;
  max_inflight = 512;
}

abbrev any_url : Text → Bool
any_url url = true

abbrev loads : Text → Option Text
loads path = none

abbrev two : Args integers
two = args (codes "cache-aware") (codes "http://mock1:8001" ∷ codes "http://mock2:8001" ∷ [])

no_replicas :
    build any_url loads (args (codes "cache-aware") [])
    ≡ inl (codes "need at least one replica URL")
unfolding program
no_replicas = refl

unknown_policy :
    build any_url loads (args (codes "random") (codes "a" ∷ []))
    ≡ inl (codes "unknown policy: random")
unfolding program
unknown_policy = refl

abbrev inner : RouterInner integers
inner = (start packages 2 (config two) cache_aware).inner

builds : build any_url loads two ≡ inr inner
unfolding program
builds = refl

build-IsLimited_example :
    ((message : Text) × (build any_url loads two ≡ inl message) × (¬ IsAccepted any_url loads two))
    ⊎ ((router : RouterInner integers) × (build any_url loads two ≡ inr router)
        × IsAccepted any_url loads two
        × IsAsked any_url loads two router
        × ((sys : System integers) × (moves packages 2
                (record { inner = router; tasks = [] })
                (arrives tick ∷ [])
              ≡ some sys)
            × IsLimited any_url loads two sys))
build-IsLimited_example = build-IsLimited any_url loads two packages (arrives tick ∷ []) (tt, tt)
