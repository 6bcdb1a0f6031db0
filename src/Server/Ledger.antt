-- ===== src/Server/Ledger.antt =====
-- The in-flight counts of crates/router/src/server.rs over a run, dropped requests included.
use dynamo_router.Base.{ℕ, ◌+◌, ◌≡◌, sym, ◌∙◌, subst, some, List, [], arith, All}
use mathlib.Core.Option.{some-injective}
use dynamo_router.Float.{Float}
use dynamo_router.Scheduler
use dynamo_router.Server.Shared
use dynamo_router.Rpc.{Packages}
use dynamo_router.Scheduler.{ReplicaState, SchedulerConfig, Scheduler, Policy}
use dynamo_router.Scheduler.Scan.{At}
use dynamo_router.Server.System.{System, Move, moves}
use dynamo_router.Server.Exact.{Quiet}
use dynamo_router.Server.Events.{events, IsLedger, taken_all, given_all}
use dynamo_router.Server.Step.{IsMove}
use dynamo_router.Server.Conservation.{start, start-IsUnderway, moves-Ends, idle-inflight}

module _ {fl : Float} (pkg : Packages) (n : ℕ) (cfg : SchedulerConfig fl) where
  start-IsLedger :
      (policy : Policy) → IsLedger [] (start pkg n cfg policy).inner.scheduler (λ i. 0) (λ i. 0)
  unfolding Shared.new Scheduler.new
  start-IsLedger policy = record {
    covered = λ i. omega arith;
    exact = λ i r at. omega (arith, idle-inflight pkg n cfg n i r at);
  }

  -- In any interleaving, with requests dropped at any point, if there is a client for each replica and
  -- only these are probed, then as long as no replica is marked unhealthy, each in-flight count and the
  -- places given back on the replica are together exactly the places that were taken on it. So a
  -- request that was dropped between its `pick` and its `complete` counts for ever.
  pub moves-Exact :
      (policy : Policy) (ms : List Move) (sys : System fl) (i : ℕ) (r : ReplicaState)
      → All (IsMove n) ms
      → All Quiet (events pkg n (start pkg n cfg policy) ms)
      → moves pkg n (start pkg n cfg policy) ms ≡ some sys
      → At sys.inner.scheduler.replicas i r
      → r.inflight + given_all (events pkg n (start pkg n cfg policy) ms) i
        ≡ taken_all (events pkg n (start pkg n cfg policy) ms) i
  moves-Exact policy ms sys i r all quiet e at =
      let ended =
        moves-Ends pkg n cfg [] (start pkg n cfg policy) ms all
          (start-IsUnderway pkg n cfg policy) in
      let same : ended.sys' ≡ sys = some-injective _ _ (sym ended.done ∙ e) in
      let l = ended.ledger (λ i. 0) (λ i. 0) quiet (start-IsLedger policy) in
      omega (
        arith,
        l.covered i,
        l.exact i r (subst (λ (z : System fl). At z.inner.scheduler.replicas i r) (sym same) at),
      )
