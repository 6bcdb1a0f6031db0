-- ===== src/Server/Conservation.antt =====
-- The router of crates/router/src/server.rs over any sequence of steps.
use dynamo_router.Base.{
  ℕ, zero, suc, ◌≤◌, ◌≡◌, refl, sym, ap, ◌∙◌, subst, some, List, [], ◌∷◌, arith, length, All,
  All-append_left, All-append_right,
}
use mathlib.Core.Option.{some-injective}
use dynamo_router.Float.{Float}
use dynamo_router.Rpc.{Packages}
use dynamo_router.Scheduler
use dynamo_router.Scheduler.{ReplicaState, SchedulerConfig, Scheduler, Policy}
use dynamo_router.Scheduler.Scan.{At}
use dynamo_router.Scheduler.Invariant.{idle-IsFit, length-idle_replicas}
use dynamo_router.Server.Shared
use dynamo_router.Server.Shared.{RouterInner, World, effect, zeros}
use dynamo_router.Server.System.{System, Move, moves}
use dynamo_router.Server.Discipline.{Holding}
use dynamo_router.Server.Load.{count, Within, Within-mono}
use dynamo_router.Server.Tasks.{unfinished, count_le_unfinished}
use dynamo_router.Server.Effects.{IsRouter}
use dynamo_router.Server.Step.{IsMove, IsUnderway, Stays, move-Moves}
use dynamo_router.Server.Exact.{Quiet}
use dynamo_router.Server.Events.{
  events_of, events, IsLedger, IsLedgerAfter, IsLedger-still, IsLedger-append,
}

pub length-zeros : (m : ℕ) → length (zeros m) ≡ m
unfolding zeros
length-zeros zero = refl
length-zeros (suc m) = ap suc (length-zeros m)

module _ {fl : Float} (pkg : Packages) (n : ℕ) (cfg : SchedulerConfig fl) where
  pub idle-inflight :
      (m i : ℕ) (r : ReplicaState) → At (Scheduler.idle_replicas m) i r → r.inflight ≤ 0
  unfolding Scheduler.idle_replicas
  idle-inflight zero i r at = cc
  idle-inflight (suc m) zero r at =
      omega (arith, ap (λ (z : ReplicaState). z.inflight) (some-injective _ _ at))
  idle-inflight (suc m) (suc i) r at = idle-inflight m i r at

  pub record Ends (hs : List Holding) (sys : System fl) (ms : List Move) : Type 0 where
    pub sys' : System fl
    pub hs' : List Holding
    pub done : moves pkg n sys ms ≡ some sys'
    pub underway : IsUnderway pkg n cfg hs' sys'
    pub counts :
        All (Stays pkg n cfg) ms
        → Within sys.inner.scheduler (count hs)
        → Within sys'.inner.scheduler (count hs')
    pub ledger :
        (took gave : ℕ → ℕ)
        → All Quiet (events pkg n sys ms)
        → IsLedger hs sys.inner.scheduler took gave
        → IsLedgerAfter hs hs' sys.inner.scheduler sys'.inner.scheduler took gave
            (events pkg n sys ms)

  pub moves-Ends :
      (hs : List Holding) (sys : System fl) (ms : List Move)
      → All (IsMove n) ms
      → IsUnderway pkg n cfg hs sys
      → Ends hs sys ms
  unfolding moves events
  moves-Ends hs sys [] all u = record {
    sys' = sys;
    hs' = hs;
    done = refl;
    underway = u;
    counts = λ stay within. within;
    ledger = λ took gave quiet l.
        IsLedger-still hs hs sys.inner.scheduler _ took gave (λ i. omega arith) refl l;
  }
  moves-Ends hs sys (m ∷ ms) (im, all) u =
      let first = move-Moves pkg n cfg hs sys m im u in
      let rest = moves-Ends first.hs' first.sys' ms all first.underway in
      record {
        sys' = rest.sys';
        hs' = rest.hs';
        done = rw (moves, first.done, rest.done);
        underway = rest.underway;
        counts = λ stay within. rest.counts stay.1 (first.counts stay.0 within);
        ledger = λ took gave.
            rw (events, first.done)
              (λ quiet l.
                IsLedger-append hs rest.hs' sys.inner.scheduler _ took gave (events_of sys m) _ (
                  rest.ledger _ _ (All-append_right Quiet _ _ quiet)
                    (first.ledger took gave (All-append_left Quiet _ _ quiet) l)));
      }

  -- A router of `n` replicas that has just started.
  abbrev pub start : Policy → System fl
  start policy = record { inner = Shared.new (Scheduler.new n policy cfg) n; tasks = [] }

  pub start-IsUnderway : (policy : Policy) → IsUnderway pkg n cfg [] (start policy)
  unfolding Shared.new Scheduler.new
  start-IsUnderway policy = record {
    router = record {
      valid = record {
        size = length-idle_replicas n;
        same_cfg = refl;
        fit = λ i r at. idle-IsFit n cfg.max_inflight cfg.block_budget i r at;
      };
      all_gauges = length-zeros n;
    };
    tasks = tt;
  }

  pub start-Within : (policy : Policy) → Within (start policy).inner.scheduler (count [])
  unfolding Shared.new Scheduler.new
  start-Within policy i r at = idle-inflight n i r at

  -- However the operations of the requests, streams, probes and dropped requests of a router of `n`
  -- replicas interleave, and whatever the replicas reply, if there is a client for each replica and
  -- only these are probed, no step panics, and the scheduler stays within its limits: every in-flight
  -- count within `max_inflight`, every cache sound and within `block_budget`, and no load on an
  -- unhealthy replica.
  pub moves-IsRouter :
      (policy : Policy) (ms : List Move)
      → All (IsMove n) ms
      → (sys : System fl) × (moves pkg n (start policy) ms ≡ some sys) × IsRouter n cfg sys.inner
  moves-IsRouter policy ms all =
      let ended = moves-Ends [] (start policy) ms all (start-IsUnderway policy) in
      (ended.sys', ended.done, ended.underway.router)

  -- If no request is dropped, there is a client for each replica and only these are probed, then in any
  -- interleaving each replica's in-flight count is at most the number of tasks that are not done: no
  -- place on a replica stays taken once all requests are over.
  pub moves-unfinished :
      (policy : Policy) (ms : List Move) (sys : System fl) (i : ℕ) (r : ReplicaState)
      → All (IsMove n) ms
      → All (Stays pkg n cfg) ms
      → moves pkg n (start policy) ms ≡ some sys
      → At sys.inner.scheduler.replicas i r
      → r.inflight ≤ unfinished sys.tasks
  moves-unfinished policy ms sys i r all stay e at =
      let ended = moves-Ends [] (start policy) ms all (start-IsUnderway policy) in
      let same : ended.sys' ≡ sys = some-injective _ _ (sym ended.done ∙ e) in
      let within : Within ended.sys'.inner.scheduler (λ i. unfinished ended.sys'.tasks) =
        Within-mono ended.sys'.inner.scheduler (count ended.hs') _
          (λ i. count_le_unfinished n ended.hs' ended.sys'.tasks i ended.underway.tasks)
          (ended.counts stay (start-Within policy)) in
      subst (λ (z : System fl). Within z.inner.scheduler (λ i. unfinished z.tasks)) same within i r
        at
