-- ===== src/Server/Step.antt =====
-- One step of the router of crates/router/src/server.rs, with the tasks that are under way.
use dynamo_router.Base.{
  ℕ, ◌+◌, ◌-◌, ◌≡◌, refl, inl, inr, none, some, List, [], ◌∷◌, ◌++◌, arith, Option-cases, get_elem?,
  set, All,
}
use dynamo_router.Float.{Float}
use dynamo_router.Rpc.{Packages}
use dynamo_router.Scheduler.{SchedulerConfig}
use dynamo_router.Scheduler.Scan.{At}
use dynamo_router.Task.{Task, ret, op}
use dynamo_router.Server.Shared.{World}
use dynamo_router.Server.System.{System, Move, arrives, runs, abandons, handler, resume, move}
use dynamo_router.Server.Discipline.{Holding, after, Balanced}
use dynamo_router.Server.Balance.{handler-Balanced}
use dynamo_router.Server.Load.{
  held, count, count-set, count-append, Within, Within-mono, drop_count,
}
use dynamo_router.Server.Tasks.{Tasks, held_le_count, Tasks-append, Tasks-At, Tasks-set}
use dynamo_router.Server.Effects.{IsWorld, IsRouter, effect-Goes}
use dynamo_router.Task.Trace.{did}
use dynamo_router.Server.Exact.{Quiet, after-held}
use dynamo_router.Server.Events.{
  event_of, events_of, IsLedger, IsLedgerAfter, IsLedger-still, IsLedger-step,
}

abbrev pub IsMove : ℕ → Move → Type 0
IsMove n (runs i w) = IsWorld n w
IsMove n (arrives a) = Unit {0}
IsMove n (abandons i) = Unit {0}

module _ {fl : Float} (pkg : Packages) (n : ℕ) (cfg : SchedulerConfig fl) where
  pub record IsUnderway (hs : List Holding) (sys : System fl) : Type 0 where
    pub router : IsRouter n cfg sys.inner
    pub tasks : Tasks n hs sys.tasks

  -- Whether the step drops a task.
  abbrev pub Stays : Move → Type 0
  Stays (abandons i) = ⊥
  Stays (runs i w) = Unit {0}
  Stays (arrives a) = Unit {0}

  pub record Moves (hs : List Holding) (sys : System fl) (m : Move) : Type 0 where
    pub sys' : System fl
    pub hs' : List Holding
    pub done : move pkg n sys m ≡ some sys'
    pub underway : IsUnderway hs' sys'
    pub counts :
        Stays m → Within sys.inner.scheduler (count hs) → Within sys'.inner.scheduler (count hs')
    pub ledger :
        (took gave : ℕ → ℕ)
        → All Quiet (events_of sys m)
        → IsLedger hs sys.inner.scheduler took gave
        → IsLedgerAfter hs hs' sys.inner.scheduler sys'.inner.scheduler took gave (events_of sys m)

  -- Task `k` performs an operation.
  run-Moves :
      (hs : List Holding) (sys : System fl) (k : ℕ) (w : World) (h : Holding) (t : Task (Unit {0}))
      → At sys.tasks k t
      → At hs k h
      → Balanced n h t
      → IsWorld n w
      → IsUnderway hs sys
      → Moves hs sys (runs k w)
  unfolding move resume events_of event_of
  run-Moves hs sys k w h (ret a) at ath b iw u = record {
    sys' = record { inner = sys.inner; tasks = set sys.tasks k (ret a) };
    hs' = set hs k h;
    done = rw (move, at);
    underway = record { router = u.router; tasks = Tasks-set n hs sys.tasks k h (ret a) b u.tasks };
    counts = λ stays within.
        Within-mono sys.inner.scheduler (count hs) (count (set hs k h))
          (λ i. omega (arith, count-set hs k h h i ath)) within;
    ledger = λ took gave.
        rw (events_of, at, event_of)
          (λ quiet l.
            IsLedger-still hs _ sys.inner.scheduler _ took gave
              (λ i. omega (arith, count-set hs k h h i ath)) refl l);
  }
  run-Moves hs sys k w h (op o f) at ath (allowed, b) iw u =
      let g = effect-Goes n cfg w sys.inner h o iw allowed u.router in
      let h' = after h o g.reply in
      record {
        sys' = record { inner = g.inner'; tasks = set sys.tasks k (f g.reply) };
        hs' = set hs k h';
        done = rw (move, at, resume, g.done);
        underway = record {
          router = g.router;
          tasks = Tasks-set n hs sys.tasks k h' (f g.reply) (b g.reply g.possible) u.tasks;
        };
        counts = λ stays within.
            let others : ℕ → ℕ = λ i. count hs i - held h i in
            Within-mono g.inner'.scheduler (λ i. others i + held h' i) (count (set hs k h'))
              (λ i. omega (arith, count-set hs k h h' i ath, held_le_count n hs k h i ath))
              (g.counts others (
                Within-mono sys.inner.scheduler (count hs) (λ i. others i + held h i)
                  (λ i. omega arith) within));
        ledger = λ took gave.
            rw (events_of, at, event_of, g.done)
              (λ quiet l.
                IsLedger-step hs _ sys.inner.scheduler _ took gave (did o g.reply)
                  (λ i.
                    omega (arith, count-set hs k h h' i ath, after-held n h o g.reply i allowed))
                  (g.exact (λ i. took i - gave i) quiet.0 l.exact) l);
      }

  pub move-Moves :
      (hs : List Holding) (sys : System fl) (m : Move)
      → IsMove n m
      → IsUnderway hs sys
      → Moves hs sys m
  unfolding move events_of
  move-Moves hs sys (arrives a) im u = record {
    sys' = record sys { tasks = sys.tasks ++ handler pkg n a ∷ [] };
    hs' = hs ++ none ∷ [];
    done = refl;
    underway = record {
      router = u.router;
      tasks = Tasks-append n hs sys.tasks (handler pkg n a) (handler-Balanced n pkg a) u.tasks;
    };
    counts = λ stays within.
        Within-mono sys.inner.scheduler (count hs) _ (λ i. omega (arith, count-append hs i)) within;
    ledger = λ took gave quiet l.
        IsLedger-still hs _ sys.inner.scheduler _ took gave (λ i. omega (arith, count-append hs i))
          refl l;
  }
  move-Moves hs sys (abandons k) im u = record {
    sys' = record sys { tasks = set sys.tasks k (ret tt) };
    hs' = set hs k none;
    done = refl;
    underway = record {
      router = u.router;
      tasks = Tasks-set n hs sys.tasks k none (ret tt) refl u.tasks;
    };
    counts = λ stays within. absurd stays;
    ledger = λ took gave quiet l.
        IsLedger-still hs _ sys.inner.scheduler _ took gave (λ i. drop_count hs k i) refl l;
  }
  move-Moves hs sys (runs k w) im u = elim (Option-cases (get_elem? sys.tasks k)) [
    | inl gone ↦ record {
      sys' = sys;
      hs' = hs;
      done = rw (move, gone);
      underway = u;
      counts = λ stays within. within;
      ledger = λ took gave.
          rw (events_of, gone)
            (λ quiet l.
              IsLedger-still hs hs sys.inner.scheduler _ took gave (λ i. omega arith) refl l);
    }
    | inr (t, at) ↦
        let (h, ath, b) = Tasks-At n hs sys.tasks k t at u.tasks in
        run-Moves hs sys k w h t at ath b im u
  ]
