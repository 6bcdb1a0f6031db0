-- ===== src/Server/Liveness.antt =====
-- What becomes of the tasks of the router (crates/router/src/server.rs) in an endless run that lets
-- each of them go on.
use dynamo_router.Base.{
  ℕ, zero, suc, ◌+◌, ◌≤◌, ◌<◌, ◌≡◌, sym, ap, ◌∙◌, inl, inr, Option, some, List, arith, Option-cases,
  length,
}
use mathlib.Core.Option.{some-injective}
use dynamo_router.Float.{Float}
use dynamo_router.Rpc.{Packages}
use dynamo_router.Scheduler.{SchedulerConfig, Policy}
use dynamo_router.Scheduler.Scan.{At}
use dynamo_router.Task.{Task}
use dynamo_router.Server.Shared.{World}
use dynamo_router.Server.System.{System, Move, runs, move, after_steps}
use dynamo_router.Server.Discipline.{Holding}
use dynamo_router.Server.Load.{count, Within}
use dynamo_router.Server.Step.{IsMove, IsUnderway, Stays}
use dynamo_router.Server.Conservation.{start}
use dynamo_router.Server.Fate.{move-length, added}

module _ {fl : Float} (pkg : Packages) (n : ℕ) (cfg : SchedulerConfig fl) (policy : Policy)
    (run : ℕ → Move) where
  abbrev pub state : ℕ → Option (System fl)
  state j = after_steps pkg n (start pkg n cfg policy) run j

  -- Each task, at each time, performs an operation at some later time.
  abbrev pub IsFair : Type 0
  IsFair =
      (j k : ℕ) (sys : System fl)
      → state j ≡ some sys
      → k < length sys.tasks
      → (m : ℕ) × (w : World) × (j ≤ m) × (run m ≡ runs k w)

  record Now (j : ℕ) : Type 0 where
    sys : System fl
    hs : List Holding
    reached : state j ≡ some sys
    underway : IsUnderway pkg n cfg hs sys
    counts : ((i : ℕ) → Stays pkg n cfg (run i)) → Within sys.inner.scheduler (count hs)

  state-suc :
      (j : ℕ) (sys : System fl) → state j ≡ some sys → state (suc j) ≡ move pkg n sys (run j)
  unfolding after_steps
  state-suc j sys e = rw (after_steps, e)

  -- The arrivals among the first `j` moves.
  abbrev pub arrivals : ℕ → ℕ
  arrivals zero = 0
  arrivals (suc j) = arrivals j + added (run j)

  pub length-arrivals :
      (j : ℕ) (sys : System fl) → state j ≡ some sys → length sys.tasks ≡ arrivals j
  unfolding after_steps
  length-arrivals zero sys e = sym (ap (λ (z : System fl). length z.tasks) (some-injective _ _ e))
  length-arrivals (suc j) sys e = elim (Option-cases (state j)) [
    | inl panicked ↦ absurd (cc)
    | inr (before, e') ↦ omega (
      arith,
      length-arrivals j before e',
      move-length pkg n before sys (run j) (sym (state-suc j before e') ∙ e),
    )
  ]

  module _ (legal : (j : ℕ) → IsMove n (run j)) where
    abbrev Has : ℕ → ℕ → Task (Unit {0}) → Type 0
    Has j k t = (sys : System fl) × (state j ≡ some sys) × At sys.tasks k t
