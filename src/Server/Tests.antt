-- ===== src/Server/Tests.antt =====
-- The theorems on the router of crates/router/src/server.rs, at concrete runs of two replicas.
use dynamo_router.Base.{
  ℕ, zero, suc, ◌+◌, ◌≤◌, ◌≡◌, refl, Bool, true, false, Option, none, some, List, [], ◌∷◌, ◌++◌,
  arith, length, All,
}
use dynamo_router.Float.Integer.{integers}
use dynamo_router.Text.{Text, codes}
use dynamo_router.Protocol.{ModelStreamInferResponse}
use dynamo_router.Rpc.{ok}
use dynamo_router.Scheduler.{cache_aware, SchedulerConfig, Scheduler}
use dynamo_router.PrefixCache
use dynamo_router.Blocks
use dynamo_router.Scheduler
use dynamo_router.Server.System
use dynamo_router.Task.{Stream, ends, yields, closed}
use dynamo_router.Task.Trace.{Always, sends}
use dynamo_router.Server.{model_infer_attempts}
use dynamo_router.Server.System.{infer, stream, tick, System, Move, arrives, runs, abandons, moves}
use dynamo_router.Server.Shared.{apply_all, find_healthy}
use dynamo_router.Server.Health.{health_after, apply_all-health_after, Finds, find_healthy-Finds}
use dynamo_router.Server.Streams.{model_stream_infer, forward}
use dynamo_router.Server.Delivery.{Delivers, forward-Delivers}
use dynamo_router.Server.Accounts.{Settled}
use dynamo_router.Server.Settling.{model_stream_infer-Settled}
use dynamo_router.Server.Tasks.{unfinished}
use dynamo_router.Server.Effects.{IsWorld, IsRouter}
use dynamo_router.Server.Attempts.{Attempts, model_infer_attempts-Attempts}
use dynamo_router.Server.Step.{IsMove}
use dynamo_router.Server.Conservation.{start, moves-IsRouter, moves-unfinished}
use dynamo_router.Server.Ledger.{moves-Exact}
use dynamo_router.Server.Events.{event_of, events_of, events, taken_all, given_all}
use dynamo_router.Server.Runs.{
  packages, request, live, dead, world, steps, prompt, cfg, after, retried, program,
}

model_infer_attempts-Attempts_example :
    Always
      (Attempts packages (length (Blocks.block_hashes prompt)))
      []
      (model_infer_attempts packages (request prompt))
unfolding program
model_infer_attempts-Attempts_example =
    model_infer_attempts-Attempts packages (request prompt) (Blocks.block_hashes prompt) refl

dead-IsWorld : IsWorld 2 (world dead)
dead-IsWorld = record { all_clients = refl; probes_in_range = omega arith }

steps-IsMove : (k : ℕ) → All (IsMove 2) (steps k (world dead))
steps-IsMove zero = tt
steps-IsMove (suc k) = (dead-IsWorld, steps-IsMove k)

moves-IsRouter_example :
    (sys : System.System integers) × (moves packages 2 (start packages 2 cfg cache_aware) retried
      ≡ some sys)
    × IsRouter 2 cfg sys.inner
moves-IsRouter_example = moves-IsRouter packages 2 cfg cache_aware retried (tt, steps-IsMove 20)

abbrev fresh : Scheduler integers
fresh = Scheduler.new 2 cache_aware cfg

apply_all-health_after_example :
    (s' : Scheduler integers) × (apply_all fresh 0 ((0, false) ∷ (1, true) ∷ []) ≡ some (s', 0 + 1))
    × ((i : ℕ) (b : Bool)
        → Scheduler.is_healthy fresh i ≡ some b
        → Scheduler.is_healthy s' i ≡ some (health_after b i ((0, false) ∷ (1, true) ∷ [])))
unfolding program
apply_all-health_after_example =
    apply_all-health_after fresh 0 ((0, false) ∷ (1, true) ∷ []) (omega arith)

find_healthy-Finds_example :
    (found : Option ℕ) × (find_healthy fresh (Scheduler.num_replicas fresh) 0 ≡ some found)
    × Finds fresh 0 (length fresh.replicas) found
find_healthy-Finds_example = find_healthy-Finds fresh

model_stream_infer-Settled_example :
    Always
      (λ done u. Settled done)
      []
      (model_stream_infer packages (yields (request prompt) (yields (request []) (ends closed))))
model_stream_infer-Settled_example =
    model_stream_infer-Settled packages
      (yields (request prompt) (yields (request []) (ends closed)))

-- One request arrives, and is run for ever.
abbrev endless : ℕ → Move
endless zero = arrives (infer (request prompt))
endless (suc j) = runs 0 (world live)

live-IsWorld : IsWorld 2 (world live)
live-IsWorld = record { all_clients = refl; probes_in_range = omega arith }

-- A reply of two chunks; the client is there.
abbrev chunk : Text → ModelStreamInferResponse
chunk message = record { error_message = message; infer_response = none }

abbrev two_chunks : Stream ModelStreamInferResponse
two_chunks = yields (chunk (codes "a")) (yields (chunk (codes "b")) (ends closed))

forward-Delivers_example :
    Always
      (λ done here.
        Delivers 2 (ok (chunk (codes "a")) ∷ ok (chunk (codes "b")) ∷ []) (sends done) here)
      []
      (forward packages 0 (ok two_chunks))
forward-Delivers_example = forward-Delivers packages 0 (ok two_chunks)

abbrev dropped : List Move
dropped = arrives (infer (request prompt)) ∷ steps 3 (world live) ++ abandons 0 ∷ []

live_steps-IsMove : (k : ℕ) → All (IsMove 2) (steps k (world live))
live_steps-IsMove zero = tt
live_steps-IsMove (suc k) = (live-IsWorld, live_steps-IsMove k)

-- The same request, which still awaits its replica.
abbrev routed_one : List Move
routed_one = arrives (infer (request prompt)) ∷ steps 3 (world live)

moves-unfinished_example : 1 ≤ unfinished (after routed_one).tasks
unfolding program
moves-unfinished_example =
    moves-unfinished packages 2 cfg cache_aware routed_one (after routed_one) 0
      (record {
        cache = PrefixCache.insert PrefixCache.new (Blocks.block_hashes prompt);
        inflight = 1;
        healthy = true;
      })
      (tt, live_steps-IsMove 3) (tt, (tt, (tt, (tt, tt)))) refl refl

moves-Exact_example :
    1 + given_all (events packages 2 (start packages 2 cfg cache_aware) dropped) 0
    ≡ taken_all (events packages 2 (start packages 2 cfg cache_aware) dropped) 0
unfolding program event_of events_of events
moves-Exact_example =
    moves-Exact packages 2 cfg cache_aware dropped (after dropped) 0
      (record {
        cache = PrefixCache.insert PrefixCache.new (Blocks.block_hashes prompt);
        inflight = 1;
        healthy = true;
      })
      (tt, (live-IsWorld, (live-IsWorld, (live-IsWorld, (tt, tt))))) (tt, (tt, (tt, tt))) refl refl
