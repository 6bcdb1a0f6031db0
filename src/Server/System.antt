-- ===== src/Server/System.antt =====
-- The router at work: its shared state, the tasks that are under way, and steps in any order.
use dynamo_router.Base.{ℕ, zero, suc, Option, none, some, List, [], ◌∷◌, ◌++◌, get_elem?, set}
use dynamo_router.Float.{Float}
use dynamo_router.Protocol.{ModelInferRequest, ModelMetadataRequest}
use dynamo_router.Rpc.{Packages}
use dynamo_router.Task.{Stream, Task, ret, op, ◌>>=◌}
use dynamo_router.Server.{model_infer_attempts, server_ready, model_metadata, health_pass}
use dynamo_router.Server.Streams.{model_stream_infer}
use dynamo_router.Server.Shared.{RouterInner, World, effect}

-- A request that arrives, or the next pass of the prober.
pub data Arrival : Type 0 where
  infer : ModelInferRequest → Arrival
  stream : Stream ModelInferRequest → Arrival
  ready : Arrival
  metadata : ModelMetadataRequest → Arrival
  tick : Arrival

-- What the result is handed to is outside of the model.
unfoldable pub finish : {A : Type 0} → Task A → Task (Unit {0})
finish t = t >>= λ a. ret tt

-- `n` is the number of clients.
unfoldable pub handler : Packages → ℕ → Arrival → Task (Unit {0})
unfolding finish
handler pkg n (infer req) = finish (model_infer_attempts pkg req)
handler pkg n (stream msgs) = model_stream_infer pkg msgs
handler pkg n ready = finish server_ready
handler pkg n (metadata req) = finish (model_metadata pkg req)
handler pkg n tick = health_pass n

pub record System (fl : Float) : Type 0 where
  pub inner : RouterInner fl
  pub tasks : List (Task (Unit {0}))

pub data Move : Type 0 where
  arrives : Arrival → Move
  -- Task number `i` performs its next operation, with the world's replies.
  runs : (i : ℕ) → World → Move
  -- Task number `i` is dropped: tonic drops the future of a unary handler whose caller went away.
  abandons : ℕ → Move

module _ {fl : Float} where
  -- A task's next operation; a task that is done stays done.
  unfoldable pub resume :
      World → RouterInner fl → Task (Unit {0}) → Option (RouterInner fl × Task (Unit {0}))
  resume w inner (ret a) = some (inner, ret a)
  resume w inner (op o k) = elim (effect w inner o) [
    | none ↦ none
    | some (inner', r) ↦ some (inner', k r)
  ]

  unfoldable pub move : Packages → ℕ → System fl → Move → Option (System fl)
  move pkg n sys (arrives a) = some (record sys { tasks = sys.tasks ++ handler pkg n a ∷ [] })
  move pkg n sys (abandons i) = some (record sys { tasks = set sys.tasks i (ret tt) })
  move pkg n sys (runs i w) = elim (get_elem? sys.tasks i) [
    | none ↦ some sys
    | some t ↦ elim (resume w sys.inner t) [
      | none ↦ none
      | some (inner, t') ↦ some (record { inner = inner; tasks = set sys.tasks i t' })
    ]
  ]

  unfoldable pub moves : Packages → ℕ → System fl → List Move → Option (System fl)
  unfolding move
  moves pkg n sys [] = some sys
  moves pkg n sys (m ∷ ms) = elim (move pkg n sys m) [
    | none ↦ none
    | some sys' ↦ moves pkg n sys' ms
  ]

  -- The state after the first `j` moves of an endless run.
  unfoldable pub after_steps : Packages → ℕ → System fl → (ℕ → Move) → ℕ → Option (System fl)
  unfolding move
  after_steps pkg n sys run zero = some sys
  after_steps pkg n sys run (suc j) = elim (after_steps pkg n sys run j) [
    | none ↦ none
    | some sys' ↦ move pkg n sys' (run j)
  ]
