-- ===== src/Cluster.antt =====
-- The router of crates/router/src/server.rs in front of mock replicas
-- (crates/mock-triton/src/service.rs), as crates/router/tests/integration.rs puts them together; its
-- requests are served one after the other.
pub mod Execution
pub mod Counters
pub mod Picking
pub mod Calling
pub mod Hashing
pub mod Serving
pub mod Requests
pub mod Agreement
mod Tests
use dynamo_router.Base.{
  ℕ, zero, suc, ◌+◌, ◌-◌, ◌*◌, ◌/◌, ◌%◌, ◌^◌, ◌≤◌, ◌<◌, min, max, ◌≡◌, refl, sym, ap, ◌∙◌, subst,
  ◌≢◌, ◌↔◌, ◌⊎◌, inl, inr, Bool, true, false, not, ◌&&◌, ◌||◌, Option, none, some, List, [], ◌∷◌,
  ◌++◌, map, arith, dec_lt, ℕ_discrete, ltb, leb, ◌==◌, if◌then◌else◌, ltb→lt, lt→ltb, ge→ltb,
  ltb→ge, ==_iff, ==_refl, ==_ne, tests, Bool-cases, Option-cases, length, get_elem?, head?, ◌>>=◌,
  set, In, All, take, drop, take_of_length-le, length-take_of_le, length-append, length-set,
  get_elem?-set_self, get_elem?-set_ne, get_elem?-lt, get_elem?_of_lt, All-In, All-of_In,
  All-append_left, All-append_right, length-map, range,
}
use dynamo_router.Float.{Float}
use dynamo_router.Text.{Text}
use dynamo_router.Protocol.{ModelInferRequest, ModelInferResponse}
use dynamo_router.Rpc.{Result, ok, Packages}
use dynamo_router.Scheduler
use dynamo_router.Scheduler.{SchedulerConfig, Policy}
use dynamo_router.Task.{Op, Reply, Task, ret, op, call_infer}
use dynamo_router.Mock
use dynamo_router.Mock.{MockConfig, MockTriton}
use dynamo_router.Server.{model_infer_attempts}
use dynamo_router.Server.Shared
use dynamo_router.Server.Shared.{RouterInner, World, effect}

pub record Cluster (fl : Float) : Type 0 where
  pub inner : RouterInner fl
  pub mocks : List MockTriton

-- `spawn_mock`, for each of `n` replicas.
unfoldable pub spawn_mocks : ℕ → MockConfig → List MockTriton
spawn_mocks zero mock = []
spawn_mocks (suc n) mock = Mock.new mock ∷ spawn_mocks n mock

-- Of the world only the replicas' unary calls are wanted.
abbrev pub unary_world : World
unary_world = record { clients = []; probes = []; client_there = true }

module _ {fl : Float} where
  -- `spawn_router_with_cfg`, over `n` replicas.
  unfoldable pub spawn_router : ℕ → Policy → SchedulerConfig fl → RouterInner fl
  spawn_router n policy cfg = Shared.new (Scheduler.new n policy cfg) n

  unfoldable pub spawn : ℕ → Policy → SchedulerConfig fl → MockConfig → Cluster fl
  unfolding spawn_router spawn_mocks
  spawn n policy cfg mock = record { inner = spawn_router n policy cfg; mocks = spawn_mocks n mock }

  -- An operation of a unary request: a call goes to the replica's own handler.
  unfoldable pub act : Packages → MockConfig → Cluster fl → (o : Op) → Option (Cluster fl × Reply o)
  act pkg mock c (call_infer replica req) = do
    m ← get_elem? c.mocks replica
    let (m', result) = Mock.model_infer pkg mock m req
    some (record c { mocks = set c.mocks replica m' }, result)
  act pkg mock c o = do
    (inner', r) ← effect unary_world c.inner o
    some (record c { inner = inner' }, r)

  -- A task with no other in between; `none` is a panic.
  unfoldable pub execute :
      {A : Type 0} → Packages → MockConfig → Task A → Cluster fl → Option (Cluster fl × A)
  unfolding act
  execute pkg mock (ret a) c = some (c, a)
  execute pkg mock (op o k) c = elim (act pkg mock c o) [
    | none ↦ none
    | some (c', r) ↦ execute pkg mock (k r) c'
  ]

  -- Requests one after the other, with what each got.
  unfoldable pub serve_all :
      Packages
      → MockConfig
      → List ModelInferRequest
      → Cluster fl
      → Option (Cluster fl × List (Result ModelInferResponse))
  unfolding execute
  serve_all pkg mock [] c = some (c, [])
  serve_all pkg mock (req ∷ reqs) c = do
    (c1, result) ← execute pkg mock (model_infer_attempts pkg req) c
    (c2, results) ← serve_all pkg mock reqs c1
    some (c2, result ∷ results)
