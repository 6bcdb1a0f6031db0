-- ===== src/Task.antt =====
-- The code of a task as the operations that it performs one after another, on the shared state and
-- on the world. Between two of them any other task may run.
pub mod Trace
use dynamo_router.Base.{
  ℕ, zero, suc, ◌+◌, ◌-◌, ◌*◌, ◌/◌, ◌%◌, ◌^◌, ◌≤◌, ◌<◌, min, max, ◌≡◌, refl, sym, ap, ◌∙◌, subst,
  ◌≢◌, ◌↔◌, ◌⊎◌, inl, inr, Bool, true, false, not, ◌&&◌, ◌||◌, Option, none, some, List, [], ◌∷◌,
  ◌++◌, map, arith, dec_lt, ℕ_discrete, ltb, leb, ◌==◌, if◌then◌else◌, ltb→lt, lt→ltb, ge→ltb,
  ltb→ge, ==_iff, ==_refl, ==_ne, tests, Bool-cases, Option-cases, length, get_elem?, head?, set,
  In, All, take, drop, take_of_length-le, length-take_of_le, length-append, length-set,
  get_elem?-set_self, get_elem?-set_ne, get_elem?-lt, get_elem?_of_lt, All-In, All-of_In,
  length-map,
}
use dynamo_router.Rpc.{Result, Status}
use dynamo_router.Protocol.{
  ModelInferRequest, ModelInferResponse, ModelStreamInferResponse, ModelMetadataRequest,
  ModelMetadataResponse,
}
use dynamo_router.Scheduler.{Picked}

-- How a stream of messages ends.
pub data Ending : Type 0 where
  closed : Ending
  broken : Status → Ending

-- The messages that a `Streaming<A>` yields, until it ends.
pub data Stream (A : Type 0) : Type 0 where
  ends : Ending → Stream A
  yields : A → Stream A → Stream A

pub data Op : Type 0 where
  -- `scheduler.lock().pick(hashes)`
  pick : List ℕ → Op
  -- `complete(replica)` and then `inflight(replica)` under one lock
  complete : ℕ → Op
  mark_unhealthy : ℕ → Op
  any_healthy : Op
  first_healthy : Op
  -- the results of a health pass, applied under one lock, to the number that live
  apply_probes : List (ℕ × Bool) → Op
  observe_overhead : Op
  set_inflight_gauge : ℕ → ℕ → Op
  inc_requests : Op
  inc_matched : ℕ → Op
  inc_prompt : ℕ → Op
  set_healthy_gauge : ℕ → Op
  -- awaits on a replica
  call_infer : ℕ → ModelInferRequest → Op
  call_stream : ℕ → ModelInferRequest → Op
  call_metadata : ℕ → ModelMetadataRequest → Op
  -- `ServerLive` of all replicas, to the probes that were joined
  probe_all : ℕ → Op
  -- `tx.send`, to whether the client is still there
  send : Result ModelStreamInferResponse → Op

abbrev pub Reply : Op → Type 0
Reply (pick hashes) = Picked
Reply (complete replica) = ℕ
Reply any_healthy = Bool
Reply first_healthy = Option ℕ
Reply (apply_probes results) = ℕ
Reply (call_infer replica req) = Result ModelInferResponse
Reply (call_stream replica req) = Result (Stream ModelStreamInferResponse)
Reply (call_metadata replica req) = Result ModelMetadataResponse
Reply (probe_all n) = List (ℕ × Bool)
Reply (send item) = Bool
Reply (mark_unhealthy replica) = Unit {0}
Reply observe_overhead = Unit {0}
Reply (set_inflight_gauge replica value) = Unit {0}
Reply inc_requests = Unit {0}
Reply (inc_matched n) = Unit {0}
Reply (inc_prompt n) = Unit {0}
Reply (set_healthy_gauge n) = Unit {0}

-- The code of a task from some point on, with result in `A`.
pub data Task (A : Type 0) : Type 0 where
  ret : A → Task A
  op : (o : Op) → (Reply o → Task A) → Task A

abbrev pub perform : (o : Op) → Task (Reply o)
perform o = op o ret

module _ {A B : Type 0} where
  -- `do` over tasks: one after the other.
  infixl 5 ◌>>=◌
  unfoldable pub ◌>>=◌ : Task A → (A → Task B) → Task B
  ret a >>= f = f a
  op o k >>= f = op o (λ r. k r >>= f)
