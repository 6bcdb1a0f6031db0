-- ===== src/Server/Runs.antt =====
-- Runs of the router of crates/router/src/server.rs on two replicas.
use dynamo_router.Base.{
  ℕ, zero, suc, ◌≡◌, refl, inl, Bool, true, false, none, some, List, [], ◌∷◌, ◌++◌, map, length,
}
use dynamo_router.Float.Integer.{integers, pos}
use dynamo_router.Text.{Text, codes, text_eq, is_utf8}
use dynamo_router.Protocol.{InferTensor, ModelInferRequest, ModelInferResponse}
use dynamo_router.Rpc.{Status, Result, ok, err, Packages, is_transport_failure}
use dynamo_router.Scheduler.{cache_aware, SchedulerConfig, Scheduler}
use dynamo_router.Lru
use dynamo_router.PrefixCache
use dynamo_router.Blocks
use dynamo_router.Prompt
use dynamo_router.Task
use dynamo_router.Rpc
use dynamo_router.Text
use dynamo_router.Scheduler
use dynamo_router.Server
use dynamo_router.Server.Shared
use dynamo_router.Server.System
use dynamo_router.Task.{Stream, ends, yields, closed}
use dynamo_router.Prompt.{extract_text}
use dynamo_router.Server.{request_hashes, model_infer_attempts}
use dynamo_router.Server.Shared.{Client, World, RouterInner}
use dynamo_router.Server.System.{infer, stream, tick, System, Move, arrives, runs, abandons, moves}
use dynamo_router.Server.Shared.{apply_all, find_healthy}
use dynamo_router.Scheduler.{ReplicaState}
use dynamo_router.Server.Tasks.{unfinished}
use dynamo_router.Server.Conservation.{start}

-- gRPC's numbers, and a tokenizer whose tokens are the bytes.
abbrev pub packages : Packages
packages = record {
  cancelled = 1;
  unknown = 2;
  invalid_argument = 3;
  deadline_exceeded = 4;
  resource_exhausted = 8;
  internal = 13;
  unavailable = 14;
  describe = λ code. codes "code";
  display = λ code message. codes "status: " ++ message;
  encode = λ text. inl text;
}

abbrev pub tensor : Text → Text → InferTensor
tensor name text = record {
  name = name;
  datatype = codes "BYTES";
  shape = 1 ∷ [];
  contents = some (record { bytes_contents = text ∷ [] });
}

abbrev pub request : Text → ModelInferRequest
request text = record {
  model_name = codes "mock";
  model_version = [];
  id = [];
  inputs = tensor (codes "text_input") text ∷ [];
}

abbrev pub response : ModelInferResponse
response = record {
  model_name = codes "mock";
  model_version = codes "1";
  id = [];
  parameters = [];
  outputs = [];
}

abbrev pub live : Client
live = record {
  infer = λ req. ok response;
  stream = λ req. ok (ends closed);
  metadata = λ req. ok (record { name = []; versions = []; platform = [] });
}

abbrev pub dead : Client
dead = record {
  infer = λ req. err (record { code = 1; message = codes "reset" });
  stream = λ req. err (record { code = 1; message = codes "reset" });
  metadata = λ req. err (record { code = 1; message = codes "reset" });
}

abbrev pub slow : Client
slow = record {
  infer = λ req. err (record { code = 4; message = codes "deadline" });
  stream = λ req. err (record { code = 4; message = codes "deadline" });
  metadata = λ req. err (record { code = 4; message = codes "deadline" });
}

abbrev pub world : Client → World
world first = record {
  clients = first ∷ live ∷ [];
  probes = (0, true) ∷ (1, true) ∷ [];
  client_there = true;
}

-- Task 0 performs `k` operations.
abbrev pub steps : ℕ → World → List Move
steps zero w = []
steps (suc k) w = runs 0 w ∷ steps k w

abbrev pub prompt : Text
prompt = codes "hello, hello, hello, hello"

abbrev pub cfg : SchedulerConfig integers
cfg = record {
  alpha = pos 1;
  beta = pos 2;
  min_match_blocks = 2;
  block_budget = 65_536;
  max_inflight = 512;
}

unfoldable pub program : Unit {0}
unfolding Lru.get Lru.contains_key Lru.insert Lru.remove Lru.outranks Lru.select Lru.pop Lru.is_live
    Lru.touch_block Lru.touch_all Lru.compact_if_bloated Lru.count_present Lru.discard
    Lru.evict_loop Lru.evict_to PrefixCache.new PrefixCache.num_blocks PrefixCache.touch_loop
    PrefixCache.touch PrefixCache.insert PrefixCache.lookup PrefixCache.evict_to Scheduler.new
    Scheduler.idle_replicas Scheduler.survey Scheduler.round_robin_scan Scheduler.available_from
    Scheduler.least_loop Scheduler.least_loaded Scheduler.score Scheduler.better Scheduler.best_loop
    Scheduler.fall_back Scheduler.settle Scheduler.choose_cache_aware Scheduler.choose
    Scheduler.admit Scheduler.route Scheduler.pick Scheduler.update_replica Scheduler.complete
    Scheduler.mark_unhealthy Scheduler.mark_healthy Scheduler.is_healthy Scheduler.inflight
    Blocks.fnv_step Blocks.hash_block Blocks.hash_chunks Blocks.block_hashes Text.text_eq
    Text.is_utf8 Rpc.fmt_status Rpc.is_transport_failure Task.◌>>=◌ Prompt.find_named
    Prompt.or_first Prompt.tensor_bytes Prompt.decode_text Prompt.extract_text Prompt.tokenize
    Prompt.hash_prompt Server.report_pick Server.pick_replica Server.record_served Server.release
    Server.upstream_infer Server.serve Server.finish_last Server.attempt_last Server.finish_first
    Server.attempt_first Server.infer_hashes Server.request_hashes Server.model_infer_attempts
    Server.health_pass Shared.inc_by Shared.zeros Shared.new Shared.apply_probe Shared.apply_all
    Shared.effect System.finish System.handler System.resume System.move System.moves
program = tt

abbrev pub after : List Move → System.System integers
after ms = elim (moves packages 2 (start packages 2 cfg cache_aware) ms) [
  | none ↦ start packages 2 cfg cache_aware
  | some sys ↦ sys
]

-- The first replica resets the connection, and the second serves: it is counted once.
abbrev pub retried : List Move
retried = arrives (infer (request prompt)) ∷ steps 20 (world dead)

retried_once :
    ((after retried).inner.metrics ≡ record {
      requests_total = 1;
      overheads = 2;
      matched_blocks_total = 0;
      prompt_blocks_total = 1;
      healthy_replicas = 0;
    })
    × (unfinished (after retried).tasks ≡ 0)
    × (map (λ r. r.healthy) (after retried).inner.scheduler.replicas ≡ false ∷ true ∷ [])
unfolding program
retried_once = (refl, refl, refl)

-- A deadline that expires is not retried, and marks no replica.
slow_not_retried :
    (unfinished (after (arrives (infer (request prompt)) ∷ steps 6 (world slow))).tasks ≡ 0)
    × (map
          (λ r. r.healthy)
          (after (arrives (infer (request prompt)) ∷ steps 6 (world slow))).inner.scheduler.replicas
        ≡ true ∷ true ∷ [])
unfolding program
slow_not_retried = (refl, refl)

-- A request that is dropped while it awaits its replica leaves the count raised, with no task left.
dropped_leaks :
    (unfinished
        (after (arrives (infer (request prompt)) ∷ steps 3 (world live) ++ abandons 0 ∷ [])).tasks
      ≡ 0)
    × (map
          (λ r. r.inflight)
          (after (
            arrives (infer (request prompt)) ∷ steps 3 (world live)
            ++ abandons 0 ∷ [])).inner.scheduler.replicas
        ≡ 1 ∷ 0 ∷ [])
unfolding program
dropped_leaks = (refl, refl)

abbrev probed : Bool → World
probed first = record { clients = live ∷ live ∷ []; probes = (0, first) ∷ []; client_there = true }

-- A request is routed to replica 0; a health pass finds it dead, and the next one alive; another
-- request is routed to it; the first one's release takes the place of the second one, which still
-- awaits its reply (task 3).
abbrev overlapping : List Move
overlapping =
    arrives (infer (request prompt)) ∷ steps 3 (world live)
    ++ arrives tick
      ∷ runs 1 (probed false)
      ∷ runs 1 (probed false)
      ∷ arrives tick
      ∷ runs 2 (probed true)
      ∷ runs 2 (probed true)
      ∷ arrives (infer (request prompt))
      ∷ runs 3 (world live)
      ∷ runs 3 (world live)
      ∷ runs 3 (world live)
      ∷ []

late_release_undercounts :
    (map (λ r. r.inflight) (after overlapping).inner.scheduler.replicas ≡ 1 ∷ 0 ∷ [])
    × (map (λ r. r.inflight) (after (overlapping ++ steps 2 (world live))).inner.scheduler.replicas
        ≡ 0 ∷ 0 ∷ [])
unfolding program
late_release_undercounts = (refl, refl)

-- Two requests of one replica end at once: the gauges are set in the other order than the counts.
abbrev alone : World
alone = record { clients = live ∷ []; probes = []; client_there = true }

-- Task `i` performs `k` operations.
abbrev steps_of : ℕ → ℕ → List Move
steps_of i zero = []
steps_of i (suc k) = runs i alone ∷ steps_of i k

abbrev crossing : List Move
crossing =
    arrives (infer (request prompt)) ∷ arrives (infer (request prompt)) ∷ steps_of 1 4
    ++ steps_of 0 5
    ++ steps_of 1 5
    ++ steps_of 0 4

abbrev crossed : System.System integers
crossed = elim (moves packages 1 (start packages 1 cfg cache_aware) crossing) [
  | none ↦ start packages 1 cfg cache_aware
  | some sys ↦ sys
]

stale_gauge :
    (map (λ r. r.inflight) crossed.inner.scheduler.replicas ≡ 0 ∷ [])
    × (crossed.inner.replica_inflight_gauges ≡ 1 ∷ [])
    × (unfinished crossed.tasks ≡ 0)
    × (length crossed.tasks ≡ 2)
unfolding program
stale_gauge = (refl, refl, refl, refl)
