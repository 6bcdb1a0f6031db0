-- ===== src/Cluster/Tests.antt =====
-- Runs of a router over mock replicas, after crates/router/tests/integration.rs, and an instance of the
-- theorem.
use dynamo_router.Base.{
  ℕ, zero, suc, ◌≡◌, refl, inl, Bool, true, not, ◌&&◌, Option, none, some, List, [], ◌∷◌, ◌++◌, map,
  ◌>>=◌,
}
use dynamo_router.Float.Integer.{integers, integers-IsOrder, ℤ, pos, lt_ℤ}
use dynamo_router.Text
use dynamo_router.Text.{Text, codes}
use dynamo_router.Blocks
use dynamo_router.Lru
use dynamo_router.PrefixCache
use dynamo_router.KvCache
use dynamo_router.Task
use dynamo_router.Prompt
use dynamo_router.Rpc
use dynamo_router.Rpc.{Status, Result, ok, err, Packages}
use dynamo_router.Protocol.{ModelInferResponse}
use dynamo_router.Loadgen
use dynamo_router.Loadgen.{infer_request, param_i64}
use dynamo_router.Scheduler
use dynamo_router.Scheduler.{SchedulerConfig, cache_aware}
use dynamo_router.Scheduler.UnitTests.{default_config, default_finite}
use dynamo_router.Mock
use dynamo_router.Mock.{MockConfig, default_mock}
use dynamo_router.Server
use dynamo_router.Server.{model_infer_attempts}
use dynamo_router.Server.Shared
use dynamo_router.Cluster.{Cluster, spawn, spawn_mocks, spawn_router, act, execute, serve_all}
use dynamo_router.Cluster.Execution.{reported_all}
use dynamo_router.Cluster.Agreement.{Agrees, serve_all-Agrees}

abbrev packages : Packages
packages = record {
  cancelled = 1;
  unknown = 2;
  invalid_argument = 3;
  deadline_exceeded = 4;
  resource_exhausted = 8;
  internal = 13;
  unavailable = 14;
  describe = λ code. codes "code";
  display = λ code message. codes "status: " ++ message;
  encode = λ text. inl text;
}

program : Unit {0}
unfolding Lru.get Lru.contains_key Lru.insert Lru.remove Lru.outranks Lru.select Lru.pop Lru.is_live
    Lru.touch_block Lru.touch_all Lru.compact_if_bloated Lru.count_present Lru.discard
    Lru.evict_loop Lru.evict_to PrefixCache.new PrefixCache.num_blocks PrefixCache.touch_loop
    PrefixCache.touch PrefixCache.insert PrefixCache.lookup PrefixCache.evict_to Scheduler.new
    Scheduler.idle_replicas Scheduler.survey Scheduler.round_robin_scan Scheduler.available_from
    Scheduler.least_loop Scheduler.least_loaded Scheduler.score Scheduler.better Scheduler.best_loop
    Scheduler.fall_back Scheduler.settle Scheduler.choose_cache_aware Scheduler.choose
    Scheduler.admit Scheduler.route Scheduler.pick Scheduler.update_replica Scheduler.complete
    Scheduler.inflight Blocks.fnv_step Blocks.hash_block Blocks.hash_chunks Blocks.block_hashes
    Text.text_eq Text.is_utf8 Rpc.fmt_status Rpc.is_transport_failure Task.◌>>=◌ Prompt.find_named
    Prompt.or_first Prompt.tensor_bytes Prompt.decode_text Prompt.extract_text Prompt.tokenize
    Prompt.hash_prompt Server.report_pick Server.pick_replica Server.record_served Server.release
    Server.upstream_infer Server.serve Server.finish_first Server.attempt_first Server.infer_hashes
    Server.request_hashes Server.model_infer_attempts Shared.inc_by Shared.zeros Shared.new
    Shared.effect KvCache.new KvCache.lookup_insert Mock.new Mock.extract_text Mock.prefill
    Mock.simulate_prefill Mock.make_response Mock.model_infer Loadgen.infer_request
    Loadgen.get_parameter Loadgen.int_of Loadgen.param_i64 spawn_mocks spawn_router spawn act
    execute serve_all
program = tt

-- `n` copies of a text.
abbrev repeat : Text → ℕ → Text
repeat text zero = []
repeat text (suc n) = text ++ repeat text n

abbrev long_prompt : Text → Text
long_prompt suffix =
    repeat (codes "The quick brown fox jumps over the lazy dog. ") 30 ++ codes " " ++ suffix

-- `.await.unwrap()`, and the parameter `cached_blocks` of the response.
abbrev cached_blocks : Result ModelInferResponse → Option ℤ
cached_blocks (ok resp) = some (param_i64 resp (codes "cached_blocks"))
cached_blocks (err status) = none

abbrev cached_all : List (Result ModelInferResponse) → List (Option ℤ)
cached_all = map cached_blocks

abbrev code_of : Result ModelInferResponse → Option ℕ
code_of (ok resp) = none
code_of (err status) = some status.code

abbrev same_prefix_requests_hit_cache_via_pinning : Option Bool
same_prefix_requests_hit_cache_via_pinning = do
  let c = spawn {fl = integers} 2 cache_aware default_config default_mock
  (c1, r1) ←
      execute packages default_mock
        (model_infer_attempts packages (infer_request (long_prompt (codes "turn one")))) c
  (c2, r2) ←
      execute packages default_mock
        (model_infer_attempts packages
          (infer_request (long_prompt (codes "turn one and then some more words"))))
        c1
  first ← cached_blocks r1
  second ← cached_blocks r2
  some (not (lt_ℤ first (pos 0)) && not (lt_ℤ (pos 0) first) && lt_ℤ (pos 0) second)

abbrev saturated_replicas_reject_fast : Option ℕ
saturated_replicas_reject_fast = do
  let cfg = record default_config { max_inflight = 0 }
  let c = spawn {fl = integers} 1 cache_aware cfg default_mock
  (c1, r) ←
      execute packages default_mock (model_infer_attempts packages (infer_request (codes "hello")))
        c
  code_of r

integration_tests_pass :
    (same_prefix_requests_hit_cache_via_pinning ≡ some true)
    × (saturated_replicas_reject_fast ≡ some packages.resource_exhausted)
unfolding program
integration_tests_pass = (refl, refl)

-- With the budget of the router.
abbrev mock : MockConfig
mock = record default_mock { cache_blocks = 65_536 }

abbrev texts : List Text
texts =
    codes "one prompt of two blocks and a bit"
    ∷ codes "one prompt of two blocks, another bit"
    ∷ (200 ∷ 7 ∷ [])
    ∷ codes "something else entirely, and then some more"
    ∷ codes "one prompt of two blocks and a bit more"
    ∷ []

-- The third text is not UTF-8; two of the others share blocks with an earlier one.
served_texts :
    elim (serve_all packages mock
      (map infer_request texts)
      (spawn {fl = integers} 2 cache_aware default_config mock)) [
        | none ↦ []
        | some (c, results) ↦
            c.inner.metrics.matched_blocks_total
            ∷ c.inner.metrics.prompt_blocks_total
            ∷ (reported_all results).0
            ∷ (reported_all results).1
            ∷ []
      ]
    ≡ 3 ∷ 8 ∷ 3 ∷ 8 ∷ []
unfolding program
served_texts = refl

serve_all-Agrees_example :
    (c : Cluster integers) × (results : List (Result ModelInferResponse)) × (serve_all packages mock
        (map infer_request texts)
        (spawn 2 cache_aware default_config mock)
      ≡ some (c, results))
    × Agrees packages mock 2 default_config c results
serve_all-Agrees_example =
    serve_all-Agrees packages mock 2 default_config texts integers-IsOrder default_finite refl
