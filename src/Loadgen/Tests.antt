-- ===== src/Loadgen/Tests.antt =====
-- Runs of the load generator (crates/loadgen/src/trace.rs, main.rs), and instances of the theorems.
use dynamo_router.Base.{
  ℕ, zero, suc, ◌+◌, ◌-◌, ◌*◌, ◌^◌, ◌≤◌, ◌≡◌, refl, inl, true, false, none, some, List, [], ◌∷◌,
  ◌++◌, map, arith, length, In, All,
}
use dynamo_router.Text
use dynamo_router.Text.{Text, codes, is_utf8}
use dynamo_router.Float.Integer.{pos, negsuc}
use dynamo_router.Protocol.{ModelInferRequest, ModelInferResponse}
use dynamo_router.Rpc.{Result, ok, err, Packages}
use dynamo_router.Prompt
use dynamo_router.Mock
use dynamo_router.Loadgen
use dynamo_router.Loadgen.Stats
use dynamo_router.Sorting
use dynamo_router.Sorting.{sort}
use dynamo_router.Loadgen.Stats.{percentile, Report, report}
use dynamo_router.Loadgen.Ranks.{at_most, at_least, percentile_lem}
use dynamo_router.Loadgen.Reports.{Reported, report-Reported}
use dynamo_router.Loadgen.{
  RequestResult, ConvOutcome, RawTurn, RawConversation, Conversation, load_sharegpt, infer_request,
  result_of, replay,
}
use dynamo_router.Loadgen.Replay.{
  IsConversation, load_sharegpt-IsConversation, infer_request_read, Replayed, replay-Replayed,
}

abbrev packages : Packages
packages = record {
  cancelled = 1;
  unknown = 2;
  invalid_argument = 3;
  deadline_exceeded = 4;
  resource_exhausted = 8;
  internal = 13;
  unavailable = 14;
  describe = λ code. codes "code";
  display = λ code message. codes "status: " ++ message;
  encode = λ text. inl text;
}

abbrev turn : Text → Text → RawTurn
turn from value = record { from = from; value = value }

abbrev raw : List RawConversation
raw =
    record {
      id = codes "a";
      conversations =
          turn (codes "human") (codes "x")
          ∷ turn (codes "gpt") (codes "y")
          ∷ turn (codes "human") (codes "z")
          ∷ [];
    }
    ∷ record { id = codes "b"; conversations = turn (codes "gpt") (codes "y") ∷ [] }
    ∷ record { id = codes "c"; conversations = turn (codes "human") (codes "w") ∷ [] }
    ∷ []

program : Unit {0}
unfolding Text.text_eq Loadgen.line Loadgen.turn_loop Loadgen.push_conversation Loadgen.load_loop
    Loadgen.load_sharegpt Text.is_utf8
program = tt

growing_prompts :
    (map (λ c. c.turns) (load_sharegpt raw 10)
      ≡ (codes "USER: x\n" ∷ codes "USER: x\nASSISTANT: y\nUSER: z\n" ∷ [])
        ∷ (codes "USER: w\n" ∷ [])
        ∷ [])
unfolding program
growing_prompts = refl

-- A cap of 0 does not keep the first conversation out.
cap_of_zero : length (load_sharegpt raw 0) ≡ 1
unfolding program
cap_of_zero = refl

load_sharegpt-IsConversation_example :
    All IsConversation (load_sharegpt raw 1) × (length (load_sharegpt raw 1) ≤ 1)
load_sharegpt-IsConversation_example = load_sharegpt-IsConversation raw 1

infer_request_read_example :
    (Prompt.extract_text packages (infer_request (codes "hi")) ≡ ok (codes "hi"))
    × (Mock.extract_text packages (infer_request (codes "hi")) ≡ ok (codes "hi"))
    × (result_of 7 (Mock.make_response (infer_request []) 3 5 (codes "hi"))
        ≡ record { latency_ms = 7; cached_blocks = pos 3; total_blocks = pos 5 })
unfolding program
infer_request_read_example = infer_request_read packages (codes "hi") (infer_request []) 7 3 5 refl

-- The first prompt is answered, and the second one fails.
abbrev reply : ℕ → ModelInferRequest → Result ModelInferResponse
reply zero req = ok (Mock.make_response req 0 1 (codes "r"))
reply (suc k) req = err (record { code = 14; message = [] })

replay-Replayed_example :
    Replayed reply suc 0
      (codes "a" ∷ codes "ab" ∷ [])
      (replay reply suc 0 (codes "a" ∷ codes "ab" ∷ []))
replay-Replayed_example = replay-Replayed reply suc 0 (codes "a" ∷ codes "ab" ∷ [])

-- `vec![1.0, .., 10.0]`, not in order: P50 is the sixth, P99 the last.
abbrev samples : List ℕ
samples = 3 ∷ 1 ∷ 2 ∷ 10 ∷ 4 ∷ 9 ∷ 5 ∷ 8 ∷ 6 ∷ 7 ∷ []

percentiles : (percentile (sort samples) 50 ≡ some 6) × (percentile (sort samples) 99 ≡ some 10)
unfolding Sorting.insert_sorted Sorting.sort Stats.rank Stats.percentile
percentiles = (refl, refl)

percentile_lem_example :
    (v : ℕ) × (percentile (sort samples) 99 ≡ some v)
    × In v samples
    × (990 ≤ 100 * at_most v samples + 50)
    × (10 ≤ 100 * at_least v samples + 50)
percentile_lem_example = percentile_lem samples 99 (omega arith) (omega arith)

abbrev result : ℕ → ℕ → ℕ → RequestResult
result latency c t = record { latency_ms = latency; cached_blocks = pos c; total_blocks = pos t }

abbrev outcomes : List ConvOutcome
outcomes =
    record { results = result 5 0 2 ∷ result 3 2 4 ∷ []; failed = false }
    ∷ record { results = result 4 1 2 ∷ []; failed = true }
    ∷ []

printed :
    report true outcomes
    ≡ some (record {
      requests = 3;
      p50 = 4;
      p99 = 5;
      rate = (pos 300, pos 8);
      cached = pos 3;
      total = pos 8;
      failed_requests = 1;
      abandoned_conversations = 1;
    })
unfolding Sorting.insert_sorted Sorting.sort Stats.rank Stats.percentile Stats.sum_i64
    Stats.hit_rate Stats.summary Stats.tally_loop Stats.report
printed = refl

-- Two replies of as many blocks as an i64 holds: a panic with overflow checks, and without them sums
-- of -2.
abbrev overflowing : List ConvOutcome
overflowing =
    record {
      results = result 1 (2 ^ 63 - 1) (2 ^ 63 - 1) ∷ result 1 (2 ^ 63 - 1) (2 ^ 63 - 1) ∷ [];
      failed = false;
    }
    ∷ []

overflows :
    (report true overflowing ≡ none)
    × (report false overflowing
        ≡ some (record {
          requests = 2;
          p50 = 1;
          p99 = 1;
          rate = (pos 0, pos 1);
          cached = negsuc 1;
          total = negsuc 1;
          failed_requests = 0;
          abandoned_conversations = 0;
        }))
unfolding Sorting.insert_sorted Sorting.sort Stats.rank Stats.percentile Stats.sum_i64
    Stats.hit_rate Stats.summary Stats.tally_loop Stats.report
overflows = (refl, refl)

report-Reported_example : (rep : Report) × (report true outcomes ≡ some rep) × Reported outcomes rep
report-Reported_example = report-Reported true outcomes (omega arith) (omega arith)
