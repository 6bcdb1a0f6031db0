-- ===== src/Loadgen.antt =====
-- The load generator: the prompts of a trace (crates/loadgen/src/trace.rs), and the replay of its
-- conversations (crates/loadgen/src/main.rs). Stats has what is printed of it.
pub mod Replay
pub mod Stats
pub mod Ranks
pub mod Reports
mod UnitTests
mod Tests
use dynamo_router.Base.{
  ℕ, zero, suc, ◌+◌, ◌-◌, ◌*◌, ◌/◌, ◌%◌, ◌^◌, ◌≤◌, ◌<◌, min, max, ◌≡◌, refl, sym, ap, ◌∙◌, subst,
  ◌≢◌, ◌↔◌, ◌⊎◌, inl, inr, Bool, true, false, not, ◌&&◌, ◌||◌, Option, none, some, List, [], ◌∷◌,
  ◌++◌, map, arith, dec_lt, ℕ_discrete, ltb, leb, ◌==◌, if◌then◌else◌, ltb→lt, lt→ltb, ge→ltb,
  ltb→ge, ==_iff, ==_refl, ==_ne, tests, Bool-cases, Option-cases, length, get_elem?, head?, ◌>>=◌,
  set, In, All, take, drop, take_of_length-le, length-take_of_le, length-append, length-set,
  get_elem?-set_self, get_elem?-set_ne, get_elem?-lt, get_elem?_of_lt, All-In, All-of_In,
  All-append_left, All-append_right, length-map, range,
}
use dynamo_router.Text.{Text, codes, text_eq}
use dynamo_router.Float.Integer.{ℤ, pos, ◌+ℤ◌}
use dynamo_router.Protocol.{
  InferParameter, int64_param, bool_param, string_param, unset, Parameters, ModelInferRequest,
  ModelInferResponse,
}
use dynamo_router.Rpc.{Status, Result, ok, err}

pub record RawTurn : Type 0 where
  pub from : Text
  pub value : Text

pub record RawConversation : Type 0 where
  pub id : Text
  pub conversations : List RawTurn

pub record Conversation : Type 0 where
  pub id : Text
  pub turns : List Text

-- A line of the history.
unfoldable pub line : RawTurn → Text
line t =
    (if text_eq t.from (codes "human") then codes "USER: " else codes "ASSISTANT: ")
    ++ t.value
    ++ codes "\n"

-- `for t in &rc.conversations`: the prompts of the human turns, after `history`.
unfoldable pub turn_loop : Text → List RawTurn → List Text
unfolding line
turn_loop history [] = []
turn_loop history (t ∷ rest) =
    let longer = history ++ line t in
    let later = turn_loop longer rest in
    if text_eq t.from (codes "human") then longer ∷ later else later

unfoldable pub push_conversation : RawConversation → List Conversation → List Conversation
push_conversation rc out = elim (turn_loop [] rc.conversations) [
  | [] ↦ out
  | t ∷ turns ↦ out ++ record { id = rc.id; turns = t ∷ turns } ∷ []
]

-- `for rc in raw`
unfoldable pub load_loop : ℕ → List RawConversation → List Conversation → List Conversation
load_loop max_conversations [] out = out
load_loop max_conversations (rc ∷ raw) out =
    let out' = push_conversation rc out in
    let rest = load_loop max_conversations raw out' in
    if leb max_conversations (length out') then out' else rest

-- `load_sharegpt`, of the conversations that the file holds.
unfoldable pub load_sharegpt : List RawConversation → ℕ → List Conversation
load_sharegpt raw max_conversations = load_loop max_conversations raw []

unfoldable pub infer_request : Text → ModelInferRequest
infer_request text = record {
  model_name = codes "mock";
  model_version = [];
  id = [];
  inputs =
      record {
        name = codes "text_input";
        datatype = codes "BYTES";
        shape = 1 ∷ [];
        contents = some (record { bytes_contents = text ∷ [] });
      }
      ∷ [];
}

-- `parameters.get(key)`
unfoldable pub get_parameter : Text → Parameters → Option InferParameter
unfolding text_eq
get_parameter key [] = none
get_parameter key ((k, v) ∷ parameters) =
    let rest = get_parameter key parameters in if text_eq k key then some v else rest

unfoldable pub int_of : Option InferParameter → ℤ
int_of (some (int64_param v)) = v
int_of (some (bool_param v)) = pos 0
int_of (some (string_param v)) = pos 0
int_of (some unset) = pos 0
int_of none = pos 0

unfoldable pub param_i64 : ModelInferResponse → Text → ℤ
unfolding get_parameter
param_i64 resp key = int_of (get_parameter key resp.parameters)

-- A latency is a whole number of nanoseconds: as an f64 of milliseconds it is ordered alike.
pub record RequestResult : Type 0 where
  pub latency_ms : ℕ
  pub cached_blocks : ℤ
  pub total_blocks : ℤ

pub record ConvOutcome : Type 0 where
  pub results : List RequestResult
  pub failed : Bool

abbrev pub result_of : ℕ → ModelInferResponse → RequestResult
result_of latency resp = record {
  latency_ms = latency;
  cached_blocks = param_i64 resp (codes "cached_blocks");
  total_blocks = param_i64 resp (codes "total_blocks");
}

-- `for turn in &conv.turns`, with what the router replies to turn number `k`, and the time it takes.
unfoldable pub replay :
    (ℕ → ModelInferRequest → Result ModelInferResponse) → (ℕ → ℕ) → ℕ → List Text → ConvOutcome
replay reply elapsed k [] = record { results = []; failed = false }
replay reply elapsed k (turn ∷ turns) = elim (reply k (infer_request turn)) [
  | err status ↦ record { results = []; failed = true }
  | ok resp ↦
      let rest = replay reply elapsed (k + 1) turns in
      record { results = result_of (elapsed k) resp ∷ rest.results; failed = rest.failed }
]
