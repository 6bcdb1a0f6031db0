-- ===== src/Loadgen/Replay.antt =====
-- What the load generator sends (crates/loadgen/src/trace.rs and main.rs), and what it reads back.
use dynamo_router.Base.{
  ℕ, zero, suc, ◌+◌, ◌-◌, ◌≤◌, max, ◌≡◌, refl, sym, ap, ◌∙◌, subst, ◌⊎◌, inl, inr, Bool, true,
  false, some, List, [], ◌∷◌, ◌++◌, arith, leb, if◌then◌else◌, Bool-cases, length, get_elem?, All,
  length-append,
}
use mathlib.Core.Option.{some-injective}
use dynamo_router.Text.{Text, codes, text_eq, is_utf8}
use dynamo_router.Float.Integer.{pos}
use dynamo_router.Protocol.{ModelInferRequest, ModelInferResponse}
use dynamo_router.Rpc.{Status, Result, ok, err, Packages}
use dynamo_router.Prompt
use dynamo_router.Mock
use dynamo_router.Loadgen.{
  RawTurn, RawConversation, Conversation, line, turn_loop, push_conversation, load_loop,
  load_sharegpt, infer_request, get_parameter, int_of, param_i64, RequestResult, result_of,
  ConvOutcome, replay,
}

-- Each text begins with the one before it, the first one with `history`.
abbrev pub Grows : Text → List Text → Type 0
Grows history [] = Unit {0}
Grows history (t ∷ ts) = ((more : Text) × (t ≡ history ++ more)) × Grows t ts

append_assoc : (a b c : Text) → a ++ b ++ c ≡ a ++ (b ++ c)
append_assoc [] b c = refl
append_assoc (x ∷ a) b c = ap (◌∷◌ x) (append_assoc a b c)

Grows-shorter :
    (history more : Text) (ts : List Text) → Grows (history ++ more) ts → Grows history ts
Grows-shorter history more [] g = tt
Grows-shorter history more (t ∷ ts) ((rest, e), g) =
    ((more ++ rest, e ∙ append_assoc history more rest), g)

turn_loop-Grows : (history : Text) (ts : List RawTurn) → Grows history (turn_loop history ts)
unfolding turn_loop
turn_loop-Grows history [] = tt
turn_loop-Grows history (t ∷ ts) =
    go (text_eq t.from (codes "human")) (turn_loop-Grows (history ++ line t) ts)
  where
    go :
        (b : Bool)
        → Grows (history ++ line t) (turn_loop (history ++ line t) ts)
        → Grows history (
            if b
            then (history ++ line t) ∷ turn_loop (history ++ line t) ts
            else turn_loop (history ++ line t) ts)
    go true g = ((line t, refl), g)
    go false g = Grows-shorter history (line t) (turn_loop (history ++ line t) ts) g

abbrev pub IsConversation : Conversation → Type 0
IsConversation c = (1 ≤ length c.turns) × Grows [] c.turns

All-append {ℓ κ} :
    {A : Type ℓ} (P : A → Type κ) (xs ys : List A) → All P xs → All P ys → All P (xs ++ ys)
All-append P [] ys all all' = all'
All-append P (x ∷ xs) ys (p, all) all' = (p, All-append P xs ys all all')

push-IsConversation :
    (rc : RawConversation) (out : List Conversation)
    → All IsConversation out
    → All IsConversation (push_conversation rc out)
      × (length (push_conversation rc out) ≤ length out + 1)
unfolding push_conversation
push-IsConversation rc out all =
    go (turn_loop [] rc.conversations) (turn_loop-Grows [] rc.conversations)
  where
    go :
        (ts : List Text)
        → Grows [] ts
        → All IsConversation (elim ts [
          | [] ↦ out
          | t ∷ turns ↦ out ++ record { id = rc.id; turns = t ∷ turns } ∷ []
        ])
          × (length (elim ts [
            | [] ↦ out
            | t ∷ turns ↦ out ++ record { id = rc.id; turns = t ∷ turns } ∷ []
          ])
              ≤ length out + 1)
    go [] g = (all, omega arith)
    go (t ∷ turns) g =
        let c : Conversation = record { id = rc.id; turns = t ∷ turns } in
        (
          All-append IsConversation out (c ∷ []) all ((omega arith, g), tt),
          omega (arith, length-append out (c ∷ [])),
        )

load_loop-IsConversation :
    (max_conversations : ℕ) (raw : List RawConversation) (out : List Conversation)
    → All IsConversation out
    → length out ≤ max max_conversations 1 - 1
    → All IsConversation (load_loop max_conversations raw out)
      × (length (load_loop max_conversations raw out) ≤ max max_conversations 1)
unfolding load_loop
load_loop-IsConversation m [] out all short = (all, omega arith)
load_loop-IsConversation m (rc ∷ raw) out all short =
    let (all', le) = push-IsConversation rc out all in
    let out' = push_conversation rc out in
    elim (Bool-cases (leb m (length out'))) [
      | inl full ↦ rw full (all', omega arith)
      | inr room ↦ rw room (load_loop-IsConversation m raw out' all' (ground arith))
    ]

-- Every conversation that is loaded has at least one prompt, and each of its prompts begins with the
-- one before it. There are at most `max_conversations` of them, or one, if that is 0.
pub load_sharegpt-IsConversation :
    (raw : List RawConversation) (max_conversations : ℕ)
    → All IsConversation (load_sharegpt raw max_conversations)
      × (length (load_sharegpt raw max_conversations) ≤ max max_conversations 1)
unfolding load_sharegpt
load_sharegpt-IsConversation raw m = load_loop-IsConversation m raw [] tt (omega arith)

-- A prompt in UTF-8 is read from its request as it was put in, by the router and by the replica, and
-- the block counts of a replica's response are read as they were put in.
pub infer_request_read :
    (pkg : Packages) (text : Text) (req : ModelInferRequest) (latency cached total : ℕ)
    → is_utf8 text ≡ true
    → (Prompt.extract_text pkg (infer_request text) ≡ ok text)
      × (Mock.extract_text pkg (infer_request text) ≡ ok text)
      × (result_of latency (Mock.make_response req cached total text)
          ≡ record { latency_ms = latency; cached_blocks = pos cached; total_blocks = pos total })
unfolding infer_request Prompt.extract_text Prompt.find_named Prompt.or_first Prompt.tensor_bytes
    Prompt.decode_text Mock.extract_text Mock.make_response param_i64 get_parameter int_of text_eq
infer_request_read pkg text req latency cached total utf8 = (rw utf8, rw utf8, refl)

-- How a replay of `turns` that were answered `results` ended.
abbrev pub Ended :
    (ℕ → ModelInferRequest → Result ModelInferResponse)
    → ℕ
    → List Text
    → List RequestResult
    → Bool
    → Type 0
Ended reply k turns results true =
    (turn : Text) × (status : Status) × (get_elem? turns (length results) ≡ some turn)
    × (reply (k + length results) (infer_request turn) ≡ err status)
Ended reply k turns results false = length results ≡ length turns

pub record Replayed (reply : ℕ → ModelInferRequest → Result ModelInferResponse) (elapsed : ℕ → ℕ)
    (k : ℕ) (turns : List Text) (o : ConvOutcome) : Type 0 where
  pub answered :
      (i : ℕ) (r : RequestResult)
      → get_elem? o.results i ≡ some r
      → (turn : Text) × (resp : ModelInferResponse) × (get_elem? turns i ≡ some turn)
        × (reply (k + i) (infer_request turn) ≡ ok resp)
        × (r ≡ result_of (elapsed (k + i)) resp)
  pub ended : Ended reply k turns o.results o.failed

Result-cases :
    {A : Type 0} (r : Result A) → ((a : A) × (r ≡ ok a)) ⊎ ((status : Status) × (r ≡ err status))
Result-cases (ok a) = inl (a, refl)
Result-cases (err status) = inr (status, refl)

module _ (reply : ℕ → ModelInferRequest → Result ModelInferResponse) (elapsed : ℕ → ℕ) where
  Ended-cons :
      (k : ℕ) (turn : Text) (turns : List Text) (r : RequestResult) (results : List RequestResult)
      (failed : Bool)
      → Ended reply (k + 1) turns results failed
      → Ended reply k (turn ∷ turns) (r ∷ results) failed
  Ended-cons k turn turns r results true (t, status, at, e) =
      (t, status, at, ap (λ j. reply j (infer_request t)) (omega arith) ∙ e)
  Ended-cons k turn turns r results false e = ap suc e

  replay-err :
      (k : ℕ) (turn : Text) (turns : List Text) (status : Status)
      → reply k (infer_request turn) ≡ err status
      → replay reply elapsed k (turn ∷ turns) ≡ record { results = []; failed = true }
  unfolding replay
  replay-err k turn turns status e = rw (replay, e)

  replay-ok :
      (k : ℕ) (turn : Text) (turns : List Text) (resp : ModelInferResponse)
      → reply k (infer_request turn) ≡ ok resp
      → (replay reply elapsed k (turn ∷ turns) ≡ record {
        results = result_of (elapsed k) resp ∷ (replay reply elapsed (k + 1) turns).results;
        failed = (replay reply elapsed (k + 1) turns).failed;
      })
  unfolding replay
  replay-ok k turn turns resp e = rw (replay, e)

  abbrev Answered : ℕ → List Text → ℕ → RequestResult → Type 0
  Answered k turns i r =
      (turn : Text) × (resp : ModelInferResponse) × (get_elem? turns i ≡ some turn)
      × (reply (k + i) (infer_request turn) ≡ ok resp)
      × (r ≡ result_of (elapsed (k + i)) resp)

  Answered-cons :
      (k : ℕ) (turn : Text) (turns : List Text) (resp : ModelInferResponse) (o : ConvOutcome)
      → reply k (infer_request turn) ≡ ok resp
      → ((i : ℕ) (r : RequestResult) → get_elem? o.results i ≡ some r → Answered (k + 1) turns i r)
      → (i : ℕ) (r : RequestResult) → get_elem? (result_of (elapsed k) resp ∷ o.results) i ≡ some r
      → Answered k (turn ∷ turns) i r
  Answered-cons k turn turns resp o e rest zero r at = (
    turn,
    resp,
    refl,
    ap (λ j. reply j (infer_request turn)) (omega arith) ∙ e,
    sym (some-injective _ _ at) ∙ ap (λ j. result_of (elapsed j) resp) (omega arith),
  )
  Answered-cons k turn turns resp o e rest (suc i) r at =
      let (t, resp', there, replied, same) = rest i r at in
      (
        t,
        resp',
        there,
        ap (λ j. reply j (infer_request t)) (omega arith) ∙ replied,
        same ∙ ap (λ j. result_of (elapsed j) resp') (omega arith),
      )

  -- The results of a replay are, turn by turn, the times and the counts of the
  -- replies to the first prompts. If it
  -- failed, the prompt after these got an error; if not, every prompt of the conversation was
  -- answered.
  pub replay-Replayed :
      (k : ℕ) (turns : List Text) → Replayed reply elapsed k turns (replay reply elapsed k turns)
  unfolding replay
  replay-Replayed k [] = record { answered = λ i r at. absurd (cc); ended = refl }
  replay-Replayed k (turn ∷ turns) = elim (Result-cases (reply k (infer_request turn))) [
    | inr (status, e) ↦
        subst (Replayed reply elapsed k (turn ∷ turns)) (sym (replay-err k turn turns status e))
          (record {
            answered = λ i r at. absurd (cc);
            ended = (turn, status, refl, ap (λ j. reply j (infer_request turn)) (omega arith) ∙ e);
          })
    | inl (resp, e) ↦
        let rest = replay-Replayed (k + 1) turns in
        subst (Replayed reply elapsed k (turn ∷ turns)) (sym (replay-ok k turn turns resp e))
          (record {
            answered =
                Answered-cons k turn turns resp (replay reply elapsed (k + 1) turns) e
                  rest.answered;
            ended = Ended-cons k turn turns (result_of (elapsed k) resp) _ _ rest.ended;
          })
  ]
