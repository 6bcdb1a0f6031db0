-- ===== src/Task/Trace.antt =====
-- What a task may do on every path through it.
use dynamo_router.Base.{
  ℕ, ◌≡◌, refl, sym, ap, ◌∙◌, Bool, true, false, List, [], ◌∷◌, ◌++◌, if◌then◌else◌,
}
use dynamo_router.Protocol.{ModelStreamInferResponse, ModelInferResponse}
use dynamo_router.Rpc.{Result}
use dynamo_router.Scheduler.{Picked, RouteDecision, routed, refused}
use dynamo_router.Task.{
  call_stream, send, ◌>>=◌, Op, Reply, Task, ret, op, pick, complete, mark_unhealthy, inc_requests,
  inc_matched, inc_prompt, call_infer,
}

-- An operation and the reply that it got.
pub data Event : Type 0 where
  did : (o : Op) → Reply o → Event

-- Whatever is replied to its operations, `Q` holds of what the task has done, after `done`, and of
-- its result.
abbrev pub Always : {A : Type 0} → (List Event → A → Type 0) → List Event → Task A → Type 0
Always Q done (ret a) = Q done a
Always Q done (op o k) = (r : Reply o) → Always Q (done ++ did o r ∷ []) (k r)

pub append_nil {ℓ} : {A : Type ℓ} (xs : List A) → xs ++ [] ≡ xs
append_nil [] = refl
append_nil (x ∷ xs) = ap (◌∷◌ x) (append_nil xs)

pub append_assoc {ℓ} : {A : Type ℓ} (xs ys zs : List A) → xs ++ ys ++ zs ≡ xs ++ (ys ++ zs)
append_assoc [] ys zs = refl
append_assoc (x ∷ xs) ys zs = ap (◌∷◌ x) (append_assoc xs ys zs)

pub bind-Always :
    {A B : Type 0} (Q : List Event → B → Type 0) (f : A → Task B) (done : List Event) (t : Task A)
    → Always (λ done a. Always Q done (f a)) done t
    → Always Q done (t >>= f)
unfolding ◌>>=◌
bind-Always Q f done (ret a) all = all
bind-Always Q f done (op o k) all = λ r. bind-Always Q f (done ++ did o r ∷ []) (k r) (all r)

pub Always-mono :
    {A : Type 0} (P Q : List Event → A → Type 0) (done : List Event) (t : Task A)
    → ((done : List Event) (a : A) → P done a → Q done a)
    → Always P done t
    → Always Q done t
Always-mono P Q done (ret a) imp all = imp done a all
Always-mono P Q done (op o k) imp all =
    λ r. Always-mono P Q (done ++ did o r ∷ []) (k r) imp (all r)

pub if-Always :
    {A : Type 0} (Q : List Event → A → Type 0) (done : List Event) (b : Bool) (t u : Task A)
    → (b ≡ true → Always Q done t)
    → (b ≡ false → Always Q done u)
    → Always Q done (if b then t else u)
if-Always Q done true t u yes_case no_case = yes_case refl
if-Always Q done false t u yes_case no_case = no_case refl

-- What events add to an account, in order.
abbrev pub gather : {A : Type 0} → (Event → List A) → List Event → List A
gather f [] = []
gather f (e ∷ es) = f e ++ gather f es

pub gather_snoc :
    {A : Type 0} (f : Event → List A) (es : List Event) (e : Event)
    → gather f (es ++ e ∷ []) ≡ gather f es ++ f e
gather_snoc f [] e = append_nil (f e)
gather_snoc f (d ∷ es) e =
    ap (λ xs. f d ++ xs) (gather_snoc f es e) ∙ sym (append_assoc (f d) (gather f es) (f e))

-- The calls of `model_infer` on replicas, with what they returned.
abbrev pub call_of : Event → List (ℕ × Result ModelInferResponse)
call_of (did (call_infer replica req) r) = (replica, r) ∷ []
call_of (did o r) = []

abbrev pub calls : List Event → List (ℕ × Result ModelInferResponse)
calls = gather call_of

-- The replicas on which a stream was opened, or was tried to be.
abbrev pub stream_of : Event → List ℕ
stream_of (did (call_stream replica req) r) = replica ∷ []
stream_of (did o r) = []

abbrev pub streams : List Event → List ℕ
streams = gather stream_of

-- What was sent to the client of a stream, with whether it was still there.
abbrev pub Sent : Type 0
Sent = Result ModelStreamInferResponse × Bool

abbrev pub send_of : Event → List Sent
send_of (did (send item) r) = (item, r) ∷ []
send_of (did o r) = []

abbrev pub sends : List Event → List Sent
sends = gather send_of

abbrev pub decision : Picked → List RouteDecision
decision (routed d) = d ∷ []
decision (refused e) = []

-- The decisions that routed the request.
abbrev pub decision_of : Event → List RouteDecision
decision_of (did (pick hashes) r) = decision r
decision_of (did o r) = []

abbrev pub decisions : List Event → List RouteDecision
decisions = gather decision_of

-- The replicas whose place was given back.
abbrev pub release_of : Event → List ℕ
release_of (did (complete replica) r) = replica ∷ []
release_of (did o r) = []

abbrev pub released : List Event → List ℕ
released = gather release_of

-- The replicas that were marked unhealthy.
abbrev pub mark_of : Event → List ℕ
mark_of (did (mark_unhealthy replica) r) = replica ∷ []
mark_of (did o r) = []

abbrev pub marked : List Event → List ℕ
marked = gather mark_of

-- What was added to the three counters, in order.
pub data Count : Type 0 where
  requests : Count
  matched prompt : ℕ → Count

abbrev pub count_of : Event → List Count
count_of (did inc_requests r) = requests ∷ []
count_of (did (inc_matched n) r) = matched n ∷ []
count_of (did (inc_prompt n) r) = prompt n ∷ []
count_of (did o r) = []

abbrev pub counted : List Event → List Count
counted = gather count_of
