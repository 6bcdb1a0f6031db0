-- ===== src/Server/Accounts.antt =====
-- What the streaming handler (crates/router/src/server.rs) does with the requests of one client's
-- stream, whatever else happens between its operations.
use dynamo_router.Base.{ℕ, ◌≡◌, refl, ap, ◌∙◌, List, [], ◌∷◌, ◌++◌, map}
use dynamo_router.Protocol.{ModelInferRequest, ModelStreamInferResponse}
use dynamo_router.Scheduler.{RouteDecision, routed}
use dynamo_router.Rpc.{Result}
use dynamo_router.Task.{Stream, Op}
use dynamo_router.Task.Trace.{
  Event, did, append_nil, gather_snoc, call_of, calls, stream_of, streams, decision_of, decisions,
  release_of, released, Count, requests, matched, prompt, count_of, counted,
}

-- The counts of requests that were routed, each with its number of prompt blocks.
abbrev pub charges : List (RouteDecision × ℕ) → List Count
charges [] = []
charges ((d, n) ∷ ps) = requests ∷ matched d.matched_blocks ∷ prompt n ∷ charges ps

pub record Accounts (done : List Event) (ds : List RouteDecision) (opened gone : List ℕ)
    (cs : List Count) : Type 0 where
  pub decided : decisions done ≡ ds
  pub opened_there : streams done ≡ opened
  pub released_there : released done ≡ gone
  pub charged : counted done ≡ cs
  pub no_unary : calls done ≡ []

Accounts-snoc :
    (done : List Event) (e : Event) (ds : List RouteDecision) (opened gone : List ℕ)
    (cs : List Count)
    → call_of e ≡ []
    → Accounts done ds opened gone cs
    → Accounts
        (done ++ e ∷ [])
        (ds ++ decision_of e)
        (opened ++ stream_of e)
        (gone ++ release_of e)
        (cs ++ count_of e)
Accounts-snoc done e ds opened gone cs none_called a = record {
  decided = gather_snoc decision_of done e ∙ ap (λ xs. xs ++ decision_of e) a.decided;
  opened_there = gather_snoc stream_of done e ∙ ap (λ xs. xs ++ stream_of e) a.opened_there;
  released_there = gather_snoc release_of done e ∙ ap (λ xs. xs ++ release_of e) a.released_there;
  charged = gather_snoc count_of done e ∙ ap (λ xs. xs ++ count_of e) a.charged;
  no_unary = gather_snoc call_of done e ∙ ap (λ xs. xs ++ call_of e) a.no_unary ∙ none_called;
}

-- An event that is in none of the accounts.
pub record IsQuiet (e : Event) : Type 0 where
  pub calls_none : call_of e ≡ []
  pub decides_none : decision_of e ≡ []
  pub opens_none : stream_of e ≡ []
  pub releases_none : release_of e ≡ []
  pub counts_none : count_of e ≡ []

append_none {ℓ} : {A : Type ℓ} (xs ys : List A) → ys ≡ [] → xs ++ ys ≡ xs
append_none xs ys e = ap (λ zs. xs ++ zs) e ∙ append_nil xs

module _ (done : List Event) (ds : List RouteDecision) (opened gone : List ℕ) (cs : List Count)
    (a : Accounts done ds opened gone cs) where
  pub quiet-Accounts : (e : Event) → IsQuiet e → Accounts (done ++ e ∷ []) ds opened gone cs
  quiet-Accounts e q =
      let b = Accounts-snoc done e ds opened gone cs q.calls_none a in
      record {
        decided = b.decided ∙ append_none ds _ q.decides_none;
        opened_there = b.opened_there ∙ append_none opened _ q.opens_none;
        released_there = b.released_there ∙ append_none gone _ q.releases_none;
        charged = b.charged ∙ append_none cs _ q.counts_none;
        no_unary = b.no_unary;
      }

  pub pick-Accounts :
      (hashes : List ℕ) (d : RouteDecision)
      → Accounts (done ++ did (Op.pick hashes) (routed d) ∷ []) (ds ++ d ∷ []) opened gone cs
  pick-Accounts hashes d =
      let b = Accounts-snoc done (did (Op.pick hashes) (routed d)) ds opened gone cs refl a in
      record {
        decided = b.decided;
        opened_there = b.opened_there ∙ append_nil opened;
        released_there = b.released_there ∙ append_nil gone;
        charged = b.charged ∙ append_nil cs;
        no_unary = b.no_unary;
      }

  pub open-Accounts :
      (i : ℕ) (req : ModelInferRequest) (r : Result (Stream ModelStreamInferResponse))
      → Accounts (done ++ did (Op.call_stream i req) r ∷ []) ds (opened ++ i ∷ []) gone cs
  open-Accounts i req r =
      let b = Accounts-snoc done (did (Op.call_stream i req) r) ds opened gone cs refl a in
      record {
        decided = b.decided ∙ append_nil ds;
        opened_there = b.opened_there;
        released_there = b.released_there ∙ append_nil gone;
        charged = b.charged ∙ append_nil cs;
        no_unary = b.no_unary;
      }

  pub release-Accounts :
      (i left : ℕ) → Accounts (done ++ did (Op.complete i) left ∷ []) ds opened (gone ++ i ∷ []) cs
  release-Accounts i left =
      let b = Accounts-snoc done (did (Op.complete i) left) ds opened gone cs refl a in
      record {
        decided = b.decided ∙ append_nil ds;
        opened_there = b.opened_there ∙ append_nil opened;
        released_there = b.released_there;
        charged = b.charged ∙ append_nil cs;
        no_unary = b.no_unary;
      }

  pub count-Accounts :
      (e : Event)
      → call_of e ≡ []
      → decision_of e ≡ []
      → stream_of e ≡ []
      → release_of e ≡ []
      → Accounts (done ++ e ∷ []) ds opened gone (cs ++ count_of e)
  count-Accounts e calls_none decides_none opens_none releases_none =
      let b = Accounts-snoc done e ds opened gone cs calls_none a in
      record {
        decided = b.decided ∙ append_none ds _ decides_none;
        opened_there = b.opened_there ∙ append_none opened _ opens_none;
        released_there = b.released_there ∙ append_none gone _ releases_none;
        charged = b.charged;
        no_unary = b.no_unary;
      }

abbrev pub replicas : List RouteDecision → List ℕ
replicas ds = map (λ d. d.replica) ds

abbrev pub routes : List (RouteDecision × ℕ) → List RouteDecision
routes ps = map (λ (p : RouteDecision × ℕ). p.0) ps

-- Each request that was routed, once: its stream opened on the replica of its decision, the place
-- there given back, and its counts made; and no unary call.
abbrev pub Settled : List Event → Type 0
Settled done =
    (ps : List (RouteDecision × ℕ)) × Accounts done (routes ps) (replicas (routes ps))
      (replicas (routes ps)) (charges ps)

pub map-append {ℓ κ} :
    {A : Type ℓ} {B : Type κ} (f : A → B) (xs ys : List A) → map f (xs ++ ys) ≡ map f xs ++ map f ys
map-append f [] ys = refl
map-append f (x ∷ xs) ys = ap (◌∷◌ (f x)) (map-append f xs ys)

pub charges_snoc :
    (ps : List (RouteDecision × ℕ)) (d : RouteDecision) (n : ℕ)
    → charges (ps ++ (d, n) ∷ [])
      ≡ charges ps ++ requests ∷ [] ++ matched d.matched_blocks ∷ [] ++ prompt n ∷ []
charges_snoc [] d n = refl
charges_snoc ((c, m) ∷ ps) d n =
    ap (λ cs. requests ∷ matched c.matched_blocks ∷ prompt m ∷ cs) (charges_snoc ps d n)
