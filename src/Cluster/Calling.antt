-- ===== src/Cluster/Calling.antt =====
-- The call of the replica that was picked, and the end of the request on the scheduler.
use dynamo_router.Base.{
  ℕ, zero, suc, ◌+◌, ◌-◌, ◌%◌, ◌^◌, ◌<◌, ◌≡◌, refl, sym, ap, ◌∙◌, inl, inr, true, some, List, [],
  ◌∷◌, arith, length, get_elem?, set, length-set, get_elem?-set_self, get_elem?_of_lt,
}
use mathlib.Core.Option.{some-injective}
use dynamo_router.Float.{Float}
use dynamo_router.Text.{Text, codes, is_utf8}
use dynamo_router.Blocks.{block_hashes}
use dynamo_router.Protocol.{ModelInferResponse}
use dynamo_router.Rpc.{Result, ok, Packages}
use dynamo_router.Scheduler
use dynamo_router.Scheduler.{
  ReplicaState, Scheduler, SchedulerConfig, Policy, cache_aware, RouteDecision, routed, refused,
  Picked, no_healthy_replicas, all_saturated, score, admit, update_replica,
}
use dynamo_router.Scheduler.Scan.{At}
use dynamo_router.PrefixCache.{insert, evict_to}
use dynamo_router.KvCache.{lookup_insert}
use dynamo_router.KvCache.Mirror.{lookup_insert-mirror}
use dynamo_router.Mock
use dynamo_router.Loadgen.{infer_request}
use dynamo_router.Loadgen.Replay.{infer_request_read}
use dynamo_router.Mock.{MockConfig, MockTriton, Prefilled, prefill, make_response}
use dynamo_router.Task.{call_infer, complete}
use dynamo_router.Server.Shared.{effect}
use dynamo_router.Server.Load.{At-set_cases, update_replica-At}
use dynamo_router.Cluster.{Cluster, act}
use dynamo_router.Float.Integer.{pos_part}
use dynamo_router.Loadgen.{RequestResult}
use dynamo_router.Cluster.Execution.{
  scheduled, Reported, plus, reported, cached_sum, total_sum, IsMirrored, IsAhead, Mirrors,
  IsCounted,
}
use dynamo_router.Cluster.Counters.{scheduled-IsFrame, scheduled-IsCounted}

cached_sum-set :
    (mocks : List MockTriton) (i : ℕ) (m m' : MockTriton)
    → At mocks i m
    → cached_sum (set mocks i m') + m.cached_blocks_total
      ≡ cached_sum mocks + m'.cached_blocks_total
cached_sum-set [] i m m' at = cc
cached_sum-set (x ∷ mocks) zero m m' at =
    omega (arith, ap (λ (z : MockTriton). z.cached_blocks_total) (some-injective _ _ at))
cached_sum-set (x ∷ mocks) (suc i) m m' at = omega (arith, cached_sum-set mocks i m m' at)

total_sum-set :
    (mocks : List MockTriton) (i : ℕ) (m m' : MockTriton)
    → At mocks i m
    → total_sum (set mocks i m') + m.total_blocks_total ≡ total_sum mocks + m'.total_blocks_total
total_sum-set [] i m m' at = cc
total_sum-set (x ∷ mocks) zero m m' at =
    omega (arith, ap (λ (z : MockTriton). z.total_blocks_total) (some-injective _ _ at))
total_sum-set (x ∷ mocks) (suc i) m m' at = omega (arith, total_sum-set mocks i m m' at)

module _ {fl : Float} (pkg : Packages) (mock : MockConfig) (n : ℕ) (cfg : SchedulerConfig fl) where
  -- Sums modulo 2 ^ 64: one counter moves by `d`.
  moved_sum :
      (total total' old ahead d : ℕ)
      → total' + old ≡ total + (old + d) % 2 ^ 64
      → total % 2 ^ 64 ≡ ahead % 2 ^ 64
      → total' % 2 ^ 64 ≡ (ahead + d) % 2 ^ 64
  moved_sum total total' old ahead d e same = omega arith

  prefill_reply :
      (m : MockTriton) (text : Text) (ids : List ℕ)
      → pkg.encode text ≡ inl ids
      → Mock.simulate_prefill pkg mock m text ≡ ((prefill mock m ids).0, ok (prefill mock m ids).1)
  unfolding Mock.simulate_prefill
  prefill_reply m text ids e = rw (Mock.simulate_prefill, e)

  mock_reply :
      (m : MockTriton) (text : Text) (ids : List ℕ)
      → is_utf8 text ≡ true
      → pkg.encode text ≡ inl ids
      → Mock.model_infer pkg mock m (infer_request text) ≡ (
        (prefill mock m ids).0,
        ok (
            make_response
              (infer_request text)
              (prefill mock m ids).1.cached
              (prefill mock m ids).1.total
              (codes "mock-completion")),
      )
  unfolding Mock.model_infer
  mock_reply m text ids utf8 e =
      rw
        (
          Mock.model_infer,
          (infer_request_read pkg text (infer_request text) 0 0 0 utf8).1,
          prefill_reply m text ids e,
        )
        (ap
          (λ (z : MockTriton × Result Prefilled). (
            z.0,
            ok (
                make_response (infer_request text) (prefill mock m ids).1.cached
                  (prefill mock m ids).1.total (codes "mock-completion")),
          ))
          (prefill_reply m text ids e))

  more : (t a d : ℕ) → t % 2 ^ 64 ≡ (a + 0) % 2 ^ 64 → (t + d) % 2 ^ 64 ≡ (a + d) % 2 ^ 64
  more t a d e = omega arith

  reported_response :
      (text : Text) (a b : ℕ)
      → reported (ok (make_response (infer_request text) a b (codes "mock-completion"))) ≡ (a, b)
  unfolding is_utf8
  reported_response text a b =
      ap (λ (r : RequestResult). (pos_part r.cached_blocks, pos_part r.total_blocks))
        (infer_request_read pkg (codes "mock-completion") (infer_request text) 0 a b refl).2

  -- The state after the call: the replica counts the prompt, and caches it.
  abbrev called : Cluster fl → ℕ → MockTriton → Cluster fl
  called c i m' = record c { mocks = set c.mocks i m' }

  called-IsCounted :
      (t : Reported) (ids : List ℕ) (d : RouteDecision) (c : Cluster fl)
      (v : IsAhead n cfg t (block_hashes ids) d c)
      → (lookup_insert v.m.cache (block_hashes ids)).1 ≡ d.matched_blocks
      → IsCounted n cfg
          (plus t (d.matched_blocks, length (block_hashes ids)))
          d.matched_blocks
          (length (block_hashes ids))
          (called c d.replica (prefill mock v.m ids).0)
  unfolding prefill
  called-IsCounted t ids d c v found =
      let hashes = block_hashes ids in
      let m' = (prefill mock v.m ids).0 in
      record {
        cached =
            moved_sum (cached_sum c.mocks) _ v.m.cached_blocks_total _ d.matched_blocks
              (cached_sum-set c.mocks d.replica v.m m' v.there_m
                ∙ ap (λ k. cached_sum c.mocks + (v.m.cached_blocks_total + k) % 2 ^ 64) found)
              (v.counted.cached ∙ ap (λ k. k % 2 ^ 64) (omega arith));
        total =
            moved_sum (total_sum c.mocks) _ v.m.total_blocks_total _ (length hashes)
              (total_sum-set c.mocks d.replica v.m m' v.there_m)
              (v.counted.total ∙ ap (λ k. k % 2 ^ 64) (omega arith));
        reported_cached = more (t.0) _ d.matched_blocks v.counted.reported_cached;
        reported_total = more (t.1) _ (length hashes) v.counted.reported_total;
        small_matched = v.counted.small_matched;
        small_prompt = v.counted.small_prompt;
      }

  called-Mirrors :
      (t : Reported) (ids : List ℕ) (d : RouteDecision) (c : Cluster fl)
      (v : IsAhead n cfg t (block_hashes ids) d c) (i : ℕ) (r : ReplicaState) (k : MockTriton)
      → At c.inner.scheduler.replicas i r
      → At (set c.mocks d.replica (prefill mock v.m ids).0) i k
      → Mirrors n cfg k r
  unfolding prefill
  called-Mirrors t ids d c v i r k atr atm =
      let (looked, tables, capacity) = lookup_insert-mirror v.m.cache (block_hashes ids) in
      elim (At-set_cases c.mocks d.replica i (prefill mock v.m ids).0 k atm) [
        | inl (same, it) ↦
            let here : r ≡ v.r =
              some-injective _ _
                (sym atr ∙ ap (get_elem? c.inner.scheduler.replicas) (sym same) ∙ v.there_r) in
            (
              ap (λ (z : MockTriton). z.cache.tables) it
                  ∙ tables
                  ∙ ap (evict_to (insert v.m.cache.tables (block_hashes ids))) v.capacity
                  ∙ sym v.cached
                  ∙ ap (λ (z : ReplicaState). z.cache) (sym here),
              ap (λ (z : MockTriton). z.cache.capacity) it ∙ capacity ∙ v.capacity,
            )
        | inr (other, old) ↦ v.others i r k other atr old
      ]

  -- The call of a replica brings it level with the router's picture of it.
  pub call-Leads :
      (t : Reported) (text : Text) (ids : List ℕ) (d : RouteDecision) (c : Cluster fl)
      → is_utf8 text ≡ true
      → pkg.encode text ≡ inl ids
      → IsAhead n cfg t (block_hashes ids) d c
      → (c' : Cluster fl) × (resp : ModelInferResponse) × (act pkg mock c
            (call_infer d.replica (infer_request text))
          ≡ some (c', ok resp))
        × (reported (ok resp) ≡ (d.matched_blocks, length (block_hashes ids)))
        × IsMirrored n cfg
            (plus t (d.matched_blocks, length (block_hashes ids)))
            d.matched_blocks
            (length (block_hashes ids))
            c'
  unfolding act prefill
  call-Leads t text ids d c utf8 e v =
      let m' = (prefill mock v.m ids).0 in
      let found : (lookup_insert v.m.cache (block_hashes ids)).1 ≡ d.matched_blocks =
        (lookup_insert-mirror v.m.cache (block_hashes ids)).0 ∙ sym v.predicted in
      (
        called c d.replica m',
        _,
        rw (v.there_m, mock_reply v.m text ids utf8 e),
        reported_response text _ _ ∙ ap (λ k. (k, length (block_hashes ids))) found,
        record {
          frame = record {
            policy = v.frame.policy;
            same_cfg = v.frame.same_cfg;
            all_replicas = v.frame.all_replicas;
            all_gauges = v.frame.all_gauges;
            all_mocks = length-set c.mocks d.replica m' ∙ v.frame.all_mocks;
          };
          counted = called-IsCounted t ids d c v found;
          mirrors = called-Mirrors t ids d c v;
        },
      )

  pub complete-Leads :
      (t : Reported) (a b i : ℕ) (c : Cluster fl)
      → i < n
      → IsMirrored n cfg t a b c
      → (c' : Cluster fl) × (inflight : ℕ) × (act pkg mock c (complete i) ≡ some (c', inflight))
        × IsMirrored n cfg t a b c'
  unfolding act effect Scheduler.complete Scheduler.inflight
  complete-Leads t a b i c lt v =
      let f = v.frame in
      let s = c.inner.scheduler in
      let (r, at) = get_elem?_of_lt s.replicas i (omega (arith, f.all_replicas)) in
      let r' : ReplicaState = record r { inflight = r.inflight - 1 } in
      let s' : Scheduler fl = record s { replicas = set s.replicas i r' } in
      (
        scheduled c s',
        r'.inflight,
        rw (
          update_replica-At s i (λ (z : ReplicaState). record z { inflight = z.inflight - 1 }) r at,
          get_elem?-set_self s.replicas i r' (omega (arith, f.all_replicas)),
        ),
        record {
          frame = scheduled-IsFrame n cfg c s' refl refl (length-set s.replicas i r') f;
          counted = scheduled-IsCounted n cfg t a b c s' v.counted;
          mirrors = λ j q k atr atm. elim (At-set_cases s.replicas i j r' q atr) [
            | inl (same, it) ↦
                let (tables, capacity) = v.mirrors i r k at (ap (get_elem? c.mocks) same ∙ atm) in
                (tables ∙ ap (λ (z : ReplicaState). z.cache) (sym it), capacity)
            | inr (other, old) ↦ v.mirrors j q k old atm
          ];
        },
      )
