-- ===== src/PrefixCache/Calls.antt =====
-- Any history of calls on a cache (crates/router/src/prefix_cache.rs).
use dynamo_router.Base.{ℕ, true, List, [], ◌∷◌}
use dynamo_router.Lru.{get}
use dynamo_router.Lru.Invariant.{IsSound}
use dynamo_router.PrefixCache.{PrefixCache, new, match_prefix, insert, evict_to}
use dynamo_router.PrefixCache.Touch.{touch-IsSound}
use dynamo_router.PrefixCache.Eviction.{insert-IsSound, evict_to-IsSound}

pub data Call : Type 0 where
  matches inserts : List ℕ → Call
  evicts : ℕ → Call

unfoldable pub step : PrefixCache → Call → PrefixCache
step c (matches hs) = (match_prefix c hs).0
step c (inserts hs) = insert c hs
step c (evicts budget) = evict_to c budget

unfoldable pub run : PrefixCache → List Call → PrefixCache
run c [] = c
run c (call ∷ calls) = run (step c call) calls

pub new-IsSound : IsSound new
unfolding new get
new-IsSound = record {
  distinct = tt;
  covered = λ h b g. absurd (cc g);
  timely = λ h b g. absurd (cc g);
  counted = λ h b g. absurd (cc g);
}

pub step-IsSound : (c : PrefixCache) (call : Call) → IsSound c → IsSound (step c call)
unfolding step match_prefix
step-IsSound c (matches hs) s = touch-IsSound c hs true s
step-IsSound c (inserts hs) s = insert-IsSound c hs s
step-IsSound c (evicts budget) s = evict_to-IsSound c budget s

run_from-IsSound : (c : PrefixCache) (calls : List Call) → IsSound c → IsSound (run c calls)
unfolding run
run_from-IsSound c [] s = s
run_from-IsSound c (call ∷ calls) s = run_from-IsSound (step c call) calls (step-IsSound c call s)

-- After any calls on a new cache: no hash is bound twice, every cached block has its current entry
-- in the heap (so that eviction finds it), and no block is later than the clock and the counter.
pub run-IsSound : (calls : List Call) → IsSound (run new calls)
run-IsSound calls = run_from-IsSound new calls new-IsSound
