-- ===== src/PrefixCache/Tree.antt =====
-- The flat map as a tree, over any history of calls with prompts that are chains
-- (crates/router/src/prefix_cache.rs).
use dynamo_router.Base.{
  ℕ, ◌+◌, ◌<◌, ◌≡◌, Bool, true, false, Option, none, some, List, [], ◌∷◌, arith, ltb, get_elem?,
  All,
}
use dynamo_router.Lru.{Entry, get, contains_key, count_present}
use dynamo_router.Lru.Invariant.{IsSound}
use dynamo_router.Lru.Touch.{compact_if_bloated_lem}
use dynamo_router.PrefixCache.{PrefixCache, new, lookup, touch, match_prefix, insert}
use dynamo_router.PrefixCache.Touch.{touched, after_touch, touch-after_touch}
use dynamo_router.PrefixCache.Eviction.{get-evict_to}
use dynamo_router.PrefixCache.Calls.{
  Call, matches, inserts, evicts, step, run, new-IsSound, step-IsSound,
}
use dynamo_router.PrefixCache.Chains.{
  IsChain, IsRooted, IsChainFrom-take, Unique-of_IsChain, touch_all-IsRooted, ideal_get-IsRooted,
  contains_key-count_present,
}

module _ (parent : ℕ → Option ℕ) where
  abbrev pub IsChainCall : Call → Type 0
  IsChainCall (matches hs) = IsChain parent hs
  IsChainCall (inserts hs) = IsChain parent hs
  IsChainCall (evicts budget) = Unit {0}

  waiting :
      (now : ℕ) (hs : List ℕ) (m : List Entry)
      → ((h : ℕ) (b : Entry) → get h m ≡ some b → b.access < now)
      → All (λ h. (b : Entry) → get h m ≡ some b → b.access < now) hs
  waiting now [] m f = tt
  waiting now (h ∷ hs) m f = (f h, waiting now hs m f)

  touched-IsChain :
      (only_present : Bool) (hs : List ℕ) (c : PrefixCache)
      → IsChain parent hs
      → IsChain parent (touched only_present hs c)
  unfolding touched
  touched-IsChain true hs c chain = IsChainFrom-take parent none (count_present hs c.map) hs chain
  touched-IsChain false hs c chain = chain

  touch-IsRooted :
      (c : PrefixCache) (hs : List ℕ) (only_present : Bool)
      → IsSound c
      → IsRooted parent c.map
      → IsChain parent hs
      → IsRooted parent (touch c hs only_present).0.map
  unfolding after_touch
  touch-IsRooted c hs only_present s r chain =
      let chain' = touched-IsChain only_present hs c chain in
      let now = c.clock + 1 in
      rw
        (
          touch-after_touch c hs only_present,
          (compact_if_bloated_lem (after_touch only_present hs c)).0,
        )
        (touch_all-IsRooted parent now none (touched only_present hs c) (record c { clock = now }) r
          (λ h b g. omega (arith, s.timely h b g)) chain' (Unique-of_IsChain parent _ chain')
          (waiting now _ c.map (λ h b g. omega (arith, s.timely h b g))) (λ p e. cc))

  step-IsRooted :
      (c : PrefixCache) (call : Call)
      → IsSound c
      → IsRooted parent c.map
      → IsChainCall call
      → IsRooted parent (step c call).map
  unfolding step match_prefix insert
  step-IsRooted c (matches hs) s r chain = touch-IsRooted c hs true s r chain
  step-IsRooted c (inserts hs) s r chain = touch-IsRooted c hs false s r chain
  step-IsRooted c (evicts budget) s r chain =
      ideal_get-IsRooted parent budget c.map _ r (get-evict_to c budget s).0

  run_from-IsRooted :
      (c : PrefixCache) (calls : List Call)
      → IsSound c
      → IsRooted parent c.map
      → All IsChainCall calls
      → IsRooted parent (run c calls).map
  unfolding run
  run_from-IsRooted c [] s r chains = r
  run_from-IsRooted c (call ∷ calls) s r chains =
      run_from-IsRooted (step c call) calls (step-IsSound c call s)
        (step-IsRooted c call s r chains.0) chains.1

  -- After any calls on a new cache with chains as prompts, a cached block's parent is cached too
  -- and would be evicted only after it.
  pub run-IsRooted :
      (calls : List Call) → All IsChainCall calls → IsRooted parent (run new calls).map
  unfolding new get
  run-IsRooted calls chains =
      run_from-IsRooted new calls new-IsSound (λ h p b g e. absurd (cc g)) chains

  -- After any such calls, block number `i` of any chain is cached exactly when `lookup` of that
  -- chain counts beyond `i`: the leading blocks that are counted are all that are cached, as in a
  -- walk down a tree, and no block lingers below a gap.
  pub contains_key-lookup :
      (calls : List Call) (hs : List ℕ) (i h : ℕ)
      → All IsChainCall calls
      → IsChain parent hs
      → get_elem? hs i ≡ some h
      → contains_key h (run new calls).map ≡ ltb i (lookup (run new calls) hs)
  unfolding lookup
  contains_key-lookup calls hs i h chains chain e =
      contains_key-count_present parent none hs (run new calls).map i h (run-IsRooted calls chains)
        chain e
