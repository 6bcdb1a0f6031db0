-- ===== src/PrefixCache/Chains.antt =====
-- Chained hashes: that the flat map of crates/router/src/prefix_cache.rs serves as a tree. Each
-- hash names its parent, as long as no two prefixes collide; a prompt is a chain from a root.
use dynamo_router.Base.{
  ℕ, zero, suc, ◌+◌, ◌≤◌, ◌<◌, ◌≡◌, refl, sym, ap, ◌∙◌, subst, inl, inr, true, false, Option, none,
  some, List, [], ◌∷◌, arith, ℕ_discrete, ltb, ◌==◌, if◌then◌else◌, get_elem?, In, All, take,
}
use dynamo_router.Lru.{
  Entry, Tables, get, contains_key, outranks, touch_block, touch_all, count_present,
}
use dynamo_router.Lru.BlockMap.{get-insert}
use dynamo_router.Lru.Ideal.{newer, ideal_get}
use dynamo_router.Lru.Touch.{contains_key_iff}
use dynamo_router.Lru.Recency.{Unique}
use mathlib.Core.Option.{some-injective}

module _ (parent : ℕ → Option ℕ) where
  abbrev pub IsChainFrom : Option ℕ → List ℕ → Type 0
  IsChainFrom p [] = Unit {0}
  IsChainFrom p (h ∷ hs) = (parent h ≡ p) × IsChainFrom (some h) hs

  abbrev pub IsChain : List ℕ → Type 0
  IsChain = IsChainFrom none

  -- `n` steps lead from `h` to a root.
  abbrev HasDepth : ℕ → ℕ → Type 0
  HasDepth zero h = parent h ≡ none
  HasDepth (suc n) h = (p : ℕ) × (parent h ≡ some p) × HasDepth n p

  HasDepth-unique : (m n h : ℕ) → HasDepth m h → HasDepth n h → m ≡ n
  HasDepth-unique zero zero h d e = refl
  HasDepth-unique zero (suc n) h d (p, e, r) = absurd (cc)
  HasDepth-unique (suc m) zero h (p, e, r) d = absurd (cc)
  HasDepth-unique (suc m) (suc n) h (p, e, r) (q, f, s) =
      ap suc (HasDepth-unique m n p r (subst (HasDepth n) (some-injective _ _ (sym f ∙ e)) s))

  deeper :
      (n h k : ℕ) (hs : List ℕ)
      → HasDepth n h
      → IsChainFrom (some h) hs
      → In k hs
      → (m : ℕ) × (n < m) × HasDepth m k
  deeper n h k [] d c i = elim i [ ]
  deeper n h k (x ∷ hs) d c (inl e) =
      (suc n, omega arith, subst (HasDepth (suc n)) (sym e) (h, c.0, d))
  deeper n h k (x ∷ hs) d c (inr i) =
      let (m, lt, e) = deeper (suc n) x k hs (h, c.0, d) c.1 i in (m, omega arith, e)

  Unique-of_chain_from :
      (n h : ℕ) (hs : List ℕ) → HasDepth n h → IsChainFrom (some h) hs → Unique (h ∷ hs)
  Unique-of_chain_from n h [] d c = (λ i. i, tt)
  Unique-of_chain_from n h (x ∷ hs) d c = (
    λ i. let (m, lt, e) = deeper n h h (x ∷ hs) d c i in omega (arith, HasDepth-unique n m h d e),
    Unique-of_chain_from (suc n) x hs (h, c.0, d) c.1,
  )

  -- A chain from a root never comes back to a block.
  pub Unique-of_IsChain : (hs : List ℕ) → IsChain hs → Unique hs
  Unique-of_IsChain [] c = tt
  Unique-of_IsChain (h ∷ hs) c = Unique-of_chain_from 0 h hs c.0 c.1

  -- The parent of a cached block is cached too, and is evicted only after it.
  abbrev pub IsRooted : List Entry → Type 0
  IsRooted m =
      (h p : ℕ) (b : Entry)
      → get h m ≡ some b
      → parent h ≡ some p
      → (a : Entry) × (get p m ≡ some a) × (outranks b a ≡ true)

  abbrev Latest : ℕ → List Entry → Type 0
  Latest now m = (h : ℕ) (b : Entry) → get h m ≡ some b → b.access ≤ now

  abbrev Waiting : ℕ → List Entry → ℕ → Type 0
  Waiting now m h = (b : Entry) → get h m ≡ some b → b.access < now

  -- The tick has just touched this block.
  abbrev Touched : ℕ → Tables → ℕ → Type 0
  Touched now t p = (a : Entry) × (get p t.map ≡ some a) × (a.access ≡ now) × (a.seq ≤ t.seq)

  get-touch_block :
      (now h k : ℕ) (t : Tables)
      → get k (touch_block now t h).map ≡ (
          if h == k then some (record { access = now; seq = t.seq + 1; hash = h }) else get k t.map)
  unfolding touch_block
  get-touch_block now h k t =
      get-insert (record { access = now; seq = t.seq + 1; hash = h }) k t.map

  touch_block-IsRooted :
      (now h : ℕ) (t : Tables)
      → IsRooted t.map
      → Latest now t.map
      → Waiting now t.map h
      → ((p : ℕ) → parent h ≡ some p → Touched now t p)
      → IsRooted (touch_block now t h).map
  unfolding outranks
  touch_block-IsRooted now h t r late w above k p b g e = elim (ℕ_discrete h k) [
    | yes same ↦
        let (a, found, at_now, before) = above p (ground arith) in
        (
          a,
          ground (arith, get-touch_block now h p t, w a),
          ground (arith, get-touch_block now h k t),
        )
    | no other ↦
        let old : get k t.map ≡ some b = ground (arith, get-touch_block now h k t) in
        let (a, found, older) = r k p b old e in
        elim (ℕ_discrete h p) [
          | yes here ↦ (
            record { access = now; seq = t.seq + 1; hash = h },
            ground (arith, get-touch_block now h p t),
            ground (arith, late k b old, w a),
          )
          | no there ↦ (a, ground (arith, get-touch_block now h p t), older)
        ]
  ]

  All-Waiting-touch_block :
      (now h : ℕ) (hs : List ℕ) (t : Tables)
      → (¬ In h hs)
      → All (Waiting now t.map) hs
      → All (Waiting now (touch_block now t h).map) hs
  All-Waiting-touch_block now h [] t n all = tt
  All-Waiting-touch_block now h (k ∷ hs) t n all = (
    λ b g. elim (ℕ_discrete h k) [
      | yes same ↦ absurd (n (inl same))
      | no other ↦ ground (arith, get-touch_block now h k t, all.0 b)
    ],
    All-Waiting-touch_block now h hs t (λ i. n (inr i)) all.1,
  )

  touch_block_seq : (now h : ℕ) (t : Tables) → t.seq + 1 ≤ (touch_block now t h).seq
  unfolding touch_block
  touch_block_seq now h t = omega arith

  -- Touching a chain from its root keeps every cached block under its parent.
  pub touch_all-IsRooted :
      (now : ℕ) (prev : Option ℕ) (hs : List ℕ) (t : Tables)
      → IsRooted t.map
      → Latest now t.map
      → IsChainFrom prev hs
      → Unique hs
      → All (Waiting now t.map) hs
      → ((p : ℕ) → prev ≡ some p → Touched now t p)
      → IsRooted (touch_all now hs t).map
  unfolding touch_all
  touch_all-IsRooted now prev [] t r late c u w above = r
  touch_all-IsRooted now prev (h ∷ hs) t r late c u w above =
      touch_all-IsRooted now (some h) hs (touch_block now t h)
        (touch_block-IsRooted now h t r late w.0 (λ p e. above p (sym c.0 ∙ e)))
        (λ k b g. ground (arith, get-touch_block now h k t, late k b)) c.1 u.1
        (All-Waiting-touch_block now h hs t u.0 w.1)
        (λ p e. (
          record { access = now; seq = t.seq + 1; hash = h },
          ground (arith, get-touch_block now h p t),
          refl,
          touch_block_seq now h t,
        ))

  pub IsChainFrom-take :
      (prev : Option ℕ) (n : ℕ) (hs : List ℕ) → IsChainFrom prev hs → IsChainFrom prev (take n hs)
  IsChainFrom-take prev zero hs c = tt
  IsChainFrom-take prev (suc n) [] c = tt
  IsChainFrom-take prev (suc n) (h ∷ hs) c = (c.0, IsChainFrom-take (some h) n hs c.1)

  newer_mono : (a b : Entry) (m : List Entry) → outranks b a ≡ true → newer a m ≤ newer b m
  unfolding newer outranks
  newer_mono a b [] o = omega arith
  newer_mono a b (x ∷ m) o = ground (arith, newer_mono a b m o)

  -- Eviction takes a block before its parent.
  pub ideal_get-IsRooted :
      (budget : ℕ) (m m' : List Entry)
      → IsRooted m
      → ((h : ℕ) → get h m' ≡ ideal_get budget h m)
      → IsRooted m'
  unfolding ideal_get
  ideal_get-IsRooted budget m m' r v h p b g e =
      let kept : (get h m ≡ some b) × (newer b m < budget) = ground (arith, v h) in
      let (a, found, older) = r h p b kept.0 e in
      (a, ground (arith, v p, newer_mono a b m older), older)

  parent_present :
      (m : List Entry) (h p : ℕ)
      → IsRooted m
      → parent h ≡ some p
      → contains_key h m ≡ true
      → contains_key p m ≡ true
  parent_present m h p r e present =
      let (b, found) = (contains_key_iff h m).0 present in
      let (a, above, _) = r h p b found e in (contains_key_iff p m).1 (a, above)

  absent_below :
      (x : ℕ) (hs : List ℕ) (m : List Entry) (i h : ℕ)
      → IsRooted m
      → IsChainFrom (some x) hs
      → contains_key x m ≡ false
      → get_elem? hs i ≡ some h
      → contains_key h m ≡ false
  absent_below x [] m i h r c absent e = cc
  absent_below x (y ∷ hs) m zero h r c absent e = ground (arith, parent_present m y x r c.0)
  absent_below x (y ∷ hs) m (suc i) h r c absent e =
      absent_below y hs m i h r c.1 (ground (arith, parent_present m y x r c.0)) e

  -- In a rooted map the blocks of a chain that are cached are its first ones.
  pub contains_key-count_present :
      (prev : Option ℕ) (hs : List ℕ) (m : List Entry) (i h : ℕ)
      → IsRooted m
      → IsChainFrom prev hs
      → get_elem? hs i ≡ some h
      → contains_key h m ≡ ltb i (count_present hs m)
  unfolding count_present
  contains_key-count_present prev [] m i h r c e = cc
  contains_key-count_present prev (x ∷ hs) m zero h r c e = ground arith
  contains_key-count_present prev (x ∷ hs) m (suc i) h r c e =
      ground
        (arith, absent_below x hs m i h r c.1, contains_key-count_present (some x) hs m i h r c.1 e)
