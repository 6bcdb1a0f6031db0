-- ===== src/Lru/Invariant.antt =====
-- The well-formedness of the tables, kept by each loop over them.
use dynamo_router.Base.{
  ℕ, zero, suc, ◌*◌, ◌≤◌, max, ◌≡◌, refl, ◌≢◌, inl, inr, true, false, some, List, [], ◌∷◌, arith,
  ltb, Bool-cases, Option-cases, length, In,
}
use dynamo_router.Lru.{
  Entry, Tables, get, pop, is_live, touch_block, touch_all, compact_if_bloated, discard, evict_loop,
  evict_to,
}
use dynamo_router.Lru.BlockMap.{
  Distinct, hash-get, In-get, get-insert, get-remove, insert-Distinct, remove-Distinct,
}
use dynamo_router.Lru.Heap.{Top, pop-Top}

-- Every block of the map has its current entry in the heap, and no block is from the future.
pub record IsSound (t : Tables) : Type 0 where
  pub distinct : Distinct t.map
  pub covered : (h : ℕ) (b : Entry) → get h t.map ≡ some b → In b t.heap
  pub timely : (h : ℕ) (b : Entry) → get h t.map ≡ some b → b.access ≤ t.clock
  pub counted : (h : ℕ) (b : Entry) → get h t.map ≡ some b → b.seq ≤ t.seq

pub touch_block-IsSound :
    (access : ℕ) (t : Tables) (h : ℕ)
    → access ≤ t.clock
    → IsSound t
    → IsSound (touch_block access t h)
unfolding touch_block
touch_block-IsSound access t h le s = record {
  distinct = insert-Distinct _ t.map s.distinct;
  covered = λ k b g. grind (arith, get-insert, s.covered k b);
  timely = λ k b g. grind (arith, get-insert, s.timely k b);
  counted = λ k b g. grind (arith, get-insert, s.counted k b);
}

touch_block-clock : (access : ℕ) (t : Tables) (h : ℕ) → (touch_block access t h).clock ≡ t.clock
unfolding touch_block
touch_block-clock access t h = refl

pub touch_all-IsSound :
    (access : ℕ) (hs : List ℕ) (t : Tables)
    → access ≤ t.clock
    → IsSound t
    → IsSound (touch_all access hs t)
unfolding touch_all
touch_all-IsSound access [] t le s = s
touch_all-IsSound access (h ∷ hs) t le s =
    touch_all-IsSound access hs (touch_block access t h)
      (omega (arith, touch_block-clock access t h)) (touch_block-IsSound access t h le s)

pub compact_if_bloated-IsSound : (t : Tables) → IsSound t → IsSound (compact_if_bloated t)
unfolding compact_if_bloated
compact_if_bloated-IsSound t s =
    elim (Bool-cases (ltb (2 * max (length t.map) 1024) (length t.heap))) [
      | inl bloated ↦ rw bloated (record {
        distinct = s.distinct;
        covered = λ k b g. In-get k t.map b g;
        timely = s.timely;
        counted = s.counted;
      })
      | inr fits ↦ rw fits s
    ]

pub get_of_is_live : (e : Entry) (m : List Entry) → is_live e m ≡ true → get e.hash m ≡ some e
unfolding is_live
get_of_is_live e m h = elim (Option-cases (get e.hash m)) [
  | inl absent ↦ ground arith
  | inr (b, found) ↦ ground (arith, hash-get e.hash m b found)
]

pub get-ne_of_stale : (e : Entry) (m : List Entry) → is_live e m ≡ false → get e.hash m ≢ some e
unfolding is_live
get-ne_of_stale e m h found = ground arith

pub discard-IsSound :
    (t : Tables) (e : Entry) (rest : List Entry)
    → pop t.heap ≡ some (e, rest)
    → IsSound t
    → IsSound (discard t (e, rest))
unfolding discard
discard-IsSound t e rest p s = elim (Bool-cases (is_live e t.map)) [
  | inl live ↦ rw live (record {
    distinct = remove-Distinct e.hash t.map s.distinct;
    covered = λ k b g. grind (
      arith,
      get-remove e.hash k t.map s.distinct,
      s.covered k b,
      top.keeps b,
      hash-get k t.map b,
    );
    timely = λ k b g. grind (arith, get-remove e.hash k t.map s.distinct, s.timely k b);
    counted = λ k b g. grind (arith, get-remove e.hash k t.map s.distinct, s.counted k b);
  })
  | inr stale ↦ rw stale (record {
    distinct = s.distinct;
    covered = λ k b g.
        grind (
          arith,
          s.covered k b g,
          top.keeps b,
          hash-get k t.map b g,
          get-ne_of_stale e t.map stale,
        );
    timely = s.timely;
    counted = s.counted;
  })
]
  where
    top : Top t.heap e rest
    top = pop-Top t.heap e rest p

pub evict_loop-IsSound :
    (fuel budget : ℕ) (t : Tables) → IsSound t → IsSound (evict_loop fuel budget t)
unfolding evict_loop
evict_loop-IsSound zero budget t s = s
evict_loop-IsSound (suc fuel) budget t s = elim (Bool-cases (ltb budget (length t.map))) [
  | inr fits ↦ rw (fits, evict_loop) s
  | inl over ↦ elim (Option-cases (pop t.heap)) [
    | inl empty ↦ rw (over, empty, evict_loop) s
    | inr ((e, rest), popped) ↦
        rw (over, popped, evict_loop)
          (evict_loop-IsSound fuel budget (discard t (e, rest)) (discard-IsSound t e rest popped s))
  ]
]

pub evict_to-IsSound : (budget : ℕ) (t : Tables) → IsSound t → IsSound (evict_to budget t)
unfolding evict_to
evict_to-IsSound budget t s = evict_loop-IsSound (length t.heap) budget t s
