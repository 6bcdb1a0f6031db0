-- ===== src/Lru/Evict.antt =====
-- The eviction loop ends within its bound, and leaves what the abstract view says.
use dynamo_router.Base.{
  ℕ, zero, suc, ◌+◌, ◌≤◌, ◌<◌, min, ◌≡◌, sym, ◌∙◌, ◌≢◌, inl, inr, none, some, List, [], ◌∷◌, arith,
  ltb, if◌then◌else◌, ltb→lt, ltb→ge, ==_refl, tests, Bool-cases, Option-cases, length, In,
}
use dynamo_router.Lru.{Entry, Tables, get, pop, is_live, discard, evict_loop, evict_to}
use dynamo_router.Lru.BlockMap.{length-remove, get_of_In}
use dynamo_router.Lru.Heap.{Top, pop-Top}
use dynamo_router.Lru.Invariant.{IsSound, discard-IsSound, get_of_is_live}
use dynamo_router.Lru.Ideal.{ideal_get, ideal_get-remove, ideal_get_within}

length-pos_of_In : (b : Entry) (xs : List Entry) → In b xs → 0 < length xs
length-pos_of_In b [] i = elim i [ ]
length-pos_of_In b (x ∷ xs) i = omega arith

-- While a block is left, so is a candidate: the loop never gives up above its budget.
heap_pos :
    (m heap : List Entry)
    → ((h : ℕ) (b : Entry) → get h m ≡ some b → In b heap)
    → 0 < length m
    → 0 < length heap
unfolding get
heap_pos [] heap covered pos = elim pos [ ]
heap_pos (b ∷ m) heap covered pos = length-pos_of_In b heap (covered b.hash b (rw (==_refl b.hash)))

pop-ne-none : (xs : List Entry) → 0 < length xs → pop xs ≢ none
unfolding pop
pop-ne-none [] h = elim h [ ]
pop-ne-none (x ∷ xs) h = λ e. cc

-- A popped candidate takes one block away, or none if it is stale.
discard-length :
    (t : Tables) (e : Entry) (rest : List Entry)
    → length (discard t (e, rest)).map + (if is_live e t.map then 1 else 0) ≡ length t.map
unfolding discard
discard-length t e rest = ground (arith, length-remove e.hash t.map e, get_of_is_live e t.map)

discard-heap :
    (t : Tables) (e : Entry) (rest : List Entry) → length (discard t (e, rest)).heap ≡ length rest
unfolding discard
discard-heap t e rest = ground arith

discard-ideal_get :
    (budget h : ℕ) (t : Tables) (e : Entry) (rest : List Entry)
    → IsSound t
    → budget < length t.map
    → pop t.heap ≡ some (e, rest)
    → ideal_get budget h (discard t (e, rest)).map ≡ ideal_get budget h t.map
unfolding discard
discard-ideal_get budget h t e rest s over p = elim (Bool-cases (is_live e t.map)) [
  | inr stale ↦ rw stale
  | inl live ↦ rw live (
      ideal_get-remove budget h e t.map s.distinct (get_of_is_live e t.map live)
        (λ x i. top.first x (s.covered x.hash x (get_of_In t.map x s.distinct i))) over)
]
  where
    top : Top t.heap e rest
    top = pop-Top t.heap e rest p

-- The loop makes no more rounds than the heap has entries.
pub evict_loop-get :
    (fuel budget h : ℕ) (t : Tables)
    → IsSound t
    → length t.heap ≤ fuel
    → get h (evict_loop fuel budget t).map ≡ ideal_get budget h t.map
unfolding evict_loop
evict_loop-get zero budget h t s le =
    sym (ideal_get_within budget h t.map (ground (arith, heap_pos t.map t.heap s.covered)))
evict_loop-get (suc fuel) budget h t s le = elim (Bool-cases (ltb budget (length t.map))) [
  | inr fits ↦ rw (fits, evict_loop) (sym (ideal_get_within budget h t.map (ltb→ge _ _ fits)))
  | inl over ↦ elim (Option-cases (pop t.heap)) [
    | inl empty ↦ absurd (
        pop-ne-none t.heap (heap_pos t.map t.heap s.covered (omega (tests, ltb→lt _ _ over))) empty)
    | inr ((e, rest), popped) ↦
        rw (over, popped, evict_loop)
          (evict_loop-get fuel budget h (discard t (e, rest)) (discard-IsSound t e rest popped s)
              (omega (arith, discard-heap t e rest, (pop-Top t.heap e rest popped).size))
            ∙ discard-ideal_get budget h t e rest s (ltb→lt _ _ over) popped)
  ]
]

-- The loop stops at the budget, and takes no block below it.
pub evict_loop-length :
    (fuel budget : ℕ) (t : Tables)
    → IsSound t
    → length t.heap ≤ fuel
    → length (evict_loop fuel budget t).map ≡ min (length t.map) budget
unfolding evict_loop
evict_loop-length zero budget t s le = ground (arith, heap_pos t.map t.heap s.covered)
evict_loop-length (suc fuel) budget t s le = elim (Bool-cases (ltb budget (length t.map))) [
  | inr fits ↦ rw (fits, evict_loop) (omega (tests, ltb→ge _ _ fits))
  | inl over ↦ elim (Option-cases (pop t.heap)) [
    | inl empty ↦ absurd (
        pop-ne-none t.heap (heap_pos t.map t.heap s.covered (omega (tests, ltb→lt _ _ over))) empty)
    | inr ((e, rest), popped) ↦
        rw (over, popped, evict_loop)
          (ground (
            arith,
            ltb→lt _ _ over,
            discard-length t e rest,
            discard-heap t e rest,
            (pop-Top t.heap e rest popped).size,
            evict_loop-length fuel budget (discard t (e, rest)) (discard-IsSound t e rest popped s),
          ))
  ]
]

module _ (budget : ℕ) (t : Tables) (s : IsSound t) where
  pub get-evict_to : (h : ℕ) → get h (evict_to budget t).map ≡ ideal_get budget h t.map
  unfolding evict_to
  get-evict_to h = evict_loop-get (length t.heap) budget h t s (omega arith)

  pub length-evict_to : length (evict_to budget t).map ≡ min (length t.map) budget
  unfolding evict_to
  length-evict_to = evict_loop-length (length t.heap) budget t s (omega arith)
