-- ===== src/Server/Fate.antt =====
-- What one step of the router (crates/router/src/server.rs) does to one of its tasks.
use dynamo_router.Base.{
  ℕ, zero, suc, ◌+◌, ◌≡◌, sym, ap, ◌∙◌, subst, ◌≢◌, inl, inr, none, some, List, [], ◌∷◌, ◌++◌,
  arith, ℕ_discrete, Option-cases, length, get_elem?, set, length-append, length-set,
  get_elem?-set_self, get_elem?-set_ne, get_elem?-lt,
}
use mathlib.Core.Option.{some-injective}
use dynamo_router.Float.{Float}
use dynamo_router.Rpc.{Packages}
use dynamo_router.Scheduler.Scan.{At}
use dynamo_router.Task.{Op, Reply, Task, ret, op}
use dynamo_router.Server.Shared.{RouterInner, World, effect}
use dynamo_router.Server.System.{
  Arrival, System, Move, arrives, runs, abandons, handler, resume, move,
}

At-append : {A : Type 0} (xs ys : List A) (k : ℕ) (x : A) → At xs k x → At (xs ++ ys) k x
At-append [] ys k x at = cc
At-append (y ∷ xs) ys zero x at = at
At-append (y ∷ xs) ys (suc k) x at = At-append xs ys k x at

set-At : {A : Type 0} (xs : List A) (k : ℕ) (x y : A) → At xs k x → At (set xs k y) k y
set-At xs k x y at = get_elem?-set_self xs k y (get_elem?-lt xs k x at)

set_ret :
    (tasks : List (Task (Unit {0}))) (i k : ℕ)
    → At tasks k (ret tt)
    → At (set tasks i (ret tt)) k (ret tt)
set_ret tasks i k at = elim (ℕ_discrete i k) [
  | yes same ↦
      subst (λ j. At (set tasks j (ret tt)) k (ret tt)) (sym same)
        (set-At tasks k (ret tt) (ret tt) at)
  | no other ↦ get_elem?-set_ne tasks i k (ret tt) other ∙ at
]

not_both :
    (tasks : List (Task (Unit {0}))) (i k : ℕ) (o : Op) (f : Reply o → Task (Unit {0}))
    → i ≡ k
    → At tasks i (op o f)
    → At tasks k (ret tt)
    → ⊥
not_both tasks i k o f same at done = cc

absent_not_At :
    (tasks : List (Task (Unit {0}))) (i k : ℕ) (t : Task (Unit {0}))
    → i ≡ k
    → get_elem? tasks i ≡ none
    → At tasks k t
    → ⊥
absent_not_At tasks i k t same gone at = cc

abbrev index : Move → ℕ
index (runs i w) = i
index (arrives a) = 0
index (abandons i) = 0

-- What is left of a task once it has performed its next operation.
abbrev HasGone : List (Task (Unit {0})) → ℕ → Task (Unit {0}) → Type 0
HasGone tasks k (ret a) = ⊥
HasGone tasks k (op o f) = (r : Reply o) × At tasks k (f r)

-- The tasks that an arrival adds.
abbrev pub added : Move → ℕ
added (arrives a) = 1
added (runs i w) = 0
added (abandons i) = 0

-- After a step that does not panic, a run of task `i` has changed the list of tasks there only, to
-- what its next operation leaves.
pub data Ran (tasks tasks' : List (Task (Unit {0}))) (i : ℕ) : Type 0 where
  absent : get_elem? tasks i ≡ none → tasks' ≡ tasks → Ran tasks tasks' i
  resting : At tasks i (ret tt) → tasks' ≡ set tasks i (ret tt) → Ran tasks tasks' i
  went :
      (o : Op) (f : Reply o → Task (Unit {0})) (r : Reply o)
      → At tasks i (op o f)
      → tasks' ≡ set tasks i (f r)
      → Ran tasks tasks' i

-- What may become of task `k` with operations left.
pub data Fate (m : Move) (k : ℕ) (o : Op) (f : Reply o → Task (Unit {0}))
    (tasks : List (Task (Unit {0}))) : Type 0 where
  waits : ((w : World) → m ≢ runs k w) → At tasks k (op o f) → Fate m k o f tasks
  goes : (r : Reply o) → At tasks k (f r) → Fate m k o f tasks
  stops : At tasks k (ret tt) → Fate m k o f tasks

module _ {fl : Float} (pkg : Packages) (n : ℕ) where
  run-none :
      (sys : System fl) (i : ℕ) (w : World)
      → get_elem? sys.tasks i ≡ none
      → move pkg n sys (runs i w) ≡ some sys
  unfolding move
  run-none sys i w gone = rw (move, gone)

  run-ret :
      (sys : System fl) (i : ℕ) (w : World)
      → At sys.tasks i (ret tt)
      → (move pkg n sys (runs i w)
          ≡ some (record { inner = sys.inner; tasks = set sys.tasks i (ret tt) }))
  unfolding move resume
  run-ret sys i w at = rw (move, at)

  run-op :
      (sys : System fl) (i : ℕ) (w : World) (o : Op) (f : Reply o → Task (Unit {0}))
      (inner : RouterInner fl) (r : Reply o)
      → At sys.tasks i (op o f)
      → effect w sys.inner o ≡ some (inner, r)
      → (move pkg n sys (runs i w) ≡ some (record { inner = inner; tasks = set sys.tasks i (f r) }))
  unfolding move resume
  run-op sys i w o f inner r at e = rw (move, at, resume, e)

  run-panic :
      (sys : System fl) (i : ℕ) (w : World) (o : Op) (f : Reply o → Task (Unit {0}))
      → At sys.tasks i (op o f)
      → effect w sys.inner o ≡ none
      → move pkg n sys (runs i w) ≡ none
  unfolding move resume
  run-panic sys i w o f at e = rw (move, at, resume, e)

  Ran-op :
      (sys sys' : System fl) (i : ℕ) (w : World) (o : Op) (f : Reply o → Task (Unit {0}))
      → At sys.tasks i (op o f)
      → move pkg n sys (runs i w) ≡ some sys'
      → Ran sys.tasks sys'.tasks i
  Ran-op sys sys' i w o f at e = elim (Option-cases (effect w sys.inner o)) [
    | inl panics ↦ absurd (cc (run-panic sys i w o f at panics))
    | inr ((inner, r), done) ↦ went o f r at (
        ap (λ (z : System fl). z.tasks)
          (some-injective _ _ (sym e ∙ run-op sys i w o f inner r at done)))
  ]

  pub ran :
      (sys sys' : System fl) (i : ℕ) (w : World)
      → move pkg n sys (runs i w) ≡ some sys'
      → Ran sys.tasks sys'.tasks i
  ran sys sys' i w e = elim (Option-cases (get_elem? sys.tasks i)) [
    | inl gone ↦
        absent gone
          (ap (λ (z : System fl). z.tasks) (some-injective _ _ (sym e ∙ run-none sys i w gone)))
    | inr (t, at) ↦ go t at
  ]
    where
      go : (t : Task (Unit {0})) → At sys.tasks i t → Ran sys.tasks sys'.tasks i
      go (ret a) at =
          resting at
            (ap (λ (z : System fl). z.tasks) (some-injective _ _ (sym e ∙ run-ret sys i w at)))
      go (op o f) at = Ran-op sys sys' i w o f at e

  arrived :
      (sys sys' : System fl) (a : Arrival)
      → move pkg n sys (arrives a) ≡ some sys'
      → sys'.tasks ≡ sys.tasks ++ handler pkg n a ∷ []
  unfolding move
  arrived sys sys' a e = ap (λ (z : System fl). z.tasks) (some-injective _ _ (sym e))

  abandoned :
      (sys sys' : System fl) (i : ℕ)
      → move pkg n sys (abandons i) ≡ some sys'
      → sys'.tasks ≡ set sys.tasks i (ret tt)
  unfolding move
  abandoned sys sys' i e = ap (λ (z : System fl). z.tasks) (some-injective _ _ (sym e))

  pub move-length :
      (sys sys' : System fl) (m : Move)
      → move pkg n sys m ≡ some sys'
      → length sys'.tasks ≡ length sys.tasks + added m
  move-length sys sys' (arrives a) e =
      ap length (arrived sys sys' a e) ∙ length-append sys.tasks (handler pkg n a ∷ [])
  move-length sys sys' (abandons i) e =
      omega (arith, ap length (abandoned sys sys' i e), length-set sys.tasks i (ret tt))
  move-length sys sys' (runs i w) e = elim (ran sys sys' i w e) [
    | absent gone same ↦ omega (arith, ap length same)
    | resting at same ↦ omega (arith, ap length same, length-set sys.tasks i (ret tt))
    | went o f r at same ↦ omega (arith, ap length same, length-set sys.tasks i (f r))
  ]

  -- A task that is done stays done.
  pub done-kept :
      (sys sys' : System fl) (m : Move) (k : ℕ)
      → move pkg n sys m ≡ some sys'
      → At sys.tasks k (ret tt)
      → At sys'.tasks k (ret tt)
  done-kept sys sys' (arrives a) k e at =
      ap (λ ts. get_elem? ts k) (arrived sys sys' a e) ∙ At-append sys.tasks _ k (ret tt) at
  done-kept sys sys' (abandons i) k e at =
      ap (λ ts. get_elem? ts k) (abandoned sys sys' i e) ∙ set_ret sys.tasks i k at
  done-kept sys sys' (runs i w) k e at = elim (ran sys sys' i w e) [
    | absent gone same ↦ ap (λ ts. get_elem? ts k) same ∙ at
    | resting at' same ↦ ap (λ ts. get_elem? ts k) same ∙ set_ret sys.tasks i k at
    | went o f r at' same ↦
        ap (λ ts. get_elem? ts k) same
        ∙ get_elem?-set_ne sys.tasks i k (f r) (λ ik. not_both sys.tasks i k o f ik at' at)
        ∙ at
  ]

  same_task :
      (sys sys' : System fl) (i k : ℕ) (o : Op) (f : Reply o → Task (Unit {0})) (o' : Op)
      (f' : Reply o' → Task (Unit {0})) (r : Reply o') (w : World)
      → At sys.tasks i (op o' f')
      → At sys.tasks k (op o f)
      → sys'.tasks ≡ set sys.tasks i (f' r)
      → Fate (runs i w) k o f sys'.tasks
  same_task sys sys' i k o f o' f' r w at' at e = elim (ℕ_discrete i k) [
    | yes same ↦
        let there =
          ap (λ ts. get_elem? ts k) e
          ∙ subst (λ j. At (set sys.tasks j (f' r)) k (f' r)) (sym same)
              (set-At sys.tasks k (op o f) (f' r) at) in
        let (q, left) =
          subst (HasGone sys'.tasks k)
            (some-injective _ _ (sym at' ∙ ap (get_elem? sys.tasks) same ∙ at)) (r, there) in
        goes q left
    | no other ↦
        waits (λ v e. other (ap index e))
          (ap (λ ts. get_elem? ts k) e ∙ get_elem?-set_ne sys.tasks i k (f' r) other ∙ at)
  ]

  pub move-Fate :
      (sys sys' : System fl) (m : Move) (k : ℕ) (o : Op) (f : Reply o → Task (Unit {0}))
      → move pkg n sys m ≡ some sys'
      → At sys.tasks k (op o f)
      → Fate m k o f sys'.tasks
  move-Fate sys sys' (arrives a) k o f e at =
      waits (λ w. cc)
        (ap (λ ts. get_elem? ts k) (arrived sys sys' a e) ∙ At-append sys.tasks _ k (op o f) at)
  move-Fate sys sys' (abandons i) k o f e at = elim (ℕ_discrete i k) [
    | yes same ↦ stops (
        ap (λ ts. get_elem? ts k) (abandoned sys sys' i e)
        ∙ subst (λ j. At (set sys.tasks j (ret tt)) k (ret tt)) (sym same)
            (set-At sys.tasks k (op o f) (ret tt) at))
    | no other ↦
        waits (λ w. cc)
          (ap (λ ts. get_elem? ts k) (abandoned sys sys' i e)
            ∙ get_elem?-set_ne sys.tasks i k (ret tt) other
            ∙ at)
  ]
  move-Fate sys sys' (runs i w) k o f e at = elim (ran sys sys' i w e) [
    | absent gone same ↦
        waits (λ v e. absent_not_At sys.tasks i k (op o f) (ap index e) gone at)
          (ap (λ ts. get_elem? ts k) same ∙ at)
    | resting at' same ↦
        let other : i ≢ k = λ ik. not_both sys.tasks k i o f (sym ik) at at' in
        waits (λ v e. other (ap index e))
          (ap (λ ts. get_elem? ts k) same ∙ get_elem?-set_ne sys.tasks i k (ret tt) other ∙ at)
    | went o' f' r at' same ↦ same_task sys sys' i k o f o' f' r w at' at same
  ]
