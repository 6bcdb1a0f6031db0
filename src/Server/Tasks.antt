-- ===== src/Server/Tasks.antt =====
-- The tasks that are under way in the router (crates/router/src/server.rs), each with the place that
-- it holds.
use dynamo_router.Base.{
  ℕ, zero, suc, ◌+◌, ◌≤◌, refl, ap, subst, none, some, List, [], ◌∷◌, ◌++◌, arith, set,
}
use mathlib.Core.Option.{some-injective}
use dynamo_router.Scheduler.Scan.{At}
use dynamo_router.Task.{Task, ret, op}
use dynamo_router.Server.Discipline.{Holding, Balanced}
use dynamo_router.Server.Load.{held, count}

-- Each task is balanced with what it holds.
abbrev pub Tasks : ℕ → List Holding → List (Task (Unit {0})) → Type 0
Tasks n [] [] = Unit {0}
Tasks n [] (t ∷ tasks) = ⊥
Tasks n (h ∷ hs) [] = ⊥
Tasks n (h ∷ hs) (t ∷ tasks) = Balanced n h t × Tasks n hs tasks

-- The tasks that are not done.
abbrev pub unfinished : List (Task (Unit {0})) → ℕ
unfinished [] = 0
unfinished (ret a ∷ tasks) = unfinished tasks
unfinished (op o k ∷ tasks) = 1 + unfinished tasks

held_le : (h : Holding) (i : ℕ) → held h i ≤ 1
held_le none i = omega arith
held_le (some j) i = ground arith

module _ (n : ℕ) where
  pub count_le_unfinished :
      (hs : List Holding) (tasks : List (Task (Unit {0}))) (i : ℕ)
      → Tasks n hs tasks
      → count hs i ≤ unfinished tasks
  count_le_unfinished [] [] i all = omega arith
  count_le_unfinished [] (u ∷ tasks) i all = elim all [ ]
  count_le_unfinished (h ∷ hs) [] i all = elim all [ ]
  count_le_unfinished (h ∷ hs) (ret a ∷ tasks) i (b, all) =
      omega (arith, count_le_unfinished hs tasks i all, ap (λ x. held x i) b)
  count_le_unfinished (h ∷ hs) (op o k ∷ tasks) i (b, all) =
      omega (arith, count_le_unfinished hs tasks i all, held_le h i)

  pub held_le_count :
      (hs : List Holding) (k : ℕ) (h : Holding) (i : ℕ) → At hs k h → held h i ≤ count hs i
  held_le_count [] k h i at = cc
  held_le_count (g ∷ hs) zero h i at = omega (arith, ap (λ x. held x i) (some-injective _ _ at))
  held_le_count (g ∷ hs) (suc k) h i at = omega (arith, held_le_count hs k h i at)

  pub Tasks-append :
      (hs : List Holding) (tasks : List (Task (Unit {0}))) (t : Task (Unit {0}))
      → Balanced n none t
      → Tasks n hs tasks
      → Tasks n (hs ++ none ∷ []) (tasks ++ t ∷ [])
  Tasks-append [] [] t b all = (b, tt)
  Tasks-append [] (u ∷ tasks) t b all = elim all [ ]
  Tasks-append (h ∷ hs) [] t b all = elim all [ ]
  Tasks-append (h ∷ hs) (u ∷ tasks) t b (bu, all) = (bu, Tasks-append hs tasks t b all)

  pub Tasks-At :
      (hs : List Holding) (tasks : List (Task (Unit {0}))) (k : ℕ) (t : Task (Unit {0}))
      → At tasks k t
      → Tasks n hs tasks
      → (h : Holding) × At hs k h × Balanced n h t
  Tasks-At [] [] k t at all = cc
  Tasks-At [] (u ∷ tasks) k t at all = elim all [ ]
  Tasks-At (h ∷ hs) [] k t at all = elim all [ ]
  Tasks-At (h ∷ hs) (u ∷ tasks) zero t at (b, all) =
      (h, refl, subst (Balanced n h) (some-injective _ _ at) b)
  Tasks-At (h ∷ hs) (u ∷ tasks) (suc k) t at (b, all) = Tasks-At hs tasks k t at all

  pub Tasks-set :
      (hs : List Holding) (tasks : List (Task (Unit {0}))) (k : ℕ) (h : Holding)
      (t : Task (Unit {0}))
      → Balanced n h t
      → Tasks n hs tasks
      → Tasks n (set hs k h) (set tasks k t)
  Tasks-set [] [] k h t b all = tt
  Tasks-set [] (u ∷ tasks) k h t b all = elim all [ ]
  Tasks-set (g ∷ hs) [] k h t b all = elim all [ ]
  Tasks-set (g ∷ hs) (u ∷ tasks) zero h t b (bu, all) = (b, all)
  Tasks-set (g ∷ hs) (u ∷ tasks) (suc k) h t b (bu, all) = (bu, Tasks-set hs tasks k h t b all)
