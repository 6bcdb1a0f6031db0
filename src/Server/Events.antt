-- ===== src/Server/Events.antt =====
-- What the tasks of a router did over a run, and the places that were taken and given back.
use dynamo_router.Base.{
  ℕ, ◌+◌, ◌-◌, ◌≤◌, ◌≡◌, subst, none, some, List, [], ◌∷◌, ◌++◌, arith, get_elem?,
}
use dynamo_router.Float.{Float}
use dynamo_router.Rpc.{Packages}
use dynamo_router.Scheduler.{Scheduler}
use dynamo_router.Task.{Task, ret, op}
use dynamo_router.Task.Trace.{Event, did}
use dynamo_router.Server.Shared.{RouterInner, World, effect}
use dynamo_router.Server.System.{System, Move, arrives, runs, abandons, move}
use dynamo_router.Server.Discipline.{Holding}
use dynamo_router.Server.Load.{count}
use dynamo_router.Server.Exact.{taken, given, moved, Exact, Exact-mono}

module _ {fl : Float} where
  unfoldable pub event_of : World → RouterInner fl → Task (Unit {0}) → List Event
  event_of w inner (ret a) = []
  event_of w inner (op o k) = elim (effect w inner o) [
    | none ↦ []
    | some (inner', r) ↦ did o r ∷ []
  ]

  -- The event of a move, if it has one.
  unfoldable pub events_of : System fl → Move → List Event
  unfolding event_of
  events_of sys (arrives a) = []
  events_of sys (abandons i) = []
  events_of sys (runs i w) = elim (get_elem? sys.tasks i) [
    | none ↦ []
    | some t ↦ event_of w sys.inner t
  ]

  unfoldable pub events : Packages → ℕ → System fl → List Move → List Event
  events pkg n sys [] = []
  events pkg n sys (m ∷ ms) = elim (move pkg n sys m) [
    | none ↦ []
    | some sys' ↦ events_of sys m ++ events pkg n sys' ms
  ]

-- The places on replica `i` that were taken in all, and given back in all.
abbrev pub taken_all : List Event → ℕ → ℕ
taken_all [] i = 0
taken_all (e ∷ es) i = taken e i + taken_all es i

abbrev pub given_all : List Event → ℕ → ℕ
given_all [] i = 0
given_all (e ∷ es) i = given e i + given_all es i

pub taken_all-append :
    (es es' : List Event) (i : ℕ) → taken_all (es ++ es') i ≡ taken_all es i + taken_all es' i
taken_all-append [] es' i = omega arith
taken_all-append (e ∷ es) es' i = omega (arith, taken_all-append es es' i)

pub given_all-append :
    (es es' : List Event) (i : ℕ) → given_all (es ++ es') i ≡ given_all es i + given_all es' i
given_all-append [] es' i = omega arith
given_all-append (e ∷ es) es' i = omega (arith, given_all-append es es' i)

-- The counts are what was taken less what was given back, and cover the places that are held.
pub record IsLedger {fl : Float} (hs : List Holding) (s : Scheduler fl) (t g : ℕ → ℕ) : Type 0 where
  pub covered : (i : ℕ) → count hs i + g i ≤ t i
  pub exact : Exact s (λ i. t i - g i)

module _ {fl : Float} (hs hs' : List Holding) (s s' : Scheduler fl) (t g : ℕ → ℕ) where
  -- A step with the events `es`.
  abbrev pub IsLedgerAfter : List Event → Type 0
  IsLedgerAfter es = IsLedger hs' s' (λ i. t i + taken_all es i) (λ i. g i + given_all es i)

  pub IsLedger-still :
      ((i : ℕ) → count hs' i ≤ count hs i) → s ≡ s' → IsLedger hs s t g → IsLedgerAfter []
  IsLedger-still le same l = record {
    covered = λ i. omega (arith, le i, l.covered i);
    exact =
        subst (λ z. Exact z (λ i. t i + 0 - (g i + 0))) same
          (Exact-mono s (λ i. t i - g i) _ (λ i. omega arith) l.exact);
  }

  pub IsLedger-step :
      (e : Event)
      → ((i : ℕ) → count hs' i + given e i ≤ count hs i + taken e i)
      → Exact s' (moved (λ i. t i - g i) e)
      → IsLedger hs s t g
      → IsLedgerAfter (e ∷ [])
  IsLedger-step e le exact l = record {
    covered = λ i. omega (arith, le i, l.covered i);
    exact = Exact-mono s' (moved (λ i. t i - g i) e) _ (λ i. omega (arith, l.covered i)) exact;
  }

pub IsLedger-append :
    {fl : Float} (hs hs' : List Holding) (s s' : Scheduler fl) (t g : ℕ → ℕ) (es es' : List Event)
    → IsLedgerAfter hs hs' s s' (λ i. t i + taken_all es i) (λ i. g i + given_all es i) es'
    → IsLedgerAfter hs hs' s s' t g (es ++ es')
IsLedger-append hs hs' s s' t g es es' l = record {
  covered = λ i. omega (arith, taken_all-append es es' i, given_all-append es es' i, l.covered i);
  exact =
      Exact-mono s' _ _ (λ i. omega (arith, taken_all-append es es' i, given_all-append es es' i))
        l.exact;
}
