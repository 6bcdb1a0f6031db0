-- ===== src/Server/Discipline.antt =====
-- What a task may do with a place on a replica (crates/router/src/server.rs), whatever the replies.
use dynamo_router.Base.{ℕ, ◌<◌, ◌≡◌, Bool, true, false, Option, none, some, if◌then◌else◌, All}
use dynamo_router.Scheduler.{Picked, routed, refused}
use dynamo_router.Task.{
  Op, Reply, pick, complete, mark_unhealthy, first_healthy, apply_probes, set_inflight_gauge,
  call_infer, call_stream, call_metadata, probe_all, Task, ret, op, ◌>>=◌,
}

-- The replica on which a task holds a place.
abbrev pub Holding : Type 0
Holding = Option ℕ

abbrev pub after_pick : Picked → Holding
after_pick (routed d) = some d.replica
after_pick (refused e) = none

abbrev pub after : Holding → (o : Op) → Reply o → Holding
after h (pick hashes) r = after_pick r
after h (complete replica) r = none
after h o r = h

module _ (n : ℕ) where
  -- No second place is taken, only a held place is given back, and indices are in range.
  abbrev pub Allowed : Holding → Op → Type 0
  Allowed h (pick hashes) = h ≡ none
  Allowed h (complete replica) = (h ≡ some replica) × (replica < n)
  Allowed h (mark_unhealthy replica) = replica < n
  Allowed h (set_inflight_gauge replica value) = replica < n
  Allowed h (apply_probes results) = All (λ (p : ℕ × Bool). p.0 < n) results
  Allowed h (call_infer replica req) = replica < n
  Allowed h (call_stream replica req) = replica < n
  Allowed h (call_metadata replica req) = replica < n
  Allowed h o = Unit {0}

  abbrev pub InRangePick : Picked → Type 0
  InRangePick (routed d) = d.replica < n
  InRangePick (refused e) = Unit {0}

  abbrev pub InRangeIndex : Option ℕ → Type 0
  InRangeIndex none = Unit {0}
  InRangeIndex (some i) = i < n

  -- Replies name replicas that there are.
  abbrev pub Possible : (o : Op) → Reply o → Type 0
  Possible (pick hashes) r = InRangePick r
  Possible first_healthy r = InRangeIndex r
  Possible (probe_all m) r = All (λ (p : ℕ × Bool). p.0 < n) r
  Possible o r = Unit {0}

  -- A task that holds `h` is allowed all that it does, and ends as `Q` says.
  abbrev pub Runs : {A : Type 0} → (Holding → A → Type 0) → Holding → Task A → Type 0
  Runs Q h (ret a) = Q h a
  Runs Q h (op o k) = Allowed h o × ((r : Reply o) → Possible o r → Runs Q (after h o r) (k r))

  -- A task that ends with no place held.
  abbrev pub Balanced : {A : Type 0} → Holding → Task A → Type 0
  Balanced h t = Runs (λ h a. h ≡ none) h t

  pub bind-Runs :
      {A B : Type 0} (Q : Holding → B → Type 0) (f : A → Task B) (h : Holding) (t : Task A)
      → Runs (λ h a. Runs Q h (f a)) h t
      → Runs Q h (t >>= f)
  unfolding ◌>>=◌
  bind-Runs Q f h (ret a) runs = runs
  bind-Runs Q f h (op o k) runs = (runs.0, λ r p. bind-Runs Q f (after h o r) (k r) (runs.1 r p))

  pub Runs-mono :
      {A : Type 0} (Q R : Holding → A → Type 0) (h : Holding) (t : Task A)
      → ((h : Holding) (a : A) → Q h a → R h a)
      → Runs Q h t
      → Runs R h t
  Runs-mono Q R h (ret a) imp runs = imp h a runs
  Runs-mono Q R h (op o k) imp runs =
      (runs.0, λ r p. Runs-mono Q R (after h o r) (k r) imp (runs.1 r p))

  pub if-Runs :
      {A : Type 0} (Q : Holding → A → Type 0) (h : Holding) (b : Bool) (t u : Task A)
      → Runs Q h t
      → Runs Q h u
      → Runs Q h (if b then t else u)
  if-Runs Q h true t u rt ru = rt
  if-Runs Q h false t u rt ru = ru
