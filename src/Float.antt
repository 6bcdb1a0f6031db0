-- ===== src/Float.antt =====
-- The f64 values of the routing scores: a type with the operations that the scheduler uses, and the
-- laws of `<` that it relies on. (`<` on f64 is a strict partial order, NaN included.)
pub mod Integer
use dynamo_router.Base.{
  ℕ, zero, suc, ◌+◌, ◌-◌, ◌*◌, ◌/◌, ◌%◌, ◌^◌, ◌≤◌, ◌<◌, min, max, ◌≡◌, refl, sym, ap, ◌∙◌, subst,
  ◌≢◌, ◌↔◌, ◌⊎◌, inl, inr, Bool, true, false, not, ◌&&◌, ◌||◌, Option, none, some, List, [], ◌∷◌,
  ◌++◌, map, arith, dec_lt, ℕ_discrete, ltb, leb, ◌==◌, if◌then◌else◌, ltb→lt, lt→ltb, ge→ltb,
  ltb→ge, ==_iff, ==_refl, ==_ne, tests, Bool-cases, Option-cases, length, get_elem?, head?, ◌>>=◌,
  set, In, All, take, drop, take_of_length-le, length-take_of_le, length-append, length-set,
  get_elem?-set_self, get_elem?-set_ne, get_elem?-lt, get_elem?_of_lt, All-In, All-of_In,
  length-map,
}

pub record Float : Type 1 where
  pub F64 : Type 0
  -- `x as f64`
  pub of_usize : ℕ → F64
  pub mul : F64 → F64 → F64
  pub sub : F64 → F64 → F64
  pub lt : F64 → F64 → Bool
  -- `f64::MIN`
  pub lowest : F64

pub record IsOrder (fl : Float) : Type 0 where
  pub irrefl : (x : fl.F64) → fl.lt x x ≡ false
  pub trans : (x y z : fl.F64) → fl.lt x y ≡ true → fl.lt y z ≡ true → fl.lt x z ≡ true
