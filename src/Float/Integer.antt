-- ===== src/Float/Integer.antt =====
-- Whole numbers as scores: with whole weights (the defaults are 1.0 and 2.0) and counts below 2 ^ 52
-- every f64 score is a whole number, and is computed exactly.
use dynamo_router.Base.{
  ℕ, suc, ◌+◌, ◌-◌, ◌*◌, ◌^◌, ◌≡◌, Bool, true, false, arith, ltb, leb, if◌then◌else◌,
}
use dynamo_router.Float.{Float, IsOrder}

-- `negsuc n` is -(n + 1).
pub data ℤ : Type 0 where
  pos : ℕ → ℤ
  negsuc : ℕ → ℤ

abbrev pub pos_part : ℤ → ℕ
pos_part (pos n) = n
pos_part (negsuc n) = 0

abbrev pub neg_part : ℤ → ℕ
neg_part (pos n) = 0
neg_part (negsuc n) = suc n

-- a - b, as an integer.
abbrev pub sub_ℕ : ℕ → ℕ → ℤ
sub_ℕ a b = if leb b a then pos (a - b) else negsuc (b - a - 1)

infixl 65 ◌-ℤ◌ ◌+ℤ◌
infixl 70 ◌*ℤ◌
abbrev pub ◌-ℤ◌ : ℤ → ℤ → ℤ
a -ℤ b = sub_ℕ (pos_part a + neg_part b) (neg_part a + pos_part b)

abbrev pub ◌+ℤ◌ : ℤ → ℤ → ℤ
a +ℤ b = sub_ℕ (pos_part a + pos_part b) (neg_part a + neg_part b)

abbrev pub ◌*ℤ◌ : ℤ → ℤ → ℤ
a *ℤ b =
    sub_ℕ (pos_part a * pos_part b + neg_part a * neg_part b)
      (pos_part a * neg_part b + neg_part a * pos_part b)

abbrev pub lt_ℤ : ℤ → ℤ → Bool
lt_ℤ a b = ltb (pos_part a + neg_part b) (pos_part b + neg_part a)

abbrev pub integers : Float
integers = record {
  F64 = ℤ;
  of_usize = pos;
  mul = ◌*ℤ◌;
  sub = ◌-ℤ◌;
  lt = lt_ℤ;
  lowest = negsuc (2 ^ 1024);
}

lt_ℤ_irrefl : (x : ℤ) → lt_ℤ x x ≡ false
lt_ℤ_irrefl x = ground arith

lt_ℤ_trans : (x y z : ℤ) → lt_ℤ x y ≡ true → lt_ℤ y z ≡ true → lt_ℤ x z ≡ true
lt_ℤ_trans x y z p q = ground arith

pub integers-IsOrder : IsOrder integers
integers-IsOrder = record { irrefl = lt_ℤ_irrefl; trans = lt_ℤ_trans }
