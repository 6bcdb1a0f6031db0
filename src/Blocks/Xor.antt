-- ===== src/Blocks/Xor.antt =====
-- Exclusive or of binary digits at every width: it cancels, and stays within the width.
use Prim.Native.Nat.{digits, differ, bit_xor, bit_xor-bitwise}
use native.Mathlib.Nat.{le_refl, pow-suc}
use dynamo_router.Base.{
  ℕ, zero, suc, ◌+◌, ◌*◌, ◌/◌, ◌%◌, ◌^◌, ◌≤◌, ◌<◌, ◌≡◌, refl, arith, ℕ_discrete,
}

-- The recursion on digits does not depend on its count of digits to go.
digits_spare :
    (n m a b : ℕ) → a ≤ n → a ≤ m → digits (λ y. y) differ n a b ≡ digits (λ y. y) differ m a b
digits_spare zero zero a b p q = refl
digits_spare zero (suc m) zero b p q = refl
digits_spare zero (suc m) (suc a) b p q = absurd (omega arith)
digits_spare (suc n) zero zero b p q = refl
digits_spare (suc n) zero (suc a) b p q = absurd (omega arith)
digits_spare (suc n) (suc m) zero b p q = refl
digits_spare (suc n) (suc m) (suc a) b p q =
    rw (digits_spare n m (suc a / 2) (b / 2) (omega arith) (omega arith))

differ_bits : (x y : ℕ) → x < 2 → y < 2 → differ x y ≡ (x + y) % 2
differ_bits zero y p q = omega arith
differ_bits (suc zero) zero p q = refl
differ_bits (suc zero) (suc zero) p q = refl
differ_bits (suc zero) (suc (suc y)) p q = absurd (omega arith)
differ_bits (suc (suc x)) y p q = absurd (omega arith)

-- One equation for the lowest digit.
pub bit_xor_step : (a b : ℕ) → bit_xor a b ≡ bit_xor (a / 2) (b / 2) * 2 + (a % 2 + b % 2) % 2
bit_xor_step zero b = simp bit_xor-bitwise (omega arith)
bit_xor_step (suc a) b = omega (
  arith,
  bit_xor-bitwise (suc a) b,
  bit_xor-bitwise (suc a / 2) (b / 2),
  digits_spare a (suc a / 2) (suc a / 2) (b / 2) (omega arith) (le_refl _),
  differ_bits (suc a % 2) (b % 2) (omega arith) (omega arith),
)

cancel_left : (n a b t : ℕ) → a + b ≤ n → bit_xor a t ≡ bit_xor b t → a ≡ b
cancel_left zero a b t le e = omega arith
cancel_left (suc n) a b t le e = elim (ℕ_discrete (a + b) 0) [
  | yes none_left ↦ omega arith
  | no more ↦ omega (
    arith,
    bit_xor_step a t,
    bit_xor_step b t,
    cancel_left n (a / 2) (b / 2) (t / 2) (omega arith)
        (omega (arith, bit_xor_step a t, bit_xor_step b t)),
  )
]

pub bit_xor_cancel_right : (a b t : ℕ) → bit_xor a t ≡ bit_xor b t → a ≡ b
bit_xor_cancel_right a b t e = cancel_left (a + b) a b t (omega arith) e

cancel_right : (n a t u : ℕ) → t + u ≤ n → bit_xor a t ≡ bit_xor a u → t ≡ u
cancel_right zero a t u le e = omega arith
cancel_right (suc n) a t u le e = elim (ℕ_discrete (t + u) 0) [
  | yes none_left ↦ omega arith
  | no more ↦ omega (
    arith,
    bit_xor_step a t,
    bit_xor_step a u,
    cancel_right n (a / 2) (t / 2) (u / 2) (omega arith)
        (omega (arith, bit_xor_step a t, bit_xor_step a u)),
  )
]

pub bit_xor_cancel_left : (a t u : ℕ) → bit_xor a t ≡ bit_xor a u → t ≡ u
bit_xor_cancel_left a t u e = cancel_right (t + u) a t u (omega arith) e

pub bit_xor-lt : (w a b : ℕ) → a < 2 ^ w → b < 2 ^ w → bit_xor a b < 2 ^ w
bit_xor-lt zero zero zero p q = omega arith
bit_xor-lt zero zero (suc b) p q = absurd (omega arith)
bit_xor-lt zero (suc a) b p q = absurd (omega arith)
bit_xor-lt (suc w) a b p q = omega (
  arith,
  bit_xor_step a b,
  pow-suc 2 w,
  bit_xor-lt w (a / 2) (b / 2) (omega (arith, pow-suc 2 w)) (omega (arith, pow-suc 2 w)),
)
