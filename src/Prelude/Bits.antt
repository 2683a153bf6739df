-- ===== src/Prelude/Bits.antt =====
-- Laws of the native bit operations at every width, from the digit recursion that they stand for.
use Prim.Native.Nat.{ℕ, zero, suc, ◌+◌, ◌*◌, ◌/◌, ◌%◌, ◌^◌, ◌≤◌, ◌<◌, min, digits, differ}
use Prim.Native.Nat.{bit_and, bit_xor, bit_and-bitwise, bit_xor-bitwise}
use mathlib.Core.Path.{◌≡◌, refl, ap, sym, ◌∙◌}
use mathlib.Core.Logic.{◌⊎◌, inl, inr}
use native.Mathlib.Nat.{pow-suc}
use native.Mathlib.Omega.{arith}

-- An operation that `digits` describes, with `z` for a left operand of no digits and `f` for a
-- pair of digits, determines its result digit by digit.
module _ (z : ℕ → ℕ) (f : ℕ → ℕ → ℕ) where
  one_more_fuel : (n a b : ℕ) → a ≤ n → digits z f (suc n) a b ≡ digits z f n a b
  one_more_fuel zero zero b h = refl
  one_more_fuel (suc n) zero b h = refl
  one_more_fuel zero (suc a) b h = absurd (omega arith)
  one_more_fuel (suc n) (suc a) b h =
      omega (arith, one_more_fuel n (suc a / 2) (b / 2) (omega arith))

  more_fuel : (n a b : ℕ) → a ≤ n → digits z f n a b ≡ digits z f a a b
  more_fuel zero a b h = ap (λ k. digits z f k a b) no_digits
    where
      no_digits : 0 ≡ a
      no_digits = omega arith
  more_fuel (suc n) a b h = elim all_or_fewer [
    | inl all ↦ ap (λ k. digits z f k a b) all
    | inr fewer ↦ one_more_fuel n a b fewer ∙ more_fuel n a b fewer
  ]
    where
      all_or_fewer : (suc n ≡ a) ⊎ (a ≤ n)
      all_or_fewer = omega arith

  module _ (op : ℕ → ℕ → ℕ) (op-digits : (a b : ℕ) → op a b ≡ digits z f a a b)
      (z_step : (b : ℕ) → z b ≡ z (b / 2) * 2 + f 0 (b % 2)) where
    op_step : (a b : ℕ) → op a b ≡ op (a / 2) (b / 2) * 2 + f (a % 2) (b % 2)
    op_step zero b = omega (arith, op-digits 0 b, op-digits 0 (b / 2), z_step b)
    op_step (suc a) b = omega (
      arith,
      op-digits (suc a) b,
      op-digits (suc a / 2) (b / 2),
      more_fuel a (suc a / 2) (b / 2) (omega arith),
    )

differ-zero : (b : ℕ) → differ 0 b ≡ b
differ-zero b = refl

pub bit_xor-eq : (a b : ℕ) → bit_xor a b ≡ bit_xor (a / 2) (b / 2) * 2 + differ (a % 2) (b % 2)
bit_xor-eq =
    op_step (λ b. b) differ bit_xor bit_xor-bitwise (λ b. omega (arith, differ-zero (b % 2)))

pub bit_and-eq : (a b : ℕ) → bit_and a b ≡ bit_and (a / 2) (b / 2) * 2 + min (a % 2) (b % 2)
bit_and-eq = op_step (λ b. 0) min bit_and bit_and-bitwise (λ b. omega arith)

pub zero-bit_xor : (b : ℕ) → bit_xor 0 b ≡ b
zero-bit_xor = bit_xor-bitwise 0

zero-bit_and : (b : ℕ) → bit_and 0 b ≡ 0
zero-bit_and = bit_and-bitwise 0

-- The two values of a lowest digit.
digit-cases : (a : ℕ) → (a % 2 ≡ 0) ⊎ (a % 2 ≡ 1)
digit-cases a = omega arith

differ_twice : (a b : ℕ) → differ (a % 2) (differ (a % 2) (b % 2)) ≡ b % 2
differ_twice a b = ground (arith, digit-cases a, digit-cases b)

differ-lt-two : (a b : ℕ) → differ (a % 2) (b % 2) < 2
differ-lt-two a b = ground (arith, digit-cases a, digit-cases b)

differ_comm : (a b : ℕ) → differ (a % 2) (b % 2) ≡ differ (b % 2) (a % 2)
differ_comm a b = ground (arith, digit-cases a, digit-cases b)

bit_xor-half : (a b : ℕ) → bit_xor a b / 2 ≡ bit_xor (a / 2) (b / 2)
bit_xor-half a b = omega (arith, bit_xor-eq a b, differ-lt-two a b)

bit_xor-parity : (a b : ℕ) → bit_xor a b % 2 ≡ differ (a % 2) (b % 2)
bit_xor-parity a b = omega (arith, bit_xor-eq a b, differ-lt-two a b)

bit_xor_twice_fuel : (n a b : ℕ) → a ≤ n → bit_xor a (bit_xor a b) ≡ b
bit_xor_twice_fuel n zero b h = zero-bit_xor _ ∙ zero-bit_xor b
bit_xor_twice_fuel zero (suc a) b h = absurd (omega arith)
bit_xor_twice_fuel (suc n) (suc a) b h =
    bit_xor-eq (suc a) (bit_xor (suc a) b)
    ∙ two_mul_add_cong
        (ap (bit_xor (suc a / 2)) (bit_xor-half (suc a) b)
          ∙ bit_xor_twice_fuel n (suc a / 2) (b / 2) (omega arith))
        (ap (differ (suc a % 2)) (bit_xor-parity (suc a) b) ∙ differ_twice (suc a) b)
    ∙ omega arith
  where
    two_mul_add_cong : {q r u v : ℕ} → q ≡ u → r ≡ v → q * 2 + r ≡ u * 2 + v
    two_mul_add_cong p e = omega arith

-- An exclusive or undoes itself.
pub bit_xor_twice : (a b : ℕ) → bit_xor a (bit_xor a b) ≡ b
bit_xor_twice a b = bit_xor_twice_fuel a a b (omega arith)

bit_xor_comm_fuel : (n a b : ℕ) → a ≤ n → b ≤ n → bit_xor a b ≡ bit_xor b a
bit_xor_comm_fuel zero a b h k = both_zero (omega arith) (omega arith)
  where
    both_zero : a ≡ 0 → b ≡ 0 → bit_xor a b ≡ bit_xor b a
    both_zero p q = cc
bit_xor_comm_fuel (suc n) a b h k = omega (
  arith,
  bit_xor-eq a b,
  bit_xor-eq b a,
  differ_comm a b,
  bit_xor_comm_fuel n (a / 2) (b / 2) (omega arith) (omega arith),
)

pub bit_xor_comm : (a b : ℕ) → bit_xor a b ≡ bit_xor b a
bit_xor_comm a b = bit_xor_comm_fuel (a + b) a b (omega arith) (omega arith)

pub bit_xor_left_injective : (a b c : ℕ) → bit_xor a b ≡ bit_xor a c → b ≡ c
bit_xor_left_injective a b c h = sym (bit_xor_twice a b) ∙ ap (bit_xor a) h ∙ bit_xor_twice a c

pub bit_xor_right_injective : (a b c : ℕ) → bit_xor a c ≡ bit_xor b c → a ≡ b
bit_xor_right_injective a b c h =
    bit_xor_left_injective c a b (bit_xor_comm c a ∙ h ∙ bit_xor_comm b c)

-- A width bounds the result where it bounds both operands.
pub bit_xor-lt : (k a b : ℕ) → a < 2 ^ k → b < 2 ^ k → bit_xor a b < 2 ^ k
bit_xor-lt zero a b h k = omega (arith, bit_xor-zeros (omega arith) (omega arith))
  where
    bit_xor-zeros : a ≡ 0 → b ≡ 0 → bit_xor a b ≡ 0
    bit_xor-zeros p q = cc (zero-bit_xor 0)
bit_xor-lt (suc k) a b p q = omega (
  arith,
  pow-suc 2 k,
  bit_xor-eq a b,
  differ-lt-two a b,
  bit_xor-lt k (a / 2) (b / 2) (omega (arith, pow-suc 2 k)) (omega (arith, pow-suc 2 k)),
)

bit_and_comm_fuel : (n a b : ℕ) → a ≤ n → b ≤ n → bit_and a b ≡ bit_and b a
bit_and_comm_fuel zero a b h k = both_zero (omega arith) (omega arith)
  where
    both_zero : a ≡ 0 → b ≡ 0 → bit_and a b ≡ bit_and b a
    both_zero p q = cc
bit_and_comm_fuel (suc n) a b h k = omega (
  arith,
  bit_and-eq a b,
  bit_and-eq b a,
  bit_and_comm_fuel n (a / 2) (b / 2) (omega arith) (omega arith),
)

pub bit_and_comm : (a b : ℕ) → bit_and a b ≡ bit_and b a
bit_and_comm a b = bit_and_comm_fuel (a + b) a b (omega arith) (omega arith)

bit_and-half : (a b : ℕ) → bit_and a b / 2 ≡ bit_and (a / 2) (b / 2)
bit_and-half a b = omega (arith, bit_and-eq a b)

bit_and-parity : (a b : ℕ) → bit_and a b % 2 ≡ min (a % 2) (b % 2)
bit_and-parity a b = omega (arith, bit_and-eq a b)

pub bit_and-le : (n a b : ℕ) → a ≤ n → bit_and a b ≤ a
bit_and-le n zero b h = omega (arith, zero-bit_and b)
bit_and-le zero (suc a) b h = absurd (omega arith)
bit_and-le (suc n) (suc a) b h =
    omega (arith, bit_and-eq (suc a) b, bit_and-le n (suc a / 2) (b / 2) (omega arith))

-- A second conjunction with the same operand changes nothing.
pub bit_and_again : (n a b : ℕ) → a ≤ n → bit_and a (bit_and a b) ≡ bit_and a b
bit_and_again n zero b h = zero-bit_and _ ∙ sym (zero-bit_and b)
bit_and_again zero (suc a) b h = absurd (omega arith)
bit_and_again (suc n) (suc a) b h = omega (
  arith,
  bit_and-eq (suc a) (bit_and (suc a) b),
  bit_and-eq (suc a) b,
  ap (bit_and (suc a / 2)) (bit_and-half (suc a) b),
  bit_and-parity (suc a) b,
  bit_and_again n (suc a / 2) (b / 2) (omega arith),
)
