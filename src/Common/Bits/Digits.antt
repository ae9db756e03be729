-- ===== src/Common/Bits/Digits.antt =====
-- What `&` and `|` do to the lowest binary digit, and to the rest.
use Prim.Native.Nat.{
  ℕ, zero, suc, ◌+◌, ◌*◌, ◌/◌, ◌%◌, ◌≤◌, bit_and, bit_or, min, max, digits, bit_and-bitwise,
  bit_or-bitwise,
}
use mathlib.Core.Path.{◌≡◌, refl}
use native.Mathlib.Omega.{arith}

module _ (last : ℕ → ℕ) (op : ℕ → ℕ → ℕ) where
  -- Two counts of digits that both reach the first number give the same result.
  same_digits :
      (k l : ℕ) {a : ℕ} (b : ℕ) → a ≤ k → a ≤ l → digits last op k a b ≡ digits last op l a b
  same_digits zero zero b p q = refl
  same_digits zero (suc l) {a = zero} b p q = refl
  same_digits zero (suc l) {a = suc a} b p q = absurd (omega arith)
  same_digits (suc k) zero {a = zero} b p q = refl
  same_digits (suc k) (suc l) {a = zero} b p q = refl
  same_digits (suc k) zero {a = suc a} b p q = absurd (omega arith)
  same_digits (suc k) (suc l) {a = suc a} b p q =
      omega (arith, same_digits k l {a = suc a / 2} (b / 2) (omega arith) (omega arith))

  lowest_digit :
      (a b : ℕ)
      → digits last op (suc a) (suc a) b
        ≡ digits last op (suc a / 2) (suc a / 2) (b / 2) * 2 + op (suc a % 2) (b % 2)
  lowest_digit a b =
      omega (arith, same_digits a (suc a / 2) {a = suc a / 2} (b / 2) (omega arith) (omega arith))

pub zero-bit_and : (b : ℕ) → bit_and 0 b ≡ 0
zero-bit_and b = bit_and-bitwise 0 b

-- One digit of `&` and of `|`.
pub bit_and_digit : (a b : ℕ) → bit_and a b ≡ bit_and (a / 2) (b / 2) * 2 + min (a % 2) (b % 2)
bit_and_digit zero b = omega (arith, bit_and-bitwise 0 b, bit_and-bitwise 0 (b / 2))
bit_and_digit (suc a) b = omega (
  arith,
  bit_and-bitwise (suc a) b,
  bit_and-bitwise (suc a / 2) (b / 2),
  lowest_digit (λ _. 0) min a b,
)

pub bit_or_digit : (a b : ℕ) → bit_or a b ≡ bit_or (a / 2) (b / 2) * 2 + max (a % 2) (b % 2)
bit_or_digit zero b = omega (arith, bit_or-bitwise 0 b, bit_or-bitwise 0 (b / 2))
bit_or_digit (suc a) b = omega (
  arith,
  bit_or-bitwise (suc a) b,
  bit_or-bitwise (suc a / 2) (b / 2),
  lowest_digit (λ c. c) max a b,
)
