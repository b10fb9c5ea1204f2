-- ===== src/Prelude/BitBounds.antt =====
-- The results of `&`, `|` and `^` on words of `k` binary digits have no more digits.
use Prim.Native.Nat.{ℕ, zero, suc, ◌+◌, ◌*◌, ◌/◌, ◌%◌, ◌^◌, ◌≤◌, ◌<◌, bit_and, bit_or, bit_xor}
use Prim.Native.Nat.{max, differ, bit_and-bitwise, bit_or-bitwise, bit_xor-bitwise}
use mathlib.Core.Path.{◌≡◌, ap₂}
use native.Mathlib.Omega.{arith}
use psim.Prelude.Bits.{bit_and-digit, bit_or-digit, digits-fuel}

differ-le : (x y : ℕ) → differ x y ≤ max x y
differ-le zero y = omega arith
differ-le (suc x) zero = omega arith
differ-le (suc x) (suc y) = omega (arith, differ-le x y)

bit_xor-digit : (a b : ℕ) → bit_xor a b ≡ bit_xor (a / 2) (b / 2) * 2 + differ (a % 2) (b % 2)
bit_xor-digit zero b = omega (arith, bit_xor-bitwise 0 b, bit_xor-bitwise 0 (b / 2))
bit_xor-digit (suc a) b = omega (
  arith,
  bit_xor-bitwise (suc a) b,
  bit_xor-bitwise (suc a / 2) (b / 2),
  digits-fuel (λ y. y) differ a (suc a / 2) (suc a / 2) (b / 2) (omega arith) (omega arith),
)

double : (k : ℕ) → 2 ^ suc k ≡ 2 ^ k * 2
double k = grind arith

bit_and-le_upto : (n a b : ℕ) → a ≤ n → bit_and a b ≤ a
bit_and-le_upto zero zero b h = omega (arith, bit_and-bitwise 0 b)
bit_and-le_upto zero (suc a) b h = absurd (omega arith)
bit_and-le_upto (suc n) zero b h = omega (arith, bit_and-bitwise 0 b)
bit_and-le_upto (suc n) (suc a) b h =
    omega (arith, bit_and-digit (suc a) b, bit_and-le_upto n (suc a / 2) (b / 2) (omega arith))

pub bit_and-le : (a b : ℕ) → bit_and a b ≤ a
bit_and-le a b = bit_and-le_upto a a b (omega arith)

pub bit_or-lt : (k a b : ℕ) → a < 2 ^ k → b < 2 ^ k → bit_or a b < 2 ^ k
bit_or-lt zero a b p q =
    let left : a ≡ 0 = omega arith in
    let right : b ≡ 0 = omega arith in
    let none : bit_or a b ≡ bit_or 0 0 = ap₂ bit_or left right in
    omega (arith, none, bit_or-bitwise 0 0)
bit_or-lt (suc k) a b p q = omega (
  arith,
  bit_or-digit a b,
  double k,
  bit_or-lt k (a / 2) (b / 2) (omega (arith, double k)) (omega (arith, double k)),
)

pub bit_xor-lt : (k a b : ℕ) → a < 2 ^ k → b < 2 ^ k → bit_xor a b < 2 ^ k
bit_xor-lt zero a b p q =
    let left : a ≡ 0 = omega arith in
    let right : b ≡ 0 = omega arith in
    let none : bit_xor a b ≡ bit_xor 0 0 = ap₂ bit_xor left right in
    omega (arith, none, bit_xor-bitwise 0 0)
bit_xor-lt (suc k) a b p q = omega (
  arith,
  bit_xor-digit a b,
  differ-le (a % 2) (b % 2),
  double k,
  bit_xor-lt k (a / 2) (b / 2) (omega (arith, double k)) (omega (arith, double k)),
)

bit_and-le_right_upto : (n a b : ℕ) → a ≤ n → bit_and a b ≤ b
bit_and-le_right_upto zero zero b h = omega (arith, bit_and-bitwise 0 b)
bit_and-le_right_upto zero (suc a) b h = absurd (omega arith)
bit_and-le_right_upto (suc n) zero b h = omega (arith, bit_and-bitwise 0 b)
bit_and-le_right_upto (suc n) (suc a) b h =
    omega
      (arith, bit_and-digit (suc a) b, bit_and-le_right_upto n (suc a / 2) (b / 2) (omega arith))

pub bit_and-le_right : (a b : ℕ) → bit_and a b ≤ b
bit_and-le_right a b = bit_and-le_right_upto a a b (omega arith)
