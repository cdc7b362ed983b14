-- ===== src/Shared/Bits/Step.antt =====
-- The lowest binary digit of `|`, read off the digit recursion that the native operation stands for.
use Prim.Native.Nat.{ℕ, zero, suc, ◌+◌, ◌*◌, ◌/◌, ◌%◌, ◌≤◌, max, bit_or, digits, bit_or-bitwise}
use mathlib.Core.Path.{◌≡◌, refl}
use native.Mathlib.Omega.{arith}

abbrev or_digits : ℕ → ℕ → ℕ → ℕ
or_digits fuel a b = digits (λ y. y) max fuel a b

-- Any two amounts of fuel that reach `a` give one result.
or_digits_enough : (a b n m : ℕ) → a ≤ n → a ≤ m → or_digits n a b ≡ or_digits m a b
or_digits_enough zero b zero zero p q = refl
or_digits_enough zero b zero (suc m) p q = refl
or_digits_enough zero b (suc n) zero p q = refl
or_digits_enough zero b (suc n) (suc m) p q = refl
or_digits_enough (suc a) b zero m p q = absurd (omega arith)
or_digits_enough (suc a) b (suc n) zero p q = absurd (omega arith)
or_digits_enough (suc a) b (suc n) (suc m) p q =
    omega (arith, or_digits_enough (suc a / 2) (b / 2) n m (omega arith) (omega arith))

pub bit_or_step : (a b : ℕ) → bit_or a b ≡ bit_or (a / 2) (b / 2) * 2 + max (a % 2) (b % 2)
bit_or_step zero b = omega (arith, bit_or-bitwise 0 b, bit_or-bitwise 0 (b / 2))
bit_or_step (suc a) b = omega (
  arith,
  bit_or-bitwise (suc a) b,
  bit_or-bitwise (suc a / 2) (b / 2),
  or_digits_enough (suc a / 2) (b / 2) a (suc a / 2) (omega arith) (omega arith),
)
