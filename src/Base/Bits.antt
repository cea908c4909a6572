-- ===== src/Base/Bits.antt =====
-- A mask bounds what it leaves.
use Prim.Native.Nat.{ℕ, zero, suc, ◌/◌, ◌≤◌, min, bit_and, digits, bit_and-bitwise}
use native.Mathlib.Omega.{arith}

digits-min_le : (n a b : ℕ) → digits (λ b. zero) min n a b ≤ b
digits-min_le zero zero b = omega arith
digits-min_le zero (suc a) b = omega arith
digits-min_le (suc n) zero b = omega arith
digits-min_le (suc n) (suc a) b = omega (arith, digits-min_le n (suc a / 2) (b / 2))

pub bit_and_le : (a b : ℕ) → bit_and a b ≤ b
bit_and_le a b = omega (arith, bit_and-bitwise a b, digits-min_le a a b)
