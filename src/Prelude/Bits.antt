-- ===== src/Prelude/Bits.antt =====
-- A mask bounds what it lets through.
use Prim.Native.Nat.{ℕ, zero, suc, ◌/◌, ◌≤◌, min, bit_and, digits, bit_and-bitwise}
use native.Mathlib.Omega.{arith}

digits-le : (n a m : ℕ) → digits (λ _. zero) min n a m ≤ m
digits-le zero zero m = omega arith
digits-le zero (suc a) m = omega arith
digits-le (suc n) zero m = omega arith
digits-le (suc n) (suc a) m = omega (arith, digits-le n (suc a / 2) (m / 2))

pub bit_and-le : (a m : ℕ) → bit_and a m ≤ m
bit_and-le a m = omega (arith, bit_and-bitwise a m, digits-le a a m)
