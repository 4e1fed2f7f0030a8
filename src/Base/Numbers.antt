-- ===== src/Base/Numbers.antt =====
-- Equations of sums, which a path at a variable needs by name.
use Prim.Native.Nat.{ℕ, suc, ◌+◌}
use mathlib.Core.Path.{◌≡◌}
use native.Mathlib.Omega.{arith}

pub right_zero : (n : ℕ) → n ≡ n + 0
right_zero n = omega arith

pub zero_left : (n : ℕ) → 0 + n ≡ n
zero_left n = omega arith

pub plus_assoc : (a b c : ℕ) → a + b + c ≡ a + (b + c)
plus_assoc a b c = omega arith

pub suc_plus : (a b : ℕ) → suc a + b ≡ suc (a + b)
suc_plus a b = omega arith
