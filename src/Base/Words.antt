-- ===== src/Base/Words.antt =====
-- The unsigned 64-bit arithmetic of `size_t`.
use Prim.Native.Nat.{ℕ, ◌+◌, ◌-◌, ◌%◌, ◌^◌, ◌≤◌, ◌<◌}
use mathlib.Core.Path.{◌≡◌}
use native.Mathlib.Omega.{arith}

abbrev pub size_max : ℕ
size_max = 2 ^ 64

unfoldable pub add64 : ℕ → ℕ → ℕ
add64 a b = (a + b) % size_max

unfoldable pub sub64 : ℕ → ℕ → ℕ
sub64 a b = (a + size_max - b) % size_max

pub add64_exact : (a b : ℕ) → a + b < size_max → add64 a b ≡ a + b
unfolding add64
add64_exact a b h = omega arith

pub sub64_exact : (a b : ℕ) → b ≤ a → a < size_max → sub64 a b ≡ a - b
unfolding sub64
sub64_exact a b h k = omega arith

-- What is added first and taken off later leaves the word as it was.
pub sub64-add64 : (a b : ℕ) → a < size_max → b < size_max → sub64 (add64 a b) b ≡ a
unfolding sub64 add64
sub64-add64 a b h k = omega arith

pub add64-sub64 : (a b : ℕ) → a < size_max → b < size_max → add64 (sub64 a b) b ≡ a
unfolding sub64 add64
add64-sub64 a b h k = omega arith

pub add64-lt : (a b : ℕ) → add64 a b < size_max
unfolding add64
add64-lt a b = omega arith

pub sub64-lt : (a b : ℕ) → sub64 a b < size_max
unfolding sub64
sub64-lt a b = omega arith
