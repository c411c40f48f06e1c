-- ===== src/Base/Ints.antt =====
-- Go's `int`, over the native numbers.
use mathlib.Core.Bool.{Bool, true, false}
use Prim.Native.Nat.{ℕ, ◌<◌, ◌^◌}
use go_network_lab.Base.Tests.{◌==◌}

-- `negsuc n` is the negative of `n + 1`.
pub data ℤ : Type 0 where
  pos negsuc : ℕ → ℤ

abbrev pub is_pos : ℤ → ℕ → Bool
is_pos (pos m) n = m == n
is_pos (negsuc m) n = false

-- `i <= 0`
abbrev pub not_positive : ℤ → Bool
not_positive (pos m) = m == 0
not_positive (negsuc m) = true

-- What an `int` can hold where it has 64 bits.
abbrev pub FitsInt : ℤ → Type 0
FitsInt (pos n) = n < 2 ^ 63
FitsInt (negsuc n) = n < 2 ^ 63
