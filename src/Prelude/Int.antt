-- ===== src/Prelude/Int.antt =====
-- Go's signed integers over the native numbers, under the library's names.
use Prim.Native.Nat.{ℕ}
use mathlib.Core.Bool.{Bool, true, false}
use vaulthook.Prelude.Tests.{ltb}

-- `negsuc n` is -(n + 1).
pub data ℤ : Type 0 where
  pos : ℕ → ℤ
  negsuc : ℕ → ℤ

-- i < n and n < i, at a bound n that is not negative
abbrev pub is_below : ℤ → ℕ → Bool
is_below (pos i) n = ltb i n
is_below (negsuc i) n = true

abbrev pub is_above : ℤ → ℕ → Bool
is_above (pos i) n = ltb n i
is_above (negsuc i) n = false
