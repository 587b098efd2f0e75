-- ===== src/Common/Int.antt =====
-- Signed numbers, for durations and for Go's `int`: `negsuc n` is -(n + 1).
use Prim.Native.Nat.{ℕ, zero, suc, ◌+◌, ◌-◌}
use mathlib.Core.Bool.{Bool, true, false}

pub data ℤ : Type 0 where
  pos : ℕ → ℤ
  negsuc : ℕ → ℤ

-- `0 < d`
abbrev pub is_positive : ℤ → Bool
is_positive (pos zero) = false
is_positive (pos (suc n)) = true
is_positive (negsuc n) = false

-- `t.Add(d)` on an instant in nanoseconds since the zero time; an instant before it is not modelled
abbrev pub add_time : ℕ → ℤ → ℕ
add_time t (pos n) = t + n
add_time t (negsuc n) = t - n - 1
