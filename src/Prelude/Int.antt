-- ===== src/Prelude/Int.antt =====
-- Signed integers over the native numbers: the type `int` of the source, where it stays in range.
use Prim.Native.Nat.{ℕ, suc, ◌+◌, ◌-◌}
use mathlib.Core.Bool.{Bool, true, false}
use lora_mqtt.Prelude.Tests.{ltb, leb, ◌==◌, if◌then◌else◌}

-- `negsuc n` is -(n + 1).
pub data ℤ : Type 0 where
  pos : ℕ → ℤ
  negsuc : ℕ → ℤ

-- a - b, as an integer.
abbrev pub sub_ℕ : ℕ → ℕ → ℤ
sub_ℕ a b = if leb b a then pos (a - b) else negsuc (b - a - 1)

-- a - b > z, for the elapsed times of the source.
abbrev pub elapsed_gt : ℕ → ℕ → ℤ → Bool
elapsed_gt a b (pos n) = ltb (b + n) a
elapsed_gt a b (negsuc n) = ltb b (a + suc n)

-- a == z
abbrev pub eq_int : ℕ → ℤ → Bool
eq_int a (pos n) = a == n
eq_int a (negsuc n) = false

abbrev pub abs : ℤ → ℕ
abs (pos n) = n
abs (negsuc n) = suc n

abbrev pub is_neg : ℤ → Bool
is_neg (pos n) = false
is_neg (negsuc n) = true
