-- ===== src/Modules/Dali/Level.antt =====
-- modules/umdk-dali.c: the logarithmic dimming curve between an intensity in per cent and the power
-- of the arc. The double that C computes is taken as the exact number: `(uint8_t)` cuts it to the
-- largest integer below, which is found by comparing powers.
use lora_mqtt.Prelude.{
  ℕ, zero, suc, ◌-◌, ◌*◌, ◌^◌, Bool, true, false, Option, none, some, leb, ◌==◌, if◌then◌else◌,
}

-- The largest number up to `n` that passes a test, zero if none does.
unfoldable pub largest : (ℕ → Bool) → ℕ → ℕ
largest ok zero = 0
largest ok (suc n) = elim (ok (suc n)) [ true ↦ suc n | false ↦ largest ok n ]

-- d ≤ (253 * (log10(i) + 0.01) + 256) / 3, all of it times 100 and under the power of ten.
abbrev pub below_arc : ℕ → ℕ → Bool
below_arc i d = leb (10 ^ (300 * d - 25853)) (i ^ 25300)

-- The logarithm of zero is infinite, and a number past 255 does not fit the byte: both conversions
-- are undefined.
unfoldable pub arc_power : ℕ → Option ℕ
unfolding largest
arc_power i =
    if i == 0 then none else if below_arc i 256 then none else some (largest (below_arc i) 255)

-- (uint8_t)pow(10.0, (3 * data - 256) / 253): l ^ 253 ≤ 10 ^ (3 * data - 256).
unfoldable pub level_of : ℕ → ℕ
unfolding largest
level_of d = if leb 256 (3 * d) then largest (λ l. leb (l ^ 253) (10 ^ (3 * d - 256))) 255 else 0

-- The same with 0.01 added to the exponent.
unfoldable pub actual_level : ℕ → ℕ
unfolding largest
actual_level d =
    if leb 25347 (300 * d) then largest (λ l. leb (l ^ 25300) (10 ^ (300 * d - 25347))) 255 else 0
