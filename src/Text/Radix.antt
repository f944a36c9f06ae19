-- ===== src/Text/Radix.antt =====
-- strtol and strtoll in other bases: 16, and the base 0 that the prefix of the number decides.
use lora_mqtt.Prelude.{
  ℕ, ◌+◌, ◌*◌, Bool, true, false, ◌&&◌, ◌||◌, List, [], ◌∷◌, Option, none, some, ltb, ◌==◌,
  if◌then◌else◌, ℤ, pos,
}
use lora_mqtt.Text.Scan.{hex_value, skip_space, read_or}

-- A digit of a base up to 16.
abbrev pub below : ℕ → Option ℕ → Option ℕ
below base none = none
below base (some d) = if ltb d base then some d else none

unfoldable pub scan_radix : ℕ → Bool → ℕ → List ℕ → Option (ℕ × List ℕ)
unfolding hex_value
scan_radix base seen acc [] = if seen then some (acc, []) else none
scan_radix base seen acc (c ∷ s) = elim (below base (hex_value c)) [
  | some d ↦ scan_radix base true (acc * base + d) s
  | none ↦ if seen then some (acc, c ∷ s) else none
]

-- A prefix without a digit behind it is the digit zero.
abbrev or_zero : List ℕ → Option (ℕ × List ℕ) → Option (ℕ × List ℕ)
or_zero r none = some (0, r)
or_zero r (some v) = some v

abbrev pub has_prefix : List ℕ → Bool
has_prefix (c ∷ x ∷ s) = (c == b'0') && ((x == b'x') || (x == b'X'))
has_prefix s = false

abbrev without_prefix : List ℕ → Option (ℕ × List ℕ)
without_prefix (c ∷ x ∷ s) = or_zero (x ∷ s) (scan_radix 16 false 0 s)
without_prefix s = none

unfoldable pub magnitude : ℕ → List ℕ → Option (ℕ × List ℕ)
unfolding scan_radix
magnitude base s =
    if has_prefix s && ((base == 16) || (base == 0))
    then without_prefix s
    else if base == 0
    then scan_radix (elim s [ [] ↦ 10 | c ∷ r ↦ if c == b'0' then 8 else 10 ]) false 0 s
    else scan_radix base false 0 s

unfoldable pub sign_in : ℕ → List ℕ → List ℕ → ℤ × List ℕ
unfolding magnitude
sign_in base s [] = (pos 0, s)
sign_in base s (c ∷ r) =
    if c == b'-'
    then read_or s true (magnitude base r)
    else if c == b'+'
    then read_or s false (magnitude base r)
    else read_or s false (magnitude base (c ∷ r))

unfoldable pub strtol_in : ℕ → List ℕ → ℤ × List ℕ
unfolding sign_in skip_space
strtol_in base s = sign_in base s (skip_space s)
