-- ===== src/Text/Format.antt =====
-- The conversions of snprintf: `%d`, `%u`, `%x`, `%02x`, `%02X`, `%08x` and the like.
use lora_mqtt.Prelude.{
  ℕ, zero, suc, ◌+◌, ◌-◌, ◌/◌, ◌%◌, Bool, true, false, List, [], ◌∷◌, ◌++◌, ltb, if◌then◌else◌,
  length, replicate, ℤ, pos, negsuc,
}

-- One digit, in lower case or in upper case.
unfoldable pub digit : Bool → ℕ → ℕ
digit upper d = if ltb d 10 then b'0' + d else if upper then b'A' + (d - 10) else b'a' + (d - 10)

-- The digits of `n` in base `b`, most significant first; `fuel` bounds their number.
unfoldable pub digits : ℕ → Bool → ℕ → ℕ → List ℕ
unfolding digit
digits zero upper b n = []
digits (suc fuel) upper b n = elim (ltb n b) [
  | true ↦ digit upper n ∷ []
  | false ↦ digits fuel upper b (n / b) ++ digit upper (n % b) ∷ []
]

abbrev pub pad : ℕ → List ℕ → List ℕ
pad w s = replicate (w - length s) b'0' ++ s

-- A 64-bit number has at most 20 decimal and 16 hexadecimal digits.
unfoldable pub dec : ℕ → List ℕ
unfolding digits
dec n = digits 20 false 10 n

unfoldable pub hex : ℕ → List ℕ
unfolding digits
hex n = digits 16 false 16 n

unfoldable pub hex_pad : ℕ → ℕ → List ℕ
unfolding hex
hex_pad w n = pad w (hex n)

-- `%d`
unfoldable pub int : ℤ → List ℕ
unfolding dec
int (pos n) = dec n
int (negsuc n) = b'-' ∷ dec (suc n)

-- `%02x` and `%02X` of a byte.
unfoldable pub hex_byte : Bool → ℕ → List ℕ
unfolding digit
hex_byte upper b = digit upper (b / 16) ∷ digit upper (b % 16) ∷ []
