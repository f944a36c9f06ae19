-- ===== src/Text/Scan.antt =====
-- sscanf with `%02x`, strtol in base 10, and the end that strtof reports.
use lora_mqtt.Prelude.{
  ℕ, zero, suc, ◌+◌, ◌-◌, ◌*◌, ◌%◌, ◌^◌, Bool, true, false, ◌&&◌, ◌||◌, List, [], ◌∷◌, Option, none,
  some, ltb, leb, ◌==◌, if◌then◌else◌, ℤ, pos, negsuc, sub_ℕ,
}

-- isspace
unfoldable pub is_space : ℕ → Bool
is_space c = (c == b' ') || (leb 9 c && leb c 13)

unfoldable pub skip_space : List ℕ → List ℕ
unfolding is_space
skip_space [] = []
skip_space (c ∷ s) = if is_space c then skip_space s else c ∷ s

unfoldable pub hex_value : ℕ → Option ℕ
hex_value c =
    if leb b'0' c && leb c b'9'
    then some (c - b'0')
    else if leb b'a' c && leb c b'f'
    then some (c - b'a' + 10)
    else if leb b'A' c && leb c b'F'
    then some (c - b'A' + 10)
    else none

-- The digits that the field width leaves room for, added to `acc`.
unfoldable pub scan_digits : ℕ → ℕ → List ℕ → ℕ
unfolding hex_value
scan_digits zero acc s = acc
scan_digits (suc w) acc [] = acc
scan_digits (suc w) acc (c ∷ s) = elim (hex_value c) [
  | none ↦ acc
  | some d ↦ scan_digits w (acc * 16 + d) s
]

-- sscanf(s, "%02x", &v) with `v` zero before: white space does not count for the width of two, a
-- sign does. `-` negates as an unsigned 32-bit number. Where nothing is converted `v` stays zero.
unfoldable pub scan_hex2_at : List ℕ → ℕ
unfolding scan_digits
scan_hex2_at [] = 0
scan_hex2_at (c ∷ s) =
    if c == b'+'
    then scan_digits 1 0 s
    else if c == b'-'
    then (2 ^ 32 - scan_digits 1 0 s) % 2 ^ 32
    else scan_digits 2 0 (c ∷ s)

unfoldable pub scan_hex2 : List ℕ → ℕ
unfolding scan_hex2_at skip_space
scan_hex2 s = scan_hex2_at (skip_space s)

unfoldable pub is_digit : ℕ → Bool
is_digit c = leb b'0' c && leb c b'9'

-- strtol in base 10: the number read and the rest; `none` where there is no digit.
unfoldable pub scan_dec : Bool → ℕ → List ℕ → Option (ℕ × List ℕ)
unfolding is_digit
scan_dec seen acc [] = if seen then some (acc, []) else none
scan_dec seen acc (c ∷ s) = elim (is_digit c) [
  | true ↦ scan_dec true (acc * 10 + (c - b'0')) s
  | false ↦ if seen then some (acc, c ∷ s) else none
]

-- strtol in base 10 as a signed number with the rest; where there is no digit it is zero and the
-- rest is the text itself. A number past the range of a long, of 64 bits, is cut to its end.
abbrev pub signed : Bool → ℕ → ℤ
signed neg n =
    if neg
    then sub_ℕ 0 (if leb n (2 ^ 63) then n else 2 ^ 63)
    else pos (if ltb n (2 ^ 63) then n else 2 ^ 63 - 1)

abbrev pub read_or : List ℕ → Bool → Option (ℕ × List ℕ) → ℤ × List ℕ
read_or s neg none = (pos 0, s)
read_or s neg (some (n, r)) = (signed neg n, r)

unfoldable pub scan_sign : List ℕ → List ℕ → ℤ × List ℕ
unfolding scan_dec
scan_sign s [] = (pos 0, s)
scan_sign s (c ∷ r) =
    if c == b'-'
    then read_or s true (scan_dec false 0 r)
    else if c == b'+'
    then read_or s false (scan_dec false 0 r)
    else read_or s false (scan_dec false 0 (c ∷ r))

unfoldable pub strtol : List ℕ → ℤ × List ℕ
unfolding scan_sign skip_space
strtol s = scan_sign s (skip_space s)

unfoldable pub atoi : List ℕ → ℤ
unfolding strtol
atoi s = (strtol s).0

-- The cast of a signed number to an unsigned type of `m` values.
abbrev pub cast : ℕ → ℤ → ℕ
cast m (pos n) = n % m
cast m (negsuc n) = (m - (suc n % m)) % m
