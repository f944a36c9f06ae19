-- ===== src/Hex.antt =====
-- utils.c: the hexadecimal conversions, and how the host lays an integer out in memory.
-- `Digits` and `Pairs` are about the text, `Laws` about the conversions.
pub mod Digits
pub mod Pairs
pub mod Laws
pub mod RoundTrip
mod Examples
use lora_mqtt.Prelude.{
  ℕ, zero, suc, ◌+◌, ◌-◌, ◌*◌, ◌/◌, ◌%◌, Bool, true, false, List, [], ◌∷◌, ◌++◌, Option, none, some,
  ◌==◌, if◌then◌else◌, length, get_or, drop,
}
use lora_mqtt.Text.Scan.{scan_hex2}
use lora_mqtt.Text.Format.{hex_byte}

-- What `hex_to_bytesn` did: the bytes that it wrote and `true`; `false`; or a walk past the
-- terminator of the text, which C leaves undefined.
pub data Parsed : Type 0 where
  parsed : List ℕ → Parsed
  rejected past_end : Parsed

abbrev pub of_option : Option (List ℕ) → Parsed
of_option none = past_end
of_option (some bs) = parsed bs

-- One `sscanf(ptr, "%02x", &v)` and the cast to a byte.
pub byte_at : List ℕ → ℕ
unfolding scan_hex2
byte_at s = scan_hex2 s % 256

-- for (; (len >> 1) - i; ptr -= 2)
pub backward : List ℕ → ℕ → ℕ → List ℕ
backward s zero at = []
backward s (suc left) at = byte_at (drop at s) ∷ backward s left (at - 2)

abbrev cons_byte : ℕ → Option (List ℕ) → Option (List ℕ)
cons_byte b none = none
cons_byte b (some bs) = some (b ∷ bs)

-- for (; *ptr; ptr += 2)
pub forward : List ℕ → Option (List ℕ)
forward [] = some []
forward (c ∷ []) = none
forward (c ∷ d ∷ s) = cons_byte (byte_at (c ∷ d ∷ s)) (forward s)

unfoldable pub hex_to_bytesn : List ℕ → ℕ → Bool → Parsed
unfolding backward forward byte_at
hex_to_bytesn s len reverse_order =
    if len % 2 == 0
    then if reverse_order then parsed (backward s (len / 2) (len - 2)) else of_option (forward s)
    else rejected

unfoldable pub hex_to_bytes : List ℕ → Bool → Parsed
unfolding hex_to_bytesn
hex_to_bytes s reverse_order = hex_to_bytesn s (length s) reverse_order

-- The loop of `bytes_to_hex` at index `i` with `left` rounds to go.
hex_loop : List ℕ → ℕ → Bool → ℕ → ℕ → List ℕ → List ℕ
unfolding hex_byte
hex_loop bytes num reverse_order zero i str = str
hex_loop bytes num reverse_order (suc left) i str =
    hex_loop bytes num reverse_order left (i + 1)
      (str ++ hex_byte true (get_or bytes (if reverse_order then num - 1 - i else i) 0))

unfoldable pub bytes_to_hex : List ℕ → ℕ → List ℕ → Bool → List ℕ
unfolding hex_loop
bytes_to_hex bytes num str reverse_order = hex_loop bytes num reverse_order num 0 str

-- The number that bytes in memory stand for, on a big-endian host or on a little-endian one.
abbrev pub le_value : List ℕ → ℕ
le_value [] = 0
le_value (b ∷ bs) = b + 256 * le_value bs

abbrev pub be_value : ℕ → List ℕ → ℕ
be_value acc [] = acc
be_value acc (b ∷ bs) = be_value (acc * 256 + b) bs

abbrev pub load : Bool → List ℕ → ℕ
load true bs = be_value 0 bs
load false bs = le_value bs
