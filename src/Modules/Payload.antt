-- ===== src/Modules/Payload.antt =====
-- What the handlers of modules/umdk-*.c share: reads of the payload, texts of a limited size, and
-- the start of a command.
use lora_mqtt.Prelude.{
  ℕ, zero, suc, ◌+◌, ◌-◌, ◌*◌, ◌/◌, ◌%◌, ◌^◌, ◌==◌, ◌∷◌, ◌++◌, Bool, List, [], Option, none, some,
  ltb, if◌then◌else◌, get_or, take, drop, ℤ, pos, negsuc, bit_or,
}
use lora_mqtt.Hex.{load}
use lora_mqtt.Numbers.{convert_from_be_sam, int_to_float_str}

-- moddata[i]
abbrev pub at : List ℕ → ℕ → ℕ
at moddata i = get_or moddata i 0

-- Bytes of the payload, in order.
abbrev pub bytes_at : ℕ → List ℕ → ℕ → List ℕ
bytes_at zero moddata i = []
bytes_at (suc n) moddata i = at moddata i ∷ bytes_at n moddata (i + 1)

-- The numbers of the bits that are set, from `n` on.
abbrev byte_bits : ℕ → ℕ → ℕ → List ℕ
byte_bits zero b n = []
byte_bits (suc k) b n =
    let rest = byte_bits k (b / 2) (n + 1) in if b % 2 == 1 then n ∷ rest else rest

unfoldable pub set_bits : List ℕ → ℕ → List ℕ
set_bits [] n = []
set_bits (b ∷ bs) n = byte_bits 8 b n ++ set_bits bs (n + 8)

-- moddata[i] | (moddata[i + 1] << 8)
unfoldable pub word_at : List ℕ → ℕ → ℕ
word_at moddata i = bit_or (at moddata i) (at moddata (i + 1) * 2 ^ 8)

-- The same over four bytes, as an unsigned number of 32 bits.
unfoldable pub long_at : List ℕ → ℕ → ℕ
unfolding word_at
long_at moddata i =
    bit_or (bit_or (word_at moddata i) (at moddata (i + 2) * 2 ^ 16)) (at moddata (i + 3) * 2 ^ 24)

-- memcpy of `size` bytes at `i` into an integer, and convert_from_be_sam of it.
unfoldable pub sam_at : Bool → List ℕ → ℕ → ℕ → ℕ
unfolding convert_from_be_sam
sam_at be moddata i size = convert_from_be_sam be size (load be (take size (drop i moddata)))

-- The cast of an unsigned number of `suc n` bits to the signed type.
abbrev pub to_signed : ℕ → ℕ → ℤ
to_signed n u = if ltb u (2 ^ n) then pos u else negsuc (2 ^ suc n - 1 - u)

-- snprintf(out, size, …)
abbrev pub snprintf : ℕ → List ℕ → List ℕ
snprintf size text = take (size - 1) text

-- The buffer behind int_to_float_str; the handlers pass a precision below ten.
abbrev pub filled : Option (List ℕ) → List ℕ
filled none = []
filled (some text) = text

abbrev pub fraction : ℤ → ℕ → List ℕ
fraction v precision = filled (int_to_float_str v precision)
