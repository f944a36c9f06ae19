-- ===== src/Numbers/Examples.antt =====
-- The conversions of numbers at concrete inputs.
use lora_mqtt.Prelude.{
  ℕ, List, Bool, bit_xor, if◌then◌else◌, is_neg, abs, length, ◌+◌, ◌*◌, ◌≡◌, refl, ◌^◌, ◌<◌, ◌%◌,
  ◌/◌, true, false, [], ◌∷◌, ◌++◌, some, inl, inr, pos, negsuc, arith,
}
use lora_mqtt.Text.Literal.{codes}
use lora_mqtt.Hex.{load}
use lora_mqtt.Numbers.{
  uint32_to_le, uint32_swap_bytes, convert_from_be_sam, convert_to_be_sam, int_to_float_str,
  crc16_arc,
}
use lora_mqtt.Numbers.Sam.{convert_from_be_sam_lem}
use lora_mqtt.Text.Scan.{scan_dec}
use lora_mqtt.Numbers.Decimal.{int_to_float_str_lem}
use lora_mqtt.Numbers.Crc.{crc16_arc-residue}
use lora_mqtt.Numbers.Crc.Division.{bits_of, product}

swaps : uint32_to_le false 0x01020304 ≡ 0x04030201
unfolding uint32_swap_bytes
swaps = refl

-- -2, and the number of the least value, which has no magnitude of its own.
to_sam : convert_to_be_sam true 2 0xfffe ≡ 0x8002
unfolding convert_to_be_sam
to_sam = refl

least : convert_to_be_sam true 1 0x80 ≡ 0x80
unfolding convert_to_be_sam
least = refl

fraction : int_to_float_str (negsuc 4) 1 ≡ some (codes "-0.5")
unfolding int_to_float_str
fraction = refl

whole : int_to_float_str (pos 12) 0 ≡ some (codes "12.0")
unfolding int_to_float_str
whole = refl

-- The check value of CRC-16/ARC.
checksum : crc16_arc (codes "123456789") ≡ 0xbb3d
unfolding crc16_arc
checksum = refl

convert_from_be_sam_lem_example :
    convert_from_be_sam false 2 (load false (0x80 ∷ 0x02 ∷ [])) ≡ 0xfffe
convert_from_be_sam_lem_example =
    convert_from_be_sam_lem false 2 (0x80 ∷ 0x02 ∷ []) (inr (inl refl)) refl
      (omega arith, (omega arith, tt))

crc16_arc-residue_example :
    (crc16_arc (codes "AT") < 2 ^ 16)
    × ((crc16_arc (codes "AT" ++ crc16_arc (codes "AT") % 256 ∷ crc16_arc (codes "AT") / 256 ∷ [])
          ≡ 0)
        × ((qs : List Bool) × ((length qs ≡ 16)
              × (bits_of (codes "AT") ≡ bit_xor (crc16_arc (codes "AT") * 2 ^ 16) (product qs)))))
crc16_arc-residue_example = crc16_arc-residue (codes "AT") (omega arith, (omega arith, tt))

int_to_float_str_lem_example :
    (whole : List ℕ) × (part : List ℕ) × (n : ℕ) × (m : ℕ) × (int_to_float_str (negsuc 1234) 1
      ≡ some ((if is_neg (negsuc 1234) then b'-' ∷ [] else []) ++ (whole ++ b'.' ∷ part)))
    × (scan_dec false 0 (whole ++ b'.' ∷ part) ≡ some (n, b'.' ∷ part))
    × (scan_dec false 0 part ≡ some (m, []))
    × (length part ≡ 1)
    × (n * 10 ^ 1 + m ≡ abs (negsuc 1234))
int_to_float_str_lem_example = int_to_float_str_lem (negsuc 1234) 0 (omega arith) (omega arith)
