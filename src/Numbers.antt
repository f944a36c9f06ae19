-- ===== src/Numbers.antt =====
-- utils.c: the byte order of integers, sign-and-magnitude, decimal fractions and the checksum. An
-- integer in memory is the number that the host reads there; `be` is is_big_endian().
-- `Swap`, `Sam` and `Crc` are about these conversions.
pub mod Swap
pub mod Sam
pub mod Crc
pub mod Decimal
mod Examples
use lora_mqtt.Prelude.{
  ℕ, zero, suc, ◌+◌, ◌-◌, ◌*◌, ◌/◌, ◌%◌, ◌^◌, Bool, true, false, List, [], ◌∷◌, ◌++◌, Option, some,
  none, ltb, ◌==◌, if◌then◌else◌, ℤ, abs, is_neg, bit_and, bit_or, bit_xor,
}
use lora_mqtt.Text.Format.{dec, pad}

unfoldable pub uint16_swap_bytes : ℕ → ℕ
uint16_swap_bytes n = bit_or (bit_and n 0x00ff * 2 ^ 8) (bit_and n 0xff00 / 2 ^ 8) % 2 ^ 16

unfoldable pub uint32_swap_bytes : ℕ → ℕ
uint32_swap_bytes n =
    bit_or
      (bit_or
        (bit_or (bit_and n 0x000000ff * 2 ^ 24 % 2 ^ 32) (bit_and n 0x0000ff00 * 2 ^ 8 % 2 ^ 32))
        (bit_and n 0x00ff0000 / 2 ^ 8))
      (bit_and n 0xff000000 / 2 ^ 24)

unfoldable pub uint64_swap_bytes : ℕ → ℕ
uint64_swap_bytes n =
    let up : ℕ → ℕ → ℕ = λ mask k. bit_and n mask * 2 ^ k % 2 ^ 64 in
    let down : ℕ → ℕ → ℕ = λ mask k. bit_and n mask / 2 ^ k in
    bit_or
      (bit_or
        (bit_or
          (bit_or
            (bit_or
              (bit_or (bit_or (up 0x00000000000000ff 56) (up 0x000000000000ff00 40))
                (up 0x0000000000ff0000 24))
              (up 0x00000000ff000000 8))
            (down 0x000000ff00000000 8))
          (down 0x0000ff0000000000 24))
        (down 0x00ff000000000000 40))
      (down 0xff00000000000000 56)

abbrev pub uint16_to_le : Bool → ℕ → ℕ
uint16_to_le true n = n
uint16_to_le false n = uint16_swap_bytes n

abbrev pub uint32_to_le : Bool → ℕ → ℕ
uint32_to_le true n = n
uint32_to_le false n = uint32_swap_bytes n

abbrev pub uint64_to_le : Bool → ℕ → ℕ
uint64_to_le true n = n
uint64_to_le false n = uint64_swap_bytes n

-- A signed integer of `suc n` bits, promoted to arithmetic modulo `top`; `v >> n` of it, which is
-- zero or all ones.
unfoldable pub promoted : ℕ → ℕ → ℕ → ℕ
promoted top n u = if ltb u (2 ^ n) then u else u + (top - 2 ^ suc n)

unfoldable pub sign_mask : ℕ → ℕ → ℕ → ℕ
sign_mask top n u = if ltb u (2 ^ n) then 0 else top - 1

-- (~(v >> n) & v) | (((v & (1 << n)) - v) & (v >> n)), stored in `suc n` bits.
unfoldable pub from_sam : ℕ → ℕ → ℕ → ℕ
unfolding promoted sign_mask
from_sam top n u =
    let v = promoted top n u in
    let s = sign_mask top n u in
    bit_or (bit_and (top - 1 - s) v) (bit_and ((bit_and v (2 ^ n) + (top - v)) % top) s) % 2 ^ suc n

-- ((v + (v >> n)) ^ (v >> n)) | (v & (1 << n)), stored in `suc n` bits.
unfoldable pub to_sam : ℕ → ℕ → ℕ → ℕ
unfolding promoted sign_mask
to_sam top n u =
    let v = promoted top n u in
    let s = sign_mask top n u in bit_or (bit_xor ((v + s) % top) s) (bit_and v (2 ^ n)) % 2 ^ suc n

unfoldable pub convert_from_be_sam : Bool → ℕ → ℕ → ℕ
unfolding from_sam
convert_from_be_sam be size u =
    if size == 1
    then from_sam (2 ^ 32) 7 u
    else if size == 2
    then from_sam (2 ^ 32) 15 (uint16_to_le be u)
    else if size == 4
    then from_sam (2 ^ 32) 31 (uint32_to_le be u)
    else if size == 8
    then from_sam (2 ^ 64) 63 (uint64_to_le be u)
    else u

unfoldable pub convert_to_be_sam : Bool → ℕ → ℕ → ℕ
unfolding to_sam
convert_to_be_sam be size u =
    if size == 1
    then to_sam (2 ^ 32) 7 u
    else if size == 2
    then uint16_to_le be (to_sam (2 ^ 32) 15 u)
    else if size == 4
    then uint32_to_le be (to_sam (2 ^ 32) 31 u)
    else if size == 8
    then uint64_to_le be (to_sam (2 ^ 64) 63 u)
    else u

-- The text for a precision below ten: with more digits the format is cut and the divisor leaves its
-- type, which is `none`.
unfoldable pub int_to_float_str : ℤ → ℕ → Option (List ℕ)
unfolding dec
int_to_float_str decimal precision =
    if ltb precision 10
    then some (
        (if is_neg decimal then b'-' ∷ [] else [])
        ++ (dec (abs decimal / 10 ^ precision)
            ++ b'.' ∷ pad precision (dec (abs decimal % 10 ^ precision))))
    else none

-- The inner loop over the bits.
unfoldable pub crc_bits : ℕ → ℕ → ℕ
crc_bits zero crc = crc
crc_bits (suc i) crc = crc_bits i (if bit_and crc 1 == 0 then crc / 2 else bit_xor (crc / 2) 0xA001)

unfoldable pub crc_from : ℕ → List ℕ → ℕ
unfolding crc_bits
crc_from crc [] = crc
crc_from crc (b ∷ bs) = crc_from (crc_bits 8 (bit_xor crc b)) bs

-- The `len` bytes at `data`.
unfoldable pub crc16_arc : List ℕ → ℕ
unfolding crc_from
crc16_arc bytes = crc_from 0 bytes
