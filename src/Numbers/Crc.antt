-- ===== src/Numbers/Crc.antt =====
-- utils.c: crc16_arc, a remainder that a receiver verifies by running it over data and checksum.
pub mod Division
use native.Mathlib.Nat.{pow-suc}
use lora_mqtt.Prelude.{
  ℕ, zero, suc, ◌+◌, ◌*◌, ◌/◌, ◌%◌, ◌^◌, ◌<◌, ◌≡◌, refl, ap, ap₂, ◌∙◌, List, [], ◌∷◌, ◌++◌, bit_and,
  bit_xor, arith, All, ◌==◌, if◌then◌else◌, Bool, length, sym,
}
use lora_mqtt.Bits.{cut, and_one, xor_blocks, xor_self, xor_zero, zero_xor, xor-lt}
use lora_mqtt.Numbers.Crc.Division.{bits_of, product, crc_from-Divides}
use lora_mqtt.Numbers.{crc_bits, crc_from, crc16_arc}
use lora_mqtt.Numbers.Swap.{IsByte}

-- A number of `i` zero bits at the end passes through `i` rounds by shifts alone.
crc_bits-shift : (i h : ℕ) → crc_bits i (h * 2 ^ i) ≡ h
unfolding crc_bits
crc_bits-shift zero h = omega arith
crc_bits-shift (suc i) h =
    let even : h * 2 ^ suc i ≡ 2 * (h * 2 ^ i) =
      omega (arith, ap (λ (t : ℕ). h * t) (pow-suc 2 i)) in
    let last : bit_and (h * 2 ^ suc i) 1 ≡ 0 = omega (arith, and_one (h * 2 ^ suc i)) in
    let half : h * 2 ^ suc i / 2 ≡ h * 2 ^ i = omega arith in rw (last, half) (crc_bits-shift i h)

crc_bits-lt : (i c : ℕ) → c < 2 ^ 16 → crc_bits i c < 2 ^ 16
unfolding crc_bits
crc_bits-lt zero c h = h
crc_bits-lt (suc i) c h =
    crc_bits-lt i (if bit_and c 1 == 0 then c / 2 else bit_xor (c / 2) 0xA001)
      (let flip = xor-lt 16 (c / 2) 0xA001 (omega arith) (omega arith) in ground arith)

crc_from-lt : (bs : List ℕ) (c : ℕ) → c < 2 ^ 16 → All IsByte bs → crc_from c bs < 2 ^ 16
unfolding crc_from
crc_from-lt [] c h k = h
crc_from-lt (b ∷ bs) c h (p, k) =
    crc_from-lt bs (crc_bits 8 (bit_xor c b))
      (crc_bits-lt 8 (bit_xor c b) (xor-lt 16 c b h (omega arith))) k

crc_from-append : (xs ys : List ℕ) (c : ℕ) → crc_from c (xs ++ ys) ≡ crc_from (crc_from c xs) ys
unfolding crc_from
crc_from-append [] ys c = refl
crc_from-append (x ∷ xs) ys c = crc_from-append xs ys (crc_bits 8 (bit_xor c x))

crc_from-two :
    (c a b : ℕ) → crc_from c (a ∷ b ∷ []) ≡ crc_bits 8 (bit_xor (crc_bits 8 (bit_xor c a)) b)
unfolding crc_from
crc_from-two c a b = refl

low_byte-cancels : (c : ℕ) → bit_xor c (c % 256) ≡ c / 256 * 2 ^ 8
low_byte-cancels c =
    ap₂ bit_xor (cut 8 c) (let f : c % 256 ≡ 0 * 2 ^ 8 + c % 256 = omega arith in f)
    ∙ xor_blocks 8 (c / 256) (c % 256) 0 (c % 256) (omega arith) (omega arith)
    ∙ rw (xor_zero (c / 256), xor_self (c % 256)) (omega arith)

-- The low byte of the checksum, then the high one, leave nothing.
own_bytes : (c : ℕ) → crc_from c (c % 256 ∷ c / 256 ∷ []) ≡ 0
own_bytes c =
    crc_from-two c (c % 256) (c / 256)
    ∙ rw (low_byte-cancels c, crc_bits-shift 8 (c / 256), xor_self (c / 256)) (crc_bits-shift 8 0)

crc16_arc_lem :
    (bs : List ℕ)
    → All IsByte bs
    → (qs : List Bool) × ((length qs ≡ 8 * length bs)
        × (bits_of bs ≡ bit_xor (crc16_arc bs * 2 ^ (8 * length bs)) (product qs)))
unfolding crc16_arc
crc16_arc_lem bs h =
    let (qs, (l, e)) = crc_from-Divides bs 0 h in
    (
      qs,
      (
        l,
        sym (zero_xor (bits_of bs))
            ∙ e
            ∙ ap (λ (t : ℕ). bit_xor (crc_from 0 bs * 2 ^ t) (product qs)) l,
      ),
    )

-- The checksum is the remainder, of sixteen bits, of the data, each byte from its lowest bit on and
-- moved by sixteen places, divided by x^16 + x^15 + x^2 + 1; and data followed by its checksum, the
-- low byte first, has the checksum zero.
pub crc16_arc-residue :
    (bs : List ℕ)
    → All IsByte bs
    → (crc16_arc bs < 2 ^ 16)
      × ((crc16_arc (bs ++ crc16_arc bs % 256 ∷ crc16_arc bs / 256 ∷ []) ≡ 0)
          × ((qs : List Bool) × ((length qs ≡ 8 * length bs)
                × (bits_of bs ≡ bit_xor (crc16_arc bs * 2 ^ (8 * length bs)) (product qs)))))
unfolding crc16_arc
crc16_arc-residue bs h = (
  crc_from-lt bs 0 (omega arith) h,
  (crc_from-append bs _ 0 ∙ own_bytes (crc_from 0 bs), crc16_arc_lem bs h),
)
