-- ===== src/Numbers/Crc/Division.antt =====
-- utils.c: crc16_arc as a division of polynomials over the field of two elements.
use native.Mathlib.Nat.{pow-suc}
use lora_mqtt.Prelude.{
  ℕ, zero, suc, ◌+◌, ◌*◌, ◌/◌, ◌%◌, ◌^◌, ◌<◌, ◌≡◌, refl, ap, sym, ◌∙◌, List, [], ◌∷◌, ◌++◌, bit_and,
  bit_xor, arith, All, ◌==◌, if◌then◌else◌, Bool, length, length-append,
}
use lora_mqtt.Bits.{and_one, xor_zero, zero_xor}
use lora_mqtt.Bits.Xor.{xor_assoc, xor_comm, xor_shift, xor_sum}
use lora_mqtt.Numbers.{crc_bits, crc_from}
use lora_mqtt.Numbers.Swap.{IsByte}

-- x^16 + x^15 + x^2 + 1, where the lowest bit of a number stands for the highest power.
abbrev pub polynomial : ℕ
polynomial = 2 ^ 0 + 2 ^ 1 + 2 ^ 14 + 2 ^ 16

-- The product of the polynomial and one with the given coefficients, that of the highest power first.
pub product : List Bool → ℕ
product [] = 0
product (q ∷ qs) = bit_xor (if q then polynomial else 0) (product qs * 2)

-- The polynomial of a message: the bits of each byte from the lowest one on.
pub bits_of : List ℕ → ℕ
bits_of [] = 0
bits_of (b ∷ bs) = bits_of bs * 2 ^ 8 + b

even_round : (c : ℕ) → c % 2 ≡ 0 → c ≡ bit_xor 0 (c / 2 * 2)
even_round c h = omega (arith, zero_xor (c / 2 * 2))

odd_round : (c : ℕ) → c % 2 ≡ 1 → c ≡ bit_xor polynomial (bit_xor (c / 2) 0xA001 * 2)
odd_round c h =
    let shifted = xor_shift 1 (c / 2) 0xA001 in
    let one = xor_sum 1 (c / 2) 1 (omega arith) in
    sym (
      ap (λ (t : ℕ). bit_xor polynomial t) (sym shifted ∙ xor_comm (c / 2 * 2) 0x14002)
      ∙ sym (xor_assoc polynomial 0x14002 (c / 2 * 2))
      ∙ omega (arith, one))

-- A bit that leaves the register takes the polynomial with it.
round_lem :
    (c : ℕ)
    → c
      ≡ bit_xor
          (if c % 2 == 1 then polynomial else 0)
          ((if bit_and c 1 == 0 then c / 2 else bit_xor (c / 2) 0xA001) * 2)
round_lem c = ground (arith, and_one c, even_round c, odd_round c)

-- `c` is the multiple with the coefficients `qs`, and the remainder `r` moved by their number.
abbrev pub Divides : ℕ → ℕ → List Bool → Type 0
Divides c r qs = c ≡ bit_xor (r * 2 ^ length qs) (product qs)

Divides-cons :
    (c next r : ℕ)
    → (q : Bool) → (qs : List Bool) → c ≡ bit_xor (if q then polynomial else 0) (next * 2)
    → Divides next r qs
    → Divides c r (q ∷ qs)
unfolding product
Divides-cons c next r q qs h k =
    let top : ℕ = if q then polynomial else 0 in
    let shifted = xor_shift 1 (r * 2 ^ length qs) (product qs) in
    let moved : r * 2 ^ suc (length qs) ≡ r * 2 ^ length qs * 2 =
      omega (arith, ap (λ (t : ℕ). r * t) (pow-suc 2 (length qs))) in
    h
    ∙ ap (λ (t : ℕ). bit_xor top t) (ap (λ (t : ℕ). t * 2) k ∙ sym shifted)
    ∙ ap (λ (t : ℕ). bit_xor top t) (xor_comm (r * 2 ^ length qs * 2) (product qs * 2))
    ∙ sym (xor_assoc top (product qs * 2) (r * 2 ^ length qs * 2))
    ∙ xor_comm (bit_xor top (product qs * 2)) (r * 2 ^ length qs * 2)
    ∙ ap (λ (t : ℕ). bit_xor t (bit_xor top (product qs * 2))) (sym moved)

crc_bits-Divides : (i c : ℕ) → (qs : List Bool) × ((length qs ≡ i) × Divides c (crc_bits i c) qs)
unfolding crc_bits product
crc_bits-Divides zero c = ([], (refl, omega (arith, xor_zero (c * 1))))
crc_bits-Divides (suc i) c =
    let next : ℕ = if bit_and c 1 == 0 then c / 2 else bit_xor (c / 2) 0xA001 in
    let ih = crc_bits-Divides i next in
    (
      (c % 2 == 1) ∷ ih.0,
      (ap suc ih.1.0, Divides-cons c next (crc_bits i next) (c % 2 == 1) ih.0 (round_lem c) ih.1.1),
    )

product-append :
    (xs ys : List Bool) → product (xs ++ ys) ≡ bit_xor (product ys * 2 ^ length xs) (product xs)
unfolding product
product-append [] ys = omega (arith, xor_zero (product ys * 1))
product-append (x ∷ xs) ys =
    Divides-cons (product (x ∷ (xs ++ ys))) (product (xs ++ ys)) (product ys) x xs refl
      (product-append xs ys)

-- Two divisions, where `next` is added behind the first.
module _ (c b next middle r : ℕ) (xs ys : List Bool) where
  moved_twice : r * 2 ^ length ys * 2 ^ length xs ≡ r * 2 ^ length (xs ++ ys)
  moved_twice = powers xs
    where
      powers : (zs : List Bool) → r * 2 ^ length ys * 2 ^ length zs ≡ r * 2 ^ length (zs ++ ys)
      powers [] = omega arith
      powers (z ∷ zs) =
          let ih = powers zs in
          omega (
            arith,
            ih,
            ap (λ (t : ℕ). r * 2 ^ length ys * t) (pow-suc 2 (length zs)),
            ap (λ (t : ℕ). r * t) (pow-suc 2 (length (zs ++ ys))),
          )

  joined :
      Divides (bit_xor middle next) r ys
      → bit_xor (middle * 2 ^ length xs) (next * 2 ^ length xs)
        ≡ bit_xor (r * 2 ^ length (xs ++ ys)) (product ys * 2 ^ length xs)
  joined h =
      xor_shift (length xs) middle next
      ∙ ap (λ (t : ℕ). t * 2 ^ length xs) h
      ∙ sym (xor_shift (length xs) (r * 2 ^ length ys) (product ys))
      ∙ ap (λ (t : ℕ). bit_xor t (product ys * 2 ^ length xs)) moved_twice

  Divides-append :
      b < 2 ^ length xs
      → Divides (bit_xor c b) middle xs
      → Divides (bit_xor middle next) r ys
      → Divides (bit_xor c (next * 2 ^ length xs + b)) r (xs ++ ys)
  Divides-append p h k =
      ap (λ (t : ℕ). bit_xor c t) (xor_sum (length xs) next b p)
      ∙ sym (xor_assoc c b (next * 2 ^ length xs))
      ∙ ap (λ (t : ℕ). bit_xor t (next * 2 ^ length xs))
          (h ∙ xor_comm (middle * 2 ^ length xs) (product xs))
      ∙ xor_assoc (product xs) (middle * 2 ^ length xs) (next * 2 ^ length xs)
      ∙ xor_comm (product xs) (bit_xor (middle * 2 ^ length xs) (next * 2 ^ length xs))
      ∙ ap (λ (t : ℕ). bit_xor t (product xs)) (joined k)
      ∙ xor_assoc (r * 2 ^ length (xs ++ ys)) (product ys * 2 ^ length xs) (product xs)
      ∙ ap (λ (t : ℕ). bit_xor (r * 2 ^ length (xs ++ ys)) t) (sym (product-append xs ys))

-- The register after the bytes is the remainder of register and message.
pub crc_from-Divides :
    (bs : List ℕ) (c : ℕ)
    → All IsByte bs
    → (qs : List Bool) × ((length qs ≡ 8 * length bs)
        × Divides (bit_xor c (bits_of bs)) (crc_from c bs) qs)
unfolding crc_from bits_of product
crc_from-Divides [] c h = ([], (refl, omega (arith, xor_zero c, xor_zero (c * 1))))
crc_from-Divides (b ∷ bs) c (h, k) =
    let first = crc_bits-Divides 8 (bit_xor c b) in
    let rest = crc_from-Divides bs (crc_bits 8 (bit_xor c b)) k in
    (
      first.0 ++ rest.0,
      (
        length-append first.0 rest.0 ∙ omega (arith, first.1.0, rest.1.0),
        ap (λ (t : ℕ). bit_xor c (bits_of bs * 2 ^ t + b)) (sym first.1.0)
            ∙ Divides-append c b (bits_of bs) (crc_bits 8 (bit_xor c b))
                (crc_from (crc_bits 8 (bit_xor c b)) bs) first.0 rest.0
                (omega (arith, ap (λ (t : ℕ). 2 ^ t) first.1.0)) first.1.1 rest.1.1,
      ),
    )
