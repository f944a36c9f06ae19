-- ===== src/Numbers/Swap.antt =====
-- utils.c: the conversions of the byte order, byte by byte.
use lora_mqtt.Prelude.{
  ℕ, ◌+◌, ◌*◌, ◌/◌, ◌%◌, ◌^◌, ◌<◌, ◌≡◌, refl, Bool, true, false, List, [], ◌∷◌, bit_and, bit_or,
  arith, All, length,
}
use lora_mqtt.Bits.{and_byte, or_disjoint}
use lora_mqtt.Hex.{le_value, be_value, load}
use lora_mqtt.Numbers.{
  uint16_swap_bytes, uint32_swap_bytes, uint64_swap_bytes, uint16_to_le, uint32_to_le, uint64_to_le,
}

-- The byte at bit `k`.
abbrev byte : ℕ → ℕ → ℕ
byte n k = n / 2 ^ k % 256

-- What stands above bit `m`, and one more part below it.
glue : (m p x y x' y' : ℕ) → x' ≡ x → y' ≡ y → x ≡ p * 2 ^ m → y < 2 ^ m → bit_or x' y' ≡ x + y
glue m p x y x' y' a b h l = rw (a, b) (or_disjoint m p x y h l)

module _ (n : ℕ) where
  swap16 : uint16_swap_bytes n ≡ byte n 0 * 2 ^ 8 + byte n 8
  unfolding uint16_swap_bytes
  swap16 =
      let a = and_byte 0 n in
      let b = and_byte 8 n in
      let x : bit_and n 0xff * 2 ^ 8 ≡ byte n 0 * 2 ^ 8 = omega arith in
      let y : bit_and n 0xff00 / 2 ^ 8 ≡ byte n 8 = omega arith in
      omega (arith, glue 8 (byte n 0) _ _ _ _ x y refl (omega arith))

  swap32 :
      uint32_swap_bytes n ≡ byte n 0 * 2 ^ 24 + byte n 8 * 2 ^ 16 + byte n 16 * 2 ^ 8 + byte n 24
  unfolding uint32_swap_bytes
  swap32 =
      let a = and_byte 0 n in
      let b = and_byte 8 n in
      let c = and_byte 16 n in
      let d = and_byte 24 n in
      let x : bit_and n 0xff * 2 ^ 24 % 2 ^ 32 ≡ byte n 0 * 2 ^ 24 = omega arith in
      let y : bit_and n 0xff00 * 2 ^ 8 % 2 ^ 32 ≡ byte n 8 * 2 ^ 16 = omega arith in
      let z : bit_and n 0xff0000 / 2 ^ 8 ≡ byte n 16 * 2 ^ 8 = omega arith in
      let w : bit_and n 0xff000000 / 2 ^ 24 ≡ byte n 24 = omega arith in
      let one = glue 24 (byte n 0) _ _ _ _ x y refl (omega arith) in
      let two = glue 16 (byte n 0 * 2 ^ 8 + byte n 8) _ _ _ _ one z (omega arith) (omega arith) in
      glue 8 (byte n 0 * 2 ^ 16 + byte n 8 * 2 ^ 8 + byte n 16) _ _ _ _ two w (omega arith)
        (omega arith)

  swap64 :
      uint64_swap_bytes n
      ≡ byte n 0 * 2 ^ 56
        + byte n 8 * 2 ^ 48
        + byte n 16 * 2 ^ 40
        + byte n 24 * 2 ^ 32
        + byte n 32 * 2 ^ 24
        + byte n 40 * 2 ^ 16
        + byte n 48 * 2 ^ 8
        + byte n 56
  unfolding uint64_swap_bytes
  swap64 =
      let x0 : bit_and n 0xff * 2 ^ 56 % 2 ^ 64 ≡ byte n 0 * 2 ^ 56 = omega (arith, and_byte 0 n) in
      let x1 : bit_and n 0xff00 * 2 ^ 40 % 2 ^ 64 ≡ byte n 8 * 2 ^ 48 =
        omega (arith, and_byte 8 n) in
      let x2 : bit_and n 0xff0000 * 2 ^ 24 % 2 ^ 64 ≡ byte n 16 * 2 ^ 40 =
        omega (arith, and_byte 16 n) in
      let x3 : bit_and n 0xff000000 * 2 ^ 8 % 2 ^ 64 ≡ byte n 24 * 2 ^ 32 =
        omega (arith, and_byte 24 n) in
      let x4 : bit_and n 0xff00000000 / 2 ^ 8 ≡ byte n 32 * 2 ^ 24 = omega (arith, and_byte 32 n) in
      let x5 : bit_and n 0xff0000000000 / 2 ^ 24 ≡ byte n 40 * 2 ^ 16 =
        omega (arith, and_byte 40 n) in
      let x6 : bit_and n 0xff000000000000 / 2 ^ 40 ≡ byte n 48 * 2 ^ 8 =
        omega (arith, and_byte 48 n) in
      let x7 : bit_and n 0xff00000000000000 / 2 ^ 56 ≡ byte n 56 = omega (arith, and_byte 56 n) in
      let s1 = glue 56 (byte n 0) _ _ _ _ x0 x1 refl (omega arith) in
      let s2 = glue 48 (byte n 0 * 2 ^ 8 + byte n 8) _ _ _ _ s1 x2 (omega arith) (omega arith) in
      let s3 =
        glue 40 (byte n 0 * 2 ^ 16 + byte n 8 * 2 ^ 8 + byte n 16) _ _ _ _ s2 x3 (omega arith)
          (omega arith) in
      let s4 =
        glue 32 (byte n 0 * 2 ^ 24 + byte n 8 * 2 ^ 16 + byte n 16 * 2 ^ 8 + byte n 24) _ _ _ _ s3
          x4 (omega arith) (omega arith) in
      let s5 =
        glue 24
          (byte n 0 * 2 ^ 32
            + byte n 8 * 2 ^ 24
            + byte n 16 * 2 ^ 16
            + byte n 24 * 2 ^ 8
            + byte n 32)
          _ _ _ _ s4 x5 (omega arith) (omega arith) in
      let s6 =
        glue 16
          (byte n 0 * 2 ^ 40
            + byte n 8 * 2 ^ 32
            + byte n 16 * 2 ^ 24
            + byte n 24 * 2 ^ 16
            + byte n 32 * 2 ^ 8
            + byte n 40)
          _ _ _ _ s5 x6 (omega arith) (omega arith) in
      glue 8
        (byte n 0 * 2 ^ 48
          + byte n 8 * 2 ^ 40
          + byte n 16 * 2 ^ 32
          + byte n 24 * 2 ^ 24
          + byte n 32 * 2 ^ 16
          + byte n 40 * 2 ^ 8
          + byte n 48)
        _ _ _ _ s6 x7 (omega arith) (omega arith)

abbrev pub IsByte : ℕ → Type 0
IsByte b = b < 256

pub to_le16 :
    (be : Bool) (bs : List ℕ)
    → length bs ≡ 2
    → All IsByte bs
    → uint16_to_le be (load be bs) ≡ be_value 0 bs
to_le16 true bs n h = refl
to_le16 false ([]) n h = absurd (omega arith)
to_le16 false (a ∷ []) n h = absurd (omega arith)
to_le16 false (a ∷ b ∷ i ∷ bs) n h = absurd (omega arith)
to_le16 false (a ∷ b ∷ []) n (p0, (p1, h)) = omega (arith, swap16 (le_value (a ∷ b ∷ [])))

pub to_le32 :
    (be : Bool) (bs : List ℕ)
    → length bs ≡ 4
    → All IsByte bs
    → uint32_to_le be (load be bs) ≡ be_value 0 bs
to_le32 true bs n h = refl
to_le32 false ([]) n h = absurd (omega arith)
to_le32 false (a ∷ []) n h = absurd (omega arith)
to_le32 false (a ∷ b ∷ []) n h = absurd (omega arith)
to_le32 false (a ∷ b ∷ c ∷ []) n h = absurd (omega arith)
to_le32 false (a ∷ b ∷ c ∷ d ∷ i ∷ bs) n h = absurd (omega arith)
to_le32 false (a ∷ b ∷ c ∷ d ∷ []) n (p0, (p1, (p2, (p3, h)))) =
    omega (arith, swap32 (le_value (a ∷ b ∷ c ∷ d ∷ [])))

pub to_le64 :
    (be : Bool) (bs : List ℕ)
    → length bs ≡ 8
    → All IsByte bs
    → uint64_to_le be (load be bs) ≡ be_value 0 bs
to_le64 true bs n h = refl
to_le64 false ([]) n h = absurd (omega arith)
to_le64 false (a ∷ []) n h = absurd (omega arith)
to_le64 false (a ∷ b ∷ []) n h = absurd (omega arith)
to_le64 false (a ∷ b ∷ c ∷ []) n h = absurd (omega arith)
to_le64 false (a ∷ b ∷ c ∷ d ∷ []) n h = absurd (omega arith)
to_le64 false (a ∷ b ∷ c ∷ d ∷ e ∷ []) n h = absurd (omega arith)
to_le64 false (a ∷ b ∷ c ∷ d ∷ e ∷ f ∷ []) n h = absurd (omega arith)
to_le64 false (a ∷ b ∷ c ∷ d ∷ e ∷ f ∷ g ∷ []) n h = absurd (omega arith)
to_le64 false (a ∷ b ∷ c ∷ d ∷ e ∷ f ∷ g ∷ z ∷ i ∷ bs) n h = absurd (omega arith)
to_le64 false (a ∷ b ∷ c ∷ d ∷ e ∷ f ∷ g ∷ z ∷ []) n
      (p0, (p1, (p2, (p3, (p4, (p5, (p6, (p7, ok)))))))) =
    omega (arith, swap64 (le_value (a ∷ b ∷ c ∷ d ∷ e ∷ f ∷ g ∷ z ∷ [])))
