-- ===== src/Bits/Xor.antt =====
-- Exclusive or as an addition of bits: it is associative and commutative, and shifts pass through it.
use Prim.Native.Nat.{differ}
use lora_mqtt.Prelude.{
  ℕ, zero, suc, ◌+◌, ◌*◌, ◌/◌, ◌%◌, ◌^◌, ◌≤◌, ◌<◌, ◌≡◌, refl, ap₂, sym, ◌∙◌, bit_xor, arith,
}
use native.Mathlib.Nat.{one-le-pow}
use lora_mqtt.Bits.{xor_step, differ-lt, xor_blocks, xor_zero, zero_xor}

xor-parts :
    (a b : ℕ)
    → (bit_xor a b / 2 ≡ bit_xor (a / 2) (b / 2)) × (bit_xor a b % 2 ≡ differ (a % 2) (b % 2))
xor-parts a b =
    let bit = differ-lt (a % 2) (b % 2) (omega arith) (omega arith) in
    let parts = xor_step a b in (omega arith, omega arith)

differ_assoc : (x y z : ℕ) → x < 2 → y < 2 → z < 2 → differ (differ x y) z ≡ differ x (differ y z)
differ_assoc zero y z p q r = refl
differ_assoc (suc zero) zero z p q r = refl
differ_assoc (suc zero) (suc zero) zero p q r = refl
differ_assoc (suc zero) (suc zero) (suc zero) p q r = refl
differ_assoc (suc zero) (suc zero) (suc (suc z)) p q r = absurd (omega arith)
differ_assoc (suc zero) (suc (suc y)) z p q r = absurd (omega arith)
differ_assoc (suc (suc x)) y z p q r = absurd (omega arith)

differ_comm : (x y : ℕ) → differ x y ≡ differ y x
differ_comm zero zero = refl
differ_comm zero (suc y) = refl
differ_comm (suc x) zero = refl
differ_comm (suc x) (suc y) = differ_comm x y

xor_comm_upto : (n a b : ℕ) → a ≤ n → b ≤ n → bit_xor a b ≡ bit_xor b a
xor_comm_upto zero a b p q =
    let x : a ≡ 0 = omega arith in let y : b ≡ 0 = omega arith in rw (x, y) refl
xor_comm_upto (suc n) a b p q =
    let ih = xor_comm_upto n (a / 2) (b / 2) (omega arith) (omega arith) in
    omega (arith, ih, xor_step a b, xor_step b a, differ_comm (a % 2) (b % 2))

xor_assoc_upto :
    (n a b c : ℕ) → a ≤ n → b ≤ n → c ≤ n → bit_xor (bit_xor a b) c ≡ bit_xor a (bit_xor b c)
xor_assoc_upto zero a b c p q r =
    let x : a ≡ 0 = omega arith in
    let y : b ≡ 0 = omega arith in let z : c ≡ 0 = omega arith in rw (x, y, z) refl
xor_assoc_upto (suc n) a b c p q r =
    let ih = xor_assoc_upto n (a / 2) (b / 2) (c / 2) (omega arith) (omega arith) (omega arith) in
    let bits = differ_assoc (a % 2) (b % 2) (c % 2) (omega arith) (omega arith) (omega arith) in
    let left : bit_xor (bit_xor a b) c
        ≡ bit_xor (bit_xor (a / 2) (b / 2)) (c / 2) * 2 + differ (differ (a % 2) (b % 2)) (c % 2) =
      xor_step (bit_xor a b) c ∙ rw ((xor-parts a b).0, (xor-parts a b).1) refl in
    let right : bit_xor a (bit_xor b c)
        ≡ bit_xor (a / 2) (bit_xor (b / 2) (c / 2)) * 2 + differ (a % 2) (differ (b % 2) (c % 2)) =
      xor_step a (bit_xor b c) ∙ rw ((xor-parts b c).0, (xor-parts b c).1) refl in
    omega (arith, left, right, ih, bits)

pub xor_comm : (a b : ℕ) → bit_xor a b ≡ bit_xor b a
xor_comm a b = xor_comm_upto (a + b) a b (omega arith) (omega arith)

pub xor_assoc : (a b c : ℕ) → bit_xor (bit_xor a b) c ≡ bit_xor a (bit_xor b c)
xor_assoc a b c = xor_assoc_upto (a + b + c) a b c (omega arith) (omega arith) (omega arith)

pub xor_shift : (k a b : ℕ) → bit_xor (a * 2 ^ k) (b * 2 ^ k) ≡ bit_xor a b * 2 ^ k
xor_shift k a b =
    let z = one-le-pow k 2 (omega arith) in
    ap₂ bit_xor (let f : a * 2 ^ k ≡ a * 2 ^ k + 0 = omega arith in f)
      (let f : b * 2 ^ k ≡ b * 2 ^ k + 0 = omega arith in f)
    ∙ xor_blocks k a 0 b 0 z z
    ∙ omega (arith, xor_zero 0)

pub xor_sum : (k q r : ℕ) → r < 2 ^ k → q * 2 ^ k + r ≡ bit_xor r (q * 2 ^ k)
xor_sum k q r h = sym (
    ap₂ bit_xor (let f : r ≡ 0 * 2 ^ k + r = omega arith in f)
      (let f : q * 2 ^ k ≡ q * 2 ^ k + 0 = omega arith in f)
    ∙ xor_blocks k 0 r q 0 h (one-le-pow k 2 (omega arith))
    ∙ rw (xor_zero r, zero_xor q) refl)
