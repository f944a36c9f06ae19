-- ===== src/Numbers/Sam.antt =====
-- utils.c: convert_from_be_sam and convert_to_be_sam, between two's complement and the sign and
-- magnitude that the devices send.
use lora_mqtt.Prelude.{
  ℕ, suc, ◌+◌, ◌-◌, ◌*◌, ◌%◌, ◌^◌, ◌<◌, ◌≤◌, ◌≡◌, refl, ap, sym, ◌∙◌, Bool, true, false, List, [],
  ◌∷◌, bit_and, arith, All, length, ltb, ◌==◌, if◌then◌else◌, Bool-cases, inl, inr, ◌⊎◌,
}
use mathlib.Core.Path.{subst}
use native.Mathlib.Nat.{pow-suc, mod-eq_of_lt, mod_self, zero-mod}
use lora_mqtt.Bits.{zero_and, and_zero, or_zero, zero_or, mask_and, and_mask, and_bit, cut-lt}
use lora_mqtt.Hex.{be_value, load}
use lora_mqtt.Numbers.{promoted, sign_mask, from_sam, convert_from_be_sam}
use lora_mqtt.Numbers.Swap.{IsByte, to_le16, to_le32, to_le64}

-- The number of a sign bit and a magnitude, in two's complement: `half` is the sign bit.
abbrev pub of_sam : ℕ → ℕ → ℕ
of_sam half u = if ltb u half then u else if u == half then 0 else half * 2 - (u - half)

-- `top` is two to the power `k`, at least `2 ^ suc n`.
module _ (k n u q : ℕ) (whole : 2 ^ k ≡ 2 * (q * 2 ^ n) + 2 * 2 ^ n) (l : u < 2 ^ suc n) where
  fits : u < 2 ^ k
  fits = omega (arith, pow-suc 2 n)

  module _ (p : u < 2 ^ n) where
    promoted-positive : promoted (2 ^ k) n u ≡ u
    unfolding promoted
    promoted-positive = ground arith

    sign_mask-positive : sign_mask (2 ^ k) n u ≡ 0
    unfolding sign_mask
    sign_mask-positive = ground arith

    from_sam-positive : from_sam (2 ^ k) n u ≡ u
    unfolding from_sam
    from_sam-positive =
        let all : 2 ^ k - 1 - 0 ≡ 2 ^ k - 1 = omega arith in
        rw
          (
            promoted-positive,
            sign_mask-positive,
            all,
            mask_and k u fits,
            and_zero ((bit_and u (2 ^ n) + (2 ^ k - u)) % 2 ^ k),
            or_zero u,
          )
          (mod-eq_of_lt l)

  module _ (p : 2 ^ n ≤ u) where
    abbrev m : ℕ
    m = u - 2 ^ n

    abbrev v : ℕ
    v = (2 * q + 1) * 2 ^ n + m

    promoted-negative : promoted (2 ^ k) n u ≡ v
    unfolding promoted
    promoted-negative = ground (arith, pow-suc 2 n)

    sign_mask-negative : sign_mask (2 ^ k) n u ≡ 2 ^ k - 1
    unfolding sign_mask
    sign_mask-negative = ground arith

    -- The low bits of what the subtraction leaves.
    unfoldable difference : ℕ
    difference = 2 ^ n + (2 ^ k - v)

    difference-lem : difference ≡ 2 ^ suc n - m
    unfolding difference
    difference-lem = omega (arith, pow-suc 2 n)

    from_sam-negative : from_sam (2 ^ k) n u ≡ difference % 2 ^ k % 2 ^ suc n
    unfolding from_sam difference
    from_sam-negative =
        let none_of : 2 ^ k - 1 - (2 ^ k - 1) ≡ 0 = omega arith in
        let low : m < 2 ^ n = omega (arith, pow-suc 2 n) in
        rw
          (
            promoted-negative,
            sign_mask-negative,
            none_of,
            zero_and v,
            and_bit n q m low,
            and_mask k (difference % 2 ^ k) (cut-lt k difference),
            zero_or (difference % 2 ^ k),
          )
          refl

    reduced : difference % 2 ^ k % 2 ^ suc n ≡ (if u == 2 ^ n then 0 else 2 ^ suc n - m)
    reduced = ground (
      arith,
      difference-lem,
      pow-suc 2 n,
      mod_self (2 ^ suc n),
      mod_self (2 ^ k),
      zero-mod (2 ^ suc n),
      λ (h : difference < 2 ^ k). mod-eq_of_lt h,
      λ (h : difference < 2 ^ suc n). mod-eq_of_lt h,
    )

from_sam_lem :
    (k n u q : ℕ)
    → 2 ^ k ≡ 2 * (q * 2 ^ n) + 2 * 2 ^ n
    → u < 2 ^ suc n
    → from_sam (2 ^ k) n u ≡ of_sam (2 ^ n) u
from_sam_lem k n u q whole l = elim (Bool-cases (ltb u (2 ^ n))) [
  | inl p ↦ from_sam-positive k n u q whole l (ground arith) ∙ ground arith
  | inr p ↦
      let big : 2 ^ n ≤ u = ground arith in
      from_sam-negative k n u q whole l big
      ∙ reduced k n u q whole l big
      ∙ ground (arith, pow-suc 2 n)
]

be_value-lt :
    (bs : List ℕ) (acc m : ℕ) → acc < m → All IsByte bs → be_value acc bs < m * 256 ^ length bs
be_value-lt [] acc m l h = omega arith
be_value-lt (b ∷ bs) acc m l (p, h) =
    let ih = be_value-lt bs (acc * 256 + b) (m * 256) (omega arith) h in
    omega (arith, ih, ap (λ (t : ℕ). m * t) (pow-suc 256 (length bs)))

bound :
    {size k : ℕ} (bs : List ℕ)
    → length bs ≡ size
    → size ≡ k
    → All IsByte bs
    → be_value 0 bs < 256 ^ k
bound {k = k} bs n s h =
    let e : length bs ≡ k = n ∙ s in
    let fits = be_value-lt bs 0 1 (omega arith) h in omega (arith, fits, ap (λ (t : ℕ). 256 ^ t) e)

load-one : (be : Bool) (bs : List ℕ) → length bs ≡ 1 → load be bs ≡ be_value 0 bs
load-one true bs n = refl
load-one false [] n = refl
load-one false (b ∷ []) n = omega arith
load-one false (b ∷ c ∷ bs) n = absurd (omega arith)

-- A claim about one size, at the variable that holds it.
moved :
    (be : Bool) {size k : ℕ} (bs : List ℕ)
    → size ≡ k
    → convert_from_be_sam be k (load be bs) ≡ of_sam (2 ^ (8 * k - 1)) (be_value 0 bs)
    → convert_from_be_sam be size (load be bs) ≡ of_sam (2 ^ (8 * size - 1)) (be_value 0 bs)
moved be bs s t =
    subst
      (λ (w : ℕ). convert_from_be_sam be w (load be bs) ≡ of_sam (2 ^ (8 * w - 1)) (be_value 0 bs))
      (sym s) t

-- The sizes that the code has a case for.
abbrev pub IsSize : ℕ → Type 0
IsSize size = (size ≡ 1) ⊎ ((size ≡ 2) ⊎ ((size ≡ 4) ⊎ (size ≡ 8)))

-- The bytes of an integer in sign and magnitude, the highest byte first, are turned into the same
-- number in two's complement, on hosts of both byte orders; minus zero becomes zero.
pub convert_from_be_sam_lem :
    (be : Bool) (size : ℕ) (bs : List ℕ)
    → IsSize size
    → length bs ≡ size
    → All IsByte bs
    → convert_from_be_sam be size (load be bs) ≡ of_sam (2 ^ (8 * size - 1)) (be_value 0 bs)
unfolding convert_from_be_sam
convert_from_be_sam_lem be size bs (inl s) n h =
    moved be bs s (
      rw (load-one be bs (n ∙ s))
        (from_sam_lem 32 7 (be_value 0 bs) 16777215 refl (bound bs n s h)))
convert_from_be_sam_lem be size bs (inr (inl s)) n h =
    moved be bs s (
      rw (to_le16 be bs (n ∙ s) h) (from_sam_lem 32 15 (be_value 0 bs) 65535 refl (bound bs n s h)))
convert_from_be_sam_lem be size bs (inr (inr (inl s))) n h =
    moved be bs s
      (rw (to_le32 be bs (n ∙ s) h) (from_sam_lem 32 31 (be_value 0 bs) 0 refl (bound bs n s h)))
convert_from_be_sam_lem be size bs (inr (inr (inr s))) n h =
    moved be bs s
      (rw (to_le64 be bs (n ∙ s) h) (from_sam_lem 64 63 (be_value 0 bs) 0 refl (bound bs n s h)))
