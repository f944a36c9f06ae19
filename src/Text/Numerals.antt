-- ===== src/Text/Numerals.antt =====
-- Numbers printed by snprintf and read by strtol in the bases 10 and 16, with text behind them.
use native.Mathlib.Nat.{pow-suc}
use lora_mqtt.Prelude.{
  ℕ, zero, suc, ◌+◌, ◌-◌, ◌*◌, ◌/◌, ◌%◌, ◌^◌, ◌<◌, ◌≤◌, ◌≡◌, refl, ap, ◌∙◌, sym, inl, inr, Bool,
  true, false, ◌||◌, List, [], ◌∷◌, ◌++◌, none, some, ltb, length, length-append, append_assoc,
  append-nil, Bool-cases, if◌then◌else◌, ◌==◌, All, All-append, pos, arith,
}
use lora_mqtt.Text.Format.{digit, digits, dec, hex}
use lora_mqtt.Text.Scan.{hex_value, is_digit, is_space, scan_dec, skip_space}
use lora_mqtt.Text.Digits.{scan_dec-dec, dec-IsDecimal, IsDecimal}
use lora_mqtt.Text.Radix.{scan_radix, has_prefix, below, magnitude, strtol_in}

-- What ends a number: a space or the end of the text.
abbrev pub IsEnd : List ℕ → Type 0
IsEnd [] = Unit
IsEnd (c ∷ r) = c ≡ b' '

abbrev IsNumeral : List ℕ → Type 0
IsNumeral s = All (λ c. (d : ℕ) × (hex_value c ≡ some d)) s

hex_value-digit : (d : ℕ) → d < 16 → hex_value (digit false d) ≡ some d
unfolding hex_value digit
hex_value-digit d h = ground arith

-- The digits in base 16.
more : (fuel n : ℕ) → 16 ≤ n → n < 16 ^ suc fuel → 0 < fuel
more zero n h l = absurd (omega arith)
more (suc fuel) n h l = omega arith

scan_radix-digit :
    (seen : Bool) (acc d : ℕ) (r : List ℕ)
    → d < 16
    → scan_radix 16 seen acc (digit false d ∷ r) ≡ scan_radix 16 true (acc * 16 + d) r
unfolding scan_radix
scan_radix-digit seen acc d r h =
    let small : ltb d 16 ≡ true = ground arith in rw (scan_radix, hex_value-digit d h, small) refl

scan_radix-digits :
    (fuel n : ℕ) (seen : Bool) (r : List ℕ)
    → n < 16 ^ fuel
    → 0 < fuel
    → scan_radix 16 seen 0 (digits fuel false 16 n ++ r) ≡ scan_radix 16 true n r
unfolding digits
scan_radix-digits zero n seen r h f = absurd (omega arith)
scan_radix-digits (suc fuel) n seen r h f = elim (Bool-cases (ltb n 16)) [
  | inl p ↦
      rw (digits, p)
        (scan_radix-digit seen 0 n r (ground arith)
          ∙ ap (λ (t : ℕ). scan_radix 16 true t r) (omega arith))
  | inr p ↦
      rw (digits, p)
        (ap (λ (t : List ℕ). scan_radix 16 seen 0 t)
            (append_assoc (digits fuel false 16 (n / 16)) (digit false (n % 16) ∷ []) r)
          ∙ scan_radix-digits fuel (n / 16) seen (digit false (n % 16) ∷ r)
              (omega (arith, pow-suc 16 fuel)) (more fuel n (ground arith) h)
          ∙ scan_radix-digit true (n / 16) (n % 16) r (omega arith)
          ∙ ap (λ (t : ℕ). scan_radix 16 true t r) (omega arith))
]

digits-IsNumeral : (fuel n : ℕ) → IsNumeral (digits fuel false 16 n)
unfolding digits
digits-IsNumeral zero n = tt
digits-IsNumeral (suc fuel) n = elim (Bool-cases (ltb n 16)) [
  | inl p ↦ rw (digits, p) ((n, hex_value-digit n (ground arith)), tt)
  | inr p ↦
      rw (digits, p)
        (All-append (λ c. (d : ℕ) × (hex_value c ≡ some d)) (digits fuel false 16 (n / 16)) _
          (digits-IsNumeral fuel (n / 16)) ((n % 16, hex_value-digit (n % 16) (omega arith)), tt))
]

length-digits : (fuel n : ℕ) → 0 < length (digits (suc fuel) false 16 n)
unfolding digits
length-digits fuel n = elim (Bool-cases (ltb n 16)) [
  | inl p ↦ rw (digits, p) (omega arith)
  | inr p ↦
      rw (digits, p)
        (omega (arith, length-append (digits fuel false 16 (n / 16)) (digit false (n % 16) ∷ [])))
]

-- Base 10 reads what scan_dec reads.
below-decimal : (c : ℕ) → below 10 (hex_value c) ≡ (if is_digit c then some (c - b'0') else none)
unfolding hex_value is_digit
below-decimal c = ground arith

scan_radix-scan_dec :
    (seen : Bool) (acc : ℕ) (s : List ℕ) → scan_radix 10 seen acc s ≡ scan_dec seen acc s
unfolding scan_radix scan_dec
scan_radix-scan_dec seen acc [] = refl
scan_radix-scan_dec seen acc (c ∷ s) = elim (Bool-cases (is_digit c)) [
  | inl p ↦
      rw (scan_dec, scan_radix, below-decimal c, p)
        (scan_radix-scan_dec true (acc * 10 + (c - b'0')) s)
  | inr p ↦ rw (scan_dec, scan_radix, below-decimal c, p) refl
]

is_digit-IsNumeral : (s : List ℕ) → IsDecimal s → IsNumeral s
unfolding is_digit hex_value
is_digit-IsNumeral [] h = tt
is_digit-IsNumeral (c ∷ s) h =
    let d : hex_value c ≡ some (c - b'0') = ground arith in
    ((c - b'0', d), is_digit-IsNumeral s h.1)

-- A digit is no white space, no sign, and not the `x` of a prefix.
module _ (c d : ℕ) (h : hex_value c ≡ some d) where
  space-numeral : is_space c ≡ false
  unfolding hex_value is_space
  space-numeral = ground arith

  minus-numeral : (c == b'-') ≡ false
  unfolding hex_value
  minus-numeral = ground arith

  plus-numeral : (c == b'+') ≡ false
  unfolding hex_value
  plus-numeral = ground arith

  x-numeral : ((c == b'x') || (c == b'X')) ≡ false
  unfolding hex_value
  x-numeral = ground arith

no_prefix : (s r : List ℕ) → IsNumeral s → IsEnd r → 0 < length s → has_prefix (s ++ r) ≡ false
no_prefix [] r h e l = absurd (omega arith)
no_prefix (c ∷ []) [] h e l = refl
no_prefix (c ∷ []) (x ∷ r) h e l = rw e (ground arith)
no_prefix (c ∷ d ∷ s) r h e l = let other = x-numeral d h.1.0.0 h.1.0.1 in ground (arith, other)

-- A number that the scan reads to its end is what strtol returns.
strtol_in-scan :
    (base n : ℕ) (s r : List ℕ)
    → IsNumeral s
    → IsEnd r
    → 0 < length s
    → (base == 0) ≡ false
    → n < 2 ^ 63
    → scan_radix base false 0 (s ++ r) ≡ some (n, r)
    → strtol_in base (s ++ r) ≡ (pos n, r)
unfolding strtol_in skip_space magnitude
strtol_in-scan base n [] r h e l z b q = absurd (omega arith)
strtol_in-scan base n (c ∷ s) r h e l z b q =
    let small : ltb n (2 ^ 63) ≡ true = ground arith in
    let bare = no_prefix (c ∷ s) r h e l in
    let space = space-numeral c h.0.0 h.0.1 in
    let minus = minus-numeral c h.0.0 h.0.1 in
    let plus = plus-numeral c h.0.0 h.0.1 in
    rw (skip_space, space, minus, plus, magnitude, bare, z, q, small) refl

scan_radix-end : (base n : ℕ) (r : List ℕ) → IsEnd r → scan_radix base true n r ≡ some (n, r)
unfolding scan_radix hex_value
scan_radix-end base n [] e = refl
scan_radix-end base n (c ∷ r) e = rw e refl

-- A number below 2 ^ 63 that was printed is read back, up to a space or the end of the text.
pub strtol_in-hex :
    (n : ℕ) (r : List ℕ) → n < 2 ^ 63 → IsEnd r → strtol_in 16 (hex n ++ r) ≡ (pos n, r)
unfolding hex
strtol_in-hex n r b e =
    strtol_in-scan 16 n (digits 16 false 16 n) r (digits-IsNumeral 16 n) e (length-digits 15 n) refl
      b (scan_radix-digits 16 n false r (omega arith) (omega arith) ∙ scan_radix-end 16 n r e)

pub strtol_in-hex_end : (n : ℕ) → n < 2 ^ 63 → strtol_in 16 (hex n) ≡ (pos n, [])
strtol_in-hex_end n b =
    ap (λ (t : List ℕ). strtol_in 16 t) (sym (append-nil (hex n))) ∙ strtol_in-hex n [] b tt

pub strtol_in-dec :
    (n : ℕ) (r : List ℕ) → n < 2 ^ 63 → IsEnd r → strtol_in 10 (dec n ++ r) ≡ (pos n, r)
strtol_in-dec n r b e =
    let printed = dec-IsDecimal n in
    strtol_in-scan 10 n (dec n) r (is_digit-IsNumeral (dec n) printed.1) e printed.0 refl b
      (scan_dec-dec' n r b e)
  where
    scan_dec-dec' :
        (n : ℕ) (r : List ℕ)
        → n < 2 ^ 63
        → IsEnd r
        → scan_radix 10 false 0 (dec n ++ r) ≡ some (n, r)
    scan_dec-dec' n r b e =
        scan_radix-scan_dec false 0 (dec n ++ r)
        ∙ scan_dec-dec n false r (omega arith)
        ∙ sym (scan_radix-scan_dec true n r)
        ∙ scan_radix-end 10 n r e

pub strtol_in-dec_end : (n : ℕ) → n < 2 ^ 63 → strtol_in 10 (dec n) ≡ (pos n, [])
strtol_in-dec_end n b =
    ap (λ (t : List ℕ). strtol_in 10 t) (sym (append-nil (dec n))) ∙ strtol_in-dec n [] b tt
