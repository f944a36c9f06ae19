-- ===== src/Text/Digits.antt =====
-- Decimal numbers, printed by snprintf and read by strtol.
use native.Mathlib.Nat.{pow-suc}
use lora_mqtt.Prelude.{
  ℕ, zero, suc, ◌+◌, ◌-◌, ◌*◌, ◌/◌, ◌%◌, ◌^◌, ◌<◌, ◌≤◌, ◌≡◌, refl, ap, ◌∙◌, inl, inr, Bool, true,
  false, List, [], ◌∷◌, ◌++◌, some, ltb, length, length-append, length-replicate, replicate,
  append_assoc, Bool-cases, ◌==◌, All, All-append, pos, arith,
}
use lora_mqtt.Text.Format.{digit, digits, dec, pad}
use lora_mqtt.Text.Scan.{is_digit, is_space, scan_dec, strtol, skip_space}

is_digit-digit : (d : ℕ) → d < 10 → is_digit (digit false d) ≡ true
unfolding is_digit digit
is_digit-digit d h = ground arith

digit_value : (d : ℕ) → d < 10 → digit false d - b'0' ≡ d
unfolding digit
digit_value d h = ground arith

scan_dec-digit :
    (seen : Bool) (acc d : ℕ) (r : List ℕ)
    → d < 10
    → scan_dec seen acc (digit false d ∷ r) ≡ scan_dec true (acc * 10 + d) r
unfolding scan_dec
scan_dec-digit seen acc d r h = rw (scan_dec, is_digit-digit d h, digit_value d h) refl

more : (fuel n : ℕ) → 10 ≤ n → n < 10 ^ suc fuel → 0 < fuel
more zero n h l = absurd (omega arith)
more (suc fuel) n h l = omega arith

-- A number that its digits suffice for is read back, whatever follows it.
pub scan_dec-digits :
    (fuel n : ℕ) (seen : Bool) (r : List ℕ)
    → n < 10 ^ fuel
    → 0 < fuel
    → scan_dec seen 0 (digits fuel false 10 n ++ r) ≡ scan_dec true n r
unfolding digits
scan_dec-digits zero n seen r h f = absurd (omega arith)
scan_dec-digits (suc fuel) n seen r h f = elim (Bool-cases (ltb n 10)) [
  | inl p ↦
      rw (digits, p)
        (scan_dec-digit seen 0 n r (ground arith) ∙ ap (λ (t : ℕ). scan_dec true t r) (omega arith))
  | inr p ↦
      rw (digits, p)
        (ap (λ (t : List ℕ). scan_dec seen 0 t)
            (append_assoc (digits fuel false 10 (n / 10)) (digit false (n % 10) ∷ []) r)
          ∙ scan_dec-digits fuel (n / 10) seen (digit false (n % 10) ∷ r)
              (omega (arith, pow-suc 10 fuel)) (more fuel n (ground arith) h)
          ∙ scan_dec-digit true (n / 10) (n % 10) r (omega arith)
          ∙ ap (λ (t : ℕ). scan_dec true t r) (omega arith))
]

length-digits : (fuel n p : ℕ) → n < 10 ^ suc p → length (digits fuel false 10 n) ≤ suc p
unfolding digits
length-digits zero n p h = omega arith
length-digits (suc fuel) n zero h =
    let one : ltb n 10 ≡ true = ground arith in rw (digits, one) (omega arith)
length-digits (suc fuel) n (suc p) h = elim (Bool-cases (ltb n 10)) [
  | inl l ↦ rw (digits, l) (omega arith)
  | inr l ↦
      rw (digits, l)
        (let ih = length-digits fuel (n / 10) p (omega (arith, pow-suc 10 (suc p))) in
          omega
            (arith, ih, length-append (digits fuel false 10 (n / 10)) (digit false (n % 10) ∷ [])))
]

scan_dec-zeros :
    (k : ℕ) (seen : Bool) (s : List ℕ) (n : ℕ) (r : List ℕ)
    → ((b : Bool) → scan_dec b 0 s ≡ scan_dec true n r)
    → scan_dec seen 0 (replicate k b'0' ++ s) ≡ scan_dec true n r
unfolding scan_dec is_digit
scan_dec-zeros zero seen s n r h = h seen
scan_dec-zeros (suc k) seen s n r h = scan_dec-zeros k true s n r h

-- Padding to some digits does not change the number, and a number below 10 ^ (p + 1) is padded to
-- exactly p + 1 digits.
pub pad-dec :
    (p n : ℕ) (seen : Bool) (r : List ℕ)
    → n < 10 ^ suc p
    → n < 10 ^ 20
    → (scan_dec seen 0 (pad (suc p) (dec n) ++ r) ≡ scan_dec true n r)
      × (length (pad (suc p) (dec n)) ≡ suc p)
unfolding dec
pad-dec p n seen r h l =
    let zeros : List ℕ = replicate (suc p - length (digits 20 false 10 n)) b'0' in
    (
      ap (λ (t : List ℕ). scan_dec seen 0 t) (append_assoc zeros (digits 20 false 10 n) r)
          ∙ scan_dec-zeros (suc p - length (digits 20 false 10 n)) seen (digits 20 false 10 n ++ r)
              n r (λ b. scan_dec-digits 20 n b r l (omega arith)),
      omega (
        arith,
        length-append zeros (digits 20 false 10 n),
        length-replicate {A = ℕ} (suc p - length (digits 20 false 10 n)) b'0',
        length-digits 20 n p h,
      ),
    )

pub scan_dec-dec :
    (n : ℕ) (seen : Bool) (r : List ℕ)
    → n < 10 ^ 20
    → scan_dec seen 0 (dec n ++ r) ≡ scan_dec true n r
unfolding dec
scan_dec-dec n seen r l = scan_dec-digits 20 n seen r l (omega arith)

-- A decimal digit is no white space and no sign.
module _ (c : ℕ) (h : is_digit c ≡ true) where
  is_space-decimal : is_space c ≡ false
  unfolding is_digit is_space
  is_space-decimal = ground arith

  minus-decimal : (c == b'-') ≡ false
  unfolding is_digit
  minus-decimal = ground arith

  plus-decimal : (c == b'+') ≡ false
  unfolding is_digit
  plus-decimal = ground arith

abbrev pub IsDecimal : List ℕ → Type 0
IsDecimal s = All (λ c. is_digit c ≡ true) s

digits-IsDecimal : (fuel n : ℕ) → IsDecimal (digits fuel false 10 n)
unfolding digits
digits-IsDecimal zero n = tt
digits-IsDecimal (suc fuel) n = elim (Bool-cases (ltb n 10)) [
  | inl p ↦ rw (digits, p) (is_digit-digit n (ground arith), tt)
  | inr p ↦
      rw (digits, p)
        (All-append (λ c. is_digit c ≡ true) (digits fuel false 10 (n / 10)) _
          (digits-IsDecimal fuel (n / 10)) (is_digit-digit (n % 10) (omega arith), tt))
]

digits-length : (fuel n : ℕ) → 0 < length (digits (suc fuel) false 10 n)
unfolding digits
digits-length fuel n = elim (Bool-cases (ltb n 10)) [
  | inl p ↦ rw (digits, p) (omega arith)
  | inr p ↦
      rw (digits, p)
        (omega (arith, length-append (digits fuel false 10 (n / 10)) (digit false (n % 10) ∷ [])))
]

-- A number is printed as at least one digit and nothing else.
pub dec-IsDecimal : (n : ℕ) → (0 < length (dec n)) × IsDecimal (dec n)
unfolding dec
dec-IsDecimal n = (digits-length 19 n, digits-IsDecimal 20 n)

pub strtol-decimal :
    (c : ℕ) (s : List ℕ) (n : ℕ) (r : List ℕ)
    → is_digit c ≡ true
    → scan_dec false 0 (c ∷ s) ≡ some (n, r)
    → n < 2 ^ 63
    → (strtol (c ∷ s) ≡ (pos n, r)) × (skip_space (c ∷ s) ≡ c ∷ s)
unfolding strtol skip_space
strtol-decimal c s n r h e l =
    let small : ltb n (2 ^ 63) ≡ true = ground arith in
    (
      rw (skip_space, is_space-decimal c h, minus-decimal c h, plus-decimal c h, e, small) refl,
      rw (skip_space, is_space-decimal c h) refl,
    )

-- The same behind a space.
strtol-space :
    (c : ℕ) (s : List ℕ) (n : ℕ) (r : List ℕ)
    → is_digit c ≡ true
    → scan_dec false 0 (c ∷ s) ≡ some (n, r)
    → n < 2 ^ 63
    → strtol (b' ' ∷ c ∷ s) ≡ (pos n, r)
unfolding strtol skip_space is_space
strtol-space c s n r h e l =
    let small : ltb n (2 ^ 63) ≡ true = ground arith in
    rw (skip_space, is_space-decimal c h, minus-decimal c h, plus-decimal c h, e, small) refl

-- A text that does not go on with a digit.
abbrev pub EndsNumber : List ℕ → Type 0
EndsNumber [] = Unit
EndsNumber (c ∷ r) = is_digit c ≡ false

scan_dec-end : (n : ℕ) (r : List ℕ) → EndsNumber r → scan_dec true n r ≡ some (n, r)
unfolding scan_dec
scan_dec-end n [] h = refl
scan_dec-end n (c ∷ r) h = rw (scan_dec, h) refl

-- strtol of a number that was printed, at the start of a text and behind a space.
pub strtol-dec :
    (n : ℕ) (r : List ℕ)
    → n < 2 ^ 63
    → EndsNumber r
    → (strtol (dec n ++ r) ≡ (pos n, r)) × (strtol (b' ' ∷ (dec n ++ r)) ≡ (pos n, r))
strtol-dec n r h e =
    both (dec n) (dec-IsDecimal n) (scan_dec-dec n false r (omega arith) ∙ scan_dec-end n r e)
  where
    both :
        (s : List ℕ)
        → (0 < length s) × IsDecimal s
        → scan_dec false 0 (s ++ r) ≡ some (n, r)
        → (strtol (s ++ r) ≡ (pos n, r)) × (strtol (b' ' ∷ (s ++ r)) ≡ (pos n, r))
    both [] d q = absurd (omega (arith, d.0))
    both (c ∷ s) d q =
        ((strtol-decimal c (s ++ r) n r d.1.0 q h).0, strtol-space c (s ++ r) n r d.1.0 q h)
