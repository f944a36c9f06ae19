-- ===== src/Modules/Analog/Lines.antt =====
-- modules/umdk-adc.c: the mask that `set_lines` makes of the numbers of the lines.
use mathlib.Core.Path.{subst}
use lora_mqtt.Prelude.{
  ℕ, zero, suc, ◌+◌, ◌-◌, ◌*◌, ◌/◌, ◌%◌, ◌^◌, ◌<◌, ◌≡◌, refl, ap, sym, ◌∙◌, inl, inr, Bool, true,
  false, ◌&&◌, List, [], ◌∷◌, ◌++◌, leb, ◌==◌, if◌then◌else◌, length, length-append, bit_or, arith,
  All, take-all, ◌≤◌, Bool-cases, append-nil, append_assoc,
}
use lora_mqtt.Text.Literal.{codes}
use lora_mqtt.Text.Format.{dec, hex_byte}
use lora_mqtt.Text.Scan.{is_digit}
use lora_mqtt.Text.Digits.{EndsNumber, dec-IsDecimal, strtol-dec}
use lora_mqtt.Modules.Analog.{adc_lines, enabled, umdk_adc_command}

-- The numbers with a space before each but the first.
abbrev pub spaced : List ℕ → List ℕ
spaced [] = []
spaced (n ∷ ns) = b' ' ∷ (dec n ++ spaced ns)

abbrev named : List ℕ → ℕ → ℕ
named [] line = 0
named (n ∷ ns) line = if n == line then 1 else named ns line

-- Bit `line - 1` stands for a line from 1 to 7 that is among the numbers.
abbrev pub mask_of : List ℕ → ℕ
mask_of ns =
    named ns 1
    + (2 * named ns 2
        + (4 * named ns 3
            + (8 * named ns 4 + (16 * named ns 5 + (32 * named ns 6 + 64 * named ns 7)))))

abbrev pub IsLine : ℕ → Type 0
IsLine n = (0 < n) × (n < 256)

-- Setting one bit of a mask of seven.
abbrev with_bit : ℕ → ℕ → ℕ
with_bit m k = if m / 2 ^ k % 2 == 1 then m else m + 2 ^ k

abbrev all_masks : ℕ → ℕ → Bool
all_masks k zero = true
all_masks k (suc m) = (bit_or m (2 ^ k) == with_bit m k) && all_masks k m

masks : (k : ℕ) (m n : ℕ) → all_masks k n ≡ true → m < n → bit_or m (2 ^ k) ≡ with_bit m k
masks k m zero e h = absurd (omega arith)
masks k m (suc n) e h = elim (Bool-cases (m == n)) [
  | inl p ↦
      let same : m ≡ n = ground arith in
      subst (λ (x : ℕ). bit_or x (2 ^ k) ≡ with_bit x k) (sym same) (ground arith)
  | inr p ↦ masks k m n (ground arith) (ground arith)
]

all_checked : (k : ℕ) → k < 7 → all_masks k 128 ≡ true
all_checked zero h = refl
all_checked (suc zero) h = refl
all_checked (suc (suc zero)) h = refl
all_checked (suc (suc (suc zero))) h = refl
all_checked (suc (suc (suc (suc zero)))) h = refl
all_checked (suc (suc (suc (suc (suc zero))))) h = refl
all_checked (suc (suc (suc (suc (suc (suc zero)))))) h = refl
all_checked (suc (suc (suc (suc (suc (suc (suc k))))))) h = absurd (omega arith)

named-snoc :
    (seen : List ℕ) (n line : ℕ)
    → named (seen ++ n ∷ []) line ≡ (if n == line then 1 else named seen line)
named-snoc [] n line = refl
named-snoc (m ∷ seen) n line = let ih = named-snoc seen n line in ground (arith, ih)

named-lt : (ns : List ℕ) (line : ℕ) → named ns line < 2
named-lt [] line = omega arith
named-lt (n ∷ ns) line = let ih = named-lt ns line in ground (arith, ih)

pred : (k : ℕ) → suc k - 1 ≡ k
pred k = omega arith

-- The mask with one more number.
module _ (m : ℕ) (ns : List ℕ) (e : m ≡ mask_of ns) where
  snocs :
      (n : ℕ)
      → mask_of (ns ++ n ∷ [])
        ≡ (if n == 1 then 1 else named ns 1)
          + (2 * (if n == 2 then 1 else named ns 2)
              + (4 * (if n == 3 then 1 else named ns 3)
                  + (8 * (if n == 4 then 1 else named ns 4)
                      + (16 * (if n == 5 then 1 else named ns 5)
                          + (32 * (if n == 6 then 1 else named ns 6)
                              + 64 * (if n == 7 then 1 else named ns 7))))))
  snocs n =
      rw
        (
          named-snoc ns n 1,
          named-snoc ns n 2,
          named-snoc ns n 3,
          named-snoc ns n 4,
          named-snoc ns n 5,
          named-snoc ns n 6,
          named-snoc ns n 7,
        )
        refl

  small : All (λ line. named ns line < 2) (1 ∷ 2 ∷ 3 ∷ 4 ∷ 5 ∷ 6 ∷ 7 ∷ [])
  small = (
    named-lt ns 1,
    (
      named-lt ns 2,
      (named-lt ns 3, (named-lt ns 4, (named-lt ns 5, (named-lt ns 6, (named-lt ns 7, tt))))),
    ),
  )

  mask_of-lt : m < 128
  mask_of-lt = omega (
    arith, small.0, small.1.0, small.1.1.0, small.1.1.1.0, small.1.1.1.1.0, small.1.1.1.1.1.0,
    small.1.1.1.1.1.1.0,
  )

  bit_named : (k : ℕ) → k < 7 → with_bit m k ≡ mask_of (ns ++ suc k ∷ [])
  bit_named zero h = rw (snocs 1) (
      ground (
        arith, small.0, small.1.0, small.1.1.0, small.1.1.1.0, small.1.1.1.1.0, small.1.1.1.1.1.0,
        small.1.1.1.1.1.1.0,
      ))
  bit_named (suc zero) h = rw (snocs 2) (
      ground (
        arith, small.0, small.1.0, small.1.1.0, small.1.1.1.0, small.1.1.1.1.0, small.1.1.1.1.1.0,
        small.1.1.1.1.1.1.0,
      ))
  bit_named (suc (suc zero)) h = rw (snocs 3) (
      ground (
        arith, small.0, small.1.0, small.1.1.0, small.1.1.1.0, small.1.1.1.1.0, small.1.1.1.1.1.0,
        small.1.1.1.1.1.1.0,
      ))
  bit_named (suc (suc (suc zero))) h = rw (snocs 4) (
      ground (
        arith, small.0, small.1.0, small.1.1.0, small.1.1.1.0, small.1.1.1.1.0, small.1.1.1.1.1.0,
        small.1.1.1.1.1.1.0,
      ))
  bit_named (suc (suc (suc (suc zero)))) h = rw (snocs 5) (
      ground (
        arith, small.0, small.1.0, small.1.1.0, small.1.1.1.0, small.1.1.1.1.0, small.1.1.1.1.1.0,
        small.1.1.1.1.1.1.0,
      ))
  bit_named (suc (suc (suc (suc (suc zero))))) h = rw (snocs 6) (
      ground (
        arith, small.0, small.1.0, small.1.1.0, small.1.1.1.0, small.1.1.1.1.0, small.1.1.1.1.1.0,
        small.1.1.1.1.1.1.0,
      ))
  bit_named (suc (suc (suc (suc (suc (suc zero)))))) h = rw (snocs 7) (
      ground (
        arith, small.0, small.1.0, small.1.1.0, small.1.1.1.0, small.1.1.1.1.0, small.1.1.1.1.1.0,
        small.1.1.1.1.1.1.0,
      ))
  bit_named (suc (suc (suc (suc (suc (suc (suc k))))))) h = absurd (omega arith)

  enabled-mask_of : (n : ℕ) → 0 < n → enabled m n ≡ mask_of (ns ++ n ∷ [])
  enabled-mask_of zero p = absurd (omega arith)
  enabled-mask_of (suc k) p = elim (Bool-cases (leb (suc k) 7)) [
    | inl q ↦
        rw (q, pred k)
          (masks k m 128 (all_checked k (ground arith)) mask_of-lt ∙ bit_named k (ground arith))
    | inr q ↦ rw q (e ∙ sym (rw (snocs (suc k)) (ground arith)))
  ]

spaced-EndsNumber : (ns : List ℕ) → EndsNumber (spaced ns)
unfolding is_digit
spaced-EndsNumber [] = tt
spaced-EndsNumber (n ∷ ns) = refl

-- The loop from a place behind some of the numbers.
adc_lines-spaced :
    (fuel : ℕ) (seen ns : List ℕ)
    → length ns < fuel
    → All IsLine ns
    → adc_lines fuel (spaced ns) (mask_of seen) ≡ mask_of (seen ++ ns)
unfolding adc_lines
adc_lines-spaced zero seen ns h k = absurd (omega arith)
adc_lines-spaced (suc fuel) seen [] h k = sym (ap mask_of (append-nil seen))
adc_lines-spaced (suc fuel) seen (n ∷ ns) h ((p, q), k) =
    let read = (strtol-dec n (spaced ns) (omega arith) (spaced-EndsNumber ns)).1 in
    let line : n % 256 ≡ n = omega arith in
    let more : (n == 0) ≡ false = ground arith in
    rw (read, line, more, enabled-mask_of (mask_of seen) seen refl n p)
      (adc_lines-spaced fuel (seen ++ n ∷ []) ns (omega arith) k
        ∙ ap mask_of (append_assoc seen (n ∷ []) ns))

spaced-length : (ns : List ℕ) → length ns ≤ length (spaced ns)
spaced-length [] = omega arith
spaced-length (n ∷ ns) =
    let ih = spaced-length ns in omega (arith, length-append (dec n) (spaced ns))

first_line :
    (fuel n : ℕ) (ns : List ℕ)
    → length ns < fuel
    → IsLine n
    → All IsLine ns
    → adc_lines (suc fuel) (dec n ++ spaced ns) 0 ≡ mask_of (n ∷ ns)
unfolding adc_lines
first_line fuel n ns h (p, q) k =
    let read = (strtol-dec n (spaced ns) (omega arith) (spaced-EndsNumber ns)).0 in
    let line : n % 256 ≡ n = omega arith in
    let more : (n == 0) ≡ false = ground arith in
    rw (read, line, more, enabled-mask_of 0 [] refl n p) (adc_lines-spaced fuel (n ∷ []) ns h k)

-- Numbers from 1 to 255 behind `set_lines`, in decimal and with a space before each, become the mask
-- in which bit `line - 1` is set for each line from 1 to 7 among them, whatever their order and
-- however often, and the greater ones count for nothing, for a buffer of more than four characters.
pub umdk_adc_command-mask_of :
    (n bufsize : ℕ) (ns : List ℕ)
    → 4 < bufsize
    → All IsLine (n ∷ ns)
    → umdk_adc_command (codes "set_lines" ++ spaced (n ∷ ns)) bufsize
      ≡ codes "03" ++ hex_byte false (mask_of (n ∷ ns))
unfolding umdk_adc_command hex_byte
umdk_adc_command-mask_of n bufsize ns h (l, k) =
    let printed = (dec-IsDecimal n).0 in
    let enough : length ns < length (dec n ++ spaced ns) =
      omega (arith, length-append (dec n) (spaced ns), spaced-length ns, printed) in
    rw (first_line (length (dec n ++ spaced ns)) n ns enough l k)
      (take-all (codes "03" ++ hex_byte false (mask_of (n ∷ ns))) (bufsize - 1) (omega arith))
