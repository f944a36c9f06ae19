-- ===== src/Hex/Laws.antt =====
-- What the hexadecimal conversions of utils.c promise to their callers.
use mathlib.Core.List.{reverse, reverse-cons}
use lora_mqtt.Prelude.{
  ℕ, suc, ◌+◌, ◌*◌, ◌%◌, ◌<◌, ◌≡◌, refl, ap, sym, ◌∙◌, Bool, true, false, not, List, [], ◌∷◌, ◌++◌,
  some, none, append_assoc, append-nil, ◌==◌, if◌then◌else◌, length, All, arith,
}
use lora_mqtt.Text.Scan.{hex_value, is_space, scan_hex2, scan_digits}
use lora_mqtt.Hex.{parsed, rejected, hex_to_bytes, byte_at, le_value, be_value, load}
use lora_mqtt.Hex.Pairs.{pairs, forward_lem, backward_lem}

-- A text of even length is read pair by pair in either order, and one of odd length is refused.
pub hex_to_bytes_even :
    (s : List ℕ) (rev : Bool)
    → length s % 2 ≡ 0
    → hex_to_bytes s rev ≡ parsed (if rev then reverse (pairs s) else pairs s)
unfolding hex_to_bytes
hex_to_bytes_even s true h = rw (h, backward_lem s h)
hex_to_bytes_even s false h = rw (h, forward_lem s h)

pub hex_to_bytes_odd : (s : List ℕ) (rev : Bool) → length s % 2 ≡ 1 → hex_to_bytes s rev ≡ rejected
unfolding hex_to_bytes
hex_to_bytes_odd s rev h = rw h

be_value-le_value :
    (bs : List ℕ) (acc : ℕ) (tail : List ℕ)
    → le_value tail ≡ acc
    → be_value acc bs ≡ le_value (reverse bs ++ tail)
be_value-le_value [] acc tail h = sym h
be_value-le_value (b ∷ bs) acc tail h =
    be_value-le_value bs (acc * 256 + b) (b ∷ tail) (omega arith)
    ∙ ap le_value (sym (ap (λ t. t ++ tail) (reverse-cons b bs) ∙ append_assoc (reverse bs) _ _))

load-reverse :
    (be : Bool) (bs : List ℕ) → load be (if not be then reverse bs else bs) ≡ be_value 0 bs
load-reverse true bs = refl
load-reverse false bs = sym (be_value-le_value bs 0 [] refl ∙ ap le_value (append-nil (reverse bs)))

-- The number that a text of hexadecimal digits stands for.
abbrev pub IsHex : ℕ → Type 0
IsHex c = (d : ℕ) × (hex_value c ≡ some d)

abbrev pub hex_number : ℕ → List ℕ → ℕ
hex_number acc [] = acc
hex_number acc (c ∷ s) = elim (hex_value c) [
  | none ↦ hex_number (acc * 16) s
  | some d ↦ hex_number (acc * 16 + d) s
]

module _ (c d : ℕ) (h : hex_value c ≡ some d) where
  is_space-hex : is_space c ≡ false
  unfolding hex_value is_space
  is_space-hex = ground arith

  hex-ne-plus : (c == b'+') ≡ false
  unfolding hex_value
  hex-ne-plus = ground arith

  hex-ne-minus : (c == b'-') ≡ false
  unfolding hex_value
  hex-ne-minus = ground arith

  hex_value-lt : d < 16
  unfolding hex_value
  hex_value-lt = ground arith

  scan_digits-hex :
      (w acc : ℕ) (s : List ℕ) → scan_digits (suc w) acc (c ∷ s) ≡ scan_digits w (acc * 16 + d) s
  unfolding scan_digits
  scan_digits-hex w acc s = rw (h, scan_digits)

byte_at-hex :
    (c d a b : ℕ) (s : List ℕ)
    → hex_value c ≡ some a
    → hex_value d ≡ some b
    → byte_at (c ∷ d ∷ s) ≡ a * 16 + b
unfolding byte_at scan_hex2
byte_at-hex c d a b s p q =
    rw (is_space-hex c a p, hex-ne-plus c a p, hex-ne-minus c a p)
      (omega (
        arith,
        scan_digits-hex c a p 1 0 (d ∷ s),
        scan_digits-hex d b q 0 (0 * 16 + a) s,
        hex_value-lt c a p,
        hex_value-lt d b q,
      ))

hex_number-cons :
    (c a acc : ℕ) (s : List ℕ)
    → hex_value c ≡ some a
    → hex_number acc (c ∷ s) ≡ hex_number (acc * 16 + a) s
hex_number-cons c a acc s h = rw (h, hex_number)

be_value-pairs :
    (s : List ℕ) (acc : ℕ)
    → length s % 2 ≡ 0
    → All IsHex s
    → be_value acc (pairs s) ≡ hex_number acc s
be_value-pairs [] acc e h = refl
be_value-pairs (c ∷ []) acc e h = absurd (omega arith)
be_value-pairs (c ∷ d ∷ s) acc e (p, (q, h)) =
    be_value-pairs s (acc * 256 + byte_at (c ∷ d ∷ s)) (omega arith) h
    ∙ ap (λ (t : ℕ). hex_number t s)
        (let f : acc * 256 + byte_at (c ∷ d ∷ s) ≡ (acc * 16 + p.0) * 16 + q.0 =
            omega (arith, byte_at-hex c d p.0 q.0 s p.1 q.1) in
          f)
    ∙ sym (hex_number-cons c p.0 acc (d ∷ s) p.1 ∙ hex_number-cons d q.0 (acc * 16 + p.0) s q.1)

-- A text of hexadecimal digits of even length, parsed in the byte order that the callers choose for
-- the host and read back as an integer of that host, is the number that the text stands for, on
-- hosts of both byte orders.
pub load-hex_to_bytes :
    (be : Bool) (s : List ℕ)
    → length s % 2 ≡ 0
    → All IsHex s
    → (bs : List ℕ) × (hex_to_bytes s (not be) ≡ parsed bs) × (load be bs ≡ hex_number 0 s)
load-hex_to_bytes be s e h =
    (_, hex_to_bytes_even s (not be) e, load-reverse be (pairs s) ∙ be_value-pairs s 0 e h)
