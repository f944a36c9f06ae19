-- ===== src/Hex/Digits.antt =====
-- Hexadecimal digits, printed and read.
use lora_mqtt.Prelude.{
  ℕ, suc, ◌+◌, ◌*◌, ◌/◌, ◌%◌, ◌<◌, ◌≡◌, Bool, false, List, ◌∷◌, ◌++◌, some, ◌==◌, arith,
}
use lora_mqtt.Text.Scan.{hex_value, is_space, scan_digits, scan_hex2}
use lora_mqtt.Text.Format.{digit, hex_byte}
use lora_mqtt.Hex.{byte_at}

module _ (upper : Bool) (d : ℕ) (small : d < 16) where
  pub hex_value-digit : hex_value (digit upper d) ≡ some d
  unfolding hex_value digit
  hex_value-digit = ground arith

  pub is_space-digit : is_space (digit upper d) ≡ false
  unfolding is_space digit
  is_space-digit = ground arith

  pub digit-ne-plus : (digit upper d == b'+') ≡ false
  unfolding digit
  digit-ne-plus = ground arith

  pub digit-ne-minus : (digit upper d == b'-') ≡ false
  unfolding digit
  digit-ne-minus = ground arith

scan_digits-digit :
    (upper : Bool) (d w acc : ℕ) (s : List ℕ)
    → d < 16
    → scan_digits (suc w) acc (digit upper d ∷ s) ≡ scan_digits w (acc * 16 + d) s
unfolding scan_digits
scan_digits-digit upper d w acc s h = rw (hex_value-digit upper d h, scan_digits)

pub byte_at-digits :
    (upper : Bool) (h l : ℕ) (s : List ℕ)
    → h < 16
    → l < 16
    → byte_at (digit upper h ∷ digit upper l ∷ s) ≡ h * 16 + l
unfolding byte_at scan_hex2
byte_at-digits upper h l s p q =
    rw (is_space-digit upper h p, digit-ne-plus upper h p, digit-ne-minus upper h p)
      (omega (
        arith,
        scan_digits-digit upper h 1 0 (digit upper l ∷ s) p,
        scan_digits-digit upper l 0 (0 * 16 + h) s q,
      ))

pub byte_at-hex_byte :
    (upper : Bool) (b : ℕ) (s : List ℕ) → b < 256 → byte_at (hex_byte upper b ++ s) ≡ b
unfolding hex_byte
byte_at-hex_byte upper b s h =
    omega (arith, byte_at-digits upper (b / 16) (b % 16) s (omega arith) (omega arith))
