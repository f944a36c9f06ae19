-- ===== src/Hex/Examples.antt =====
-- Runs of the conversions, and the theorems at inputs.
use lora_mqtt.Prelude.{◌≡◌, refl, ℕ, true, false, List, [], ◌∷◌, arith}
use lora_mqtt.Text.Literal.{codes}
use lora_mqtt.Text.Scan.{hex_value}
use lora_mqtt.Hex.{parsed, hex_to_bytes, bytes_to_hex, load}
use lora_mqtt.Hex.Laws.{hex_number, load-hex_to_bytes}
use lora_mqtt.Hex.RoundTrip.{hex_to_bytes-bytes_to_hex}

abbrev three : List ℕ
three = 0xAB ∷ 0x05 ∷ 0xF0 ∷ []

reads_backwards : hex_to_bytes (codes "0aF1") true ≡ parsed (0xF1 ∷ 0x0A ∷ [])
unfolding hex_to_bytes
reads_backwards = refl

prints_backwards : bytes_to_hex three 3 [] true ≡ codes "F005AB"
unfolding bytes_to_hex
prints_backwards = refl

-- Text that is no hexadecimal number is read as zero, not refused.
reads_garbage : hex_to_bytes (codes "zz") false ≡ parsed (0 ∷ [])
unfolding hex_to_bytes
reads_garbage = refl

hex_to_bytes-bytes_to_hex_example : hex_to_bytes (bytes_to_hex three 3 [] true) true ≡ parsed three
hex_to_bytes-bytes_to_hex_example = hex_to_bytes-bytes_to_hex three true (omega arith)

abbrev digits_a5 : List ℕ
digits_a5 = b'a' ∷ b'5' ∷ []

load-hex_to_bytes_example :
    (bs : List ℕ) × (hex_to_bytes digits_a5 true ≡ parsed bs)
    × (load false bs ≡ hex_number 0 digits_a5)
unfolding hex_value
load-hex_to_bytes_example = load-hex_to_bytes false digits_a5 refl ((10, refl), ((5, refl), tt))
