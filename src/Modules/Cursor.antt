-- ===== src/Modules/Cursor.antt =====
-- What the command handlers of modules/umdk-*.c share: a parameter that strtol is called on place by
-- place, and the text they write.
use lora_mqtt.Prelude.{
  ℕ, ◌*◌, ◌≡◌, refl, length, arith, false, ◌+◌, ◌-◌, ◌/◌, ◌%◌, ◌^◌, List, [], ◌∷◌, ◌++◌, Option,
  none, some, ltb, if◌then◌else◌,
}
use lora_mqtt.Text.Scan.{cast}
use lora_mqtt.Text.Radix.{strtol_in}
use lora_mqtt.Text.Format.{hex_byte, hex_pad}
use lora_mqtt.Modules.{Outcome, done, undefined}

infixl 5 ◌>>=◌
abbrev pub ◌>>=◌ {ℓ κ} : {A : Type ℓ} {B : Type κ} → Option A → (A → Option B) → Option B
none >>= f = none
some a >>= f = f a

-- param += 1: past the terminator there is no place that may be read.
abbrev pub advance : List ℕ → Option (List ℕ)
advance [] = none
advance (c ∷ s) = some s

-- strtol(param, &param, base) and the cast to an unsigned type of `m` values.
unfoldable pub number : ℕ → ℕ → List ℕ → ℕ × List ℕ
unfolding strtol_in
number base m s = let r = strtol_in base s in (cast m r.0, r.1)

-- The same with the step over the space behind it.
unfoldable pub field : ℕ → ℕ → Option (List ℕ) → Option (ℕ × Option (List ℕ))
unfolding number
field base m place = do s ← place; let r = number base m s; some (r.0, advance r.1)

-- The bytes of a number of 16 bits, the high one first.
abbrev pub be16 : ℕ → List ℕ
be16 n = n / 2 ^ 8 ∷ n % 2 ^ 8 ∷ []

unfoldable pub word : Option (List ℕ) → Option (List ℕ × Option (List ℕ))
unfolding field
word place = do (n, rest) ← field 16 (2 ^ 16) place; some (be16 n, rest)

-- A text that was read through the places of the parameter.
abbrev pub written : Option (List ℕ) → Outcome (List ℕ)
written none = undefined
written (some t) = done t

abbrev pub hex_bytes : List ℕ → List ℕ
hex_bytes [] = []
hex_bytes (b ∷ bs) = hex_byte false b ++ hex_bytes bs

-- `%02x` of a char, which is signed.
unfoldable pub hex_char : ℕ → List ℕ
unfolding hex_pad
hex_char c = hex_pad 2 (if ltb c 128 then c else 2 ^ 32 - 256 + c)

pub length-hex_bytes : (bs : List ℕ) → length (hex_bytes bs) ≡ 2 * length bs
unfolding hex_byte
length-hex_bytes [] = refl
length-hex_bytes (b ∷ bs) = let ih = length-hex_bytes bs in omega arith
