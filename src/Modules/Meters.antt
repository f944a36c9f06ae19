-- ===== src/Modules/Meters.antt =====
-- modules/umdk-m200.c, umdk-m230.c and umdk-iec61107.c: what the handlers for meters share.
use lora_mqtt.Prelude.{ℕ, true, false, ◌+◌, ◌%◌, ◌^◌, List, [], ◌∷◌, ◌++◌, Option, none, some}
use lora_mqtt.Text.Format.{dec, pad, hex_byte, hex_pad}
use lora_mqtt.Text.Literal.{codes, after_prefix}
use lora_mqtt.Modules.Cursor.{◌>>=◌, advance, number, field}
use lora_mqtt.Modules.Counter.{swapped}

-- A number behind the space that is skipped first, and the place behind the number.
unfoldable pub next_number : List ℕ → Option (ℕ × List ℕ)
unfolding number
next_number s = do r ← advance s; some (number 10 (2 ^ 8) r)

-- An address of 32 bits in decimal, with its bytes swapped, whatever the host.
unfoldable pub meter_address : Option (List ℕ) → Option (ℕ × Option (List ℕ))
unfolding field swapped
meter_address place = do
  (destination, end) ← field 10 (2 ^ 32) place
  some (swapped true destination, end)

-- "%02x%08x" of the command and the address.
unfoldable pub head : ℕ → ℕ → List ℕ
unfolding hex_pad
head cmd destination = hex_byte false cmd ++ hex_pad 8 destination

-- `%02d`
abbrev pub two : ℕ → List ℕ
two n = pad 2 (dec n)

-- The same of each.
unfoldable pub two_digits : List ℕ → List ℕ
unfolding dec
two_digits [] = []
two_digits (n ∷ ns) = two n ++ two_digits ns

-- -- on a byte.
abbrev pub minus_one : ℕ → ℕ
minus_one n = (n + 255) % 2 ^ 8

-- The answer of the gate to a command that it does not know.
abbrev pub invalid_command : Option (List ℕ)
invalid_command = some (hex_byte false 0xFF)

-- The commands in the order of the tests, each with what it does behind its name.
abbrev pub run_command {ℓ} : {B : Type ℓ} → List (List ℕ × (List ℕ → B)) → List ℕ → B → B
run_command [] param otherwise = otherwise
run_command ((name, f) ∷ rest) param otherwise = elim (after_prefix name param) [
  | some s ↦ f s
  | none ↦ run_command rest param otherwise
]

-- The days of a schedule, and what stands behind it.
unfoldable pub schedule_day : List ℕ → Option (ℕ × List ℕ)
unfolding number
schedule_day s = elim (after_prefix (codes "day ") s) [
  | some r ↦ some (number 10 (2 ^ 8) r)
  | none ↦ elim (after_prefix (codes "all") s) [
    | some r ↦ some (0x0F, r)
    | none ↦ elim (after_prefix (codes "weekdays") s) [
      | some r ↦ some (0x0E, r)
      | none ↦ elim (after_prefix (codes "weekends") s) [
        | some r ↦ some (0x0D, r)
        | none ↦ elim (after_prefix (codes "holidays") s) [ some r ↦ some (0x0C, r) | none ↦ none ]
      ]
    ]
  ]
]
