-- ===== src/Modules/M200.antt =====
-- modules/umdk-m200.c: commands for electricity meters.
-- `Tables` is the commands with a table of days or of hours, `Answer` the reply handler.
pub mod Tables
pub mod Answer
use lora_mqtt.Prelude.{
  ℕ, false, ◌+◌, ◌*◌, ◌^◌, ◌%◌, List, [], ◌∷◌, ◌++◌, Option, none, some, ◌==◌, if◌then◌else◌,
}
use lora_mqtt.Text.Literal.{codes, after_prefix, starts_with}
use lora_mqtt.Text.Format.{dec, hex_byte, hex_pad}
use lora_mqtt.Modules.{Outcome, done, undefined}
use lora_mqtt.Modules.Payload.{snprintf}
use lora_mqtt.Modules.Cursor.{◌>>=◌, advance, number, field, written}
use lora_mqtt.Modules.Meters.{
  meter_address, two_digits, head, minus_one, invalid_command, run_command,
}
use lora_mqtt.Modules.M200.Tables.{set_holidays, set_schedule}

-- A command with the address of the meter alone.
abbrev addressed : ℕ → Option (List ℕ) → Option (List ℕ)
addressed cmd place = do (destination, end) ← meter_address place; some (head cmd destination)

-- One more byte before the address, `%02x` behind it.
unfoldable pub set_number_tariffs : List ℕ → Option (List ℕ)
unfolding field meter_address head
set_number_tariffs s = do
  (tarif, p) ← field 10 (2 ^ 8) (some s)
  (destination, end) ← meter_address p
  some (head 0x11 destination ++ hex_byte false tarif)

unfoldable pub set_address : List ℕ → Option (List ℕ)
unfolding meter_address head hex_pad
set_address s = do
  (new_address, p) ← meter_address (some s)
  (destination, end) ← meter_address p
  some (head 0x02 destination ++ hex_pad 8 new_address)

-- The month, and what stands behind it.
unfoldable pub value_month : List ℕ → Option (ℕ × List ℕ)
unfolding number
value_month s = elim (after_prefix (codes "total") s) [
  | some r ↦ some (0xFF, r)
  | none ↦ elim (after_prefix (codes "current") s) [
    | some r ↦ some (0x0F, r)
    | none ↦ elim (after_prefix (codes "month ") s) [
      | some r ↦ let n = number 10 (2 ^ 8) r in some (minus_one n.0, n.1)
      | none ↦ none
    ]
  ]
]

unfoldable pub get_value : List ℕ → Option (List ℕ)
unfolding value_month meter_address head
get_value s = elim (value_month s) [
  | none ↦ invalid_command
  | some (month, r) ↦ do
    (destination, end) ← meter_address (advance r)
    some (
        if month == 0xFF
        then head 0x0A destination
        else head 0x0F destination ++ hex_byte false month)
]

unfoldable pub get_schedule : List ℕ → Option (List ℕ)
unfolding field meter_address head
get_schedule s = do
  (month, p) ← field 10 (2 ^ 8) (some s)
  (dow, q) ← field 10 (2 ^ 8) p
  (destination, end) ← meter_address q
  some (head 0x0E destination ++ hex_byte false ((minus_one month * 2 ^ 4 + dow) % 2 ^ 8))

unfoldable pub get_time : List ℕ → Option (List ℕ)
unfolding meter_address head
get_time s = elim (after_prefix (codes "switch_on ") s) [
  | some r ↦ addressed 0x0C (some r)
  | none ↦ elim (after_prefix (codes "switch_off ") s) [
    | some r ↦ addressed 0x0B (some r)
    | none ↦ elim (after_prefix (codes "open ") s) [
      | some r ↦ addressed 0x04 (some r)
      | none ↦ elim (after_prefix (codes "close ") s) [
        | some r ↦ addressed 0x05 (some r)
        | none ↦ invalid_command
      ]
    ]
  ]
]

-- Day of the week, hour, minute, second, day, month and year in decimal.
unfoldable pub set_timedate : List ℕ → Option (List ℕ)
unfolding field meter_address head two_digits
set_timedate s = do
  (dow, p0) ← field 10 (2 ^ 8) (some s)
  (hour, p1) ← field 10 (2 ^ 8) p0
  (min, p2) ← field 10 (2 ^ 8) p1
  (sec, p3) ← field 10 (2 ^ 8) p2
  (day, p4) ← field 10 (2 ^ 8) p3
  (month, p5) ← field 10 (2 ^ 8) p4
  (year, p6) ← field 10 (2 ^ 8) p5
  (destination, end) ← meter_address p6
  some (head 0x16 destination ++ two_digits (dow ∷ hour ∷ min ∷ sec ∷ day ∷ month ∷ year ∷ []))

-- `add` and `remove`; the address of `remove` is not padded.
unfoldable pub add_meter : List ℕ → Option (List ℕ)
unfolding meter_address head
add_meter s = addressed 0xFE (some s)

unfoldable pub remove_meter : List ℕ → Option (List ℕ)
unfolding meter_address hex_pad
remove_meter s = do
  (addr, end) ← meter_address (some s)
  some (hex_byte false 0xFD ++ hex_pad 2 addr)

-- A name that is neither leaves the variable as it was found on the stack.
unfoldable pub set_iface : List ℕ → Option (List ℕ)
set_iface s =
    if starts_with (codes "can") s
    then some (hex_byte false 0xFB ++ hex_byte false 2)
    else if starts_with (codes "485") s
    then some (hex_byte false 0xFB ++ hex_byte false 1)
    else none

-- The commands that stand alone, behind those with an address.
abbrev m200_plain : List ℕ → Option (List ℕ)
m200_plain param =
    if starts_with (codes "reset") param
    then some (hex_byte false 0xFF)
    else if starts_with (codes "get list") param
    then some (hex_byte false 0xFC)
    else elim (after_prefix (codes "iface ") param) [
      | some r ↦ set_iface r
      | none ↦ invalid_command
    ]

-- The commands in the order of the tests, each with what it does behind its name.
abbrev pub m200_commands : List (List ℕ × (List ℕ → Option (List ℕ)))
m200_commands =
    (codes "set address ", set_address)
    ∷ (codes "get serial ", λ s. addressed 0x01 (some s))
    ∷ (codes "get number tariffs ", λ s. addressed 0x10 (some s))
    ∷ (codes "set number tariffs ", set_number_tariffs)
    ∷ (codes "get power_limit ", λ s. addressed 0x08 (some s))
    ∷ (codes "get power_current ", λ s. addressed 0x09 (some s))
    ∷ (codes "get value ", get_value)
    ∷ (codes "get schedule ", get_schedule)
    ∷ (codes "get time ", get_time)
    ∷ (codes "get timedate ", λ s. addressed 0x07 (some s))
    ∷ (codes "set timedate ", set_timedate)
    ∷ (codes "get worktime ", λ s. addressed 0x15 (some s))
    ∷ (codes "get uip ", λ s. addressed 0x06 (some s))
    ∷ (codes "set holidays ", set_holidays)
    ∷ (codes "set schedule ", set_schedule)
    ∷ (codes "add ", add_meter)
    ∷ (codes "remove ", remove_meter)
    ∷ []

unfoldable pub umdk_m200_command : List ℕ → ℕ → Outcome (List ℕ)
unfolding set_address set_number_tariffs get_value get_schedule get_time set_timedate add_meter
    remove_meter set_iface hex_byte
umdk_m200_command param bufsize =
    written
      do text ← run_command m200_commands param (m200_plain param); some (snprintf bufsize text)
