-- ===== src/Modules/M230.antt =====
-- modules/umdk-m230.c: commands for electricity meters with addresses of one byte.
-- `Tables` is the commands with a table of days or of hours, `Answer` the reply handler,
-- with `Time` for the times.
pub mod Tables
pub mod Time
pub mod Answer
use lora_mqtt.Prelude.{
  ℕ, false, ◌+◌, ◌*◌, ◌/◌, ◌^◌, ◌%◌, List, [], ◌∷◌, ◌++◌, Option, none, some, if◌then◌else◌, bit_or,
}
use lora_mqtt.Text.Literal.{codes, after_prefix, starts_with}
use lora_mqtt.Text.Format.{hex_pad}
use lora_mqtt.Modules.{Outcome}
use lora_mqtt.Modules.Payload.{snprintf}
use lora_mqtt.Modules.Cursor.{◌>>=◌, advance, number, field, hex_bytes, written}
use lora_mqtt.Modules.Meters.{next_number, two_digits, minus_one, invalid_command, run_command}
use lora_mqtt.Modules.M230.Tables.{device, m230_set_holidays, m230_set_schedule}

-- `%02x` of the command, the address and a constant.
unfoldable pub request : ℕ → ℕ → List ℕ → Option (List ℕ)
unfolding device
request cmd tmp s = do
  destination ← device (some s)
  some (hex_bytes (cmd ∷ destination ∷ tmp ∷ []))

-- The first of some words that stands here, as its value, and the place behind it.
abbrev choose : List (List ℕ × ℕ) → List ℕ → Option (ℕ × List ℕ)
choose [] s = none
choose ((name, value) ∷ rest) s = elim (after_prefix name s) [
  | some r ↦ some (value, r)
  | none ↦ choose rest s
]

-- A word, and the address behind one more place.
unfoldable pub mode_request : ℕ → ℕ → ℕ × List ℕ → Option (List ℕ)
unfolding device
mode_request cmd tmp (mode, r) = do
  destination ← device (advance r)
  some (hex_bytes (cmd ∷ destination ∷ tmp ∷ mode ∷ []))

unfoldable pub set_mode : ℕ → ℕ → List (List ℕ × ℕ) → List ℕ → Option (List ℕ)
unfolding mode_request
set_mode cmd tmp modes s = elim (choose modes s) [
  | some m ↦ mode_request cmd tmp m
  | none ↦ invalid_command
]

-- A word that is neither leaves the variable as it was found on the stack.
unfoldable pub set_mode_tariff : List ℕ → Option (List ℕ)
unfolding mode_request
set_mode_tariff s = elim (choose ((codes "one", 1) ∷ (codes "multi", 0) ∷ []) s) [
  | some m ↦ mode_request 0x0E 0x2A m
  | none ↦ none
]

abbrev on_off : ℕ → ℕ → List (List ℕ × ℕ)
on_off on off = (codes "on", on) ∷ (codes "off", off) ∷ []

-- The period of the energy.
unfoldable pub period : List ℕ → Option (ℕ × List ℕ)
unfolding number
period s =
    elim (choose
      ((codes "total", 0x00) ∷ (codes "current_year", 0x10) ∷ (codes "last_year", 0x20) ∷ []) s) [
        | some r ↦ some r
        | none ↦ elim (after_prefix (codes "month ") s) [
          | some r ↦ let n = number 10 (2 ^ 8) r in some (bit_or 0x30 n.0, n.1)
          | none ↦ choose ((codes "current_day", 0x40) ∷ (codes "last_day", 0x50) ∷ []) s
        ]
      ]

unfoldable pub m230_get_value : List ℕ → Option (List ℕ)
unfolding period next_number device
m230_get_value s = elim (period s) [
  | none ↦ invalid_command
  | some (month, r) ↦ do
    (tariff, q) ← next_number r
    destination ← device (advance q)
    some (hex_bytes (0x03 ∷ destination ∷ month ∷ tariff ∷ []))
]

-- The second, the minute, the hour and the day of the week go before the date.
unfoldable pub m230_set_timedate : List ℕ → Option (List ℕ)
unfolding field device two_digits
m230_set_timedate s = do
  (hour, p0) ← field 10 (2 ^ 8) (some s)
  (min, p1) ← field 10 (2 ^ 8) p0
  (sec, p2) ← field 10 (2 ^ 8) p1
  (dow, p3) ← field 10 (2 ^ 8) p2
  (day, p4) ← field 10 (2 ^ 8) p3
  (month, p5) ← field 10 (2 ^ 8) p4
  (year, p6) ← field 10 (2 ^ 8) p5
  (season, p7) ← field 10 (2 ^ 8) p6
  destination ← device p7
  some (
      hex_bytes (0x06 ∷ destination ∷ 0x0C ∷ [])
      ++ two_digits (sec ∷ min ∷ hour ∷ dow ∷ day ∷ month ∷ year ∷ season ∷ []))

-- Hundredths of a watt on 24 bits.
unfoldable pub set_power_limit : List ℕ → Option (List ℕ)
unfolding field device hex_pad
set_power_limit s = do
  (watts, p) ← field 10 (2 ^ 32) (some s)
  destination ← device p
  let limit = watts * 100 % 2 ^ 32 % 2 ^ 24
  some (hex_bytes (0x0A ∷ destination ∷ 0x2C ∷ limit / 2 ^ 16 ∷ []) ++ hex_pad 4 (limit % 2 ^ 16))

unfoldable pub set_energy_limit : List ℕ → Option (List ℕ)
unfolding field device hex_pad
set_energy_limit s = do
  (tariff, p) ← field 10 (2 ^ 8) (some s)
  (limit, q) ← field 10 (2 ^ 32) p
  destination ← device q
  some (hex_bytes (0x0C ∷ destination ∷ 0x2E ∷ tariff ∷ []) ++ hex_pad 8 limit)

unfoldable pub get_energy_limit : List ℕ → Option (List ℕ)
unfolding field device
get_energy_limit s = do
  (tariff, p) ← field 10 (2 ^ 8) (some s)
  destination ← device p
  some (hex_bytes (0x19 ∷ destination ∷ 0x1A ∷ tariff ∷ []))

-- Four bytes of the memory of the meter, five for each month.
unfoldable pub get_holidays : List ℕ → Option (List ℕ)
unfolding field device hex_pad
get_holidays s = do
  (month, p) ← field 10 (2 ^ 8) (some s)
  destination ← device p
  some (
      hex_bytes (0x1C ∷ destination ∷ 0x02 ∷ [])
      ++ hex_pad 4 (0x1D00 + minus_one month * 5)
      ++ hex_bytes (0x04 ∷ []))

-- offset = 8 * (month - 1) + (day - 1) on a byte
unfoldable pub m230_get_schedule : List ℕ → Option (List ℕ)
unfolding field device hex_pad
m230_get_schedule s = do
  (month, p) ← field 10 (2 ^ 16) (some s)
  (day, q) ← field 10 (2 ^ 8) p
  destination ← device q
  let offset = (8 * month + day + 247) % 2 ^ 8
  some (
      hex_bytes (0x1A ∷ destination ∷ 0x02 ∷ [])
      ++ hex_pad 4 (0x1000 + 0x11 * (2 * offset))
      ++ hex_bytes (0x10 ∷ []))

-- A name that is neither sends zero.
unfoldable pub m230_iface : List ℕ → Option (List ℕ)
m230_iface s = some (
    hex_bytes (
      0xFA
      ∷ (if starts_with (codes "can") s then 2 else if starts_with (codes "485") s then 1 else 0)
      ∷ []))

abbrev pub m230_commands : List (List ℕ × (List ℕ → Option (List ℕ)))
m230_commands =
    (codes "get value ", m230_get_value)
    ∷ (codes "get long_time ", request 0x17 0x24)
    ∷ (codes "get timedate ", request 0x04 0x00)
    ∷ (codes "get serial ", request 0x05 0x00)
    ∷ (codes "get soft ", request 0x13 0x03)
    ∷ (codes "get error ", request 0x10 0x0A)
    ∷ (codes "get info ", request 0x15 0x01)
    ∷ (codes "get version ", request 0x11 0x12)
    ∷ (codes "set timedate ", m230_set_timedate)
    ∷ (
      codes "set mode_pulse ",
      set_mode 0x12 0x30 ((codes "load", 1) ∷ (codes "telemetry", 0) ∷ []),
    )
    ∷ (codes "set load ", set_mode 0x07 0x31 (on_off 0 1))
    ∷ (codes "get load ", request 0x08 0x18)
    ∷ (codes "set power_limit ", set_power_limit)
    ∷ (codes "set mode_power_limit ", set_mode 0x0B 0x2D (on_off 1 0))
    ∷ (codes "get power_limit ", request 0x18 0x19)
    ∷ (codes "set energy_limit ", set_energy_limit)
    ∷ (codes "set mode_energy_limit ", set_mode 0x0D 0x2F (on_off 1 0))
    ∷ (codes "get energy_limit ", get_energy_limit)
    ∷ (codes "set mode_tariff ", set_mode_tariff)
    ∷ (codes "get mode_tariff ", request 0x0F 0x17)
    ∷ (codes "get holidays ", get_holidays)
    ∷ (codes "set holidays ", m230_set_holidays)
    ∷ (codes "get schedule ", m230_get_schedule)
    ∷ (codes "set schedule ", m230_set_schedule)
    ∷ (codes "iface ", m230_iface)
    ∷ []

unfoldable pub umdk_m230_command : List ℕ → ℕ → Outcome (List ℕ)
unfolding request set_mode set_mode_tariff m230_get_value m230_set_timedate set_power_limit
    set_energy_limit get_energy_limit get_holidays m230_get_schedule m230_iface
umdk_m230_command param bufsize =
    written do text ← run_command m230_commands param invalid_command; some (snprintf bufsize text)
