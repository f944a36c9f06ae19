-- ===== src/Modules/Iec61107/Choices.antt =====
-- modules/umdk-iec61107.c: the chain of tests that selects a command, and its parameter.
use lora_mqtt.Prelude.{ℕ, ◌%◌, ◌^◌, List, [], ◌∷◌, ◌++◌, Option, some, length, take}
use lora_mqtt.Text.Literal.{codes}
use lora_mqtt.Modules.Cursor.{◌>>=◌, advance, number, hex_bytes}
use lora_mqtt.Modules.Meters.{run_command}

-- What the chain sets: the command, the mode, a parameter of it and the place behind its name; or
-- the texts that it writes before it returns.
pub data Selection : Type 0 where
  selected : ℕ → ℕ → ℕ → List ℕ → Selection
  answered : List (List ℕ) → Selection

abbrev pub refused : Option Selection
refused = some (answered (hex_bytes (0xFF ∷ []) ∷ []))

-- `%02x` of each byte, one call for each.
abbrev pub each_hex : List ℕ → List (List ℕ)
each_hex [] = []
each_hex (b ∷ bs) = hex_bytes (b ∷ []) ∷ each_hex bs

-- An address goes to the device list of the gate as characters; their number is a byte.
abbrev by_address : ℕ → ℕ → List ℕ → Option Selection
by_address cmd param_database s =
    some
      (answered (hex_bytes (cmd ∷ param_database ∷ 0 ∷ []) ∷ each_hex (take (length s % 2 ^ 8) s)))

unfoldable pub by_device : ℕ → List ℕ → Option Selection
unfolding number
by_device cmd s = some (answered (hex_bytes (cmd ∷ 2 ∷ (number 10 (2 ^ 8) s).0 ∷ 0 ∷ []) ∷ []))

-- `remove` and `find`
unfoldable pub database : ℕ → List ℕ → Option Selection
unfolding by_device
database cmd s =
    run_command ((codes "device ", by_device cmd) ∷ (codes "address ", by_address cmd 1) ∷ []) s
      refused

-- The modes are the letters W and R.
abbrev read_of : ℕ → List ℕ → Option Selection
read_of cmd s = some (selected cmd 0x52 0 s)

abbrev write_of : ℕ → List ℕ → Option Selection
write_of cmd s = some (selected cmd 0x57 0 s)

-- The name of the two that set options is not skipped.
abbrev options : List ℕ → ℕ → List ℕ → Option Selection
options name zz_param s = some (selected 0x01 0x57 zz_param (name ++ s))

abbrev values : List (List ℕ × (List ℕ → Option Selection))
values =
    (codes "total_all", read_of 0x07)
    ∷ (codes "month", read_of 0x08)
    ∷ (codes "day", read_of 0x09)
    ∷ (codes "total_month", read_of 0x0A)
    ∷ (codes "total_day", read_of 0x0B)
    ∷ []

-- The number of the schedule behind one more place.
unfoldable pub schedule : ℕ → List ℕ → Option Selection
unfolding number
schedule mode s = do r ← advance s; let n = number 10 (2 ^ 8) r; some (selected 0x0F mode n.0 n.1)

-- The list of holidays is written in two parts.
unfoldable pub holiday_part : List ℕ → Option Selection
holiday_part s = do
  r ← advance s
  run_command
      ((codes "part_1", λ q. some (selected 0x10 0x57 1 q))
        ∷ (codes "part_2", λ q. some (selected 0x10 0x57 2 q))
        ∷ [])
      r refused

abbrev pub selections : List (List ℕ × (List ℕ → Option Selection))
selections =
    (codes "reset", λ s. some (answered (hex_bytes (0xFE ∷ []) ∷ [])))
    ∷ (codes "add ", by_address 0xFD 0)
    ∷ (codes "remove ", database 0xFC)
    ∷ (codes "find ", database 0xFB)
    ∷ (codes "set init", options (codes "set init") 0)
    ∷ (codes "set fin", options (codes "set fin") 1)
    ∷ (codes "get init", read_of 0x01)
    ∷ (codes "get status", read_of 0x06)
    ∷ (codes "get serial", read_of 0x04)
    ∷ (codes "get id_device", read_of 0x05)
    ∷ (codes "get volt", read_of 0x0C)
    ∷ (codes "get current", read_of 0x0D)
    ∷ (codes "get power", read_of 0x0E)
    ∷ (codes "get time", read_of 0x02)
    ∷ (codes "set time", write_of 0x02)
    ∷ (codes "get date", read_of 0x03)
    ∷ (codes "set date", write_of 0x03)
    ∷ (codes "get default_tariff", read_of 0x11)
    ∷ (codes "set default_tariff", write_of 0x11)
    ∷ (codes "get special_cmd", λ s. some (selected 0x00 0x36 0 s))
    ∷ (codes "get value ", λ s. run_command values s refused)
    ∷ (codes "get schedule", schedule 0x52)
    ∷ (codes "set schedule", schedule 0x57)
    ∷ (codes "get holidays", read_of 0x10)
    ∷ (codes "set holidays", holiday_part)
    ∷ []

unfoldable pub select : List ℕ → Option Selection
unfolding database schedule holiday_part
select param = run_command selections param refused
