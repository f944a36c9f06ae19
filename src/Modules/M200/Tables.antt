-- ===== src/Modules/M200/Tables.antt =====
-- modules/umdk-m200.c: the tables of holidays and of tariffs.
use lora_mqtt.Prelude.{
  ℕ, false, zero, suc, ◌+◌, ◌-◌, ◌*◌, ◌/◌, ◌%◌, ◌^◌, List, [], ◌∷◌, ◌++◌, Option, none, some, ltb,
  ◌==◌, if◌then◌else◌, length, replicate,
}
use lora_mqtt.Text.Literal.{codes, after_prefix}
use lora_mqtt.Text.Format.{hex_byte}
use lora_mqtt.Modules.Cursor.{◌>>=◌, advance, number, field, hex_bytes}
use lora_mqtt.Modules.Meters.{
  next_number, meter_address, two_digits, head, minus_one, invalid_command, schedule_day,
}

-- The loop over pairs of numbers.
unfoldable pub pairs_loop : ℕ → List ℕ → Option (List (ℕ × ℕ) × List ℕ)
unfolding next_number
pairs_loop zero s = some ([], s)
pairs_loop (suc n) s = do
  (day, r) ← next_number s
  (month, q) ← next_number r
  (rest, end) ← pairs_loop n q
  some ((day, month) ∷ rest, end)

-- One day of the table; an unused one is 0xFF.
abbrev holiday : ℕ × ℕ → List ℕ
holiday (day, month) =
    if day == 0xFF
    then hex_byte false day ++ hex_byte false month
    else two_digits (day ∷ month ∷ [])

abbrev holidays : List (ℕ × ℕ) → List ℕ
holidays [] = []
holidays (d ∷ ds) = holiday d ++ holidays ds

-- day[16] and month[16]: more than sixteen are written past them.
unfoldable pub set_holidays : List ℕ → Option (List ℕ)
unfolding pairs_loop meter_address head two_digits number
set_holidays s = do
  let count = number 10 (2 ^ 8) s
  (days, r) ← pairs_loop count.0 count.1
  (destination, end) ← meter_address (advance r)
  if ltb 16 (length days)
      then none
      else some
          (head 0xF1 destination ++ holidays (days ++ replicate (16 - length days) (0xFF, 0xFF)))

-- The tariff and the hour in one byte, the minute in another, in binary-coded decimal.
abbrev pub checkpoint : ℕ → ℕ → ℕ → List ℕ
checkpoint tariff hour min =
    (minus_one tariff * 2 ^ 6 + hour / 10 * 2 ^ 4 + hour % 10) % 2 ^ 8
    ∷ (min / 10 * 2 ^ 4 + min % 10) % 2 ^ 8
    ∷ []

unfoldable pub checkpoints_loop : ℕ → List ℕ → Option (List ℕ × List ℕ)
unfolding next_number
checkpoints_loop zero s = some ([], s)
checkpoints_loop (suc n) s = do
  (tariff, r) ← next_number s
  (hour, q) ← next_number r
  (min, p) ← next_number q
  (rest, end) ← checkpoints_loop n p
  some (checkpoint tariff hour min ++ rest, end)

-- The month: 0x0F for the whole year.
unfoldable pub schedule_month : List ℕ → Option (Option (ℕ × List ℕ))
unfolding field
schedule_month s = elim (after_prefix (codes "year ") s) [
  | some r ↦ some (some (0x0F, r))
  | none ↦ elim (after_prefix (codes "month ") s) [
    | some r ↦ do (month, p) ← field 10 (2 ^ 8) (some r); q ← p; some (some (minus_one month, q))
    | none ↦ some none
  ]
]

-- tariff_hour[8] and min[8]: more than eight checkpoints are written past them.
unfoldable pub schedule_table : ℕ → ℕ → List ℕ → Option (List ℕ)
unfolding checkpoints_loop meter_address head number
schedule_table month day s = do
  r ← advance s
  let count = number 10 (2 ^ 8) r
  (bytes, q) ← checkpoints_loop count.0 count.1
  (destination, end) ← meter_address (advance q)
  if ltb 16 (length bytes)
      then none
      else some (
          head 0x14 destination
          ++ (hex_bytes (bytes ++ replicate (16 - length bytes) 0xFF)
              ++ hex_byte false ((month * 2 ^ 4 + day) % 2 ^ 8)))

unfoldable pub set_schedule : List ℕ → Option (List ℕ)
unfolding schedule_month schedule_day schedule_table
set_schedule s = do
  month ← schedule_month s
  elim month [
    | none ↦ invalid_command
    | some (m, r) ↦ elim (schedule_day r) [
      | none ↦ invalid_command
      | some (day, q) ↦ schedule_table m day q
    ]
  ]
