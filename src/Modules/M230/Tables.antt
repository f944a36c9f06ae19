-- ===== src/Modules/M230/Tables.antt =====
-- modules/umdk-m230.c: the tables of holidays and of tariffs.
use lora_mqtt.Prelude.{
  ℕ, zero, suc, ◌+◌, ◌-◌, ◌*◌, ◌%◌, ◌^◌, List, [], ◌∷◌, ◌++◌, Option, none, some, ltb, leb, ◌==◌,
  ◌||◌, if◌then◌else◌, length, replicate, bit_or,
}
use lora_mqtt.Text.Literal.{codes, after_prefix}
use lora_mqtt.Text.Format.{hex_pad}
use lora_mqtt.Modules.Cursor.{◌>>=◌, advance, number, field, hex_bytes}
use lora_mqtt.Modules.Meters.{next_number, minus_one, invalid_command, schedule_day}

-- The address of a meter, a byte.
unfoldable pub device : Option (List ℕ) → Option ℕ
unfolding number
device place = do s ← place; some (number 10 (2 ^ 8) s).0

-- day[month] |= 1 << day
abbrev mark : ℕ → ℕ → List ℕ → List ℕ
mark month day [] = []
mark zero day (d ∷ ds) = bit_or d (2 ^ day) ∷ ds
mark (suc month) day (d ∷ ds) = d ∷ mark month day ds

-- The loop over the dates, with a comma between two of them and the address behind the last: the
-- days of the months, the address, or none where the text is not of this form. A day past 32 is
-- shifted out of the word, a month past 12 is written past the table. Each turn takes a character at
-- least.
unfoldable pub dates_loop : ℕ → List ℕ → List ℕ → Option (Option (List ℕ × ℕ))
unfolding number next_number device
dates_loop zero s days = none
dates_loop (suc fuel) s days = do
  let d = number 10 (2 ^ 8) s
  (month, r) ← next_number d.1
  let marked = mark (minus_one month) (minus_one d.0) days
  if leb 32 (minus_one d.0) || leb 12 (minus_one month)
      then none
      else elim (after_prefix (codes ", ") r) [
        | some q ↦ dates_loop fuel q marked
        | none ↦ elim (after_prefix (codes " ") r) [
          | some q ↦ (do destination ← device (some q); some (some (marked, destination)))
          | none ↦ some none
        ]
      ]

-- The months with a holiday, from the number `i` on.
unfoldable pub months : ℕ → List ℕ → List ℕ
unfolding hex_pad
months i [] = []
months i (d ∷ ds) =
    let rest = months (i + 1) ds in
    if d == 0 then rest else hex_bytes ((i + 1) ∷ []) ++ (hex_pad 8 d ++ rest)

unfoldable pub m230_set_holidays : List ℕ → Option (List ℕ)
unfolding dates_loop months
m230_set_holidays s = do
  table ← dates_loop (suc (length s)) s (replicate 12 0)
  elim table [
    | none ↦ invalid_command
    | some (days, destination) ↦ some (hex_bytes (0xF2 ∷ destination ∷ 0x02 ∷ []) ++ months 0 days)
  ]

-- The minute, the tariff and the hour in a word of 16 bits.
abbrev pub point : ℕ → ℕ → ℕ → ℕ
point tariff hour min = (min * 2 ^ 8 + tariff * 2 ^ 5 + hour) % 2 ^ 16

unfoldable pub points_loop : ℕ → List ℕ → Option (List ℕ × List ℕ)
unfolding next_number
points_loop zero s = some ([], s)
points_loop (suc n) s = do
  (tariff, r) ← next_number s
  (hour, q) ← next_number r
  (min, p) ← next_number q
  (rest, end) ← points_loop n p
  some (point tariff hour min ∷ rest, end)

-- The month as it is written: 0x0F for the whole year.
unfoldable pub m230_schedule_month : List ℕ → Option (Option (ℕ × List ℕ))
unfolding field
m230_schedule_month s = elim (after_prefix (codes "year ") s) [
  | some r ↦ some (some (0x0F, r))
  | none ↦ elim (after_prefix (codes "month ") s) [
    | some r ↦ do (month, p) ← field 10 (2 ^ 8) (some r); q ← p; some (some (month, q))
    | none ↦ some none
  ]
]

abbrev all_hex4 : List ℕ → List ℕ
all_hex4 [] = []
all_hex4 (n ∷ ns) = hex_pad 4 n ++ all_hex4 ns

-- point_schedule[8]: more than eight checkpoints are written past it; an unused one is 0x0038.
unfoldable pub points_table : ℕ → ℕ → List ℕ → Option (List ℕ)
unfolding points_loop device hex_pad number
points_table month day s = do
  r ← advance s
  let count = number 10 (2 ^ 8) r
  (points, q) ← points_loop count.0 count.1
  destination ← device (advance q)
  if ltb 8 (length points)
      then none
      else some (
          hex_bytes (0xF1 ∷ destination ∷ 0x02 ∷ (month * 2 ^ 4 + day) % 2 ^ 8 ∷ [])
          ++ all_hex4 (points ++ replicate (8 - length points) 0x0038))

unfoldable pub m230_set_schedule : List ℕ → Option (List ℕ)
unfolding m230_schedule_month schedule_day points_table
m230_set_schedule s = do
  month ← m230_schedule_month s
  elim month [
    | none ↦ invalid_command
    | some (m, r) ↦ elim (schedule_day r) [
      | none ↦ invalid_command
      | some (day, q) ↦ points_table m day q
    ]
  ]
