-- ===== src/Modules/Iec61107.antt =====
-- modules/umdk-iec61107.c: commands for electricity meters of that standard.
-- `Choices` is the choice of the command, `Answer` the reply
-- handler, over `Status` and `Lists`.
pub mod Choices
pub mod Status
pub mod Lists
pub mod Answer
pub mod Holidays
use lora_mqtt.Prelude.{
  ℕ, zero, suc, ◌+◌, ◌-◌, ◌*◌, ◌/◌, ◌%◌, ◌^◌, ◌&&◌, List, [], ◌∷◌, ◌++◌, Option, none, some, ltb,
  ◌==◌, if◌then◌else◌, length, get_or, bit_or, drop, true, false,
}
use lora_mqtt.Text.Literal.{codes}
use lora_mqtt.Modules.{Outcome}
use lora_mqtt.Modules.Payload.{snprintf}
use lora_mqtt.Modules.Cursor.{◌>>=◌, advance, number, field, hex_bytes, written}
use lora_mqtt.Modules.M230.Tables.{device}
use lora_mqtt.Modules.Iec61107.Choices.{Selection, selected, answered, each_hex, select}

-- snprintf(out + num_char, bufsize - num_char, …) of one text after another: the size that is left
-- wraps round once num_char is past it.
abbrev chained : ℕ → List ℕ → List (List ℕ) → Option (List ℕ)
chained bufsize text [] = some (snprintf bufsize text)
chained bufsize text (piece ∷ rest) =
    let out : Option (List ℕ) = chained bufsize (text ++ piece) rest in
    if ltb bufsize (length text) then none else out

-- The last space at `j` or before it.
abbrev space_before : List ℕ → ℕ → Option ℕ
space_before whole zero = if get_or whole 0 0 == b' ' then some 0 else none
space_before whole (suc j) =
    let before : Option ℕ = space_before whole j in
    if get_or whole (suc j) 0 == b' ' then some (suc j) else before

-- The characters before the address, which wrap round as a byte, and the place of the address.
-- `total` is the length of the parameter and `start` its place in the whole text.
unfoldable pub before_address : List ℕ → ℕ → ℕ → Option (ℕ × ℕ)
before_address whole start total = do
  j ← space_before whole (start + total - 1)
  let steps = start + total - 1 - j
  some ((total + 255 * (steps + (if suc j == start then 0 else 1))) % 2 ^ 8, suc j)

-- One checkpoint: tariff, hour and minute.
unfoldable pub schedule_piece : Option (List ℕ) → Option (List ℕ × Option (List ℕ))
unfolding field
schedule_piece p = do
  (tariff, q) ← field 10 (2 ^ 8) p
  (hour, r) ← field 10 (2 ^ 8) q
  (min, end) ← field 10 (2 ^ 8) r
  some (hex_bytes (bit_or (tariff * 2 ^ 5 % 2 ^ 8) hour ∷ min ∷ []), end)

-- One holiday: the month and the day, and the schedule behind the low bits of the day.
abbrev pub holiday_bytes : ℕ → ℕ → ℕ → List ℕ
holiday_bytes day month sch =
    (month * 2 ^ 4 + day / 4) % 2 ^ 8 ∷ (sch + day % 4 * 2 ^ 6) % 2 ^ 8 ∷ []

unfoldable pub holiday_piece : Option (List ℕ) → Option (List ℕ × Option (List ℕ))
unfolding field
holiday_piece p = do
  (day, q) ← field 10 (2 ^ 8) p
  (month, r) ← field 10 (2 ^ 8) q
  (sch, end) ← field 10 (2 ^ 8) r
  some (hex_bytes (holiday_bytes day month sch), end)

-- The character at the place; the terminator is zero.
unfoldable pub char_piece : Option (List ℕ) → Option (List ℕ × Option (List ℕ))
char_piece p = do s ← p; some (hex_bytes (get_or s 0 0 ∷ []), advance s)

-- The loop, with the part of the body that the command selects and the step of the counter, a byte.
-- Each turn reads on past a place at least.
abbrev pieces :
    ℕ
    → (Option (List ℕ) → Option (List ℕ × Option (List ℕ)))
    → ℕ
    → ℕ
    → ℕ
    → Option (List ℕ)
    → Option (List (List ℕ))
pieces zero body step i count p = if ltb i count then none else some []
pieces (suc fuel) body step i count p = elim (ltb i count) as (λ _. Option (List (List ℕ))) [
  | false ↦ some []
  | true ↦ do
    (piece, q) ← body p
    rest ← pieces fuel body step ((i + step) % 2 ^ 8) count q
    some (piece ∷ rest)
]

-- The fuel is two more than the characters from the place on.
unfoldable pub all_pieces : ℕ → ℕ → ℕ → List ℕ → Option (List (List ℕ))
unfolding schedule_piece holiday_piece char_piece
all_pieces cmd mode count s =
    let fuel = length s + 2 in
    if (cmd == 0x0F) && (mode == 0x57)
    then pieces fuel schedule_piece 9 0 count (some s)
    else if (cmd == 0x10) && (mode == 0x57)
    then pieces fuel holiday_piece 9 0 count (some s)
    else pieces fuel char_piece 1 0 count (some s)

-- The frame behind the selection.
unfoldable pub framed : List ℕ → ℕ → ℕ → ℕ → List ℕ → Option (List (List ℕ))
unfolding before_address device all_pieces
framed whole cmd mode zz_param place = do
  s ← advance place
  let total = length s % 2 ^ 8
  if ltb total 2 then some (hex_bytes (0x04 ∷ []) ∷ []) else (do
    (count, address) ← before_address whole (length whole - length s) total
    number ← device (some (drop address whole))
    let zz = if cmd == 0x01 then 0 else zz_param
    middle ←
        if cmd == 0x01
        then all_pieces cmd mode 5 (if zz_param == 0 then codes "18290" else codes "18288")
        else all_pieces cmd mode count s
    some (
        hex_bytes (cmd ∷ mode ∷ zz ∷ number ∷ [])
        ∷ hex_bytes (0x28 ∷ [])
        ∷ (middle ++ hex_bytes (0x29 ∷ []) ∷ [])))

unfoldable pub pieces_of : List ℕ → Selection → Option (List (List ℕ))
unfolding framed
pieces_of param (selected cmd mode zz_param place) = framed param cmd mode zz_param place
pieces_of param (answered texts) = some texts

unfoldable pub umdk_iec61107_command : List ℕ → ℕ → Outcome (List ℕ)
unfolding select pieces_of
umdk_iec61107_command param bufsize =
    written do choice ← select param; texts ← pieces_of param choice; chained bufsize [] texts
