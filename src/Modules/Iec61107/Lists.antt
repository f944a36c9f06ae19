-- ===== src/Modules/Iec61107/Lists.antt =====
-- modules/umdk-iec61107.c: the answers with the schedule and the holidays.
use lora_mqtt.Prelude.{
  ℕ, zero, suc, ◌+◌, ◌-◌, ◌*◌, ◌/◌, ◌%◌, ◌^◌, List, ◌∷◌, ◌++◌, ltb, if◌then◌else◌,
}
use lora_mqtt.Text.Literal.{codes}
use lora_mqtt.Text.Format.{dec}
use lora_mqtt.Message.{Msgs, add_value_pair}
use lora_mqtt.Modules.Payload.{at, snprintf}
use lora_mqtt.Modules.Meters.{two}

-- (moddatalen - head) / 2 on a byte: the division is one of signed numbers.
abbrev pub pairs_behind : ℕ → ℕ → ℕ
pairs_behind head moddatalen =
    if ltb moddatalen head
    then (2 ^ 8 - (head - moddatalen) / 2) % 2 ^ 8
    else (moddatalen - head) / 2 % 2 ^ 8

-- The same pair some times.
abbrev pub filler : ℕ → List ℕ → List ℕ → Msgs → Msgs
filler zero name value ms = ms
filler (suc n) name value ms = filler n name value (add_value_pair ms name value)

abbrev checkpoints : List ℕ → ℕ → ℕ → Msgs → Msgs
checkpoints moddata zero i ms = ms
checkpoints moddata (suc left) i ms =
    let high = at moddata (4 + 2 * i) in
    checkpoints moddata left (i + 1) (
      add_value_pair ms (b'T' ∷ two (high / 2 ^ 5))
        (two (high % 2 ^ 5) ++ (b':' ∷ two (at moddata (5 + 2 * i)))))

unfoldable pub schedule_reply : List ℕ → ℕ → Msgs → Msgs
unfolding dec
schedule_reply moddata moddatalen ms =
    let count = pairs_behind 4 moddatalen in
    filler (12 - count) (codes "T00") (codes "00:00") (checkpoints moddata count 0 ms)

-- The day, the month and the schedule of two bytes.
abbrev pub holiday_of : ℕ → ℕ → ℕ × (ℕ × ℕ)
holiday_of high low = (high % 2 ^ 3 * 2 ^ 2 + low / 2 ^ 6, (high / 2 ^ 4, low % 2 ^ 6))

abbrev pub holiday_pairs : List ℕ → ℕ → ℕ → Msgs → Msgs
holiday_pairs moddata zero i ms = ms
holiday_pairs moddata (suc left) i ms =
    let h = holiday_of (at moddata (5 + 2 * i)) (at moddata (6 + 2 * i)) in
    holiday_pairs moddata left (i + 1)
      (add_value_pair ms (two h.0 ++ (b'.' ∷ two h.1.0)) (dec h.1.1))

-- The number of the list goes through a buffer of five characters.
unfoldable pub holidays_reply : List ℕ → ℕ → Msgs → Msgs
unfolding dec
holidays_reply moddata moddatalen ms =
    let list = at moddata 4 in
    let count = pairs_behind 5 moddatalen in
    filler (16 - count) (codes "00.00") (codes "0") (
      holiday_pairs moddata count 0 (
        add_value_pair ms (codes "holidays list")
          (snprintf 5 (dec (list / 2 ^ 4) ++ (b'/' ∷ dec (list % 2 ^ 4))))))
