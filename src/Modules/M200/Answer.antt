-- ===== src/Modules/M200/Answer.antt =====
-- modules/umdk-m200.c: the reply handler.
use lora_mqtt.Prelude.{
  ℕ, zero, suc, ◌+◌, ◌-◌, ◌*◌, ◌/◌, ◌%◌, ◌^◌, Bool, true, ◌||◌, List, [], ◌∷◌, ◌++◌, ltb, ◌==◌,
  if◌then◌else◌, get_or, bit_and, pos,
}
use lora_mqtt.Text.Literal.{codes}
use lora_mqtt.Text.Format.{dec}
use lora_mqtt.Hex.{load}
use lora_mqtt.Numbers.{uint32_to_le}
use lora_mqtt.Message.{Msgs, add_value_pair}
use lora_mqtt.Modules.{Outcome, done, undefined}
use lora_mqtt.Modules.Meters.{two}
use lora_mqtt.Modules.Payload.{at, long_at, to_signed, snprintf, fraction}

-- *(uint32_t *)(&moddata[i])
abbrev pub word32 : Bool → List ℕ → ℕ → ℕ
word32 be moddata i =
    load be (at moddata i ∷ at moddata (i + 1) ∷ at moddata (i + 2) ∷ at moddata (i + 3) ∷ [])

-- The digits of some bytes in binary-coded decimal; three bytes are below 2 ^ 24, so that the mask
-- behind them keeps all bits.
unfoldable pub bcd : ℕ → List ℕ → ℕ
bcd acc [] = acc
bcd acc (b ∷ bs) = bcd (acc * 100 + b / 2 ^ 4 * 10 + bit_and b 0x0F) bs

abbrev two_bytes : List ℕ → ℕ → List ℕ
two_bytes moddata i = at moddata i ∷ at moddata (i + 1) ∷ []

abbrev three_bytes : List ℕ → ℕ → List ℕ
three_bytes moddata i = at moddata i ∷ at moddata (i + 1) ∷ at moddata (i + 2) ∷ []

-- The loop over the addresses of a list; 0xFFFFFFFF stands for none.
unfoldable pub address_list : Bool → List ℕ → ℕ → ℕ → ℕ → Msgs → ℕ × Msgs
unfolding dec
address_list be moddata zero i cnt ms = (cnt, ms)
address_list be moddata (suc left) i cnt ms =
    let value = word32 be moddata (4 * i + 2) in
    if value == 0xFFFFFFFF
    then address_list be moddata left (i + 1) cnt ms
    else address_list be moddata left (i + 1) (cnt + 1)
        (add_value_pair ms (codes "Address " ++ dec (cnt + 1)) (dec (uint32_to_le be value)))

unfoldable pub address_reply : Bool → List ℕ → ℕ → Msgs → Msgs
unfolding address_list
address_reply be moddata moddatalen ms =
    let r = address_list be moddata ((moddatalen - 1) / 4 % 2 ^ 8) 0 0 ms in
    if r.0 == 0 then add_value_pair ms (codes "msg") (codes "empty") else r.1

-- The energy of the four tariffs and their sum.
unfoldable pub energy : Bool → List ℕ → Msgs → Msgs
energy be moddata ms =
    let value =
      λ (i : ℕ). fraction (to_signed 31 (uint32_to_le be (word32 be moddata (4 * i + 6)))) 2 in
    add_value_pair
      (add_value_pair
        (add_value_pair
          (add_value_pair (add_value_pair ms (codes "T01") (value 0)) (codes "T02") (value 1))
          (codes "T03") (value 2))
        (codes "T04") (value 3))
      (codes "Total") (value 4)

-- The number of entries of a schedule, a byte: the division is one of signed numbers.
unfoldable pub schedule_count : ℕ → ℕ
schedule_count moddatalen =
    if ltb moddatalen 6
    then (2 ^ 8 - (6 - moddatalen) / 3) % 2 ^ 8
    else (moddatalen - 6) / 3 % 2 ^ 8

unfoldable pub schedule_entries : List ℕ → ℕ → ℕ → Msgs → Msgs
unfolding dec
schedule_entries moddata zero i ms = ms
schedule_entries moddata (suc left) i ms = schedule_entries moddata left (i + 1) (
    add_value_pair ms (b'T' ∷ two (at moddata (3 * i + 6) + 1))
      (two (at moddata (3 * i + 7)) ++ (b':' ∷ two (at moddata (3 * i + 8)))))

abbrev days : List (List ℕ)
days =
    codes "Sun"
    ∷ codes "Mon"
    ∷ codes "Tue"
    ∷ codes "Wed"
    ∷ codes "Thu"
    ∷ codes "Fri"
    ∷ codes "Sat"
    ∷ codes "Hol"
    ∷ []

-- The three pairs of a time, through buffers of ten bytes; the day of the week is one of eight.
unfoldable pub time_pairs : List ℕ → Msgs → Msgs
unfolding dec
time_pairs moddata ms =
    add_value_pair
      (add_value_pair (add_value_pair ms (codes "Day") (get_or days (at moddata 6) []))
        (codes "Time")
        (snprintf 10
          (two (at moddata 7) ++ (b':' ∷ (two (at moddata 8) ++ (b':' ∷ two (at moddata 9)))))))
      (codes "Date")
      (snprintf 10
        (two (at moddata 10) ++ (b'/' ∷ (two (at moddata 11) ++ (b'/' ∷ two (at moddata 12))))))

-- Without a test of the day, and with one.
unfoldable pub time_reply : List ℕ → Msgs → Outcome (Bool × Msgs)
unfolding time_pairs
time_reply moddata ms =
    if ltb (at moddata 6) 8 then done (true, time_pairs moddata ms) else undefined

unfoldable pub cover_reply : List ℕ → Msgs → Msgs
unfolding time_pairs
cover_reply moddata ms =
    if ltb (at moddata 6) 8
    then time_pairs moddata ms
    else add_value_pair ms (codes "msg") (codes "Not support")

-- A number below 10 ^ 4 of two bytes, with a point before its last digits.
abbrev scaled : List ℕ → ℕ → ℕ → List ℕ
scaled moddata i precision = fraction (pos (bcd 0 (two_bytes moddata i))) precision

unfoldable pub working_time : List ℕ → Msgs → Msgs
unfolding bcd dec
working_time moddata ms =
    add_value_pair
      (add_value_pair ms (codes "Working time under voltage") (dec (bcd 0 (three_bytes moddata 6))))
      (codes "Working time without voltage") (dec (bcd 0 (three_bytes moddata 9)))

unfoldable pub voltage_reply : List ℕ → Msgs → Msgs
unfolding bcd dec
voltage_reply moddata ms =
    add_value_pair
      (add_value_pair (add_value_pair ms (codes "Voltage") (scaled moddata 6 1)) (codes "Current")
        (scaled moddata 8 2))
      (codes "Power") (dec (bcd 0 (three_bytes moddata 10)))

-- The switch over the commands; an unknown one adds nothing.
unfoldable pub m200_data : Bool → ℕ → List ℕ → ℕ → Msgs → Outcome (Bool × Msgs)
unfolding address_reply energy schedule_entries schedule_count time_reply cover_reply working_time
    voltage_reply dec
m200_data be cmd moddata moddatalen ms =
    if (cmd == 0x07) || ((cmd == 0x0B) || (cmd == 0x0C))
    then time_reply moddata ms
    else done (
      true,
      if cmd == 0xFC
          then address_reply be moddata moddatalen ms
          else if cmd == 0x01
          then add_value_pair ms (codes "Serial number")
              (dec (uint32_to_le be (word32 be moddata 6)))
          else if cmd == 0x10
          then add_value_pair ms (codes "Tariffs") (dec (at moddata 6))
          else if (cmd == 0x0A) || (cmd == 0x0F)
          then energy be moddata ms
          else if cmd == 0x0E
          then schedule_entries moddata (schedule_count moddatalen) 0 ms
          else if (cmd == 0x04) || (cmd == 0x05)
          then cover_reply moddata ms
          else if cmd == 0x15
          then working_time moddata ms
          else if cmd == 0x06
          then voltage_reply moddata ms
          else if cmd == 0x09
          then add_value_pair ms (codes "Current power") (scaled moddata 6 2)
          else if cmd == 0x08
          then add_value_pair ms (codes "Power limit") (scaled moddata 6 2)
          else ms,
    )

-- A short answer of a meter.
abbrev meter_message : ℕ → Msgs → Msgs
meter_message status ms =
    if status == 0
    then add_value_pair ms (codes "msg") (codes "ok")
    else if status == 1
    then add_value_pair ms (codes "msg") (codes "error")
    else if status == 2
    then add_value_pair ms (codes "msg") (codes "no response")
    else ms

abbrev gate_message : ℕ → Msgs → Msgs
gate_message status ms =
    if status == 0
    then add_value_pair ms (codes "msg") (codes "ok")
    else if status == 1
    then add_value_pair ms (codes "msg") (codes "error")
    else if status == 0xFF
    then add_value_pair ms (codes "msg") (codes "invalid command")
    else ms

unfoldable pub umdk_m200_reply : Bool → List ℕ → ℕ → Msgs → Outcome (Bool × Msgs)
unfolding m200_data dec long_at
umdk_m200_reply be moddata moddatalen ms =
    let cmd = at moddata 0 in
    let from : Msgs = add_value_pair ms (codes "Address") (dec (long_at moddata 2)) in
    if moddatalen == 1
    then done (true, gate_message cmd ms)
    else if ltb cmd 0xF0
    then if moddatalen == 6
      then done (true, meter_message (at moddata 1) from)
      else m200_data be cmd moddata moddatalen from
    else m200_data be cmd moddata moddatalen ms
