-- ===== src/Modules/Pulse.antt =====
-- modules/umdk-pulse.c: up to four counters of pulses with their values of the last hours.
-- `Hours` is about these values.
pub mod Hours
use lora_mqtt.Prelude.{
  ℕ, zero, suc, ◌+◌, ◌-◌, ◌*◌, ◌/◌, ◌%◌, ◌^◌, Bool, true, false, List, [], ◌∷◌, ◌++◌, Option, none,
  some, ltb, ◌==◌, if◌then◌else◌, bit_and, bit_or, length,
}
use lora_mqtt.Text.Literal.{codes, after_prefix, starts_with}
use lora_mqtt.Text.Format.{dec, hex_byte, hex_pad}
use lora_mqtt.Numbers.{uint32_to_le}
use lora_mqtt.Message.{Msgs, add_value_pair}
use lora_mqtt.Modules.{Outcome, done, undefined}
use lora_mqtt.Modules.Payload.{at, long_at, snprintf}
use lora_mqtt.Modules.Cursor.{number}

-- The parameter and the buffer; every command is tested for, on what the ones before have left.
abbrev Progress : Type 0
Progress = List ℕ × List ℕ

-- A command with a byte behind it.
abbrev byte_command : List ℕ → ℕ → ℕ → Progress → Progress
byte_command name code bufsize s = elim (after_prefix name s.0) [
  | none ↦ s
  | some p ↦
      let r = number 10 256 p in (r.1, snprintf bufsize (hex_byte false code ++ hex_byte false r.0))
]

abbrev plain_command : List ℕ → ℕ → ℕ → Progress → Progress
plain_command name code bufsize s =
    if starts_with name s.0 then (s.0, snprintf bufsize (hex_byte false code)) else s

-- The command `values`: the coefficient and the two counters, in little-endian order in memory.
unfoldable pub pulse_values : Bool → ℕ → Progress → Progress
unfolding number hex_pad
pulse_values be bufsize s = elim (after_prefix (codes "values ") s.0) [
  | none ↦ s
  | some p ↦
      let coeff = number 10 256 p in
      let value0 = number 10 (2 ^ 32) coeff.1 in
      let value1 = number 10 (2 ^ 32) value0.1 in
      (
        value1.1,
        snprintf bufsize (
            hex_byte false 3
            ++ (hex_byte false coeff.0
                ++ (hex_pad 8 (uint32_to_le be value0.0) ++ hex_pad 8 (uint32_to_le be value1.0)))),
      )
]

unfoldable pub umdk_pulse_command : Bool → List ℕ → ℕ → List ℕ
unfolding number pulse_values
umdk_pulse_command be param bufsize =
    let s0 : Progress = byte_command (codes "period ") 0 bufsize (param, []) in
    let s1 : Progress = byte_command (codes "coeff ") 4 bufsize s0 in
    let s2 : Progress = plain_command (codes "reset") 2 bufsize s1 in
    let s3 : Progress = plain_command (codes "get") 1 bufsize s2 in
    let s4 : Progress = plain_command (codes "tamper") 5 bufsize s3 in
    (pulse_values be bufsize s4).1

-- The difference at `p`, the same byte twice.
abbrev pub difference : List ℕ → ℕ → ℕ
difference moddata p = bit_or (at moddata p) (at moddata p * 2 ^ 8)

-- The values of the hours before, from the differences at `p`, p + 2, ….
unfoldable pub earlier : List ℕ → ℕ → ℕ → ℕ → List ℕ
earlier moddata zero p value = []
earlier moddata (suc hours) p value =
    let before = (value + (2 ^ 32 - difference moddata p)) % 2 ^ 32 in
    before ∷ earlier moddata hours (p + 2) before

-- history[i]
unfoldable pub history : List ℕ → ℕ → ℕ → ℕ → List ℕ
unfolding earlier long_at
history moddata channels hours i =
    let value = long_at moddata (2 + i * 4) in
    value ∷ earlier moddata (hours - 1) (2 + channels * 4 + i * 2 * (hours - 1)) value

-- The numbers, of nine digits at most, with commas between.
unfoldable pub hours_text : List ℕ → List ℕ
unfolding dec
hours_text [] = []
hours_text (v ∷ []) = snprintf 10 (dec v) ++ codes " "
hours_text (v ∷ w ∷ vs) = snprintf 10 (dec v) ++ (codes ", " ++ hours_text (w ∷ vs))

abbrev row : List ℕ → List ℕ
row vs = codes "[ " ++ (hours_text vs ++ codes "]")

-- The loop over the channels, through buf[100].
unfoldable pub pulse_rows : List ℕ → ℕ → ℕ → ℕ → ℕ → Msgs → Outcome Msgs
unfolding history hours_text dec
pulse_rows moddata channels hours zero i ms = done ms
pulse_rows moddata channels hours (suc left) i ms =
    let text : List ℕ = row (history moddata channels hours i) in
    let rest =
      pulse_rows moddata channels hours left (i + 1)
        (add_value_pair ms (b'P' ∷ dec (i + 1)) text) in
    if ltb (length text) 100 then rest else undefined

abbrev with_tamper : ℕ → Outcome Msgs → Outcome (Bool × Msgs)
with_tamper tamper undefined = undefined
with_tamper tamper (done ms) =
    done (
      true,
      add_value_pair ms (codes "tamper") (if tamper == 0 then codes "ok" else codes "broken"),
    )

-- Without an hour the values are written past an array of no elements.
unfoldable pub pulse_data : List ℕ → Msgs → Outcome (Bool × Msgs)
unfolding pulse_rows
pulse_data moddata ms =
    let tamper = bit_and (at moddata 1) (2 ^ 7) in
    let hours = bit_and (at moddata 1 / 2 ^ 2) 31 in
    let channels = bit_and (at moddata 1) 3 + 1 in
    if hours == 0
    then undefined
    else with_tamper tamper (pulse_rows moddata channels hours channels 0 ms)

unfoldable pub umdk_pulse_reply : List ℕ → ℕ → Msgs → Outcome (Bool × Msgs)
unfolding pulse_data
umdk_pulse_reply moddata moddatalen ms =
    let type = at moddata 0 in
    if type == 3
    then pulse_data moddata ms
    else done (
      true,
      if type == 0
          then add_value_pair ms (codes "msg") (codes "ok")
          else if type == 1
          then add_value_pair ms (codes "msg") (codes "invalid command")
          else if type == 2
          then add_value_pair ms (codes "msg") (codes "invalid parameter")
          else if type == 4
          then add_value_pair ms (codes "msg") (codes "leak")
          else if type == 5
          then add_value_pair ms (codes "msg") (codes "tamper")
          else ms,
    )
