-- ===== src/Modules/Analog.antt =====
-- modules/umdk-adc.c and modules/umdk-mhz19.c.
-- `Lines` is about the mask of the lines.
pub mod Lines
use lora_mqtt.Prelude.{
  ℕ, zero, suc, ◌+◌, ◌-◌, ◌*◌, ◌^◌, ◌<◌, ◌≤◌, ◌≡◌, refl, ap, inl, inr, Bool, true, false, List, [],
  ◌∷◌, ◌++◌, none, some, leb, ◌==◌, if◌then◌else◌, length, ℤ, pos, bit_or, arith, ◌⊎◌, Bool-cases,
  Option-cases,
}
use lora_mqtt.Text.Literal.{codes, after_prefix, starts_with}
use lora_mqtt.Text.Format.{dec, int, hex_byte}
use lora_mqtt.Text.Scan.{strtol, atoi, cast, scan_dec, read_or, scan_sign, skip_space, is_digit}
use lora_mqtt.Message.{Msgs, add_value_pair}
use lora_mqtt.Modules.Payload.{at, word_at, to_signed, snprintf, fraction}

abbrev pub enabled : ℕ → ℕ → ℕ
enabled lines_en line = if leb line 7 then bit_or lines_en (2 ^ (line - 1)) else lines_en

-- The loop over the numbers of `set_lines`, up to one whose low byte is zero. Each number takes a
-- character at least, so a fuel above the length of the text is enough.
unfoldable pub adc_lines : ℕ → List ℕ → ℕ → ℕ
unfolding strtol
adc_lines zero param lines_en = lines_en
adc_lines (suc fuel) param lines_en =
    let r = strtol param in
    let line = cast 256 r.0 in
    let rest = adc_lines fuel r.1 (enabled lines_en line) in if line == 0 then lines_en else rest

unfoldable pub umdk_adc_command : List ℕ → ℕ → List ℕ
unfolding atoi adc_lines
umdk_adc_command param bufsize = elim (after_prefix (codes "set_period ") param) [
  | some p ↦ snprintf bufsize (codes "00" ++ hex_byte false (cast 256 (atoi p)))
  | none ↦
      if starts_with (codes "get") param
      then snprintf bufsize (codes "01")
      else elim (after_prefix (codes "set_gpio ") param) [
        | some p ↦ snprintf bufsize (codes "02" ++ hex_byte false (cast 256 (atoi p)))
        | none ↦ elim (after_prefix (codes "set_lines ") param) [
          | some p ↦
              snprintf bufsize (codes "03" ++ hex_byte false (adc_lines (suc (length p)) p 0))
          | none ↦ []
        ]
      ]
]

abbrev adc_text : ℕ → List ℕ
adc_text sensor = if sensor == 0xFFFF then codes "null" else dec sensor

-- The loop over the eight channels, from channel `i` on.
unfoldable pub adc_channels : List ℕ → ℕ → ℕ → Msgs → Msgs
unfolding dec word_at
adc_channels moddata zero i ms = ms
adc_channels moddata (suc left) i ms =
    adc_channels moddata left (i + 1)
      (add_value_pair ms (codes "adc" ++ dec (i + 1)) (adc_text (word_at moddata (2 * i))))

unfoldable pub umdk_adc_reply : List ℕ → ℕ → Msgs → Bool × Msgs
unfolding adc_channels
umdk_adc_reply moddata moddatalen ms = (
  true,
  if moddatalen == 1
      then add_value_pair ms (codes "msg") (if at moddata 0 == 0 then codes "ok" else codes "error")
      else adc_channels moddata 8 0 ms,
)

unfoldable pub umdk_mhz19_command : List ℕ → ℕ → List ℕ
unfolding atoi
umdk_mhz19_command param bufsize = elim (after_prefix (codes "set_period ") param) [
  | some p ↦ snprintf bufsize (hex_byte false 1 ++ hex_byte false (cast 256 (atoi p)))
  | none ↦ if starts_with (codes "get ") param then snprintf bufsize (hex_byte false 0) else []
]

abbrev typed : Msgs → ℕ → List ℕ → Msgs
typed ms kind text = add_value_pair (add_value_pair ms (codes "type") (dec kind)) (codes "msg") text

abbrev mhz19_status : ℕ → Msgs → Msgs
mhz19_status kind ms =
    if kind == 0
    then typed ms 0 (codes "ok")
    else if kind == 253
    then typed ms 253 (codes "overflow error")
    else if kind == 254
    then typed ms 254 (codes "format error")
    else if kind == 255
    then typed ms 255 (codes "error")
    else ms

-- The number of the gas is cut to four characters.
unfoldable pub umdk_mhz19_reply : List ℕ → ℕ → Msgs → Bool × Msgs
unfolding dec word_at
umdk_mhz19_reply moddata moddatalen ms = (
  true,
  if moddatalen == 1
      then mhz19_status (at moddata 0) ms
      else add_value_pair
          (add_value_pair
            (add_value_pair ms (codes "co2") (snprintf 5 (int (to_signed 15 (word_at moddata 0)))))
            (codes "temp") (fraction (to_signed 15 (word_at moddata 2)) 1))
          (codes "valid") (snprintf 4 (dec (at moddata 4))),
)
