-- ===== src/Modules/Simple.antt =====
-- The small modules: modules/umdk-pir.c, umdk-4btn.c, umdk-rssiecho.c, umdk-usound.c,
-- umdk-inclinometer.c, umdk-ibutton.c, umdk-hx711.c and umdk-lmt01.c.
use lora_mqtt.Prelude.{
  ℕ, zero, suc, ◌+◌, ◌*◌, ◌/◌, ◌%◌, ◌^◌, ◌<◌, ◌≢◌, Bool, true, false, List, [], ◌∷◌, ◌++◌, none,
  some, ltb, ◌==◌, if◌then◌else◌, take, arith,
}
use lora_mqtt.Text.Literal.{codes, after_prefix, starts_with}
use lora_mqtt.Text.Format.{dec, int, hex_byte, hex_pad}
use lora_mqtt.Text.Scan.{atoi, cast}
use lora_mqtt.Hex.{load}
use lora_mqtt.Numbers.{uint32_to_le}
use lora_mqtt.Message.{Msgs, add_value_pair}
use lora_mqtt.Modules.Payload.{at, word_at, long_at, to_signed, snprintf, fraction}

abbrev message : Msgs → List ℕ → Bool × Msgs
message ms text = (true, add_value_pair ms (codes "msg") text)

unfoldable pub umdk_pir_reply : List ℕ → ℕ → Msgs → Bool × Msgs
unfolding dec
umdk_pir_reply moddata moddatalen ms =
    if moddatalen == 1
    then (true, add_value_pair ms (codes "pir") (dec (at moddata 0)))
    else (false, ms)

unfoldable pub umdk_4btn_reply : List ℕ → ℕ → Msgs → Bool × Msgs
unfolding dec
umdk_4btn_reply moddata moddatalen ms =
    if moddatalen == 2
    then (
      true,
      add_value_pair (add_value_pair ms (codes "btn") (dec (at moddata 0))) (codes "state")
          (if at moddata 1 == 0 then codes "pressed" else codes "released"),
    )
    else (false, ms)

unfoldable pub umdk_rssiecho_command : List ℕ → ℕ → List ℕ
umdk_rssiecho_command param bufsize =
    if starts_with (codes "get") param then snprintf bufsize (codes "00") else []

-- The two bytes as an unsigned number of 16 bits.
unfoldable pub rssi_bits : Bool → List ℕ → ℕ
rssi_bits true moddata = (at moddata 0 + at moddata 1 * 2 ^ 8) % 2 ^ 16
rssi_bits false moddata = (at moddata 1 + at moddata 0 * 2 ^ 8) % 2 ^ 16

unfoldable pub umdk_rssiecho_reply : Bool → List ℕ → ℕ → Msgs → Bool × Msgs
unfolding rssi_bits
umdk_rssiecho_reply be moddata moddatalen ms =
    if ltb moddatalen 2
    then (false, ms)
    else (true, add_value_pair ms (codes "rssi") (int (to_signed 15 (rssi_bits be moddata))))

unfoldable pub umdk_usound_command : List ℕ → ℕ → List ℕ
umdk_usound_command param bufsize =
    if starts_with (codes "get") param then snprintf bufsize (codes "00") else []

unfoldable pub umdk_usound_reply : Bool → List ℕ → ℕ → Msgs → Bool × Msgs
umdk_usound_reply be moddata moddatalen ms =
    if ltb moddatalen 2
    then (false, ms)
    else let value = uint32_to_le be (load be (take 4 moddata)) in
      (true, add_value_pair ms (codes "distance") (int (to_signed 31 value)))

unfoldable pub umdk_inclinometer_reply : List ℕ → ℕ → Msgs → Bool × Msgs
umdk_inclinometer_reply moddata moddatalen ms =
    if moddatalen == 1
    then (
      true,
      if at moddata 0 == 1 then add_value_pair ms (codes "state") (codes "opened") else ms,
    )
    else (false, ms)

abbrev pub umdk_inclinometer_command : List ℕ → ℕ → List ℕ
umdk_inclinometer_command param bufsize = []

abbrev pub umdk_ibutton_command : List ℕ → ℕ → List ℕ
umdk_ibutton_command param bufsize = []

-- The loop from the last byte to the first; byte `i` stands at 14 - 2 * i.
unfoldable pub button_id : List ℕ → ℕ → List ℕ
unfolding hex_byte
button_id moddata zero = []
button_id moddata (suc i) = hex_byte true (at moddata i) ++ button_id moddata i

unfoldable pub umdk_ibutton_reply : List ℕ → ℕ → Msgs → Bool × Msgs
unfolding button_id
umdk_ibutton_reply moddata moddatalen ms =
    if moddatalen == 1
    then message ms (if at moddata 0 == 1 then codes "OK" else codes "ERROR")
    else (true, add_value_pair ms (codes "id") (button_id moddata 8))

unfoldable pub umdk_hx711_command : List ℕ → ℕ → List ℕ
unfolding atoi hex_pad
umdk_hx711_command param bufsize = elim (after_prefix (codes "period ") param) [
  | some p ↦ snprintf bufsize (hex_byte false 1 ++ hex_byte false (cast 256 (atoi p)))
  | none ↦
      if starts_with (codes "get") param
      then snprintf bufsize (hex_byte false 0)
      else if starts_with (codes "zero ") param
      then snprintf bufsize (hex_byte false 2)
      else elim (after_prefix (codes "scale ") param) [
        | some p ↦ snprintf bufsize (hex_byte false 3 ++ hex_pad 8 (cast (2 ^ 32) (atoi p)))
        | none ↦ []
      ]
]

unfoldable pub umdk_hx711_reply : List ℕ → ℕ → Msgs → Bool × Msgs
unfolding dec long_at
umdk_hx711_reply moddata moddatalen ms =
    if at moddata 0 == 1
    then message ms (codes "ok")
    else if at moddata 0 == 2
    then message ms (codes "error")
    else if at moddata 0 == 0
    then (
      true,
      add_value_pair (add_value_pair ms (codes "weight") (dec (long_at moddata 1))) (codes "raw")
          (dec (long_at moddata 5)),
    )
    else (false, ms)

unfoldable pub umdk_lmt01_command : List ℕ → ℕ → List ℕ
unfolding atoi
umdk_lmt01_command param bufsize = elim (after_prefix (codes "set_period ") param) [
  | some p ↦ snprintf bufsize (codes "00" ++ hex_byte false (cast 256 (atoi p)))
  | none ↦ if starts_with (codes "get") param then snprintf bufsize (codes "01") else []
]

abbrev sensor_text : ℕ → List ℕ
sensor_text sensor = if sensor == 0x7FFF then codes "null" else fraction (to_signed 15 sensor) 1

-- The loop over the sensors from number `i`; the name is cut to two characters.
unfoldable pub lmt01_sensors : List ℕ → ℕ → ℕ → Msgs → Msgs
unfolding dec word_at
lmt01_sensors moddata zero i ms = ms
lmt01_sensors moddata (suc left) i ms =
    lmt01_sensors moddata left (i + 1)
      (add_value_pair ms (take 2 (b's' ∷ dec (i + 1))) (sensor_text (word_at moddata (2 * i))))

unfoldable pub umdk_lmt01_reply : List ℕ → ℕ → Msgs → Bool × Msgs
unfolding lmt01_sensors
umdk_lmt01_reply moddata moddatalen ms =
    if moddatalen == 1
    then message ms (if at moddata 0 == 0 then codes "ok" else codes "error")
    else (true, lmt01_sensors moddata (moddatalen / 2) 0 ms)

-- Of two different bytes a big-endian host and a little-endian one read different numbers, for each
-- takes them in its own order.
pub rssi_bits-differ :
    (a b : ℕ) (rest : List ℕ)
    → a < 256
    → b < 256
    → a ≢ b
    → rssi_bits true (a ∷ b ∷ rest) ≢ rssi_bits false (a ∷ b ∷ rest)
unfolding rssi_bits
rssi_bits-differ a b rest h k n e = n (omega arith)
