-- ===== src/Modules/Pins.antt =====
-- modules/umdk-gpio.c, umdk-pwm.c and umdk-switch.c: the pins of a device.
use lora_mqtt.Prelude.{
  ℕ, zero, suc, ◌+◌, ◌-◌, ◌*◌, ◌/◌, ◌%◌, ◌^◌, Bool, true, false, List, [], ◌∷◌, ◌++◌, Option, none,
  some, ltb, ◌==◌, if◌then◌else◌, bit_and, bit_or, length,
}
use lora_mqtt.Text.Literal.{codes, after_prefix, starts_with, find_after}
use lora_mqtt.Text.Format.{dec, hex_byte, hex_pad}
use lora_mqtt.Message.{Msgs, add_value_pair}
use lora_mqtt.Modules.{Outcome, done, undefined}
use lora_mqtt.Modules.Payload.{at, snprintf}
use lora_mqtt.Modules.Cursor.{◌>>=◌, advance, number, written}

-- The byte for `set`: the action and the pin.
unfoldable pub gpio_set : ℕ → ℕ → ℕ
gpio_set pin value =
    bit_or (if value == 1 then 2 * 2 ^ 5 else if value == 0 then 1 * 2 ^ 5 else 0)
      (bit_and pin 0x3F)

unfoldable pub gpio_get : ℕ → ℕ
gpio_get pin = bit_or (0 * 2 ^ 5) (bit_and pin 0x1F)

unfoldable pub gpio_toggle : ℕ → ℕ
gpio_toggle pin = bit_or (3 * 2 ^ 6) (bit_and pin 0x3F)

unfoldable pub umdk_gpio_command : List ℕ → ℕ → List ℕ
unfolding number gpio_set gpio_get gpio_toggle
umdk_gpio_command param bufsize = elim (after_prefix (codes "set ") param) [
  | some p ↦
      let pin = number 10 256 p in
      let value = number 10 256 pin.1 in snprintf bufsize (hex_byte false (gpio_set pin.0 value.0))
  | none ↦ elim (after_prefix (codes "get ") param) [
    | some p ↦ snprintf bufsize (
        hex_byte false
          (if starts_with (codes "all") p then 4 * 2 ^ 5 else gpio_get (number 10 256 p).0))
    | none ↦ elim (after_prefix (codes "toggle ") param) [
      | some p ↦ snprintf bufsize (hex_byte false (gpio_toggle (number 10 256 p).0))
      | none ↦ []
    ]
  ]
]

-- The loop over the pins, two in a byte.
unfoldable pub pin_states : List ℕ → ℕ → ℕ → List ℕ
unfolding dec
pin_states moddata zero i = []
pin_states moddata (suc left) i =
    dec (bit_and (at moddata (1 + i / 2) / 2 ^ (4 * (i % 2))) 7)
    ++ (codes ", " ++ pin_states moddata left (i + 1))

-- char buf[100]
unfoldable pub gpio_states : List ℕ → ℕ → Outcome (List ℕ)
unfolding pin_states
gpio_states moddata moddatalen =
    let text : List ℕ = codes "[ " ++ (pin_states moddata ((moddatalen - 1) * 2) 0 ++ codes "]") in
    if ltb (length text) 100 then done text else undefined

abbrev add_text : Msgs → List ℕ → Outcome (List ℕ) → Outcome (Bool × Msgs)
add_text ms name undefined = undefined
add_text ms name (done text) = done (true, add_value_pair ms name text)

unfoldable pub umdk_gpio_reply : List ℕ → ℕ → Msgs → Outcome (Bool × Msgs)
unfolding gpio_states
umdk_gpio_reply moddata moddatalen ms =
    let reply_type = at moddata 0 in
    if reply_type == 6
    then add_text ms (codes "gpios") (gpio_states moddata moddatalen)
    else if reply_type == 0
    then add_text ms (codes "value") (done (codes "0"))
    else if reply_type == 1
    then add_text ms (codes "value") (done (codes "1"))
    else if reply_type == 2
    then add_text ms (codes "msg") (done (codes "set ok"))
    else if reply_type == 3
    then add_text ms (codes "msg") (done (codes "invalid pin"))
    else if reply_type == 4
    then add_text ms (codes "msg") (done (codes "invalid format"))
    else if reply_type == 5
    then add_text ms (codes "value") (done (codes "3"))
    else done (true, ms)

-- do substring++; while (*substring == ' '): one byte is passed whatever it is.
unfoldable pub after_spaces : List ℕ → List ℕ
after_spaces [] = []
after_spaces (c ∷ s) = if c == b' ' then after_spaces s else c ∷ s

-- One of the five settings; it is zero where its name does not occur.
unfoldable pub pwm_setting : List ℕ → ℕ → List ℕ → Option ℕ
unfolding number find_after after_spaces
pwm_setting name m param = elim (find_after name param) [
  | none ↦ some 0
  | some s ↦ do rest ← advance s; some (number 10 m (after_spaces rest)).0
]

unfoldable pub umdk_pwm_command : List ℕ → ℕ → Outcome (List ℕ)
unfolding hex_pad pwm_setting
umdk_pwm_command param bufsize = written do
  pin ← pwm_setting (codes "pin") 256 param
  freq ← pwm_setting (codes "freq") (2 ^ 16) param
  duty ← pwm_setting (codes "duty") 256 param
  pulses ← pwm_setting (codes "pulses") (2 ^ 16) param
  soft ← pwm_setting (codes "soft") 256 param
  some (
      snprintf bufsize (
        hex_byte false 1
        ++ (hex_byte false pin
            ++ (hex_pad 4 freq
                ++ (hex_byte false duty ++ (hex_pad 4 pulses ++ hex_byte false soft))))))

unfoldable pub umdk_pwm_reply : List ℕ → ℕ → Msgs → Bool × Msgs
umdk_pwm_reply moddata moddatalen ms = (
  true,
  if at moddata 0 == 1
      then if at moddata 1 == 0
        then add_value_pair ms (codes "msg") (codes "ok")
        else if at moddata 1 == 0xFF
        then add_value_pair ms (codes "msg") (codes "error")
        else ms
      else ms,
)

unfoldable pub umdk_switch_command : List ℕ → ℕ → List ℕ
unfolding number
umdk_switch_command param bufsize = elim (after_prefix (codes "period ") param) [
  | some p ↦ snprintf bufsize (hex_byte false 0 ++ hex_byte false (number 10 256 p).0)
  | none ↦
      if starts_with (codes "reset ") param
      then snprintf bufsize (hex_byte false 1)
      else if starts_with (codes "poll ") param
      then snprintf bufsize (hex_byte false 2)
      else []
]

-- The loop over the switches.
unfoldable pub switch_states : ℕ → ℕ → ℕ → List ℕ
unfolding dec
switch_states sw zero i = []
switch_states sw (suc left) i =
    dec (bit_and (sw / 2 ^ i) 1)
    ++ ((if ltb i 3 then codes "," else []) ++ (codes " " ++ switch_states sw left (i + 1)))

unfoldable pub umdk_switch_reply : List ℕ → ℕ → Msgs → Bool × Msgs
unfolding dec switch_states
umdk_switch_reply moddata moddatalen ms =
    let reply_type = at moddata 0 in
    let sw = at moddata 1 in
    (
      true,
      if reply_type == 3
          then add_value_pair ms (codes "switch " ++ dec (bit_and sw 0x7F))
              (if sw / 2 ^ 7 == 0 then codes "0" else codes "1")
          else if reply_type == 4
          then add_value_pair ms (codes "status")
              (codes "[ " ++ (switch_states sw 4 0 ++ codes "]"))
          else if reply_type == 0
          then add_value_pair ms (codes "msg") (codes "set ok")
          else if reply_type == 1
          then add_value_pair ms (codes "msg") (codes "invalid command")
          else if reply_type == 2
          then add_value_pair ms (codes "msg") (codes "invalid parameter")
          else ms,
    )
