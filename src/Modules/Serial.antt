-- ===== src/Modules/Serial.antt =====
-- modules/umdk-uart.c, umdk-irblaster.c and umdk-hd44780.c: bytes for a port of the device.
-- `Frames` is about the frames in hexadecimal, those sent and those received.
pub mod Frames
use lora_mqtt.Prelude.{
  ℕ, zero, suc, ◌+◌, ◌-◌, ◌*◌, ◌/◌, ◌%◌, ◌^◌, Bool, true, false, List, [], ◌∷◌, ◌++◌, Option, none,
  some, ltb, leb, ◌==◌, if◌then◌else◌, bit_and, bit_or, length, take, drop, get_or,
}
use lora_mqtt.Text.Literal.{codes, after_prefix}
use lora_mqtt.Text.Format.{dec, hex_byte, hex_pad}
use lora_mqtt.Text.Scan.{atoi, cast}
use lora_mqtt.Hex.{Parsed, parsed, rejected, past_end, hex_to_bytes}
use lora_mqtt.Message.{Msgs, add_value_pair}
use lora_mqtt.Modules.{Outcome, done, undefined}
use lora_mqtt.Modules.Payload.{at, snprintf}
use lora_mqtt.Modules.Cursor.{◌>>=◌, advance, number, hex_bytes, hex_char, written}

-- hex_to_bytes into a buffer of `size` bytes: a text of more bytes is written past its end.
abbrev pub fits : ℕ → Parsed → List ℕ → Outcome (List ℕ)
fits size (parsed bs) text = if leb (length bs) size then done text else undefined
fits size rejected text = done []
fits size past_end text = undefined

-- The text of a mode in hexadecimal, where it is not longer than "115200-8N1".
abbrev pub hex_chars : List ℕ → List ℕ
hex_chars [] = []
hex_chars (c ∷ s) = take 4 (hex_char c) ++ hex_chars s

unfoldable pub mode_text : List ℕ → List ℕ → List ℕ
unfolding hex_char
mode_text head p = if ltb (length (codes "115200-8N1")) (length p) then [] else head ++ hex_chars p

unfoldable pub umdk_uart_command : List ℕ → ℕ → Outcome (List ℕ)
unfolding hex_to_bytes atoi mode_text
umdk_uart_command param bufsize = elim (after_prefix (codes "send ") param) [
  | some h ↦ fits 200 (hex_to_bytes h true) (snprintf bufsize (codes "00" ++ h))
  | none ↦ elim (after_prefix (codes "set_baudrate ") param) [
    | some p ↦
        let baudrate = cast 256 (atoi p) in
        done
          (if ltb 10 baudrate then [] else snprintf bufsize (codes "01" ++ hex_byte false baudrate))
    | none ↦ elim (after_prefix (codes "set ") param) [
      | some p ↦ done (mode_text (snprintf bufsize (codes "02")) p)
      | none ↦ done []
    ]
  ]
]

abbrev answered : Msgs → List ℕ → List ℕ → Outcome (Bool × Msgs)
answered ms type msg =
    done (true, add_value_pair (add_value_pair ms (codes "type") type) (codes "msg") msg)

-- The bytes received, into hexbuf[255].
unfoldable pub uart_received : List ℕ → ℕ → Msgs → Outcome (Bool × Msgs)
unfolding hex_byte
uart_received moddata moddatalen ms =
    let text : List ℕ = hex_bytes (take (moddatalen - 1) (drop 1 moddata)) in
    if ltb (length text) 255 then answered ms (codes "1") text else undefined

unfoldable pub umdk_uart_reply : List ℕ → ℕ → Msgs → Outcome (Bool × Msgs)
umdk_uart_reply moddata moddatalen ms =
    let reply_type = at moddata 0 in
    if reply_type == 0
    then answered ms (codes "0") (codes "sent ok")
    else if reply_type == 1
    then uart_received moddata moddatalen ms
    else if reply_type == 2
    then answered ms (codes "2") (codes "baud rate set")
    else if reply_type == 253
    then answered ms (codes "253") (codes "rx buffer overrun")
    else if reply_type == 254
    then answered ms (codes "254") (codes "invalid format")
    else if reply_type == 255
    then answered ms (codes "255") (codes "UART interface error")
    else done (false, ms)

-- A text of more than 100 digits is reported, and written past bytes[50] all the same.
unfoldable pub umdk_irblaster_command : List ℕ → ℕ → Outcome (List ℕ)
unfolding hex_to_bytes hex_pad
umdk_irblaster_command param bufsize = elim (after_prefix (codes "send ") param) [
  | some h ↦
      fits 50 (hex_to_bytes h true)
        (snprintf bufsize (hex_byte false 0 ++ (hex_pad 2 (length h / 2) ++ h)))
  | none ↦ done []
]

unfoldable pub umdk_irblaster_reply : List ℕ → ℕ → Msgs → Bool × Msgs
umdk_irblaster_reply moddata moddatalen ms =
    if moddatalen == 1
    then (
      true,
      add_value_pair ms (codes "msg") (if at moddata 0 == 0 then codes "ok" else codes "error"),
    )
    else (false, ms)

-- param + 3 from the place that the row ended at; past the terminator nothing may be read.
abbrev pub three_on : List ℕ → Option (List ℕ)
three_on s = do a ← advance s; b ← advance a; advance b

-- The text on the line, of twenty characters at most, with `%02X` of each.
abbrev line_bytes : List ℕ → List ℕ
line_bytes [] = []
line_bytes (c ∷ s) = hex_byte true c ++ line_bytes s

unfoldable pub hd44780_print : ℕ → List ℕ → ℕ → Option (List ℕ)
unfolding number hex_byte
hd44780_print clear p bufsize = do
  let row = number 10 256 p
  let col = (number 10 256 row.1).0
  let position =
      bit_or (bit_or (bit_and (row.0 * 2 ^ 5) 0x60) (bit_and col 0x1f)) (bit_and clear 0x80)
  line ← three_on row.1
  some (snprintf bufsize (hex_byte false 0 ++ hex_byte false position) ++ line_bytes (take 20 line))

unfoldable pub umdk_hd44780_command : List ℕ → ℕ → Outcome (List ℕ)
unfolding hd44780_print
umdk_hd44780_command param bufsize = elim (after_prefix (codes "print ") param) [
  | none ↦ done []
  | some p ↦ written (elim (after_prefix (codes "clear ") p) [
    | some q ↦ hd44780_print (2 ^ 7) q bufsize
    | none ↦ hd44780_print 0 p bufsize
  ])
]

unfoldable pub umdk_hd44780_reply : List ℕ → ℕ → Msgs → Bool × Msgs
umdk_hd44780_reply moddata moddatalen ms = (
  true,
  if at moddata 0 == 0
      then add_value_pair ms (codes "msg") (codes "ok")
      else if at moddata 0 == 255
      then add_value_pair ms (codes "msg") (codes "error")
      else ms,
)
