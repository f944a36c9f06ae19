-- ===== src/Modules/Modbus/Answer.antt =====
-- modules/umdk-modbus.c: the reply handler.
use lora_mqtt.Prelude.{
  ℕ, ◌-◌, Bool, true, List, [], ◌∷◌, ltb, leb, ◌==◌, if◌then◌else◌, length, take, drop,
}
use lora_mqtt.Text.Literal.{codes}
use lora_mqtt.Text.Format.{dec, pad}
use lora_mqtt.Message.{Msgs, add_value_pair}
use lora_mqtt.Modules.{Outcome, done, undefined}
use lora_mqtt.Modules.Payload.{at}
use lora_mqtt.Modules.Cursor.{hex_bytes}

-- A chain of tests of one byte.
abbrev said : List (ℕ × List ℕ) → ℕ → Msgs → Msgs
said [] code ms = ms
said ((c, text) ∷ rest) code ms =
    if code == c then add_value_pair ms (codes "msg") text else said rest code ms

unfoldable pub modbus_status : ℕ → Msgs → Msgs
modbus_status = said (
    (0x00, codes "ok")
    ∷ (0x01, codes "error")
    ∷ (0xFF, codes "invalid command")
    ∷ (0x04, codes "invalid format")
    ∷ [])

unfoldable pub modbus_line_status : ℕ → Msgs → Msgs
modbus_line_status = said (
    (0x00, codes "ok")
    ∷ (0x01, codes "error")
    ∷ (0x02, codes "no response")
    ∷ (0x03, codes "rx buffer overflow")
    ∷ [])

unfoldable pub modbus_exception : ℕ → Msgs → Msgs
modbus_exception = said (
    (0x01, codes "illegal function")
    ∷ (0x02, codes "illegal address")
    ∷ (0x03, codes "illegal value")
    ∷ (0x04, codes "device failure")
    ∷ (0x05, codes "ack")
    ∷ (0x06, codes "device busy")
    ∷ (0x07, codes "nak")
    ∷ (0x08, codes "memory error")
    ∷ (0x0A, codes "gateway unavailable")
    ∷ (0x0B, codes "gateway no response")
    ∷ [])

-- The bytes of the answer, into buf[100].
unfoldable pub modbus_data : List ℕ → ℕ → Msgs → Outcome (Bool × Msgs)
modbus_data moddata moddatalen ms =
    let text : List ℕ = hex_bytes (take (moddatalen - 2) (drop 2 moddata)) in
    if ltb (length text) 100 then done (true, add_value_pair ms (codes "data") text) else undefined

unfoldable pub umdk_modbus_reply : List ℕ → ℕ → Msgs → Outcome (Bool × Msgs)
unfolding dec modbus_data modbus_status modbus_line_status modbus_exception
umdk_modbus_reply moddata moddatalen ms =
    let addressed : Msgs = add_value_pair ms (codes "address") (dec (at moddata 0)) in
    let exception = at moddata 2 in
    if moddatalen == 1
    then done (true, modbus_status (at moddata 0) ms)
    else if moddatalen == 2
    then done (true, modbus_line_status (at moddata 0) addressed)
    else if leb 0x80 (at moddata 1)
    then done (
      true,
      modbus_exception exception
          (add_value_pair addressed (codes "exception") (pad 2 (dec exception))),
    )
    else modbus_data moddata moddatalen addressed
