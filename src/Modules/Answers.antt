-- ===== src/Modules/Answers.antt =====
-- Answers of the modules, and the theorems about answers at inputs.
use lora_mqtt.Prelude.{
  ◌≡◌, ◌+◌, ◌*◌, ◌++◌, refl, ℕ, List, some, true, false, [], ◌∷◌, All, if◌then◌else◌, leb, length,
  arith,
}
use lora_mqtt.Text.Literal.{codes}
use lora_mqtt.Text.Format.{hex_byte}
use lora_mqtt.Hex.{hex_to_bytes, parsed}
use lora_mqtt.Message.{add_value_pair, no_msgs}
use lora_mqtt.Modules.{done, undefined, converted}
use lora_mqtt.Modules.Cursor.{hex_bytes}
use lora_mqtt.Modules.Pins.{umdk_gpio_reply, umdk_switch_reply}
use lora_mqtt.Modules.Serial.{umdk_uart_reply}
use lora_mqtt.Modules.Serial.Frames.{umdk_uart_reply-hex_to_bytes}
use lora_mqtt.Modules.Access.{wiegand_card, umdk_wiegand_reply, umdk_st95_reply}
use lora_mqtt.Modules.Access.Cards.{umdk_wiegand_reply_lem}
use lora_mqtt.Modules.Pulse.{umdk_pulse_reply}
use lora_mqtt.Modules.Modbus.Answer.{umdk_modbus_reply}
use lora_mqtt.Modules.Dali.Frames.{
  IsAsked, IsAnswered, byte_queries, list_queries, umdk_dali_command-umdk_dali_reply,
}
use lora_mqtt.Modules.Dali.Level.{level_of}
use lora_mqtt.Modules.Dali.Answer.{umdk_dali_reply}

pins_reply :
    umdk_gpio_reply (6 ∷ 0x21 ∷ []) 2 []
    ≡ done (true, add_value_pair [] (codes "gpios") (codes "[ 1, 2, ]"))
unfolding umdk_gpio_reply
pins_reply = refl

switches_reply :
    umdk_switch_reply (4 ∷ 5 ∷ []) 2 []
    ≡ (true, add_value_pair [] (codes "status") (codes "[ 1, 0, 1, 0 ]"))
unfolding umdk_switch_reply
switches_reply = refl

-- From the 27th byte on the size that is left has wrapped.
uid_reply :
    umdk_st95_reply (0xab ∷ 0x10 ∷ []) 2 []
    ≡ done (true, add_value_pair [] (codes "uid") (codes "ab10"))
unfolding umdk_st95_reply hex_byte
uid_reply = refl

-- Of a value of ten digits the last one is cut off.
pulse_reply :
    umdk_pulse_reply (3 ∷ 0x04 ∷ 0 ∷ 0xca ∷ 0x9a ∷ 0x3b ∷ []) 6 []
    ≡ done (
      true,
      add_value_pair
          (add_value_pair [] (codes "P1") (codes "[ 100000000 ]"))
          (codes "tamper")
          (codes "ok"),
    )
unfolding umdk_pulse_reply
pulse_reply = refl

registers_reply :
    umdk_modbus_reply (17 ∷ 3 ∷ 2 ∷ 0x12 ∷ 0x34 ∷ []) 5 []
    ≡ done (
      true,
      add_value_pair
          (add_value_pair [] (codes "address") (codes "17"))
          (codes "data")
          (codes "021234"),
    )
unfolding umdk_modbus_reply hex_byte
registers_reply = refl

-- The list of groups is appended to a buffer that was never written.
groups_reply : umdk_dali_reply (0xC0 ∷ 3 ∷ 5 ∷ []) 3 [] ≡ undefined
unfolding umdk_dali_reply
groups_reply = refl

full_level : level_of 254 ≡ 100
unfolding level_of
full_level = refl

abbrev received : List ℕ
received = 0xab ∷ 0x10 ∷ []

umdk_uart_reply-hex_to_bytes_example :
    (converted
        (codes "uart")
        (umdk_uart_reply (1 ∷ (received ++ 0 ∷ [])) (length received + 1) no_msgs)
      ≡ some (
          if leb (length received) 49
          then done (
            codes "uart",
            add_value_pair
                (add_value_pair no_msgs (codes "type") (codes "1"))
                (codes "msg")
                (hex_bytes received),
          )
          else undefined))
    × (hex_to_bytes (hex_bytes received) false ≡ parsed received)
umdk_uart_reply-hex_to_bytes_example =
    umdk_uart_reply-hex_to_bytes (codes "uart") received (0 ∷ []) (omega arith, (omega arith, tt))

umdk_wiegand_reply_lem_example :
    (wiegand_card (5 ∷ 1 ∷ 2 ∷ 3 ∷ 4 ∷ 5 ∷ []) ≡ ((2 * 256 + 3) * 256 + 4) * 256 + 5)
    × (umdk_wiegand_reply (5 ∷ 1 ∷ 2 ∷ 3 ∷ 4 ∷ 5 ∷ []) 6 []
        ≡ umdk_wiegand_reply (5 ∷ 0 ∷ 2 ∷ 3 ∷ 4 ∷ 5 ∷ []) 6 [])
umdk_wiegand_reply_lem_example =
    umdk_wiegand_reply_lem 5 1 2 3 4 5 [] 6 []
      (omega arith, (omega arith, (omega arith, (omega arith, (omega arith, tt)))))

-- One channel, two hours, and the difference 0x0201.
abbrev counters : List ℕ
counters = 3 ∷ 0x08 ∷ 100 ∷ 0 ∷ 0 ∷ 0 ∷ 1 ∷ 2 ∷ []

umdk_dali_command-umdk_dali_reply_example :
    All (IsAsked 5 1024) (byte_queries ++ list_queries) × All (IsAnswered 5 0xFF []) byte_queries
umdk_dali_command-umdk_dali_reply_example =
    umdk_dali_command-umdk_dali_reply 5 1024 0xFF [] (omega arith) (omega arith)
