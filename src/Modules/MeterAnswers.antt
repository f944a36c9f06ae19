-- ===== src/Modules/MeterAnswers.antt =====
-- Answers of the meters, and the theorem about them at an input.
use lora_mqtt.Prelude.{◌≡◌, ◌+◌, ◌*◌, refl, ℕ, List, true, false, [], ◌∷◌, length, arith}
use lora_mqtt.Text.Literal.{codes}
use lora_mqtt.Text.Format.{dec}
use lora_mqtt.Message.{add_value_pair}
use lora_mqtt.Modules.{done, undefined}
use lora_mqtt.Modules.M200.Answer.{umdk_m200_reply}
use lora_mqtt.Modules.M230.Answer.{umdk_m230_reply}
use lora_mqtt.Modules.Iec61107.Answer.{umdk_iec61107_reply}
use lora_mqtt.Modules.Iec61107.Lists.{holidays_reply, filler}
use lora_mqtt.Modules.Iec61107.Holidays.{packed_holidays, listed, holidays_reply-packed_holidays}
use lora_mqtt.Numbers.{int_to_float_str}

meter_voltage :
    umdk_m200_reply false
      (6 ∷ 0 ∷ 1 ∷ 0 ∷ 0 ∷ 0 ∷ 0x22 ∷ 0x05 ∷ 0x01 ∷ 0x50 ∷ 0 ∷ 0x03 ∷ 0x30 ∷ [])
      13
      []
    ≡ done (
      true,
      add_value_pair
          (add_value_pair
            (add_value_pair
              (add_value_pair [] (codes "Address") (codes "1"))
              (codes "Voltage")
              (codes "220.5"))
            (codes "Current")
            (codes "1.50"))
          (codes "Power")
          (codes "330"),
    )
unfolding umdk_m200_reply int_to_float_str
meter_voltage = refl

meter_errors :
    umdk_m230_reply (0x10 ∷ 0 ∷ 5 ∷ 1 ∷ 0 ∷ 0 ∷ 0 ∷ 0 ∷ 0x80 ∷ []) 9 []
    ≡ done (
      true,
      add_value_pair
          (add_value_pair
            (add_value_pair [] (codes "Address") (codes "5"))
            (codes "Error")
            (codes "E-01"))
          (codes "Error")
          (codes "E-48"),
    )
unfolding umdk_m230_reply
meter_errors = refl

-- The frame of a whole time is one byte longer than the table.
whole_time :
    umdk_m230_reply (4 ∷ 0 ∷ 5 ∷ 0 ∷ 0x30 ∷ 0x12 ∷ 1 ∷ 0x05 ∷ 0x11 ∷ 0x17 ∷ 0 ∷ []) 11 []
    ≡ undefined
unfolding umdk_m230_reply
whole_time = refl

-- A zero ends the text of the buffer.
meter_text :
    umdk_iec61107_reply false (0 ∷ 0 ∷ 0x0C ∷ 7 ∷ b'2' ∷ b'3' ∷ b'1' ∷ 0 ∷ b'5' ∷ []) 9 []
    ≡ done (
      true,
      add_value_pair
          (add_value_pair [] (codes "device") (codes "7"))
          (codes "voltage")
          (codes "231"),
    )
unfolding umdk_iec61107_reply
meter_text = refl

-- A bit that is not the lowest of its byte is never one.
discharged :
    umdk_iec61107_reply false (0 ∷ 0 ∷ 6 ∷ 7 ∷ 0 ∷ 3 ∷ 2 ∷ 10 ∷ 4 ∷ 14 ∷ 8 ∷ 9 ∷ []) 12 []
    ≡ done (
      true,
      add_value_pair
          (add_value_pair
            (add_value_pair
              (add_value_pair
                (add_value_pair
                  (add_value_pair
                    (add_value_pair
                      (add_value_pair [] (codes "device") (codes "7"))
                      (codes "current tariff")
                      (codes "T01"))
                    (codes "schedule tariffs")
                    (codes "[ 1, 2, ]"))
                  (codes "schedule status")
                  (codes "normal"))
                (codes "time status")
                (codes "normal"))
              (codes "load")
              (codes "capacitive"))
            (codes "energy values")
            (codes "normal"))
          (codes "program memory")
          (codes "normal"),
    )
unfolding umdk_iec61107_reply
discharged = refl

abbrev holidays : List (ℕ × (ℕ × ℕ))
holidays = (9, (5, 2)) ∷ (31, (12, 1)) ∷ []

holidays_reply-packed_holidays_example :
    holidays_reply (0 ∷ 0 ∷ 0x10 ∷ 7 ∷ 0x12 ∷ packed_holidays holidays) (5 + 2 * length holidays) []
    ≡ filler 14
        (codes "00.00")
        (codes "0")
        (listed holidays (add_value_pair [] (codes "holidays list") (codes "1/2")))
unfolding dec
holidays_reply-packed_holidays_example =
    holidays_reply-packed_holidays 0 0 0x10 7 0x12 holidays []
      ((omega arith, (omega arith, omega arith)), ((omega arith, (omega arith, omega arith)), tt))
      (omega arith)
