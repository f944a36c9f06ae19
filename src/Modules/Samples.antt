-- ===== src/Modules/Samples.antt =====
-- Payloads of single modules, and the theorems at inputs.
use lora_mqtt.Prelude.{◌++◌, ◌≡◌, refl, ◌^◌, ◌*◌, ◌+◌, true, false, [], ◌∷◌, pos, arith}
use lora_mqtt.Text.Literal.{codes}
use lora_mqtt.Text.Format.{int, hex_byte}
use lora_mqtt.Numbers.Sam.{of_sam}
use lora_mqtt.Numbers.{int_to_float_str}
use lora_mqtt.Message.{add_value_pair}
use lora_mqtt.Modules.Payload.{to_signed, fraction}
use lora_mqtt.Modules.Gps.{degrees, decimal}
use lora_mqtt.Modules.Meteo.{umdk_meteo_reply, umdk_meteo_reply_lem}
use lora_mqtt.Modules.Counter.{umdk_counter_command, counter_values, packed, counter_values-packed}
use lora_mqtt.Modules.Analog.{umdk_adc_command}
use lora_mqtt.Modules.Analog.Lines.{spaced, mask_of, umdk_adc_command-mask_of}
use lora_mqtt.Modules.Simple.{umdk_hx711_command}

-- -1.5 degrees are 0x800f.
meteo_text : fraction (to_signed 15 (of_sam (2 ^ 15) (0x80 * 256 + 0x0f))) 1 ≡ codes "-1.5"
unfolding int_to_float_str
meteo_text = refl

-- A position west of the meridian, with a leading zero behind the point.
west : degrees (to_signed 31 (of_sam (2 ^ 31) (2 ^ 31 + 50000))) ≡ codes "-0.050000"
unfolding degrees
west = refl

heading : decimal 2 27005 ≡ codes "270.050000"
unfolding decimal
heading = refl

umdk_meteo_reply_lem_example :
    umdk_meteo_reply true (0 ∷ 0x80 ∷ 0x0f ∷ 1 ∷ 0xf4 ∷ 3 ∷ 0xe8 ∷ []) 7 [] ≡ (
      true,
      add_value_pair
          (add_value_pair
            (add_value_pair []
              (codes "temperature")
              (fraction (to_signed 15 (of_sam (2 ^ 15) (0x80 * 256 + 0x0f))) 1))
            (codes "humidity")
            (fraction (to_signed 15 (of_sam (2 ^ 15) (1 * 256 + 0xf4))) 1))
          (codes "pressure")
          (int (pos (of_sam (2 ^ 15) (3 * 256 + 0xe8)))),
    )
umdk_meteo_reply_lem_example =
    umdk_meteo_reply_lem true 0x80 0x0f 1 0xf4 3 0xe8 [] 7 []
      (omega arith, (omega arith, (omega arith, (omega arith, (omega arith, (omega arith, tt))))))

-- What follows the number of `period` is read as one more command.
overwritten : umdk_counter_command (codes "period 5reset") 200 ≡ codes "02"
unfolding umdk_counter_command hex_byte
overwritten = refl

counter_values-packed_example :
    counter_values true (packed 1 0xabcdef 0x123456 0xffffff)
    ≡ 1 ∷ 0xabcdef ∷ 0x123456 ∷ 0xffffff ∷ []
counter_values-packed_example =
    counter_values-packed true 1 0xabcdef 0x123456 0xffffff (omega arith) (omega arith)
      (omega arith) (omega arith)

scale : umdk_hx711_command (codes "scale 300") 200 ≡ codes "030000012c"
unfolding umdk_hx711_command hex_byte
scale = refl

lines_mask : umdk_adc_command (codes "set_lines 1 3 9 7 0 2") 200 ≡ codes "0345"
unfolding umdk_adc_command hex_byte
lines_mask = refl

umdk_adc_command-mask_of_example :
    umdk_adc_command (codes "set_lines" ++ spaced (3 ∷ 9 ∷ 1 ∷ 3 ∷ [])) 200
    ≡ codes "03" ++ hex_byte false (mask_of (3 ∷ 9 ∷ 1 ∷ 3 ∷ []))
umdk_adc_command-mask_of_example = umdk_adc_command-mask_of 3 200 (9 ∷ 1 ∷ 3 ∷ []) (omega arith) (
  (omega arith, omega arith),
  ((omega arith, omega arith), ((omega arith, omega arith), ((omega arith, omega arith), tt))),
)
