-- ===== src/Modules/Registry.antt =====
-- modules/include/unwds-modules.h and unwds-ids.h: the table of the modules.
use lora_mqtt.Prelude.{
  ℕ, ◌≡◌, refl, Bool, true, not, ◌&&◌, List, [], ◌∷◌, Option, none, some, ◌==◌, All, arith, inl,
  inr,
}
use lora_mqtt.Text.Literal.{codes, str_eq}
use lora_mqtt.Message.{Msgs}
use lora_mqtt.Modules.{Module, done, Command, Reply}
use lora_mqtt.Modules.Lookup.{Differ, IsRegistry, Has}
use lora_mqtt.Modules.Pins.{
  umdk_gpio_command, umdk_gpio_reply, umdk_pwm_command, umdk_pwm_reply, umdk_switch_command,
  umdk_switch_reply,
}
use lora_mqtt.Modules.Serial.{
  umdk_hd44780_command, umdk_hd44780_reply, umdk_irblaster_command, umdk_irblaster_reply,
  umdk_uart_command, umdk_uart_reply,
}
use lora_mqtt.Modules.Access.{
  umdk_idcard_command, umdk_idcard_reply, umdk_pacs_command, umdk_pacs_reply, umdk_st95_command,
  umdk_st95_reply, umdk_wiegand_command, umdk_wiegand_reply,
}
use lora_mqtt.Modules.Gps.{umdk_gps_command, umdk_gps_reply}
use lora_mqtt.Modules.Config.{umdk_config_command, umdk_config_reply}
use lora_mqtt.Modules.Pulse.{umdk_pulse_command, umdk_pulse_reply}
use lora_mqtt.Modules.Modbus.{umdk_modbus_command}
use lora_mqtt.Modules.Modbus.Answer.{umdk_modbus_reply}
use lora_mqtt.Modules.Dali.{umdk_dali_command}
use lora_mqtt.Modules.Dali.Answer.{umdk_dali_reply}
use lora_mqtt.Modules.M200.{umdk_m200_command}
use lora_mqtt.Modules.M230.{umdk_m230_command}
use lora_mqtt.Modules.Iec61107.{umdk_iec61107_command}
use lora_mqtt.Modules.Iec61107.Answer.{umdk_iec61107_reply}
use lora_mqtt.Modules.M230.Answer.{umdk_m230_reply}
use lora_mqtt.Modules.M200.Answer.{umdk_m200_reply}
use lora_mqtt.Modules.Meteo.{
  umdk_light_command, umdk_light_reply, umdk_meteo_command, umdk_meteo_reply,
}
use lora_mqtt.Modules.Counter.{umdk_counter_command, umdk_counter_reply}
use lora_mqtt.Modules.Simple.{
  umdk_4btn_reply, umdk_hx711_command, umdk_hx711_reply, umdk_ibutton_command, umdk_ibutton_reply,
  umdk_inclinometer_command, umdk_inclinometer_reply, umdk_lmt01_command, umdk_lmt01_reply,
  umdk_pir_reply, umdk_rssiecho_command, umdk_rssiecho_reply, umdk_usound_command,
  umdk_usound_reply,
}
use lora_mqtt.Modules.Analog.{
  umdk_adc_command, umdk_adc_reply, umdk_mhz19_command, umdk_mhz19_reply,
}

-- Handlers that nothing is undefined in.
abbrev pub writes : (List ℕ → ℕ → List ℕ) → Command
writes f param bufsize = done (f param bufsize)

abbrev pub answers : (List ℕ → ℕ → Msgs → Bool × Msgs) → Reply
answers f moddata moddatalen ms = done (f moddata moddatalen ms)

abbrev pub entry : ℕ → List ℕ → Option Command → Option Reply → Module
entry id name cmd reply = record { id = id; name = name; cmd = cmd; reply = reply }

-- The table with one handler open: the command of `config` looks names up in the table itself.
abbrev pub modules_with : Bool → Option Command → List Module
modules_with be config =
    entry 1 (codes "gpio") (some (writes umdk_gpio_command)) (some umdk_gpio_reply)
    ∷ entry 2 (codes "4btn") (none) (some (answers umdk_4btn_reply))
    ∷ entry 12 (codes "counter") (some (writes umdk_counter_command))
        (some (answers (umdk_counter_reply be)))
    ∷ entry 3 (codes "gps") (some (writes umdk_gps_command)) (some (answers (umdk_gps_reply be)))
    ∷ entry 6 (codes "lmt01") (some (writes umdk_lmt01_command)) (some (answers umdk_lmt01_reply))
    ∷ entry 7 (codes "uart") (some umdk_uart_command) (some umdk_uart_reply)
    ∷ entry 9 (codes "pir") (none) (some (answers umdk_pir_reply))
    ∷ entry 10 (codes "adc") (some (writes umdk_adc_command)) (some (answers umdk_adc_reply))
    ∷ entry 13 (codes "echo") (some (writes umdk_rssiecho_command))
        (some (answers (umdk_rssiecho_reply be)))
    ∷ entry 14 (codes "pwm") (some umdk_pwm_command) (some (answers umdk_pwm_reply))
    ∷ entry 15 (codes "light") (some (writes umdk_light_command))
        (some (answers (umdk_light_reply be)))
    ∷ entry 57 (codes "dali") (some umdk_dali_command) (some umdk_dali_reply)
    ∷ entry 17 (codes "meteo") (some (writes umdk_meteo_command))
        (some (answers (umdk_meteo_reply be)))
    ∷ entry 50 (codes "m200") (some umdk_m200_command) (some (umdk_m200_reply be))
    ∷ entry 126 (codes "config") (config) (some (answers umdk_config_reply))
    ∷ entry 51 (codes "pulse") (some (writes (umdk_pulse_command be))) (some umdk_pulse_reply)
    ∷ entry 18 (codes "mhz19") (some (writes umdk_mhz19_command)) (some (answers umdk_mhz19_reply))
    ∷ entry 21 (codes "ibutton") (some (writes umdk_ibutton_command))
        (some (answers umdk_ibutton_reply))
    ∷ entry 53 (codes "switch") (some (writes umdk_switch_command))
        (some (answers umdk_switch_reply))
    ∷ entry 54 (codes "m230") (some umdk_m230_command) (some umdk_m230_reply)
    ∷ entry 20 (codes "inclinometer") (some (writes umdk_inclinometer_command))
        (some (answers umdk_inclinometer_reply))
    ∷ entry 55 (codes "iec61107") (some umdk_iec61107_command) (some (umdk_iec61107_reply be))
    ∷ entry 22 (codes "hd44780") (some umdk_hd44780_command) (some (answers umdk_hd44780_reply))
    ∷ entry 52 (codes "pacs") (some umdk_pacs_command) (some (answers (umdk_pacs_reply be)))
    ∷ entry 56 (codes "idcard") (some (writes umdk_idcard_command))
        (some (answers umdk_idcard_reply))
    ∷ entry 24 (codes "irblaster") (some umdk_irblaster_command)
        (some (answers umdk_irblaster_reply))
    ∷ entry 25 (codes "hx711") (some (writes umdk_hx711_command)) (some (answers umdk_hx711_reply))
    ∷ entry 19 (codes "usound") (some (writes umdk_usound_command))
        (some (answers (umdk_usound_reply be)))
    ∷ entry 28 (codes "modbus") (some umdk_modbus_command) (some umdk_modbus_reply)
    ∷ entry 58 (codes "wiegand") (some umdk_wiegand_command) (some (answers umdk_wiegand_reply))
    ∷ entry 30 (codes "st95") (some (writes umdk_st95_command)) (some umdk_st95_reply)
    ∷ []

abbrev pub unwds_modules_list : Bool → List Module
unwds_modules_list be = modules_with be (some (umdk_config_command (modules_with be none)))

-- The test of a table for an id or a name that occurs twice.
abbrev differ : Module → List Module → Bool
differ m [] = true
differ m (k ∷ ms) = not (m.id == k.id) && (not (str_eq k.name m.name) && differ m ms)

abbrev is_registry : List Module → Bool
is_registry [] = true
is_registry (m ∷ ms) = differ m ms && is_registry ms

differ-Differ : (m : Module) (ms : List Module) → differ m ms ≡ true → All (Differ m) ms
differ-Differ m [] h = tt
differ-Differ m (k ∷ ms) h = ((ground arith, ground arith), differ-Differ m ms (ground arith))

is_registry-IsRegistry : (ms : List Module) → is_registry ms ≡ true → IsRegistry ms
is_registry-IsRegistry [] h = tt
is_registry-IsRegistry (m ∷ ms) h =
    (differ-Differ m ms (ground arith), is_registry-IsRegistry ms (ground arith))

-- No id and no name occurs twice in the table.
pub unwds_modules_list-IsRegistry : (be : Bool) → IsRegistry (unwds_modules_list be)
unwds_modules_list-IsRegistry be = is_registry-IsRegistry (unwds_modules_list be) refl

abbrev pub config_module : Bool → Module
config_module be =
    entry 126 (codes "config") (some (umdk_config_command (modules_with be none)))
      (some (answers umdk_config_reply))

pub config_module-Has : (be : Bool) → Has (config_module be) (unwds_modules_list be)
config_module-Has be =
    inr (inr (inr (inr (inr (inr (inr (inr (inr (inr (inr (inr (inr (inr (inl refl))))))))))))))
