-- ===== src/Settings/Examples.antt =====
-- Lines of a configuration file, and the theorem at an input.
use lora_mqtt.Prelude.{◌≡◌, refl, true, false, [], ◌∷◌, ◌++◌, some, none, pos, arith}
use lora_mqtt.Text.Literal.{codes}
use lora_mqtt.Gate.{regular, escaped}
use lora_mqtt.Settings.{Settings, setting_line, read_settings}
use lora_mqtt.Settings.Printed.{printed, read_settings-printed}

-- What main sets before it reads the file.
abbrev defaults : Settings
defaults = record {
  config = record {
    mosq = true;
    mqtt_format = regular;
    mqtt_sepio = false;
    mqtt_retain = false;
    mqtt_qos = pos 1;
    tx_delay = pos 10;
    tx_maxretr = pos 3;
    big_endian = false;
  };
  serialport = [];
}

port :
    setting_line defaults (codes "port = /dev/ttyATH0" ++ 10 ∷ [])
    ≡ some (record defaults { serialport = codes "/dev/ttyATH0" })
unfolding setting_line
port = refl

comment : setting_line defaults (codes "#tx_delay 5" ++ 10 ∷ []) ≡ some defaults
unfolding setting_line
comment = refl

missing_value : setting_line defaults (codes "mqtt_qos =" ++ 10 ∷ []) ≡ none
unfolding setting_line
missing_value = refl

read_settings-printed_example :
    read_settings defaults (printed escaped 2 true false 15 4)
    ≡ some (record defaults {
      config = record (defaults.config) {
        mqtt_format = escaped;
        mqtt_qos = pos 2;
        mqtt_retain = true;
        mqtt_sepio = false;
        tx_delay = pos 15;
        tx_maxretr = pos 4;
      };
    })
read_settings-printed_example =
    read_settings-printed defaults escaped 2 true false 15 4 (omega arith) (omega arith)
      (omega arith)
