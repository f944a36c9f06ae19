-- ===== src/Message/Examples.antt =====
-- Messages as the program writes them, and the theorems at inputs.
use lora_mqtt.Prelude.{◌≡◌, refl, ◌++◌, true, false, List, [], ◌∷◌, some, pos, negsuc}
use lora_mqtt.Text.Literal.{codes}
use lora_mqtt.Message.{
  MqttMsg, MqttStatus, Now, no_msgs, needs_quotes, build_status, build_mqtt_message,
  mqtt_escape_quotes, escaped_quote, add_value_pair,
}
use lora_mqtt.Message.Escape.{escape, mqtt_escape_quotes_lem}
use lora_mqtt.Message.Shape.{add_all, members, closing, build_mqtt_message-add_all}

abbrev noon : Now
noon = record { date = codes "2017-05-01T12:00:00"; tv_usec = 250 }

abbrev quiet : MqttStatus
quiet = record { rssi = negsuc 79; battery = pos 3000; temperature = pos 10 }

abbrev temperature : List MqttMsg
temperature = record { name = codes "temp"; value = codes "21.5" } ∷ []

whole_message :
    build_mqtt_message (add_all no_msgs temperature) quiet (codes "00ab") noon
    ≡ codes
        "{ \"data\": { \"temp\": 21.5 }, \"status\": { \"devEUI\" : \"00ab\", \"rssi\": -80, \"temperature\": 10, \"battery\": 3000, \"date\": \"2017-05-01T12:00:00.250Z\" }}"
unfolding build_mqtt_message add_value_pair
whole_message = refl

number_unquoted : needs_quotes (codes "-1.5e3") ≡ false
unfolding needs_quotes
number_unquoted = refl

word_quoted : needs_quotes (codes "ok") ≡ true
unfolding needs_quotes
word_quoted = refl

leading_zero_quoted : needs_quotes (codes "007") ≡ true
unfolding needs_quotes
leading_zero_quoted = refl

-- Texts that are no JSON numbers and go out without quotes.
nan_unquoted : needs_quotes (codes "nan") ≡ false
unfolding needs_quotes
nan_unquoted = refl

empty_unquoted : needs_quotes [] ≡ false
unfolding needs_quotes
empty_unquoted = refl

escapes_once : mqtt_escape_quotes (codes "{\"a\":1}") ≡ some (codes "{\\\"a\\\":1}\\\"")
unfolding mqtt_escape_quotes
escapes_once = refl

build_mqtt_message-add_all_example :
    build_mqtt_message (add_all no_msgs temperature) quiet (codes "00ab") noon
    ≡ codes "{ \"data\": { "
      ++ ((members true temperature ++ closing 49) ++ build_status quiet (codes "00ab") noon)
build_mqtt_message-add_all_example =
    build_mqtt_message-add_all temperature 49 quiet (codes "00ab") noon refl (refl, tt)

mqtt_escape_quotes_lem_example :
    mqtt_escape_quotes (codes "{\"a\":1}") ≡ some (escape (codes "{\"a\":1}") ++ escaped_quote)
mqtt_escape_quotes_lem_example = mqtt_escape_quotes_lem (codes "{\"a\":1}") refl
