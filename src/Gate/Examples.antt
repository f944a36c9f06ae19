-- ===== src/Gate/Examples.antt =====
-- A topic, and the theorem about its buffer at inputs.
use lora_mqtt.Prelude.{◌≡◌, refl, ◌+◌, ◌≤◌, true, false, length, pos}
use lora_mqtt.Text.Literal.{codes}
use lora_mqtt.Gate.{Config, regular, mqtt_topic, mqtt_topic_size}
use lora_mqtt.Gate.Topic.{mqtt_topic-size}

abbrev separate : Config
separate = record {
  mosq = true;
  mqtt_format = regular;
  mqtt_sepio = true;
  mqtt_retain = false;
  mqtt_qos = pos 1;
  tx_delay = pos 10;
  tx_maxretr = pos 3;
  big_endian = false;
}

topic_text : mqtt_topic separate (codes "00ab") (codes "adc") ≡ codes "devices/lora/00ab/miso/adc"
unfolding mqtt_topic
topic_text = refl

mqtt_topic-size_example :
    (separate.mqtt_sepio ≡ false
      → length (mqtt_topic separate (codes "00ab") (codes "adc")) + 1
        ≤ mqtt_topic_size (codes "00ab") (codes "adc"))
    × (separate.mqtt_sepio ≡ true
        → length (mqtt_topic separate (codes "00ab") (codes "adc")) + 1
          ≡ mqtt_topic_size (codes "00ab") (codes "adc") + 1)
mqtt_topic-size_example = mqtt_topic-size separate (codes "00ab") (codes "adc")
