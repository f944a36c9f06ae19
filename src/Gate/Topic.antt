-- ===== src/Gate/Topic.antt =====
-- The buffer that publish_mqtt_message allocates for the topic.
use lora_mqtt.Prelude.{
  ℕ, ◌+◌, ◌≤◌, ◌≡◌, true, false, List, [], ◌∷◌, ◌++◌, length, length-append, arith,
}
use lora_mqtt.Text.Literal.{codes}
use lora_mqtt.Gate.{Config, mqtt_topic, mqtt_topic_size}

length-mqtt_topic_tail :
    (addr topic : List ℕ) (sepio : List ℕ)
    → length (addr ++ (b'/' ∷ (sepio ++ topic))) ≡ length addr + (1 + (length sepio + length topic))
length-mqtt_topic_tail addr topic sepio =
    omega (arith, length-append addr (b'/' ∷ (sepio ++ topic)), length-append sepio topic)

-- The topic and its terminator fit the buffer where the directions share a topic. Where they are
-- separate, one byte too many is written, for every address and topic.
pub mqtt_topic-size :
    (c : Config) (addr topic : List ℕ)
    → (c.mqtt_sepio ≡ false → length (mqtt_topic c addr topic) + 1 ≤ mqtt_topic_size addr topic)
      × (c.mqtt_sepio ≡ true
          → length (mqtt_topic c addr topic) + 1 ≡ mqtt_topic_size addr topic + 1)
unfolding mqtt_topic mqtt_topic_size
mqtt_topic-size c addr topic = (
  λ e. rw e (omega (arith, length-mqtt_topic_tail addr topic [])),
  λ e. rw e (omega (arith, length-mqtt_topic_tail addr topic (codes "miso/"))),
)
