-- ===== src/Gate/Output.antt =====
-- What is published, and when nothing is.
use lora_mqtt.Prelude.{ℕ, ◌≡◌, refl, true, List, some}
use lora_mqtt.Message.{MqttMsg}
use lora_mqtt.Gate.{Config, Env, announce, device_message}

pub device_message-some :
    (c : Config) (env : Env) (addr : List ℕ) (ps : List MqttMsg)
    → env.msg_memory ≡ true
    → env.text_memory ≡ true
    → device_message c env addr ps ≡ some (announce c env addr ps)
unfolding device_message
device_message-some c env addr ps m t = rw (m, t) refl
