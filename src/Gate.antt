-- ===== src/Gate.antt =====
-- The state that the threads of mqtt.c share, what a handler does to the world outside, and
-- publish_mqtt_message of unwds-mqtt.c.
-- `Topic` is about the buffer of the topic, `Output` about what is published.
pub mod Topic
pub mod Output
mod Examples
use lora_mqtt.Prelude.{
  ℕ, ◌+◌, Bool, true, false, List, [], ◌∷◌, ◌++◌, Option, none, some, ltb, if◌then◌else◌, length, ℤ,
  pos,
}
use lora_mqtt.Text.Literal.{codes}
use lora_mqtt.Text.Format.{hex}
use lora_mqtt.Pending.{Table}
use lora_mqtt.Message.{
  MqttMsg, Msgs, MqttStatus, Now, no_msgs, add_value_pair, build_mqtt_message, mqtt_escape_quotes,
}

-- mqtt_format_t
pub data Format : Type 0 where
  regular escaped : Format

-- What `main` sets before the threads start. `mosq` says whether the client exists, `big_endian` is
-- the byte order of the host.
pub record Config : Type 0 where
  pub mosq : Bool
  pub mqtt_format : Format
  pub mqtt_sepio : Bool
  pub mqtt_retain : Bool
  pub mqtt_qos : ℤ
  pub tx_delay : ℤ
  pub tx_maxretr : ℤ
  pub big_endian : Bool

-- `fault` stands for behaviour that C leaves undefined; what follows one says nothing.
pub data Effect : Type 0 where
  uart : List ℕ → Effect
  publish : List ℕ → List ℕ → ℤ → Bool → Effect
  fault : Effect

pub record Gate : Type 0 where
  pub config : Config
  pub open config use *
  pub pending : Table
  pub list_for_gate : Bool
  pub devlist_needed : Bool
  pub static_devices_list_sent : Bool

-- What a handler reads from its surroundings: time(NULL), the clock for the date of a message, the
-- outcome of its mallocs in turn, and what its uninitialised variables hold.
pub record Env : Type 0 where
  pub now : ℕ
  pub clock : Now
  pub topic_memory : Bool
  pub msg_memory : Bool
  pub text_memory : Bool
  pub cell_memory : Bool
  pub stack : List ℕ

abbrev mqtt_publish_to : List ℕ
mqtt_publish_to = codes "devices/lora/"

-- The size of the buffer that is allocated for the topic.
unfoldable pub mqtt_topic_size : List ℕ → List ℕ → ℕ
mqtt_topic_size addr topic =
    length mqtt_publish_to + length addr + length topic + length (codes "/miso") + 1

unfoldable pub mqtt_topic : Config → List ℕ → List ℕ → List ℕ
mqtt_topic c addr topic =
    mqtt_publish_to ++ (addr ++ (b'/' ∷ ((if c.mqtt_sepio then codes "miso/" else []) ++ topic)))

unfoldable pub format_payload : Format → List ℕ → Option (List ℕ)
unfolding mqtt_escape_quotes
format_payload regular msg = some msg
format_payload escaped msg = mqtt_escape_quotes msg

-- The topic is put together in the allocated buffer.
abbrev overrun : Config → List ℕ → List ℕ → List Effect
overrun c addr topic =
    if ltb (length (mqtt_topic c addr topic)) (mqtt_topic_size addr topic) then [] else fault ∷ []

unfoldable pub publish_mqtt_message : Config → List ℕ → List ℕ → List ℕ → Format → List Effect
unfolding mqtt_topic mqtt_topic_size format_payload
publish_mqtt_message c addr topic msg format =
    if c.mosq
    then elim (format_payload format msg) [
      | none ↦ fault ∷ []
      | some payload ↦
          overrun c addr topic
          ++ publish (mqtt_topic c addr topic) payload c.mqtt_qos c.mqtt_retain ∷ []
    ]
    else []

abbrev pub no_status : MqttStatus
no_status = record { rssi = pos 0; battery = pos 0; temperature = pos 0 }

abbrev pub pair : List ℕ → List ℕ → MqttMsg
pair name value = record { name = name; value = value }

abbrev pub fill : Msgs → List MqttMsg → Msgs
fill ms [] = ms
fill ms (p ∷ ps) = fill (add_value_pair ms p.name p.value) ps

-- The text and the publication of a message about a device, on the topic `device`.
unfoldable pub announce : Config → Env → List ℕ → List MqttMsg → List Effect
unfolding publish_mqtt_message build_mqtt_message add_value_pair
announce c env addr ps =
    publish_mqtt_message c addr (codes "device")
      (build_mqtt_message (fill no_msgs ps) no_status addr env.clock) c.mqtt_format

-- What several handlers do to send such a message, from the two mallocs on; `none` is a malloc that
-- failed.
unfoldable pub device_message : Config → Env → List ℕ → List MqttMsg → Option (List Effect)
device_message c env addr ps =
    if env.msg_memory then if env.text_memory then some (announce c env addr ps) else none else none

-- Goes on with what was published; where a malloc failed the handler returns.
unfoldable pub with_message :
    Gate → Option (List Effect) → (List Effect → Gate × List Effect) → Gate × List Effect
with_message g none k = (g, [])
with_message g (some es) k = k es

-- dprintf(uart, "%c%" PRIx64 …, command, nodeid, …)
abbrev pub gate_command : ℕ → ℕ → List ℕ → Effect
gate_command command id rest = uart (command ∷ (hex id ++ (rest ++ 13 ∷ [])))
