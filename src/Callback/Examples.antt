-- ===== src/Callback/Examples.antt =====
-- Messages of the broker, and the theorems at inputs.
use lora_mqtt.Prelude.{
  ◌≡◌, refl, true, false, [], ◌∷◌, ◌++◌, some, none, pos, inl, arith, ◌==◌, if◌then◌else◌,
}
use lora_mqtt.Text.Literal.{codes}
use lora_mqtt.Text.Scan.{hex_value}
use lora_mqtt.Text.Format.{hex_byte}
use lora_mqtt.Pending.{new_item}
use lora_mqtt.Pending.Lookup.{device}
use lora_mqtt.Modules.{Module, done, convert_from}
use lora_mqtt.Modules.Registry.{unwds_modules_list}
use lora_mqtt.Hex.{hex_to_bytes}
use lora_mqtt.Reply.{with_number}
use lora_mqtt.Gate.{Config, Env, Gate, regular, uart, fault, with_message}
use lora_mqtt.Callback.{
  individual_frame, message_to_mote, split_topic, my_message_callback, serve_message, serve_topics,
  list_request, gate_topics, mote_topics, mote_command, send_command, with_text, with_written,
  send_text, command_type, message_broadcast, gate_settings,
}
use lora_mqtt.Callback.Topics.{split_topic-join}
use lora_mqtt.Callback.Routing.{my_message_callback-message_to_mote}
use lora_mqtt.Callback.Faults.{my_message_callback-fault}
use lora_mqtt.Callback.Downlink.{addressee, with_frame, message_to_mote_lem}

abbrev config : Config
config = record {
  mosq = true;
  mqtt_format = regular;
  mqtt_sepio = false;
  mqtt_retain = false;
  mqtt_qos = pos 1;
  tx_delay = pos 10;
  tx_maxretr = pos 3;
  big_endian = false;
}

abbrev env : Env
env = record {
  now = 500;
  clock = record { date = codes "2017-05-01T12:00:00"; tv_usec = 0 };
  topic_memory = true;
  msg_memory = true;
  text_memory = true;
  cell_memory = true;
  stack = [];
}

abbrev gate : Gate
gate = record {
  config = config;
  pending = record { free = true; item = new_item 0 0 false } ∷ [];
  list_for_gate = true;
  devlist_needed = false;
  static_devices_list_sent = true;
}

-- A module that answers every command by `01`.
abbrev lamp : Module
lamp = record { id = 9; name = codes "lamp"; cmd = some (λ p n. done (codes "01")); reply = none }

splits :
    split_topic [] (codes "devices/lora/ab/lamp")
    ≡ codes "devices" ∷ codes "lora" ∷ codes "ab" ∷ codes "lamp" ∷ []
unfolding split_topic
splits = refl

broadcasts :
    my_message_callback
      (lamp ∷ [])
      env
      gate
      (record { mid = pos 0; topic = codes "devices/lora/*/lamp"; payload = some (codes "on") })
    ≡ (gate, uart (codes "B0901" ++ 13 ∷ []) ∷ [])
unfolding my_message_callback serve_message serve_topics list_request gate_topics mote_topics
    mote_command send_command with_text with_written send_text command_type message_broadcast
    split_topic convert_from
broadcasts = refl

sets_region :
    my_message_callback [] env gate (record {
      mid = pos 0;
      topic = codes "devices/lora/gate/region";
      payload = some (codes "set 2");
    })
    ≡ (gate, uart (codes "G2" ++ 13 ∷ []) ∷ [])
unfolding my_message_callback serve_message serve_topics list_request gate_topics mote_topics
    mote_command send_command with_text with_written send_text command_type message_broadcast
    split_topic convert_from gate_settings with_message with_number hex_to_bytes
sets_region = refl

message_to_mote_lem_example :
    device (message_to_mote env gate 0xab (codes "0901")).0.pending 0xab ≡ (
      if 0xab == 0xab
      then some (
          with_frame
            (individual_frame 0xab (codes "0901"))
            (addressee 0xab (device gate.pending 0xab)))
      else device gate.pending 0xab)
message_to_mote_lem_example =
    message_to_mote_lem env gate 0xab (codes "0901") 0xab refl refl refl (λ full absent. cc full.0)

split_topic-join_example :
    split_topic [] (codes "devices/lora/get") ≡ codes "devices" ∷ codes "lora" ∷ codes "get" ∷ []
split_topic-join_example = split_topic-join (codes "devices" ∷ codes "lora" ∷ codes "get" ∷ []) (
  (refl, (refl, (refl, (refl, (refl, (refl, (refl, (refl, tt)))))))),
  ((refl, (refl, (refl, (refl, (refl, tt))))), ((refl, (refl, (refl, (refl, tt)))), tt)),
)

my_message_callback-fault_example :
    my_message_callback (unwds_modules_list false) env gate (record {
      mid = pos 0;
      topic = codes "devices/lora/00000000000000ab/config";
      payload = some (codes "mod adc");
    })
    ≡ (gate, fault ∷ [])
unfolding hex_value
my_message_callback-fault_example =
    my_message_callback-fault false env gate (codes "00000000000000ab") (codes "adc") refl refl
      (
        (_, refl),
        (
          (_, refl),
          (
            (_, refl),
            (
              (_, refl),
              (
                (_, refl),
                (
                  (_, refl),
                  (
                    (_, refl),
                    (
                      (_, refl),
                      (
                        (_, refl),
                        (
                          (_, refl),
                          (
                            (_, refl),
                            ((_, refl), ((_, refl), ((_, refl), ((_, refl), ((_, refl), tt))))),
                          ),
                        ),
                      ),
                    ),
                  ),
                ),
              ),
            ),
          ),
        ),
      )
      (refl, (refl, (refl, tt)))

my_message_callback-message_to_mote_example :
    my_message_callback (lamp ∷ []) env gate (record {
      mid = pos 0;
      topic = codes "devices/lora/00000000000000ab/lamp";
      payload = some (codes "on");
    })
    ≡ message_to_mote env gate 0xab (codes "0901")
unfolding hex_value hex_byte
my_message_callback-message_to_mote_example =
    my_message_callback-message_to_mote (lamp ∷ []) env gate lamp (λ p n. done (codes "01"))
      (codes "00000000000000ab") (codes "on") (codes "01") refl refl
      (
        (_, refl),
        (
          (_, refl),
          (
            (_, refl),
            (
              (_, refl),
              (
                (_, refl),
                (
                  (_, refl),
                  (
                    (_, refl),
                    (
                      (_, refl),
                      (
                        (_, refl),
                        (
                          (_, refl),
                          (
                            (_, refl),
                            ((_, refl), ((_, refl), ((_, refl), ((_, refl), ((_, refl), tt))))),
                          ),
                        ),
                      ),
                    ),
                  ),
                ),
              ),
            ),
          ),
        ),
      )
      (tt, tt) (inl refl) refl refl (omega arith) (refl, (refl, (refl, (refl, (refl, tt)))))
      (omega arith)
