-- ===== src/System/Examples.antt =====
-- A short history, and the theorem at it.
use lora_mqtt.Prelude.{◌≡◌, refl, arith, ◌-◌, ℕ, true, false, List, [], ◌∷◌, ◌++◌, some, pos}
use lora_mqtt.Text.Literal.{codes}
use lora_mqtt.Gate.{Config, Env, escaped, uart}
use lora_mqtt.Pending.{PendingItem, new_item, class_a}
use lora_mqtt.Worker.{serve_pending}
use lora_mqtt.Reply.{acknowledge, demand}
use lora_mqtt.System.ClassA.{demand-acknowledge}
use lora_mqtt.System.{Event, replied, received, passed, start, run}
use lora_mqtt.System.Table.{IsWf}
use lora_mqtt.System.Runs.{run-start-IsWf}

abbrev config : Config
config = record {
  mosq = true;
  mqtt_format = escaped;
  mqtt_sepio = false;
  mqtt_retain = false;
  mqtt_qos = pos 1;
  tx_delay = pos 10;
  tx_maxretr = pos 3;
  big_endian = false;
}

abbrev at : ℕ → Env
at now = record {
  now = now;
  clock = record { date = codes "2017-05-01T12:00:00"; tv_usec = 0 };
  topic_memory = true;
  msg_memory = true;
  text_memory = true;
  cell_memory = true;
  stack = [];
}

abbrev history : List Event
history =
    replied (at 1) (codes "J00000000000000ab0000" ++ 0 ∷ [])
    ∷ received (at 2)
        (record { mid = pos 0; topic = codes "devices/lora/ab/lamp"; payload = some (codes "on") })
    ∷ passed (λ i. at 20)
    ∷ replied (at 21) (codes "K00000000000000ab" ++ 0 ∷ [])
    ∷ []

run-start-IsWf_example : IsWf (run [] (start config) history).pending
run-start-IsWf_example = run-start-IsWf [] config history

abbrev sleeper : PendingItem
sleeper = record (new_item 0xab class_a false) {
  pending_fifo = codes "Iab01" ∷ [];
  num_pending = 1;
}

demand-acknowledge_example :
    ((serve_pending config (at 20) (demand sleeper)).1 ≡ uart (codes "Iab01" ++ 13 ∷ []) ∷ [])
    × (serve_pending config (at 21) (serve_pending config (at 20) (demand sleeper)).0
        ≡ ((serve_pending config (at 20) (demand sleeper)).0, []))
    × ((acknowledge (serve_pending config (at 20) (demand sleeper)).0).pending_fifo ≡ [])
    × ((acknowledge (serve_pending config (at 20) (demand sleeper)).0).num_pending ≡ 1 - 1)
unfolding new_item
demand-acknowledge_example =
    demand-acknowledge config (at 20) (at 21) sleeper (codes "Iab01") [] refl refl (omega arith)
      (omega arith) refl
