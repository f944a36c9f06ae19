-- ===== src/Callback.antt =====
-- mqtt.c: my_message_callback and what it calls, the way from a message of the broker to a mote.
-- `Downlink` is about frames that are queued, `Topics` about the split of a topic,
-- `Routing` from the topic to the mote, `Faults` about a command that reads through NULL.
pub mod Downlink
pub mod Topics
pub mod Routing
pub mod Faults
mod Examples
use lora_mqtt.Prelude.{
  ℕ, zero, suc, ◌+◌, ◌^◌, ◌%◌, Bool, true, false, not, ◌&&◌, List, [], ◌∷◌, ◌++◌, Option, none,
  some, ltb, leb, ◌==◌, if◌then◌else◌, length, get_or, take, drop, replicate, ℤ, eq_int, ◌-◌,
}
use lora_mqtt.Text.Literal.{codes, str_eq, starts_with}
use lora_mqtt.Text.Format.{hex, hex_pad}
use lora_mqtt.Hex.{hex_to_bytes}
use lora_mqtt.Fifo.{m_enqueue}
use lora_mqtt.Pending.{
  PendingItem, Table, class_a, class_c, pending_to_nodeid, item_at, update_at, add_device,
}
use lora_mqtt.Message.{MqttMsg, is_nil}
use lora_mqtt.Modules.{Module, Outcome, done, undefined, convert_from}
use lora_mqtt.Gate.{
  Config, Env, Effect, Gate, uart, fault, pair, device_message, with_message, gate_command,
}
use lora_mqtt.Reply.{reply_len, stored, with_number}

-- What libmosquitto hands over; the payload of an empty message is NULL.
pub record Incoming : Type 0 where
  pub mid : ℤ
  pub topic : List ℕ
  pub payload : Option (List ℕ)

-- while (strlen(token = strsep(&running, "/"))) …: the parts before the first empty one; `cur` is the
-- part under way.
unfoldable pub split_topic : List ℕ → List ℕ → List (List ℕ)
split_topic cur [] = if is_nil cur then [] else cur ∷ []
split_topic cur (c ∷ s) = elim (c == b'/') [
  | true ↦ if is_nil cur then [] else cur ∷ split_topic [] s
  | false ↦ split_topic (cur ++ c ∷ []) s
]

-- char topics[5][128]
abbrev all_short : List (List ℕ) → Bool
all_short [] = true
all_short (t ∷ ts) = ltb (length t) 128 && all_short ts

abbrev pub topics_fit : List (List ℕ) → Bool
topics_fit ts = leb (length ts) 5 && all_short ts

unfoldable pub devices_list : Gate → Bool → Gate × List Effect
devices_list g internal = (record g { list_for_gate = internal }, uart (b'L' ∷ 13 ∷ []) ∷ [])

-- The frame for the gate, cut to the buffer.
unfoldable pub individual_frame : ℕ → List ℕ → List ℕ
unfolding hex
individual_frame addr payload = take (reply_len - 1) (b'I' ∷ (hex addr ++ payload))

-- The record after a frame was queued.
unfoldable pub queued : Bool → List ℕ → PendingItem → PendingItem
unfolding m_enqueue
queued memory frame e =
    let r = m_enqueue memory e.pending_fifo frame in
    if r.0
    then record e {
      pending_fifo = r.1;
      num_pending = if e.nodeclass == class_a then (e.num_pending + 1) % 2 ^ 16 else e.num_pending;
    }
    else e

-- The notice for the gate, for a class A device whose frame was queued.
unfoldable pub notice : Bool → ℕ → PendingItem → List Effect
notice memory addr e =
    if memory && (e.nodeclass == class_a)
    then gate_command b'?' addr (hex_pad 2 ((e.num_pending + 1) % 2 ^ 16)) ∷ []
    else []

-- From the second lookup on.
unfoldable pub enqueue_frame : Env → Gate → ℕ → List ℕ → Gate × List Effect
enqueue_frame env g addr payload = elim (pending_to_nodeid g.pending addr) [
  | none ↦ (g, [])
  | some i ↦ elim (item_at g.pending i) [
    | none ↦ (g, fault ∷ [])
    | some e ↦ (
      record g {
        pending = update_at g.pending i (queued env.cell_memory (individual_frame addr payload));
      },
      notice env.cell_memory addr e,
    )
  ]
]

abbrev pub after_effects : List Effect → Gate × List Effect → Gate × List Effect
after_effects es r = (r.0, es ++ r.1)

abbrev pub not_in_network : List MqttMsg
not_in_network =
    pair (codes "sent") (codes "2") ∷ pair (codes "message") (codes "node not in the network") ∷ []

unfoldable pub message_to_mote : Env → Gate → ℕ → List ℕ → Gate × List Effect
message_to_mote env g addr payload = elim (pending_to_nodeid g.pending addr) [
  | some i ↦ enqueue_frame env g addr payload
  | none ↦ with_message g (device_message g.config env (hex addr) not_in_network) λ es.
      after_effects es (
        enqueue_frame env
          (record g { pending = (add_device g.pending addr class_c false env.now).1 }) addr payload)
]

unfoldable pub message_broadcast : Gate → List ℕ → Gate × List Effect
message_broadcast g payload = (g, uart (b'B' ∷ (payload ++ 13 ∷ [])) ∷ [])

-- The command of the gate settings, and whether it takes the payload.
unfoldable pub gate_setting : List ℕ → Option (ℕ × Bool)
gate_setting t =
    if starts_with (codes "update") t
    then some (b'U', false)
    else if starts_with (codes "reboot") t
    then some (b'R', false)
    else if starts_with (codes "joinke") t
    then some (b'J', true)
    else if starts_with (codes "datara") t
    then some (b'D', true)
    else if starts_with (codes "region") t
    then some (b'G', true)
    else if starts_with (codes "channe") t
    then some (b'C', true)
    else none

-- payload += strlen("set ") where it starts with `set`; `set` alone is left by one byte too many.
unfoldable pub skip_set : List ℕ → Option (List ℕ)
skip_set p =
    if starts_with (codes "set") p then if length p == 3 then none else some (drop 4 p) else some p

abbrev setting_text : ℕ → Option (List ℕ) → List Effect
setting_text command none = fault ∷ []
setting_text command (some p) = uart (command ∷ (p ++ 13 ∷ [])) ∷ []

abbrev bind_payload : Option (List ℕ) → Option (List ℕ)
bind_payload none = none
bind_payload (some p) = skip_set p

-- `none` is the return for an unknown command.
unfoldable pub gate_settings : List ℕ → Option (List ℕ) → Option (List Effect)
unfolding gate_setting skip_set
gate_settings t payload = elim (gate_setting t) [
  | none ↦ none
  | some (command, takes) ↦
      some (
        if takes
        then setting_text command (bind_payload payload)
        else uart (command ∷ 13 ∷ []) ∷ [])
]

-- Goes on with a text that was found, or returns.
unfoldable pub with_text :
    Gate → Option (List ℕ) → (List ℕ → Gate × List Effect) → Gate × List Effect
with_text g none k = (g, [])
with_text g (some t) k = k t

-- The same for what a command handler done; the length of it is that of the module id at least.
unfoldable pub with_written :
    Gate → Option (Outcome (List ℕ)) → (List ℕ → Gate × List Effect) → Gate × List Effect
with_written g none k = (g, [])
with_written g (some undefined) k = (g, fault ∷ [])
with_written g (some (done buf)) k = k buf

-- The last step: to one mote, or to all where there is no address.
unfoldable pub send_text : Env → Gate → Option ℕ → List ℕ → Gate × List Effect
send_text env g none buf = message_broadcast g buf
send_text env g (some nodeid) buf = message_to_mote env g nodeid buf

-- A handler that is given NULL reads through it; the two handlers with an empty body, of idcard and
-- st95, are taken for such ones too.
abbrev read_null : Option (Outcome (List ℕ)) → Option (Outcome (List ℕ))
read_null none = none
read_null (some o) = some undefined

-- The part for topics of more than three levels, once the address is known.
unfoldable pub send_command :
    List Module → Env → Gate → Option ℕ → List ℕ → Option (List ℕ) → Gate × List Effect
send_command modules env g addr type none =
    with_written g (read_null (convert_from modules type [] reply_len))
      λ buf. send_text env g addr buf
send_command modules env g addr type (some param) =
    with_written g (convert_from modules type param reply_len) λ buf. send_text env g addr buf

-- The direction and the type of a command.
unfoldable pub command_type : Config → List (List ℕ) → Option (List ℕ)
command_type c ts =
    if c.mqtt_sepio
    then if starts_with (codes "mosi") (get_or ts 3 []) then some (get_or ts 4 []) else none
    else some (get_or ts 3 [])

unfoldable pub mote_command :
    List Module → Env → Gate → List (List ℕ) → Option (List ℕ) → Gate × List Effect
mote_command modules env g ts payload =
    if str_eq (get_or ts 2 []) (b'*' ∷ [])
    then (with_text g (command_type g.config ts)
        λ type. send_command modules env g none type payload)
    else with_number g.config g
        (stored 8 (replicate 8 0) (hex_to_bytes (get_or ts 2 []) (not g.big_endian)))
        λ nodeid.
          with_text g (command_type g.config ts)
            λ type. send_command modules env g (some nodeid) type payload

-- The request for the device list.
unfoldable pub list_request : Gate → List (List ℕ) → Gate × List Effect
list_request g ts =
    if (length ts == 3) && starts_with (codes "get") (get_or ts 2 [])
    then devices_list g false
    else (g, [])

-- What follows the gate settings.
unfoldable pub mote_topics :
    List Module → Env → Gate → List (List ℕ) → Option (List ℕ) → Gate × List Effect
mote_topics modules env g ts payload =
    if ltb 3 (length ts) then mote_command modules env g ts payload else (g, [])

-- The settings of the gate, on the topics that start with `gate`; an unknown one ends the handler.
unfoldable pub gate_topics :
    List Module → Env → Gate → List (List ℕ) → Option (List ℕ) → Gate × List Effect
gate_topics modules env g ts payload =
    if starts_with (codes "gate") (get_or ts 2 [])
    then (with_message g (gate_settings (get_or ts 3 []) payload)
        λ es. after_effects es (mote_topics modules env g ts payload))
    else mote_topics modules env g ts payload

-- What follows the test of the first two levels.
unfoldable pub serve_topics :
    List Module → Env → Gate → List (List ℕ) → Option (List ℕ) → Gate × List Effect
serve_topics modules env g ts payload =
    let r = list_request g ts in after_effects r.1 (gate_topics modules env r.0 ts payload)

-- The tests before, for a message that did not come from the gate itself.
unfoldable pub serve_message :
    List Module → Env → Gate → List (List ℕ) → Option (List ℕ) → Gate × List Effect
serve_message modules env g ts payload =
    if not (topics_fit ts)
    then (g, fault ∷ [])
    else if ltb (length ts) 2
    then (g, [])
    else if not (starts_with (codes "devices") (get_or ts 0 []))
    then (g, [])
    else if not (starts_with (codes "lora") (get_or ts 1 []))
    then (g, [])
    else serve_topics modules env g ts payload

unfoldable pub my_message_callback : List Module → Env → Gate → Incoming → Gate × List Effect
my_message_callback modules env g message =
    if eq_int 0 message.mid
    then serve_message modules env g (split_topic [] message.topic) message.payload
    else (g, [])
