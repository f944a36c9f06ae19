-- ===== src/Reply.antt =====
-- mqtt.c: serve_reply, what the publisher thread does with one line from the gate. `mtext` is the
-- whole message buffer with the bytes behind the terminator, since the fields are copied from fixed
-- places.
-- `Fields` is about the fields of a reply, `Acks` about the handlers on the table.
pub mod Fields
pub mod Acks
mod Examples
use lora_mqtt.Prelude.{
  ℕ, zero, suc, ◌+◌, ◌-◌, ◌*◌, ◌/◌, ◌%◌, ◌^◌, Bool, true, false, not, ◌&&◌, ◌||◌, List, [], ◌∷◌,
  ◌++◌, Option, none, some, ltb, ◌==◌, if◌then◌else◌, length, get_or, take, drop, replicate, ℤ, pos,
  negsuc, sub_ℕ, bit_and,
}
use lora_mqtt.Text.Literal.{codes, cstr}
use lora_mqtt.Text.Scan.{atoi, cast}
use lora_mqtt.Text.Format.{dec, hex, hex_pad}
use lora_mqtt.Hex.{Parsed, parsed, rejected, past_end, hex_to_bytes, hex_to_bytesn, load}
use lora_mqtt.Fifo.{m_dequeue}
use lora_mqtt.Pending.{
  PendingItem, Table, class_a, pending_to_nodeid, item_at, update_at, add_device, kick_device,
}
use lora_mqtt.Message.{MqttMsg, Msgs, MqttStatus, no_msgs, add_value_pair, build_mqtt_message}
use lora_mqtt.Modules.{Module, Outcome, done, undefined, convert_to}
use lora_mqtt.Gate.{
  Config, Env, Effect, Gate, uart, fault, pair, device_message, with_message, publish_mqtt_message,
  gate_command,
}

abbrev pub reply_len : ℕ
reply_len = 1024

-- Where the bytes that `hex_to_bytes` wrote go: an integer of `size` bytes that held `old` before.
-- More bytes than that are written past the variable.
abbrev pub stored : ℕ → List ℕ → Parsed → Parsed
stored size old rejected = rejected
stored size old past_end = past_end
stored size old (parsed bs) =
    if ltb size (length bs) then past_end else parsed (bs ++ drop (length bs) (take size old))

-- memcpy(field, str, width) into a zeroed buffer, and hex_to_bytes into an integer of `size` bytes.
unfoldable pub read_field : Config → Env → ℕ → ℕ → List ℕ → Parsed
unfolding cstr hex_to_bytes
read_field c env width size str =
    stored size env.stack (hex_to_bytes (cstr (take width str)) (not c.big_endian))

-- hex_to_bytesn(str, len, …) into an integer of `size` bytes: the loop from the end reads at fixed
-- places, the loop from the start reads up to the terminator.
unfoldable pub read_number : Config → Env → ℕ → ℕ → List ℕ → Parsed
unfolding cstr hex_to_bytesn
read_number c env len size str =
    stored size env.stack
      (hex_to_bytesn (if c.big_endian then cstr str else str) len (not c.big_endian))

-- Goes on with the integer that was read; the handler returns where the text was refused.
unfoldable pub with_number : Config → Gate → Parsed → (ℕ → Gate × List Effect) → Gate × List Effect
with_number c g rejected k = (g, [])
with_number c g past_end k = (g, fault ∷ [])
with_number c g (parsed bs) k = k (load c.big_endian bs)

-- The device list: `{ "appid64": "0x%s", "last_seen": %d, "nodeclass": %d }`.
abbrev list_text : List ℕ → ℕ → ℕ → List ℕ
list_text appid lseen cl =
    codes "{ \"appid64\": \"0x"
    ++ (appid
        ++ (codes "\", \"last_seen\": "
            ++ (dec lseen ++ (codes ", \"nodeclass\": " ++ (dec cl ++ codes " }")))))

unfoldable pub reply_list : Env → Gate → List ℕ → Gate × List Effect
reply_list env g str = with_number g.config g (read_field g.config env 16 8 str) λ nodeid.
    with_number g.config g (read_field g.config env 16 8 (drop 16 str)) λ appid64.
      with_number g.config g (read_field g.config env 4 2 (drop 32 str)) λ lseen.
        with_number g.config g (read_field g.config env 4 2 (drop 36 str)) λ cl.
          let added = add_device g.pending nodeid cl true env.now in
          let g' = record g { pending = added.1 } in
          if not added.0 || (g.list_for_gate || not env.text_memory) then (g', []) else (
            g',
            publish_mqtt_message g.config (cstr (take 16 str)) (codes "list/")
                (list_text (cstr (take 16 (drop 16 str))) lseen cl) g.mqtt_format,
          )

-- int16_t from its bit pattern.
abbrev pub int16 : ℕ → ℤ
int16 w = if ltb w (2 ^ 15) then pos w else negsuc (2 ^ 16 - w - 1)

abbrev pub status_of : ℕ → ℕ → MqttStatus
status_of rssi status = record {
  rssi = int16 rssi;
  battery = pos (2000 + 50 * bit_and status 0x1F);
  temperature = sub_ℕ (20 * (status / 2 ^ 5)) 30;
}

abbrev pub unwds_module_not_found : ℕ
unwds_module_not_found = 255

-- The topic and the pairs of the data of a device.
unfoldable pub convert_reply : List Module → List ℕ → ℕ → Option (Outcome (List ℕ × Msgs))
convert_reply modules bytes moddatalen =
    if get_or bytes 0 0 == unwds_module_not_found
    then some (
        done (
          codes "device",
          add_value_pair no_msgs (codes "error")
              (codes "module ID " ++ (dec (get_or bytes 1 0) ++ codes " is not available")),
        ))
    else convert_to modules (get_or bytes 0 0) (drop 1 bytes) moddatalen no_msgs

unfoldable pub publish_data :
    List Module → Env → Gate → List ℕ → MqttStatus → List ℕ → ℕ → Gate × List Effect
unfolding convert_reply
publish_data modules env g addr status bytes moddatalen =
    if env.topic_memory && (env.text_memory && env.msg_memory)
    then elim (convert_reply modules bytes moddatalen) [
      | none ↦ (g, [])
      | some undefined ↦ (g, fault ∷ [])
      | some (done (topic, ms)) ↦ (
        g,
        publish_mqtt_message g.config addr topic (build_mqtt_message ms status addr env.clock)
            g.mqtt_format,
      )
    ]
    else (g, [])

-- bytes[REPLY_LEN] = {} with the payload at its start.
abbrev pub payload_buffer : List ℕ → List ℕ
payload_buffer bs = bs ++ replicate (reply_len - length bs) 0

-- Goes on with the bytes of the payload.
unfoldable pub with_bytes : Gate → Parsed → (List ℕ → Gate × List Effect) → Gate × List Effect
with_bytes g rejected k = (g, [])
with_bytes g past_end k = (g, fault ∷ [])
with_bytes g (parsed bs) k = k bs

unfoldable pub reply_ind : List Module → Env → Gate → List ℕ → Gate × List Effect
reply_ind modules env g str = with_number g.config g (read_field g.config env 16 8 str) λ nodeid.
    with_number g.config g (read_number g.config env 4 2 (drop 16 str)) λ rssi.
      with_number g.config g (read_number g.config env 2 1 (drop 20 str)) λ status.
        with_bytes g (hex_to_bytes (cstr (drop 22 str)) false) λ bs.
          publish_data modules env g (cstr (take 16 str)) (status_of rssi status)
            (payload_buffer bs) (length (cstr (drop 23 str)) / 2)

unfoldable pub get_node_class : ℕ → List ℕ
get_node_class cls =
    if cls == 0
    then codes "A"
    else if cls == 1
    then codes "B"
    else if cls == 2
    then codes "C"
    else codes "?"

-- The notice for the gate that a device which joined again has frames waiting.
unfoldable pub notify_pending : Table → ℕ → List Effect
notify_pending t nodeid = elim (pending_to_nodeid t nodeid) [
  | none ↦ []
  | some i ↦ elim (item_at t i) [
    | none ↦ fault ∷ []
    | some e ↦
        if e.num_pending == 0 then [] else gate_command b'?' nodeid (hex_pad 2 e.num_pending) ∷ []
  ]
]

unfoldable pub reply_join : Env → Gate → List ℕ → Gate × List Effect
unfolding notify_pending get_node_class
reply_join env g str = with_number g.config g (read_field g.config env 16 8 str) λ nodeid.
    let nodeclass = cast (2 ^ 16) (atoi (cstr (drop 16 str))) in
    let joined : List MqttMsg =
      pair (codes "joined") (codes "1") ∷ pair (codes "class") (get_node_class nodeclass) ∷ [] in
    with_message g (device_message g.config env (cstr (take 16 str)) joined) λ es.
      let t = (add_device g.pending nodeid nodeclass true env.now).1 in
      (record g { pending = t }, es ++ notify_pending t nodeid)

abbrev pub effects_or_none : Option (List Effect) → List Effect
effects_or_none none = []
effects_or_none (some es) = es

unfoldable pub reply_kick : Env → Gate → List ℕ → Gate × List Effect
reply_kick env g str = with_number g.config g (read_field g.config env 16 8 str) λ nodeid.
    elim (pending_to_nodeid g.pending nodeid) [
      | none ↦ (g, [])
      | some i ↦
          let kicked = kick_device g.pending nodeid in
          (
            record g { pending = kicked.1 },
            if kicked.0
                then effects_or_none (
                    device_message g.config env (cstr (take 16 str))
                      (pair (codes "joined") (codes "0") ∷ []))
                else [],
          )
    ]

-- What an acknowledgement does to the record of the device.
unfoldable pub acknowledge : PendingItem → PendingItem
unfolding m_dequeue
acknowledge e = record e {
  pending_fifo = (m_dequeue e.pending_fifo).1;
  has_been_invited = false;
  num_retries = 0;
  num_pending = e.num_pending - 1;
}

unfoldable pub reply_ack : Env → Gate → List ℕ → Gate × List Effect
reply_ack env g str = with_number g.config g (read_field g.config env 16 8 str) λ nodeid.
    elim (pending_to_nodeid g.pending nodeid) [
      | none ↦ (g, [])
      | some i ↦ (record g { pending = update_at g.pending i acknowledge }, [])
    ]

-- The gate asks for the next frame of a class A device.
unfoldable pub demand : PendingItem → PendingItem
demand e =
    if (e.nodeclass == class_a) && ltb 0 e.num_pending
    then record e { last_msg = 0; can_send = true }
    else e

unfoldable pub reply_pending_req : Env → Gate → List ℕ → Gate × List Effect
reply_pending_req env g str = with_number g.config g (read_field g.config env 16 8 str) λ nodeid.
    elim (pending_to_nodeid g.pending nodeid) [
      | none ↦ (g, [])
      | some i ↦ (record g { pending = update_at g.pending i demand }, [])
    ]

unfoldable pub serve_reply : List Module → Env → Gate → List ℕ → Gate × List Effect
serve_reply modules env g mtext =
    let reply = get_or mtext 0 0 in
    let str = drop 1 mtext in
    if reply == b'L'
    then reply_list env g str
    else if reply == b'I'
    then reply_ind modules env g str
    else if reply == b'J'
    then reply_join env g str
    else if reply == b'K'
    then reply_kick env g str
    else if reply == b'A'
    then reply_ack env g str
    else if reply == b'R'
    then reply_pending_req env g str
    else (g, [])
