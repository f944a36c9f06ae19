-- ===== src/Reply/Examples.antt =====
-- Replies of the gate, and the theorems at inputs.
use lora_mqtt.Prelude.{
  ◌≡◌, refl, ℕ, true, false, List, [], ◌∷◌, ◌++◌, none, some, ◌⊎◌, arith, pos, take, ◌==◌,
  if◌then◌else◌,
}
use lora_mqtt.Text.Literal.{codes, cstr}
use lora_mqtt.Text.Scan.{hex_value}
use lora_mqtt.Hex.{parsed, past_end, load}
use lora_mqtt.Hex.Laws.{hex_number}
use lora_mqtt.Pending.{PendingItem, pending_to_nodeid, update_at}
use lora_mqtt.Pending.Lookup.{device, UniqueIds}
use lora_mqtt.Pending.Updates.{change}
use lora_mqtt.Gate.{Config, Env, Gate, regular}
use lora_mqtt.Reply.{
  acknowledge, read_field, read_number, reply_ack, reply_kick, reply_pending_req, serve_reply,
  with_number,
}
use lora_mqtt.Reply.Fields.{read_field_lem, read_number_overruns}
use lora_mqtt.Reply.Acks.{
  acknowledged, reply_ack_lem, reply_kick_lem, reply_pending_req_lem, demanded,
}

abbrev host : Config
host = record {
  mosq = true;
  mqtt_format = regular;
  mqtt_sepio = false;
  mqtt_retain = false;
  mqtt_qos = pos 1;
  tx_delay = pos 10;
  tx_maxretr = pos 3;
  big_endian = true;
}

abbrev env : Env
env = record {
  now = 500;
  clock = record { date = codes "2017-05-01T12:00:00"; tv_usec = 0 };
  topic_memory = true;
  msg_memory = true;
  text_memory = true;
  cell_memory = true;
  stack = 1 ∷ 2 ∷ 3 ∷ 4 ∷ 5 ∷ 6 ∷ 7 ∷ 8 ∷ [];
}

abbrev sender : PendingItem
sender = record {
  nodeid = 0xab;
  pending_fifo = codes "Iab01" ∷ codes "Iab02" ∷ [];
  last_msg = 100;
  last_inv = 0;
  nodeclass = 0;
  has_been_invited = true;
  can_send = false;
  num_retries = 3;
  num_pending = 2;
}

abbrev gate : Gate
gate = record {
  config = host;
  pending = record { free = false; item = sender } ∷ [];
  list_for_gate = false;
  devlist_needed = false;
  static_devices_list_sent = true;
}

abbrev address : List ℕ
address = codes "00000000000000ab"

abbrev address_bytes : List ℕ
address_bytes = 0 ∷ 0 ∷ 0 ∷ 0 ∷ 0 ∷ 0 ∷ 0 ∷ 0xab ∷ []

delivered :
    (serve_reply [] env gate (b'A' ∷ (address ++ 0 ∷ []))).0.pending
    ≡ record {
      free = false;
      item = record sender {
        pending_fifo = codes "Iab02" ∷ [];
        has_been_invited = false;
        num_retries = 0;
        num_pending = 1;
      };
    }
      ∷ []
unfolding serve_reply reply_ack with_number read_field acknowledge pending_to_nodeid update_at
delivered = refl

address-parsed : read_field gate.config env 16 8 address ≡ parsed address_bytes
unfolding read_field
address-parsed = refl

gate-UniqueIds : UniqueIds gate.pending
unfolding device
gate-UniqueIds = (λ h. refl, tt)

reply_ack_lem_example :
    ((reply_ack env gate address).1 ≡ [])
    × (device (reply_ack env gate address).0.pending 0xab ≡ (
        if load gate.big_endian address_bytes == 0xab
        then change acknowledged (device gate.pending 0xab)
        else device gate.pending 0xab))
reply_ack_lem_example = reply_ack_lem env gate address address_bytes address-parsed 0xab

reply_pending_req_lem_example :
    ((reply_pending_req env gate address).1 ≡ [])
    × (device (reply_pending_req env gate address).0.pending 0xab ≡ (
        if load gate.big_endian address_bytes == 0xab
        then change demanded (device gate.pending 0xab)
        else device gate.pending 0xab))
reply_pending_req_lem_example =
    reply_pending_req_lem env gate address address_bytes address-parsed 0xab

reply_kick_lem_example :
    (device (reply_kick env gate address).0.pending 0xab
      ≡ (if load gate.big_endian address_bytes == 0xab then none else device gate.pending 0xab))
    × (((reply_kick env gate address).1 ≡ [])
        ⊎ ((e : PendingItem) × (device gate.pending (load gate.big_endian address_bytes) ≡ some e)))
reply_kick_lem_example =
    reply_kick_lem env gate address address_bytes address-parsed 0xab gate-UniqueIds

abbrev class_field : List ℕ
class_field = b'0' ∷ b'2' ∷ b'0' ∷ b'f' ∷ 0 ∷ []

read_field_lem_example :
    (bs : List ℕ) × (read_field host env 4 2 class_field ≡ parsed bs)
    × (load true bs ≡ hex_number 0 (take 4 class_field))
unfolding hex_value
read_field_lem_example =
    read_field_lem host env 4 2 class_field refl
      ((0, refl), ((2, refl), ((0, refl), ((15, refl), tt))))

-- The signal strength, the status and a payload of two bytes.
abbrev data_fields : List ℕ
data_fields = codes "ffb01d0c55"

read_number_overruns_example : read_number host env 4 2 data_fields ≡ past_end
unfolding cstr
read_number_overruns_example =
    read_number_overruns host env 4 2 data_fields refl refl refl (omega arith)
