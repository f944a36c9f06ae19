-- ===== src/Callback/Routing.antt =====
-- mqtt.c: from the topic of a message to the mote and the module that it names.
use lora_mqtt.Prelude.{
  ℕ, ◌+◌, ◌≡◌, refl, ◌∙◌, ◌<◌, true, false, List, [], ◌∷◌, ◌++◌, some, ltb, ◌==◌, All, length,
  replicate, arith, pos,
}
use lora_mqtt.Text.Literal.{codes, str_eq, starts_with}
use lora_mqtt.Text.Format.{hex_byte}
use lora_mqtt.Text.Scan.{hex_value}
use lora_mqtt.Hex.Laws.{IsHex, hex_number}
use lora_mqtt.Modules.{Module, Command, done, behind}
use lora_mqtt.Modules.Lookup.{IsRegistry, Has, convert_from_lem}
use lora_mqtt.Gate.{Env, Gate, Effect}
use lora_mqtt.Reply.{reply_len, with_number}
use lora_mqtt.Reply.Fields.{stored-hex_to_bytes}
use lora_mqtt.Callback.{
  message_to_mote, my_message_callback, serve_message, serve_topics, list_request, gate_topics,
  mote_topics, mote_command, command_type, send_command, send_text, with_text, with_written,
}
use lora_mqtt.Callback.Topics.{IsFree, IsLevel, join, split_topic-join}

hex-ne-slash : (c d : ℕ) → hex_value c ≡ some d → (c == b'/') ≡ false
unfolding hex_value
hex-ne-slash c d h = ground arith

hex-ne-g : (c d : ℕ) → hex_value c ≡ some d → (b'g' == c) ≡ false
unfolding hex_value
hex-ne-g c d h = ground arith

IsFree-hex : (s : List ℕ) → All IsHex s → IsFree s
IsFree-hex [] h = tt
IsFree-hex (c ∷ s) h = (hex-ne-slash c h.0.0 h.0.1, IsFree-hex s h.1)

-- A device id of the topic is neither the word for the settings of the gate nor the star.
not_gate : (s : List ℕ) → All IsHex s → starts_with (codes "gate") s ≡ false
not_gate [] h = refl
not_gate (c ∷ s) h = rw (hex-ne-g c h.0.0 h.0.1)

not_star : (s : List ℕ) → length s ≡ 16 → str_eq s (b'*' ∷ []) ≡ false
not_star [] n = refl
not_star (c ∷ []) n = absurd (omega arith)
not_star (c ∷ d ∷ s) n = ground arith

abbrev pub levels : List ℕ → List ℕ → List (List ℕ)
levels id name = codes "devices" ∷ codes "lora" ∷ id ∷ name ∷ []

module _ (modules : List Module) (env : Env) (g : Gate) (m : Module) (k : Command)
    (id param : List ℕ) (shared : g.config.mqtt_sepio ≡ false) (n : length id ≡ 16)
    (h : All IsHex id) (r : IsRegistry modules) (i : Has m modules) (q : m.cmd ≡ some k) where
  -- The last step, on what the handler leaves.
  abbrev served : Gate × List Effect
  served =
      with_written g (some (behind reply_len (hex_byte false m.id) (k param reply_len)))
        (message_to_mote env g (hex_number 0 id))

  mote_command_lem : mote_command modules env g (levels id m.name) (some param) ≡ served
  unfolding mote_command command_type send_command send_text with_text with_number
  mote_command_lem =
      let own = stored-hex_to_bytes g.big_endian 8 (replicate 8 0) id n h in
      let found = convert_from_lem modules m k param reply_len r i q in
      rw (not_star id n, own.1, shared, found, own.2) refl

  serve_message_lem :
      length m.name < 128 → serve_message modules env g (levels id m.name) (some param) ≡ served
  unfolding serve_message serve_topics list_request gate_topics mote_topics
  serve_message_lem s =
      let fits : ltb (length m.name) 128 ≡ true = ground arith in
      let fits' : ltb (length id) 128 ≡ true = ground arith in
      rw (fits, fits', not_gate id h) mote_command_lem

levels-IsLevel :
    (id name : List ℕ) → length id ≡ 16 → All IsHex id → IsLevel name → All IsLevel (levels id name)
levels-IsLevel [] name n h l = absurd (omega arith)
levels-IsLevel (c ∷ id) name n h l =
    (ground arith, (ground arith, ((refl, IsFree-hex (c ∷ id) h), (l, tt))))

-- What the callback does with a command for a mote, whatever its handler leaves.
pub my_message_callback_lem :
    (modules : List Module) (env : Env) (g : Gate) (m : Module) (k : Command) (id param : List ℕ)
    → g.config.mqtt_sepio ≡ false
    → length id ≡ 16
    → All IsHex id
    → IsRegistry modules
    → Has m modules
    → m.cmd ≡ some k
    → IsLevel m.name
    → length m.name < 128
    → my_message_callback modules env g
        (record { mid = pos 0; topic = join (levels id m.name); payload = some param })
      ≡ with_written g
          (some (behind reply_len (hex_byte false m.id) (k param reply_len)))
          (message_to_mote env g (hex_number 0 id))
unfolding my_message_callback
my_message_callback_lem modules env g m k id param shared n h r i q l s =
    rw (split_topic-join (levels id m.name) (levels-IsLevel id m.name n h l))
      (serve_message_lem modules env g m k id param shared n h r i q s)

length-hex_byte : (b : ℕ) → length (hex_byte false b) ≡ 2
unfolding hex_byte
length-hex_byte b = refl

-- Where the directions share a topic, a message with the message id 0 on devices/lora/<id>/<name>,
-- with a device id of sixteen hexadecimal digits and the name of a module in a registry without
-- double entries, is a frame for the mote of that id: the id of the module in hexadecimal and the
-- text that its own command handler writes for the payload, where it writes one that fits the buffer
-- behind the id.
pub my_message_callback-message_to_mote :
    (modules : List Module) (env : Env) (g : Gate) (m : Module) (k : Command)
    (id param text : List ℕ)
    → g.config.mqtt_sepio ≡ false
    → length id ≡ 16
    → All IsHex id
    → IsRegistry modules
    → Has m modules
    → m.cmd ≡ some k
    → k param reply_len ≡ done text
    → length text + 2 < reply_len
    → IsLevel m.name
    → length m.name < 128
    → my_message_callback modules env g
        (record { mid = pos 0; topic = join (levels id m.name); payload = some param })
      ≡ message_to_mote env g (hex_number 0 id) (hex_byte false m.id ++ text)
unfolding with_written
my_message_callback-message_to_mote modules env g m k id param text shared n h r i q w t l s =
    let room : ltb (length (hex_byte false m.id) + length text) reply_len ≡ true =
      ground (arith, length-hex_byte m.id) in
    my_message_callback_lem modules env g m k id param shared n h r i q l s ∙ rw (w, room) refl
