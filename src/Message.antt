-- ===== src/Message.antt =====
-- unwds-mqtt.c: the name and value pairs that a reply is turned into, and the JSON text of a message.
-- `Shape` relates the text to the pairs, `Escape` is about the quotes.
pub mod Escape
pub mod Shape
mod Examples
use lora_mqtt.Prelude.{
  ℕ, zero, suc, ◌+◌, ◌-◌, Bool, true, false, not, ◌&&◌, List, [], ◌∷◌, ◌++◌, Option, none, some,
  ◌==◌, ltb, if◌then◌else◌, length, get_or, take, replicate, ℤ,
}
use lora_mqtt.Text.Literal.{codes}
use lora_mqtt.Text.Format.{dec, int}
use lora_mqtt.Text.Float.{strtof_end}

abbrev pub mqtt_msg_max_num : ℕ
mqtt_msg_max_num = 50

pub record MqttMsg : Type 0 where
  pub name : List ℕ
  pub value : List ℕ

pub record MqttStatus : Type 0 where
  pub rssi : ℤ
  pub battery : ℤ
  pub temperature : ℤ

abbrev pub Msgs : Type 0
Msgs = List MqttMsg

abbrev pub is_nil : List ℕ → Bool
is_nil [] = true
is_nil (c ∷ s) = false

-- The array after the memset to zero.
abbrev pub no_msgs : Msgs
no_msgs = replicate mqtt_msg_max_num (record { name = []; value = [] })

-- name[40] and value[100] with their terminators: whether no pair is longer. `add_value_pair` keeps a
-- longer one whole, for this test to find.
abbrev pub pairs_fit : Msgs → Bool
pairs_fit [] = true
pairs_fit (m ∷ ms) = ltb (length m.name) 40 && (ltb (length m.value) 100 && pairs_fit ms)

-- The first entry whose name is empty takes the pair; a full array drops it.
unfoldable pub add_value_pair : Msgs → List ℕ → List ℕ → Msgs
add_value_pair [] name value = []
add_value_pair (m ∷ ms) name value =
    if is_nil m.name
    then record { name = m.name ++ name; value = m.value ++ value } ∷ ms
    else m ∷ add_value_pair ms name value

-- endptr == &value[len]
abbrev pub is_numeric : List ℕ → Bool
is_numeric v = elim (strtof_end v) [ none ↦ is_nil v | some r ↦ is_nil r ]

abbrev pub enclosed : ℕ → ℕ → List ℕ → Bool
enclosed open_mark close_mark v =
    (get_or v 0 0 == open_mark) && (get_or v (length v - 1) 0 == close_mark)

abbrev pub leading_zero : List ℕ → Bool
leading_zero v = (get_or v 0 0 == b'0') && (not (get_or v 1 0 == b'.') && not (get_or v 1 0 == 0))

unfoldable pub needs_quotes : List ℕ → Bool
unfolding strtof_end
needs_quotes v =
    if leading_zero v
    then true
    else if enclosed b'[' b']' v
    then false
    else if enclosed b'{' b'}' v
    then false
    else not (is_numeric v)

abbrev pub quote_if : Bool → List ℕ → List ℕ
quote_if b v = if b then b'"' ∷ (v ++ b'"' ∷ []) else v

-- One pair, without the comma in front.
unfoldable pub render_pair : MqttMsg → List ℕ
unfolding needs_quotes
render_pair m = b'"' ∷ (m.name ++ (codes "\": " ++ quote_if (needs_quotes m.value) m.value))

-- The loop of `build_mqtt_message`; the brace is written where the loop breaks off.
unfoldable pub build_data : Bool → Msgs → List ℕ
unfolding render_pair
build_data first [] = []
build_data first (m ∷ ms) =
    if is_nil m.name
    then codes " }"
    else (if first then [] else codes ", ") ++ (render_pair m ++ build_data false ms)

-- The time as gettimeofday and gmtime give it: `date` is the text of strftime for `%FT%T`.
pub record Now : Type 0 where
  pub date : List ℕ
  pub tv_usec : ℕ

-- snprintf(buf, sizeof(buf), …) with the buffer of 50 bytes.
abbrev clip : List ℕ → List ℕ
clip s = take 49 s

unfoldable pub build_status : MqttStatus → List ℕ → Now → List ℕ
unfolding int dec
build_status status addr now =
    codes ", \"status\": { \"devEUI\" : "
    ++ (clip (b'"' ∷ (addr ++ b'"' ∷ []))
        ++ (codes ", \"rssi\": "
            ++ (clip (int status.rssi)
                ++ (codes ", \"temperature\": "
                    ++ (clip (int status.temperature)
                        ++ (codes ", \"battery\": "
                            ++ (clip (int status.battery)
                                ++ (codes ", \"date\": "
                                    ++ (clip (
                                          b'"'
                                          ∷ (now.date ++ (b'.' ∷ (dec now.tv_usec ++ codes "Z\""))))
                                        ++ codes " }}")))))))))

unfoldable pub build_mqtt_message : Msgs → MqttStatus → List ℕ → Now → List ℕ
unfolding build_data build_status
build_mqtt_message ms status addr now =
    codes "{ \"data\": { " ++ (build_data true ms ++ build_status status addr now)

-- strtok(msg, "\""): the runs between quotes, `cur` being the one under way.
unfoldable pub quote_tokens : List ℕ → List ℕ → List (List ℕ)
quote_tokens cur [] = if is_nil cur then [] else cur ∷ []
quote_tokens cur (c ∷ s) = elim (c == b'"') [
  | true ↦ if is_nil cur then quote_tokens [] s else cur ∷ quote_tokens [] s
  | false ↦ quote_tokens (cur ++ c ∷ []) s
]

abbrev pub escaped_quote : List ℕ
escaped_quote = codes "\\\""

unfoldable pub append_tokens : List (List ℕ) → List ℕ
append_tokens [] = []
append_tokens (t ∷ ts) = t ++ (escaped_quote ++ append_tokens ts)

-- `none` is the copy from the NULL that strtok returns where there is no token.
abbrev pub copy_tokens : List (List ℕ) → Option (List ℕ)
copy_tokens [] = none
copy_tokens (t ∷ ts) = some (append_tokens (t ∷ ts))

unfoldable pub mqtt_escape_quotes : List ℕ → Option (List ℕ)
unfolding quote_tokens append_tokens
mqtt_escape_quotes msg = copy_tokens (quote_tokens [] msg)
