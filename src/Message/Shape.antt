-- ===== src/Message/Shape.antt =====
-- The text of a message against the pairs that were added.
use lora_mqtt.Prelude.{
  ℕ, zero, suc, ◌+◌, ◌≡◌, refl, ap, sym, ◌∙◌, Bool, true, false, List, [], ◌∷◌, ◌++◌, append_assoc,
  append-nil, if◌then◌else◌, length, replicate, All, arith,
}
use lora_mqtt.Text.Literal.{codes}
use lora_mqtt.Message.{
  MqttMsg, Msgs, MqttStatus, Now, add_value_pair, no_msgs, mqtt_msg_max_num, is_nil, render_pair,
  build_data, build_status, build_mqtt_message,
}

abbrev blank : MqttMsg
blank = record { name = []; value = [] }

-- An array of `n` entries of which the first ones are in use.
abbrev filled : Msgs → ℕ → Msgs
filled [] free = replicate free blank
filled (p ∷ ps) free = p ∷ filled ps free

abbrev pub Named : MqttMsg → Type 0
Named p = is_nil p.name ≡ false

-- The pairs in the order in which a handler adds them, from the array `ms` on.
abbrev pub add_all : Msgs → List MqttMsg → Msgs
add_all ms [] = ms
add_all ms (p ∷ ps) = add_all (add_value_pair ms p.name p.value) ps

add_value_pair-filled :
    (qs : List MqttMsg) (free : ℕ) (p : MqttMsg)
    → All Named qs
    → add_value_pair (filled qs (suc free)) p.name p.value ≡ filled (qs ++ p ∷ []) free
unfolding add_value_pair
add_value_pair-filled [] free p h = refl
add_value_pair-filled (q ∷ qs) free p h =
    rw (h.0, add_value_pair) (ap (λ t. q ∷ t) (add_value_pair-filled qs free p h.1))

All-Named-snoc :
    (qs : List MqttMsg) (p : MqttMsg) → All Named qs → Named p → All Named (qs ++ p ∷ [])
All-Named-snoc [] p h k = (k, tt)
All-Named-snoc (q ∷ qs) p h k = (h.0, All-Named-snoc qs p h.1 k)

add_all-filled :
    (ps qs : List MqttMsg) (free n : ℕ)
    → n ≡ free + length ps
    → All Named qs
    → All Named ps
    → add_all (filled qs n) ps ≡ filled (qs ++ ps) free
add_all-filled [] qs free n e h k =
    ap (filled qs) (let f : n ≡ free = omega arith in f)
    ∙ ap (λ t. filled t free) (sym (append-nil qs))
add_all-filled (p ∷ ps) qs free zero e h k = absurd (omega arith)
add_all-filled (p ∷ ps) qs free (suc n) e h k =
    ap (λ t. add_all t ps) (add_value_pair-filled qs n p h)
    ∙ add_all-filled ps (qs ++ p ∷ []) free n (omega arith) (All-Named-snoc qs p h k.0) k.1
    ∙ ap (λ t. filled t free) (append_assoc qs (p ∷ []) ps)

-- The members of a JSON object, with the commas between them.
abbrev pub members : Bool → List MqttMsg → List ℕ
members first [] = []
members first (p ∷ ps) = (if first then [] else codes ", ") ++ (render_pair p ++ members false ps)

abbrev pub closing : ℕ → List ℕ
closing zero = []
closing (suc free) = codes " }"

build_data-filled :
    (ps : List MqttMsg) (first : Bool) (free : ℕ)
    → All Named ps
    → build_data first (filled ps free) ≡ members first ps ++ closing free
unfolding build_data
build_data-filled [] first zero h = refl
build_data-filled [] first (suc free) h = refl
build_data-filled (p ∷ ps) first free h =
    rw (h.0, build_data)
      (ap (λ t. (if first then [] else codes ", ") ++ (render_pair p ++ t))
          (build_data-filled ps false free h.1)
        ∙ ap (λ t. (if first then [] else codes ", ") ++ t) (sym (append_assoc (render_pair p) _ _))
        ∙ sym (append_assoc (if first then [] else codes ", ") _ _))

-- The text of the pairs that a handler added to an empty array, each with a name and at most fifty of
-- them, is the opening, the members with commas between them, the closing brace of the data where
-- fewer than fifty pairs were added and nothing where there were fifty, and the status.
pub build_mqtt_message-add_all :
    (ps : List MqttMsg) (free : ℕ) (status : MqttStatus) (addr : List ℕ) (now : Now)
    → mqtt_msg_max_num ≡ free + length ps
    → All Named ps
    → build_mqtt_message (add_all no_msgs ps) status addr now
      ≡ codes "{ \"data\": { "
        ++ ((members true ps ++ closing free) ++ build_status status addr now)
unfolding build_mqtt_message
build_mqtt_message-add_all ps free status addr now e h =
    ap (λ t. codes "{ \"data\": { " ++ (t ++ build_status status addr now))
      (ap (build_data true) (add_all-filled ps [] free 50 e tt h)
        ∙ build_data-filled ps true free h)
