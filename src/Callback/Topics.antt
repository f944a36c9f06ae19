-- ===== src/Callback/Topics.antt =====
-- mqtt.c: the levels of a topic, as the loop over strsep in my_message_callback splits it.
use lora_mqtt.Prelude.{
  ℕ, ◌≡◌, refl, ap, ◌∙◌, sym, false, List, [], ◌∷◌, ◌++◌, ◌==◌, All, append-nil, append_assoc,
}
use lora_mqtt.Message.{is_nil}
use lora_mqtt.Callback.{split_topic}

abbrev pub IsFree : List ℕ → Type 0
IsFree t = All (λ c. (c == b'/') ≡ false) t

-- A level is neither empty nor does it hold a slash.
abbrev pub IsLevel : List ℕ → Type 0
IsLevel t = (is_nil t ≡ false) × IsFree t

abbrev pub join : List (List ℕ) → List ℕ
join [] = []
join (t ∷ []) = t
join (t ∷ u ∷ ts) = t ++ b'/' ∷ join (u ∷ ts)

split_topic-append :
    (t cur rest : List ℕ) → IsFree t → split_topic cur (t ++ rest) ≡ split_topic (cur ++ t) rest
unfolding split_topic
split_topic-append [] cur rest h = ap (λ (c : List ℕ). split_topic c rest) (sym (append-nil cur))
split_topic-append (c ∷ t) cur rest h =
    rw (h.0, split_topic)
      (split_topic-append t (cur ++ c ∷ []) rest h.1
        ∙ ap (λ (l : List ℕ). split_topic l rest) (append_assoc cur (c ∷ []) t))

-- A topic of levels is split into these levels.
pub split_topic-join : (ts : List (List ℕ)) → All IsLevel ts → split_topic [] (join ts) ≡ ts
unfolding split_topic
split_topic-join [] h = refl
split_topic-join (t ∷ []) h =
    ap (λ (l : List ℕ). split_topic [] l) (sym (append-nil t))
    ∙ split_topic-append t [] [] h.0.1
    ∙ rw h.0.0 refl
split_topic-join (t ∷ u ∷ ts) h =
    split_topic-append t [] (b'/' ∷ join (u ∷ ts)) h.0.1
    ∙ rw h.0.0 (ap (λ (l : List (List ℕ)). t ∷ l) (split_topic-join (u ∷ ts) h.1))
