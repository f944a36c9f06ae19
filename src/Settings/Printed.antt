-- ===== src/Settings/Printed.antt =====
-- mqtt.c: the configuration file that is written for some settings.
use lora_mqtt.Prelude.{
  arith, ℕ, ◌^◌, ◌<◌, ◌≡◌, refl, ap, ◌∙◌, Bool, true, false, List, [], ◌∷◌, ◌++◌, some, ◌==◌,
  if◌then◌else◌, get_or, ℤ, pos,
}
use lora_mqtt.Text.Literal.{codes, str_eq}
use lora_mqtt.Text.Format.{dec}
use lora_mqtt.Gate.{Config, Format, regular, escaped}
use lora_mqtt.Settings.{
  Settings, is_delim, strtok, format_setting, value_setting, setting_line, read_settings,
}
use lora_mqtt.Settings.Tokens.{IsToken, strtok-token, strtok-skip, dec-IsToken, token, int_or-dec}

-- The line `name = value`.
abbrev pub setting : List ℕ → List ℕ → List ℕ
setting name v = name ++ b' ' ∷ b'=' ∷ b' ' ∷ (v ++ 10 ∷ [])

setting_line-setting :
    (s : Settings) (name v : List ℕ) (f : List ℕ → Config → Config)
    → IsToken name
    → IsToken v
    → (get_or name 0 0 == b'#') ≡ false
    → str_eq name (codes "port") ≡ false
    → value_setting name ≡ some f
    → setting_line s (setting name v) ≡ some (record s { config = f v s.config })
unfolding setting_line
setting_line-setting s name v f n t h p q =
    let second : strtok is_delim (b'=' ∷ b' ' ∷ (v ++ 10 ∷ [])) ≡ some (v, []) =
      strtok-skip b'=' (b' ' ∷ (v ++ 10 ∷ [])) refl
      ∙ strtok-skip b' ' (v ++ 10 ∷ []) refl
      ∙ strtok-token v [] 10 t refl in
    rw (strtok-token name (b'=' ∷ b' ' ∷ (v ++ 10 ∷ [])) b' ' n refl, setting_line, h, p, q, second)
      refl

abbrev flag : Bool → List ℕ
flag b = if b then codes "true" else codes "false"

abbrev format_text : Format → List ℕ
format_text regular = codes "mqtt"
format_text escaped = codes "mqtt-escaped"

-- The file for some settings.
abbrev pub printed : Format → ℕ → Bool → Bool → ℕ → ℕ → List (List ℕ)
printed format qos retain sepio delay maxretr =
    setting (codes "format") (format_text format)
    ∷ setting (codes "mqtt_qos") (dec qos)
    ∷ setting (codes "mqtt_retain") (flag retain)
    ∷ setting (codes "mqtt_sepio") (flag sepio)
    ∷ setting (codes "tx_delay") (dec delay)
    ∷ setting (codes "tx_maxretr") (dec maxretr)
    ∷ []

flag-IsToken : (b : Bool) → IsToken (flag b)
flag-IsToken true = token (codes "true") refl refl
flag-IsToken false = token (codes "false") refl refl

flag_value : (b : Bool) → str_eq (flag b) (codes "true") ≡ b
flag_value true = refl
flag_value false = refl

format-IsToken : (f : Format) → IsToken (format_text f)
format-IsToken regular = token (codes "mqtt") refl refl
format-IsToken escaped = token (codes "mqtt-escaped") refl refl

format_value :
    (f : Format) (c : Config) → format_setting (format_text f) c ≡ record c { mqtt_format = f }
unfolding format_setting
format_value regular c = refl
format_value escaped c = refl

-- A line for a setting whose value is read as `v`, and the lines behind it.
then_line :
    (s : Settings) (name v : List ℕ) (f : List ℕ → Config → Config) (c : Config)
    (ls : List (List ℕ))
    → IsToken name
    → IsToken v
    → (get_or name 0 0 == b'#') ≡ false
    → str_eq name (codes "port") ≡ false
    → value_setting name ≡ some f
    → f v s.config ≡ c
    → read_settings s (setting name v ∷ ls) ≡ read_settings (record s { config = c }) ls
unfolding read_settings
then_line s name v f c ls n t h p q e =
    rw (read_settings, setting_line-setting s name v f n t h p q, e) refl

no_lines : (s : Settings) → read_settings s [] ≡ some s
unfolding read_settings
no_lines s = refl

format_line :
    (s : Settings) (f : Format) (ls : List (List ℕ))
    → read_settings s (setting (codes "format") (format_text f) ∷ ls)
      ≡ read_settings (record s { config = record (s.config) { mqtt_format = f } }) ls
format_line s f ls =
    then_line s (codes "format") (format_text f) format_setting _ ls
      (token (codes "format") refl refl) (format-IsToken f) refl refl refl (format_value f s.config)

-- A file that was written for some settings, with numbers below 2 ^ 31, sets them, whatever was set
-- before, and leaves the serial port and the rest.
pub read_settings-printed :
    (s : Settings) (f : Format) (qos : ℕ) (retain sepio : Bool) (delay maxretr : ℕ)
    → qos < 2 ^ 31
    → delay < 2 ^ 31
    → maxretr < 2 ^ 31
    → read_settings s (printed f qos retain sepio delay maxretr)
      ≡ some (record s {
        config = record (s.config) {
          mqtt_format = f;
          mqtt_qos = pos qos;
          mqtt_retain = retain;
          mqtt_sepio = sepio;
          tx_delay = pos delay;
          tx_maxretr = pos maxretr;
        };
      })
read_settings-printed s f qos retain sepio delay maxretr x y z =
    let c0 : Config = record (s.config) { mqtt_format = f } in
    let c1 : Config = record c0 { mqtt_qos = pos qos } in
    let c2 : Config = record c1 { mqtt_retain = retain } in
    let c3 : Config = record c2 { mqtt_sepio = sepio } in
    let c4 : Config = record c3 { tx_delay = pos delay } in
    let c5 : Config = record c4 { tx_maxretr = pos maxretr } in
    format_line s f _
    ∙ then_line (record s { config = c0 }) (codes "mqtt_qos") (dec qos) _ c1 _
        (token (codes "mqtt_qos") refl refl) (dec-IsToken qos) refl refl refl
        (ap (λ (v : ℤ). record c0 { mqtt_qos = v }) (int_or-dec c0.mqtt_qos qos (omega arith)))
    ∙ then_line (record s { config = c1 }) (codes "mqtt_retain") (flag retain) _ c2 _
        (token (codes "mqtt_retain") refl refl) (flag-IsToken retain) refl refl refl
        (ap (λ (b : Bool). record c1 { mqtt_retain = b }) (flag_value retain))
    ∙ then_line (record s { config = c2 }) (codes "mqtt_sepio") (flag sepio) _ c3 _
        (token (codes "mqtt_sepio") refl refl) (flag-IsToken sepio) refl refl refl
        (ap (λ (b : Bool). record c2 { mqtt_sepio = b }) (flag_value sepio))
    ∙ then_line (record s { config = c3 }) (codes "tx_delay") (dec delay) _ c4 _
        (token (codes "tx_delay") refl refl) (dec-IsToken delay) refl refl refl
        (ap (λ (v : ℤ). record c3 { tx_delay = v }) (int_or-dec c3.tx_delay delay (omega arith)))
    ∙ then_line (record s { config = c4 }) (codes "tx_maxretr") (dec maxretr) _ c5 _
        (token (codes "tx_maxretr") refl refl) (dec-IsToken maxretr) refl refl refl
        (ap (λ (v : ℤ). record c4 { tx_maxretr = v })
          (int_or-dec c4.tx_maxretr maxretr (omega arith)))
    ∙ no_lines (record s { config = c5 })
