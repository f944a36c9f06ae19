-- ===== src/Settings.antt =====
-- mqtt.c: the part of main that reads the configuration file /etc/lora-mqtt/mqtt.conf.
-- `Tokens` is about the tokens of a line, `Printed` about a file that was written for some settings.
pub mod Tokens
pub mod Printed
mod Examples
use lora_mqtt.Prelude.{
  ℕ, ◌^◌, Bool, true, false, ◌||◌, List, [], ◌∷◌, ◌++◌, Option, none, some, ltb, ◌==◌,
  if◌then◌else◌, length, get_or, ℤ,
}
use lora_mqtt.Text.Literal.{codes, str_eq}
use lora_mqtt.Text.Scan.{strtol, skip_space, cast}
use lora_mqtt.Modules.Payload.{to_signed}
use lora_mqtt.Gate.{Config, regular, escaped}

-- What the file sets.
pub record Settings : Type 0 where
  pub config : Config
  pub serialport : List ℕ

-- The delimiters "\t\n\r", and "\t =\n\r".
abbrev pub is_break : ℕ → Bool
is_break c = (c == 9) || ((c == 10) || (c == 13))

abbrev pub is_delim : ℕ → Bool
is_delim c = is_break c || ((c == b' ') || (c == b'='))

unfoldable pub skip_delims : (ℕ → Bool) → List ℕ → List ℕ
skip_delims delim [] = []
skip_delims delim (c ∷ s) = elim (delim c) [ true ↦ skip_delims delim s | false ↦ c ∷ s ]

-- The token that starts here, and what stands behind the delimiter that ends it.
unfoldable pub take_token : (ℕ → Bool) → List ℕ → List ℕ → List ℕ × List ℕ
take_token delim cur [] = (cur, [])
take_token delim cur (c ∷ s) = elim (delim c) [
  | true ↦ (cur, s)
  | false ↦ take_token delim (cur ++ c ∷ []) s
]

abbrev token_of : (ℕ → Bool) → List ℕ → Option (List ℕ × List ℕ)
token_of delim [] = none
token_of delim (c ∷ s) = some (take_token delim [] (c ∷ s))

-- `none` is NULL.
unfoldable pub strtok : (ℕ → Bool) → List ℕ → Option (List ℕ × List ℕ)
unfolding skip_delims take_token
strtok delim s = token_of delim (skip_delims delim s)

-- A long stored into an int of 32 bits.
abbrev pub int32 : ℤ → ℤ
int32 v = to_signed 31 (cast (2 ^ 32) v)

-- sscanf(s, "%d", &v): the number, or nothing where there is no digit and `v` keeps its value.
unfoldable pub scan_int : List ℕ → Option ℤ
unfolding strtol
scan_int s =
    let r = strtol s in if length r.1 == length (skip_space s) then none else some (int32 r.0)

abbrev pub int_or : ℤ → List ℕ → ℤ
int_or old s = elim (scan_int s) [ none ↦ old | some v ↦ v ]

-- while (*serialport == ' ' || *serialport == '=')
abbrev pub trimmed : List ℕ → List ℕ
trimmed [] = []
trimmed (c ∷ s) = if (c == b' ') || (c == b'=') then trimmed s else c ∷ s

unfoldable pub format_setting : List ℕ → Config → Config
format_setting v c =
    if str_eq v (codes "mqtt-escaped")
    then record c { mqtt_format = escaped }
    else if str_eq v (codes "mqtt")
    then record c { mqtt_format = regular }
    else c

-- The settings whose value is one more token; a name that is none of them changes nothing.
abbrev pub value_setting : List ℕ → Option (List ℕ → Config → Config)
value_setting name =
    if str_eq name (codes "format")
    then some format_setting
    else if str_eq name (codes "mqtt_qos")
    then some (λ v c. record c { mqtt_qos = int_or c.mqtt_qos v })
    else if str_eq name (codes "mqtt_retain")
    then some (λ v c. record c { mqtt_retain = str_eq v (codes "true") })
    else if str_eq name (codes "mqtt_sepio")
    then some (λ v c. record c { mqtt_sepio = str_eq v (codes "true") })
    else if str_eq name (codes "tx_delay")
    then some (λ v c. record c { tx_delay = int_or c.tx_delay v })
    else if str_eq name (codes "tx_maxretr")
    then some (λ v c. record c { tx_maxretr = int_or c.tx_maxretr v })
    else none

-- A missing value is a read through NULL, a name of the port of 100 bytes overruns its buffer.
abbrev set_port : Settings → Option (List ℕ × List ℕ) → Option Settings
set_port s none = none
set_port s (some (v, rest)) =
    if ltb (length v) 100 then some (record s { serialport = trimmed v }) else none

abbrev set_value :
    Settings → (List ℕ → Config → Config) → Option (List ℕ × List ℕ) → Option Settings
set_value s f none = none
set_value s f (some (v, rest)) = some (record s { config = f v s.config })

abbrev named_setting : Settings → List ℕ → List ℕ → Option Settings
named_setting s name rest =
    if str_eq name (codes "port")
    then set_port s (strtok is_break rest)
    else elim (value_setting name) [ none ↦ some s | some f ↦ set_value s f (strtok is_delim rest) ]

-- One line of the file; `none` stands for behaviour that C leaves undefined.
unfoldable pub setting_line : Settings → List ℕ → Option Settings
unfolding strtok scan_int format_setting
setting_line s line = elim (strtok is_delim line) [
  | none ↦ some s
  | some (name, rest) ↦ if get_or name 0 0 == b'#' then some s else named_setting s name rest
]

-- The loop over the lines that fgets returns.
unfoldable pub read_settings : Settings → List (List ℕ) → Option Settings
unfolding setting_line
read_settings s [] = some s
read_settings s (l ∷ ls) = elim (setting_line s l) [ none ↦ none | some t ↦ read_settings t ls ]
