-- ===== src/Modules/Config.antt =====
-- modules/umdk-config.c and is_number of utils.c: modules by number or by name.
-- `Missing` is about a command without a state.
pub mod Missing
use lora_mqtt.Prelude.{
  ℕ, ◌^◌, Bool, true, false, List, [], ◌∷◌, ◌++◌, Option, none, some, ◌==◌, if◌then◌else◌, length,
  get_or, ℤ, pos,
}
use lora_mqtt.Text.Literal.{codes, after_prefix, starts_with, str_eq}
use lora_mqtt.Text.Format.{hex_byte, hex_pad}
use lora_mqtt.Text.Scan.{atoi, cast}
use lora_mqtt.Text.Radix.{strtol_in}
use lora_mqtt.Settings.{strtok}
use lora_mqtt.Message.{Msgs, add_value_pair}
use lora_mqtt.Modules.{Module, Outcome, done, undefined, unwds_modid_by_name}
use lora_mqtt.Modules.Payload.{at, snprintf}
use lora_mqtt.Modules.Cursor.{◌>>=◌, hex_char, written}

-- The end that strtol reports is the end of the text; the base is that of the prefix.
unfoldable pub is_number : List ℕ → Bool
unfolding strtol_in
is_number str = length (strtol_in 0 str).1 == 0

abbrev pub space : ℕ → Bool
space c = c == b' '

-- id
unfoldable pub module_number : List Module → List ℕ → ℤ
unfolding is_number atoi unwds_modid_by_name
module_number modules name = if is_number name then atoi name else unwds_modid_by_name modules name

-- onoff
unfoldable pub module_state : List ℕ → ℤ
unfolding is_number atoi
module_state state =
    if is_number state then atoi state else if str_eq state (codes "enable") then pos 1 else pos 0

-- `%02x` of an int.
abbrev int_hex : ℤ → List ℕ
int_hex v = hex_pad 2 (cast (2 ^ 32) v)

-- The command `mod`; a token that strtok does not find is read through NULL.
unfoldable pub config_modules : List Module → List ℕ → ℕ → Option (List ℕ)
unfolding strtok module_number module_state hex_pad
config_modules modules p bufsize = do
  (name, rest) ← strtok space p
  (state, end) ← strtok space rest
  some (
      snprintf bufsize (
        hex_byte false 0 ++ (int_hex (module_number modules name) ++ int_hex (module_state state))))

unfoldable pub umdk_config_command : List Module → List ℕ → ℕ → Outcome (List ℕ)
unfolding config_modules hex_char
umdk_config_command modules param bufsize = elim (after_prefix (codes "mod ") param) [
  | some p ↦ written (config_modules modules p bufsize)
  | none ↦
      if starts_with (codes "reboot") param
      then done (snprintf bufsize (hex_byte false 1))
      else elim (after_prefix (codes "class ") param) [
        | some p ↦ done (snprintf bufsize (hex_byte false 2 ++ hex_char (get_or p 0 0)))
        | none ↦ done []
      ]
]

unfoldable pub umdk_config_reply : List ℕ → ℕ → Msgs → Bool × Msgs
umdk_config_reply moddata moddatalen ms = (
  true,
  if at moddata 0 == 0
      then add_value_pair ms (codes "msg") (codes "ok")
      else if at moddata 0 == 253
      then add_value_pair ms (codes "msg") (codes "error")
      else ms,
)
