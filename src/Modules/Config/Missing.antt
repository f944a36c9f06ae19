-- ===== src/Modules/Config/Missing.antt =====
-- modules/umdk-config.c: the command `mod` without a state.
use lora_mqtt.Prelude.{
  ℕ, ◌≡◌, refl, ap, ◌∙◌, sym, false, List, [], ◌∷◌, ◌++◌, none, ◌==◌, All, append_assoc, append-nil,
}
use lora_mqtt.Text.Literal.{codes}
use lora_mqtt.Settings.{strtok, skip_delims, take_token}
use lora_mqtt.Modules.{Module, undefined}
use lora_mqtt.Modules.Config.{space, config_modules, umdk_config_command}

abbrev pub HasNoSpace : List ℕ → Type 0
HasNoSpace t = All (λ c. (c == b' ') ≡ false) t

take_token-all : (t cur : List ℕ) → HasNoSpace t → take_token space cur t ≡ (cur ++ t, [])
unfolding take_token
take_token-all [] cur h = ap (λ (l : List ℕ). (l, [])) (sym (append-nil cur))
take_token-all (c ∷ t) cur h =
    rw (take_token, h.0)
      (take_token-all t (cur ++ c ∷ []) h.1
        ∙ ap (λ (l : List ℕ). (l, [])) (append_assoc cur (c ∷ []) t))

config_modules-none :
    (modules : List Module) (name : List ℕ) (bufsize : ℕ)
    → HasNoSpace name
    → config_modules modules name bufsize ≡ none
unfolding config_modules strtok skip_delims
config_modules-none modules [] bufsize h = refl
config_modules-none modules (c ∷ name) bufsize h =
    rw (skip_delims, h.0, take_token-all (c ∷ name) [] h) refl

-- A module without a state behind it.
pub umdk_config_command-undefined :
    (modules : List Module) (name : List ℕ) (bufsize : ℕ)
    → HasNoSpace name
    → umdk_config_command modules (codes "mod " ++ name) bufsize ≡ undefined
unfolding umdk_config_command
umdk_config_command-undefined modules name bufsize h =
    rw (config_modules-none modules name bufsize h) refl
