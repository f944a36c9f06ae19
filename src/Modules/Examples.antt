-- ===== src/Modules/Examples.antt =====
-- The registry at concrete modules.
use lora_mqtt.Prelude.{◌≡◌, refl, true, false, List, [], ◌∷◌, none, some, inl, inr, pos, negsuc}
use lora_mqtt.Text.Literal.{codes}
use lora_mqtt.Text.Format.{hex_byte}
use lora_mqtt.Modules.{
  Module, Command, Reply, done, behind, converted, convert_to, convert_from, unwds_modid_by_name,
}
use lora_mqtt.Modules.Lookup.{convert_to-convert_from}

abbrev ok_reply : Reply
ok_reply moddata len ms = done (true, ms)

abbrev get_command : Command
get_command param bufsize = done (codes "01")

abbrev gpio : Module
gpio = record { id = 1; name = codes "gpio"; cmd = some get_command; reply = some ok_reply }

abbrev buttons : Module
buttons = record { id = 2; name = codes "4btn"; cmd = none; reply = some ok_reply }

abbrev config : Module
config = record { id = 126; name = codes "config"; cmd = some get_command; reply = some ok_reply }

abbrev registry : List Module
registry = gpio ∷ buttons ∷ config ∷ []

convert_to-convert_from_example :
    (convert_to registry 126 (7 ∷ []) 1 [] ≡ converted (codes "config") (done (true, [])))
    × (convert_from registry (codes "config") (codes "get") 200
        ≡ some (behind 200 (hex_byte false 126) (done (codes "01"))))
    × (unwds_modid_by_name registry (codes "config") ≡ pos 126)
convert_to-convert_from_example =
    convert_to-convert_from registry config ok_reply get_command (7 ∷ []) (codes "get") 1 200 []
      (((refl, refl), ((refl, refl), tt)), (((refl, refl), tt), (tt, tt))) (inr (inr (inl refl)))
      refl refl

-- A module without a command handler is not found by a command.
buttons_command : convert_from registry (codes "4btn") (codes "get") 200 ≡ none
unfolding convert_from
buttons_command = refl

unknown_name : unwds_modid_by_name registry (codes "none") ≡ negsuc 0
unfolding unwds_modid_by_name
unknown_name = refl
