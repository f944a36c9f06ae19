-- ===== src/Callback/Faults.antt =====
-- mqtt.c, unwds-mqtt.c and modules/umdk-config.c: a command that makes the callback read through
-- NULL.
use lora_mqtt.Prelude.{
  ℕ, ◌≡◌, refl, ◌∙◌, false, Bool, List, [], ◌∷◌, ◌++◌, some, none, All, length, pos, arith,
}
use lora_mqtt.Text.Literal.{codes}
use lora_mqtt.Hex.Laws.{IsHex}
use lora_mqtt.Modules.Registry.{
  unwds_modules_list, unwds_modules_list-IsRegistry, modules_with, config_module, config_module-Has,
}
use lora_mqtt.Modules.Config.Missing.{HasNoSpace, umdk_config_command-undefined}
use lora_mqtt.Gate.{Env, Gate, fault}
use lora_mqtt.Modules.Config.{umdk_config_command}
use lora_mqtt.Reply.{reply_len}
use lora_mqtt.Callback.{my_message_callback, with_written}
use lora_mqtt.Callback.Topics.{join}
use lora_mqtt.Callback.Routing.{levels, my_message_callback_lem}

-- Where the directions share a topic, a message with the message id 0 on devices/lora/<id>/config
-- with a device id of sixteen hexadecimal digits and the text `mod ` and one word: the handler of the
-- module reads through NULL.
pub my_message_callback-fault :
    (be : Bool) (env : Env) (g : Gate) (id name : List ℕ)
    → g.config.mqtt_sepio ≡ false
    → length id ≡ 16
    → All IsHex id
    → HasNoSpace name
    → my_message_callback (unwds_modules_list be) env g (record {
      mid = pos 0;
      topic = join (levels id (codes "config"));
      payload = some (codes "mod " ++ name);
    })
      ≡ (g, fault ∷ [])
unfolding with_written
my_message_callback-fault be env g id name shared n h s =
    let modules = modules_with be none in
    my_message_callback_lem (unwds_modules_list be) env g (config_module be)
      (umdk_config_command modules) id (codes "mod " ++ name) shared n h
      (unwds_modules_list-IsRegistry be) (config_module-Has be) refl
      (refl, (refl, (refl, (refl, (refl, (refl, (refl, tt))))))) (omega arith)
    ∙ rw (umdk_config_command-undefined modules name reply_len s) refl
