-- ===== src/Modules.antt =====
-- unwds-mqtt.c: the registry of the device modules, and the conversions through it. The functions take
-- the list of modules, `unwds_modules_list` of modules/include/unwds-modules.h, as an argument.
pub mod Lookup
pub mod Registry
pub mod Payload
pub mod Cursor
pub mod Meteo
pub mod Counter
pub mod Simple
pub mod Analog
pub mod Pins
pub mod Serial
pub mod Access
pub mod Config
pub mod Pulse
pub mod Modbus
pub mod Dali
pub mod Meters
pub mod Gps
pub mod M200
pub mod M230
pub mod Iec61107
mod Examples
mod Samples
mod Commands
mod Answers
mod MeterAnswers
use lora_mqtt.Prelude.{
  ℕ, ◌+◌, ltb, length, Bool, true, false, List, [], ◌∷◌, ◌++◌, Option, none, some, ◌==◌,
  if◌then◌else◌, ℤ, pos, negsuc,
}
use lora_mqtt.Text.Literal.{str_eq}
use lora_mqtt.Text.Format.{hex_byte}
use lora_mqtt.Message.{Msgs, no_msgs, pairs_fit}

-- What a handler returns, or behaviour that C leaves undefined.
pub data Outcome {ℓ} (A : Type ℓ) : Type ℓ where
  done : A → Outcome A
  undefined : Outcome A

-- A handler of commands: the parameter, the size of the buffer, and the text left in it.
abbrev pub Command : Type 0
Command = List ℕ → ℕ → Outcome (List ℕ)

-- A handler of replies: the bytes from `moddata` on, their number, and the message it adds to.
abbrev pub Reply : Type 0
Reply = List ℕ → ℕ → Msgs → Outcome (Bool × Msgs)

-- NULL is `none`.
pub record Module : Type 0 where
  pub id : ℕ
  pub name : List ℕ
  pub cmd : Option Command
  pub reply : Option Reply

-- The topic and the pairs, where the result is true. A handler that built a pair which is longer
-- than its fields wrote past them.
abbrev pub converted : List ℕ → Outcome (Bool × Msgs) → Option (Outcome (List ℕ × Msgs))
converted topic (done (result, ms)) =
    if pairs_fit ms then if result then some (done (topic, ms)) else none else some undefined
converted topic undefined = some undefined

unfoldable pub convert_to : List Module → ℕ → List ℕ → ℕ → Msgs → Option (Outcome (List ℕ × Msgs))
convert_to [] modid moddata len ms = none
convert_to (m ∷ rest) modid moddata len ms =
    let later : Option (Outcome (List ℕ × Msgs)) = convert_to rest modid moddata len ms in
    if m.id == modid
    then elim m.reply [ none ↦ later | some f ↦ converted m.name (f moddata len ms) ]
    else later

-- A handler that writes behind a text in a buffer of `bufsize` bytes; it is told that all of them
-- are behind the text, and the terminator of a long one is written past the end.
abbrev pub behind : ℕ → List ℕ → Outcome (List ℕ) → Outcome (List ℕ)
behind bufsize t (done s) = if ltb (length t + length s) bufsize then done (t ++ s) else undefined
behind bufsize t undefined = undefined

-- The text for the mote, where the result is true: the module id and what the handler wrote.
unfoldable pub convert_from : List Module → List ℕ → List ℕ → ℕ → Option (Outcome (List ℕ))
unfolding hex_byte
convert_from [] type param bufsize = none
convert_from (m ∷ rest) type param bufsize =
    let later : Option (Outcome (List ℕ)) = convert_from rest type param bufsize in
    if str_eq type m.name
    then elim m.cmd [
      | none ↦ later
      | some f ↦ some (behind bufsize (hex_byte false m.id) (f param bufsize))
    ]
    else later

unfoldable pub unwds_modid_by_name : List Module → List ℕ → ℤ
unwds_modid_by_name [] name = negsuc 0
unwds_modid_by_name (m ∷ rest) name =
    if str_eq name m.name then pos m.id else unwds_modid_by_name rest name
