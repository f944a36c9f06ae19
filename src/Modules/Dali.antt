-- ===== src/Modules/Dali.antt =====
-- modules/umdk-dali.c: commands in words for the lamps of a DALI line.
-- `Level` is the dimming curve, `Table` the words of the commands, `Answer` the reply handler.
pub mod Level
pub mod Table
pub mod Answer
pub mod Frames
use lora_mqtt.Prelude.{
  ℕ, ◌+◌, ◌*◌, ◌^◌, Bool, true, false, ◌&&◌, List, [], ◌∷◌, ◌++◌, Option, none, some, ltb, leb,
  ◌==◌, if◌then◌else◌, bit_and, bit_or,
}
use lora_mqtt.Text.Literal.{codes, after_prefix, starts_with}
use lora_mqtt.Text.Format.{hex_byte}
use lora_mqtt.Modules.{Outcome, done, undefined}
use lora_mqtt.Modules.Payload.{snprintf}
use lora_mqtt.Modules.Cursor.{◌>>=◌, number, field}
use lora_mqtt.Modules.Dali.Level.{arc_power}
use lora_mqtt.Modules.Dali.Table.{
  Argument, plain, intensity, power, value, index, indexed, Word, commands, stores, queries,
}

-- The variables of the handler once the words are read, and the place behind them.
pub record Order : Type 0 where
  pub cmd : ℕ
  pub data_byte : ℕ
  pub s_bit : ℕ
  pub type_rx : ℕ
  pub param : Option (List ℕ)

unfoldable pub order : ℕ → ℕ → ℕ → ℕ → Option (List ℕ) → Order
order cmd data_byte s_bit type_rx param = record {
  cmd = cmd;
  data_byte = data_byte;
  s_bit = s_bit;
  type_rx = type_rx;
  param = param;
}

-- What stands behind the word: numbers, each with one byte skipped behind it.
unfoldable pub read_argument : Argument → ℕ → ℕ → List ℕ → Option Order
unfolding field order arc_power
read_argument plain cmd type_rx s = some (order cmd 0 1 type_rx (some s))
read_argument power cmd type_rx s = do
  (i, p) ← field 10 (2 ^ 8) (some s)
  level ← arc_power i
  some (order cmd level 0 type_rx p)
read_argument intensity cmd type_rx s = do
  (i, p) ← field 10 (2 ^ 8) (some s)
  level ← arc_power i
  some (order cmd level 1 type_rx p)
read_argument value cmd type_rx s = do
  (v, p) ← field 10 (2 ^ 8) (some s)
  some (order cmd v 1 type_rx p)
read_argument index cmd type_rx s = do
  (v, p) ← field 10 (2 ^ 8) (some s)
  some (order (bit_or cmd (bit_and v 0x0F)) 0 1 type_rx p)
read_argument indexed cmd type_rx s = do
  (v, p) ← field 10 (2 ^ 8) (some s)
  (i, q) ← field 10 (2 ^ 8) p
  level ← arc_power i
  some (order (bit_or cmd (bit_and v 0x0F)) level 1 type_rx q)

-- The first word that the text starts with.
unfoldable pub matching : List Word → List ℕ → Option (Word × List ℕ)
matching [] s = none
matching (w ∷ ws) s = elim (after_prefix w.name s) [ some r ↦ some (w, r) | none ↦ matching ws s ]

-- The address and its type; `none` for text that names no target.
unfoldable pub target : List ℕ → Option (ℕ × ℕ)
unfolding number
target s =
    if starts_with (codes "broadcast") s
    then some (0x3F, 1)
    else elim (after_prefix (codes "group ") s) [
      | some p ↦ some ((number 10 (2 ^ 8) p).0, 1)
      | none ↦ elim (after_prefix (codes "dev ") s) [
        | some p ↦ some ((number 10 (2 ^ 8) p).0, 0)
        | none ↦ none
      ]
    ]

-- repeat, answer and store_dtr, from the range of the command.
unfoldable pub repeat_bit : ℕ → ℕ
repeat_bit cmd = if leb 0x20 cmd && ltb cmd 0x90 then 1 else 0

unfoldable pub answer_bit : ℕ → ℕ
answer_bit cmd = if leb 0x90 cmd && ltb cmd 0xF0 then 1 else 0

unfoldable pub store_bit : ℕ → ℕ
store_bit cmd = if leb 0x21 cmd && leb cmd 0x4F then 1 else 0

unfoldable pub dali_address : ℕ → ℕ → ℕ → ℕ
dali_address type_addr address s_bit = type_addr * 2 ^ 7 + bit_and address 0x3F * 2 + s_bit

unfoldable pub dali_service : ℕ → ℕ → ℕ
unfolding repeat_bit answer_bit store_bit
dali_service type_rx cmd =
    type_rx * 2 ^ 3 + answer_bit cmd * 2 ^ 2 + repeat_bit cmd * 2 + store_bit cmd

unfoldable pub dali_frame : ℕ → ℕ → ℕ → ℕ → List ℕ
unfolding hex_byte
dali_frame cmd service data_byte address =
    hex_byte false cmd
    ++ (hex_byte false service ++ (hex_byte false data_byte ++ hex_byte false address))

abbrev invalid : ℕ → Outcome (List ℕ)
invalid bufsize = done (snprintf bufsize (hex_byte false 0xFF))

-- The part behind the chain of commands.
unfoldable pub dali_send : ℕ → Option Order → Outcome (List ℕ)
unfolding target dali_frame dali_service dali_address
dali_send bufsize none = undefined
dali_send bufsize (some o) = elim o.param [
  | none ↦ undefined
  | some s ↦ elim (target s) [
    | none ↦ invalid bufsize
    | some (address, type_addr) ↦ done (
        snprintf bufsize (
          dali_frame o.cmd (dali_service o.type_rx o.cmd) o.data_byte
            (dali_address type_addr address o.s_bit)))
  ]
]

abbrev pub ordered : ℕ → Option (Word × List ℕ) → Outcome (List ℕ)
ordered bufsize none = invalid bufsize
ordered bufsize (some (w, r)) = dali_send bufsize (read_argument w.argument w.cmd w.type_rx r)

unfoldable pub dali_words : ℕ → List Word → List ℕ → Outcome (List ℕ)
dali_words bufsize ws s = ordered bufsize (matching ws s)

-- The command `init`.
unfoldable pub dali_init : ℕ → List ℕ → Outcome (List ℕ)
unfolding number dali_frame
dali_init bufsize p =
    if starts_with (codes "rand") p
    then done (snprintf bufsize (dali_frame 0xF1 0 0 0))
    else elim (after_prefix (codes "single ") p) [
      | some q ↦ done (snprintf bufsize (dali_frame 0xF2 0 (number 10 (2 ^ 8) q).0 0))
      | none ↦ invalid bufsize
    ]

unfoldable pub umdk_dali_command : List ℕ → ℕ → Outcome (List ℕ)
unfolding dali_init dali_words
umdk_dali_command param bufsize = elim (after_prefix (codes "init ") param) [
  | some p ↦ dali_init bufsize p
  | none ↦ elim (after_prefix (codes "store ") param) [
    | some p ↦ dali_words bufsize stores p
    | none ↦ elim (after_prefix (codes "query ") param) [
      | some p ↦ dali_words bufsize queries p
      | none ↦ dali_words bufsize commands param
    ]
  ]
]
