-- ===== src/Modules/Dali/Table.antt =====
-- modules/umdk-dali.c: the words of the commands with their codes, in the order of the tests.
use lora_mqtt.Prelude.{ℕ, List, [], ◌∷◌}
use lora_mqtt.Text.Literal.{codes}

-- What the handler reads behind a word: nothing, an intensity, an intensity for the direct arc power
-- control, a number for the data, a number for the low bits of the command, or such a number and an
-- intensity.
pub data Argument : Type 0 where
  plain intensity power value index indexed : Argument

pub record Word : Type 0 where
  pub name : List ℕ
  pub cmd : ℕ
  pub type_rx : ℕ
  pub argument : Argument

-- type_rx is one where the answer is data, zero where it is yes or no.
abbrev pub word_of : List ℕ → ℕ → ℕ → Argument → Word
word_of name cmd type_rx argument = record {
  name = name;
  cmd = cmd;
  type_rx = type_rx;
  argument = argument;
}

abbrev pub commands : List Word
commands =
    word_of (codes "set power ") 0xFF 1 power
    ∷ word_of (codes "off ") 0x00 1 plain
    ∷ word_of (codes "up ") 0x01 1 plain
    ∷ word_of (codes "down ") 0x02 1 plain
    ∷ word_of (codes "step_up ") 0x03 1 plain
    ∷ word_of (codes "step_down ") 0x04 1 plain
    ∷ word_of (codes "max ") 0x05 1 plain
    ∷ word_of (codes "min ") 0x06 1 plain
    ∷ word_of (codes "step_down_off ") 0x07 1 plain
    ∷ word_of (codes "step_up_on ") 0x08 1 plain
    ∷ word_of (codes "goto scene ") 0x10 1 index
    ∷ word_of (codes "reset ") 0x20 1 plain
    ∷ word_of (codes "save level ") 0x21 1 plain
    ∷ word_of (codes "remove scene ") 0x50 1 index
    ∷ word_of (codes "add group ") 0x60 1 index
    ∷ word_of (codes "remove group ") 0x70 1 index
    ∷ []

-- Behind `store `.
abbrev pub stores : List Word
stores =
    word_of (codes "max ") 0x2A 1 intensity
    ∷ word_of (codes "min ") 0x2B 1 intensity
    ∷ word_of (codes "sys fail ") 0x2C 1 intensity
    ∷ word_of (codes "power_on ") 0x2D 1 intensity
    ∷ word_of (codes "fadetime ") 0x2E 1 value
    ∷ word_of (codes "faderate ") 0x2F 1 value
    ∷ word_of (codes "scene ") 0x40 1 indexed
    ∷ []

-- Behind `query `.
abbrev pub queries : List Word
queries =
    word_of (codes "status ") 0x90 1 plain
    ∷ word_of (codes "ballast ") 0x91 0 plain
    ∷ word_of (codes "fail ") 0x92 0 plain
    ∷ word_of (codes "on ") 0x93 0 plain
    ∷ word_of (codes "lim error ") 0x94 0 plain
    ∷ word_of (codes "reset ") 0x95 0 plain
    ∷ word_of (codes "no_addr ") 0x96 0 plain
    ∷ word_of (codes "version ") 0x97 1 plain
    ∷ word_of (codes "dtr ") 0x98 1 plain
    ∷ word_of (codes "type ") 0x99 1 plain
    ∷ word_of (codes "phys min ") 0x9A 1 plain
    ∷ word_of (codes "power fail ") 0x9B 0 plain
    ∷ word_of (codes "actual ") 0xA0 1 plain
    ∷ word_of (codes "max ") 0xA1 1 plain
    ∷ word_of (codes "min ") 0xA2 1 plain
    ∷ word_of (codes "power_on ") 0xA3 1 plain
    ∷ word_of (codes "sys fail ") 0xA4 1 plain
    ∷ word_of (codes "fade ") 0xA5 1 plain
    ∷ word_of (codes "scene level ") 0xB0 1 index
    ∷ word_of (codes "group_7 ") 0xC0 1 plain
    ∷ word_of (codes "group_15 ") 0xC1 1 plain
    ∷ []
