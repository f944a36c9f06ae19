-- ===== src/Modules/Iec61107/Answer.antt =====
-- modules/umdk-iec61107.c: the reply handler.
use lora_mqtt.Prelude.{
  ℕ, ◌+◌, ◌-◌, ◌*◌, ◌%◌, ◌^◌, Bool, true, ◌&&◌, ◌||◌, List, [], ◌∷◌, Option, none, some, ltb, leb,
  ◌==◌, if◌then◌else◌, get_or,
}
use lora_mqtt.Text.Literal.{codes}
use lora_mqtt.Text.Format.{dec}
use lora_mqtt.Numbers.{uint32_to_le}
use lora_mqtt.Message.{Msgs, add_value_pair}
use lora_mqtt.Modules.{Outcome, done, undefined}
use lora_mqtt.Modules.Payload.{bytes_at, at, to_signed, snprintf, fraction}
use lora_mqtt.Modules.M200.Answer.{word32}
use lora_mqtt.Modules.Iec61107.Status.{status_reply}
use lora_mqtt.Modules.Iec61107.Lists.{schedule_reply, holidays_reply}

-- A buffer that was filled with `%c` of each byte: a zero ends the text.
abbrev until_zero : List ℕ → List ℕ
until_zero [] = []
until_zero (c ∷ cs) = let rest = until_zero cs in if c == 0 then [] else c ∷ rest

-- The loop over the bytes behind the head, from `start` on, into a buffer of 100 characters. With no
-- byte the buffer is used as it was found on the stack; after 101 the size that is left wraps round.
unfoldable pub text_pair : List ℕ → List ℕ → ℕ → ℕ → Msgs → Outcome (Bool × Msgs)
text_pair name moddata start moddatalen ms =
    let count = moddatalen - 4 in
    if (count == 0) || ltb 101 count
    then undefined
    else done
        (true, add_value_pair ms name (until_zero (snprintf 100 (bytes_at count moddata start))))

abbrev week_days : List (List ℕ)
week_days =
    codes "Sun"
    ∷ codes "Mon"
    ∷ codes "Tue"
    ∷ codes "Wed"
    ∷ codes "Thu"
    ∷ codes "Fri"
    ∷ codes "Sat"
    ∷ []

-- The day of the week comes as two digits and selects a name without a test.
unfoldable pub date_reply : List ℕ → ℕ → Msgs → Outcome (Bool × Msgs)
unfolding text_pair
date_reply moddata moddatalen ms =
    let dow = (at moddata 4 * 10 + at moddata 5 + 240) % 2 ^ 8 in
    if ltb dow 7
    then text_pair (codes "date") moddata 7 moddatalen
        (add_value_pair ms (codes "day") (get_or week_days dow []))
    else undefined

-- The values of the four tariffs, and the sum that stands before them.
unfoldable pub values_reply : Bool → List ℕ → Msgs → Msgs
values_reply be moddata ms =
    let value =
      λ (i : ℕ). fraction (to_signed 31 (uint32_to_le be (word32 be moddata (4 * i + 4)))) 2 in
    add_value_pair
      (add_value_pair
        (add_value_pair
          (add_value_pair (add_value_pair ms (codes "T01") (value 1)) (codes "T02") (value 2))
          (codes "T03") (value 3))
        (codes "T04") (value 4))
      (codes "Total") (value 0)

-- `%c`, where a zero ends the text.
abbrev char_text : ℕ → List ℕ
char_text c = until_zero (c % 2 ^ 8 ∷ [])

-- The values that are characters of the frame.
abbrev text_names : List (ℕ × List ℕ)
text_names =
    (0x02, codes "time")
    ∷ (0x04, codes "serial")
    ∷ (0x05, codes "id device")
    ∷ (0x0C, codes "voltage")
    ∷ (0x0D, codes "current")
    ∷ (0x0E, codes "power")
    ∷ []

abbrev pub name_of : List (ℕ × List ℕ) → ℕ → Option (List ℕ)
name_of [] n = none
name_of ((k, name) ∷ rest) n =
    let found : Option (List ℕ) = name_of rest n in if n == k then some name else found

-- The chain of tests on the command; an unknown one adds nothing.
unfoldable pub iec61107_data : Bool → ℕ → List ℕ → ℕ → Msgs → Outcome (Bool × Msgs)
unfolding text_pair date_reply schedule_reply holidays_reply values_reply status_reply
iec61107_data be cmd moddata moddatalen ms =
    elim (name_of text_names cmd) as (λ _. Outcome (Bool × Msgs)) [
      | some name ↦ text_pair name moddata 4 moddatalen ms
      | none ↦
          if cmd == 0x03
          then date_reply moddata moddatalen ms
          else done (
            true,
            if cmd == 0x0F
                then schedule_reply moddata moddatalen ms
                else if cmd == 0x10
                then holidays_reply moddata moddatalen ms
                else if leb 0x07 cmd && leb cmd 0x0B
                then values_reply be moddata ms
                else if cmd == 0x11
                then add_value_pair ms (codes "default tariff") (char_text (at moddata 4 + 1))
                else if cmd == 0x06
                then status_reply moddata ms
                else ms,
          )
    ]

abbrev coded_message : List (ℕ × List ℕ) → ℕ → Msgs → Msgs
coded_message names n ms = elim (name_of names n) as (λ _. Msgs) [
  | some name ↦ add_value_pair ms (codes "msg") name
  | none ↦ ms
]

abbrev gate_codes : List (ℕ × List ℕ)
gate_codes =
    (0, codes "ok")
    ∷ (1, codes "error")
    ∷ (0xFF, codes "invalid command")
    ∷ (4, codes "invalid format")
    ∷ []

abbrev answer_codes : List (ℕ × List ℕ)
answer_codes =
    (0, codes "ok") ∷ (1, codes "error") ∷ (2, codes "no response") ∷ (3, codes "please wait") ∷ []

abbrev protocol_errors : List (ℕ × List ℕ)
protocol_errors =
    (10, codes "invalid number of parameters")
    ∷ (11, codes "not supported")
    ∷ (12, codes "unknown parameter")
    ∷ (13, codes "invalid format")
    ∷ (14, codes "not initialized")
    ∷ (15, codes "access denied")
    ∷ (16, codes "no programming rights")
    ∷ (17, codes "invalid parameter value")
    ∷ (18, codes "nonexistent parameter value")
    ∷ []

abbrev database_names : List (ℕ × List ℕ)
database_names = (0xFD, codes "added") ∷ (0xFC, codes "removed") ∷ (0xFB, codes "found") ∷ []

-- The device list of the gate answers with an address.
unfoldable pub database_reply : ℕ → List ℕ → ℕ → Msgs → Outcome (Bool × Msgs)
unfolding text_pair dec
database_reply cmd moddata moddatalen ms =
    let named : Msgs = elim (name_of database_names cmd) as (λ _. Msgs) [
      | some name ↦ add_value_pair ms (codes "cmd") name
      | none ↦ ms
    ] in
    text_pair (codes "address") moddata 4 moddatalen
      (add_value_pair named (codes "device") (dec (at moddata 3)))

-- A frame of four bytes: a short answer, or the number of an error before the value.
unfoldable pub short_reply : Bool → ℕ → List ℕ → Msgs → Outcome (Bool × Msgs)
unfolding iec61107_data dec
short_reply be cmd moddata ms =
    if ltb cmd 4
    then done (true, coded_message answer_codes cmd ms)
    else iec61107_data be cmd moddata 4
        (coded_message protocol_errors cmd (add_value_pair ms (codes "err") (dec cmd)))

-- The code and the command are both the third byte.
unfoldable pub umdk_iec61107_reply : Bool → List ℕ → ℕ → Msgs → Outcome (Bool × Msgs)
unfolding database_reply short_reply iec61107_data dec
umdk_iec61107_reply be moddata moddatalen ms =
    let cmd = at moddata 2 in
    let from : Msgs = add_value_pair ms (codes "device") (dec (at moddata 3)) in
    if moddatalen == 1
    then done (true, coded_message gate_codes (at moddata 0) ms)
    else if leb 0xF0 cmd
    then database_reply cmd moddata moddatalen ms
    else if moddatalen == 2
    then done (true, coded_message answer_codes cmd from)
    else if moddatalen == 4
    then short_reply be cmd moddata from
    else iec61107_data be cmd moddata moddatalen from
