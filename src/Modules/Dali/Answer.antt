-- ===== src/Modules/Dali/Answer.antt =====
-- modules/umdk-dali.c: the reply handler.
use lora_mqtt.Prelude.{
  ℕ, ◌-◌, ◌/◌, ◌^◌, Bool, true, ◌&&◌, ◌||◌, List, [], ◌∷◌, ◌++◌, ltb, leb, ◌==◌, if◌then◌else◌,
  get_or, bit_and,
}
use lora_mqtt.Text.Literal.{codes}
use lora_mqtt.Text.Format.{dec, hex_byte}
use lora_mqtt.Message.{Msgs, add_value_pair}
use lora_mqtt.Modules.{Outcome, done, undefined}
use lora_mqtt.Modules.Payload.{at}
use lora_mqtt.Modules.Dali.Level.{level_of, actual_level}

-- The pair for the address of an answer.
unfoldable pub dali_sender : ℕ → ℕ → Msgs → Msgs
unfolding dec
dali_sender cmd byte ms =
    let address = bit_and (byte / 2) 0x3F in
    if ltb cmd 0xF0
    then if byte / 2 / 2 ^ 6 == 1
      then if address == 0x3F
        then add_value_pair ms (codes "address") (codes "127")
        else add_value_pair ms (codes "group") (dec address)
      else add_value_pair ms (codes "address") (dec address)
    else ms

abbrev yes_no : Msgs → List ℕ → ℕ → Msgs
yes_no ms name data_byte =
    if data_byte == 0xFF
    then add_value_pair ms name (codes "yes")
    else if data_byte == 0x00
    then add_value_pair ms name (codes "no")
    else ms

abbrev flag : ℕ → ℕ → List ℕ → List ℕ → List ℕ → Msgs → Msgs
flag data_byte bit name set clear ms =
    add_value_pair ms name (if bit_and (data_byte / 2 ^ bit) 1 == 1 then set else clear)

-- The eight bits of the status.
unfoldable pub dali_status : ℕ → Msgs → Msgs
dali_status b ms = flag b 0 (codes "ballast") (codes "no") (codes "yes") (
    flag b 1 (codes "lamp failure") (codes "yes") (codes "no") (
      flag b 2 (codes "power") (codes "on") (codes "off") (
        flag b 3 (codes "limit error") (codes "yes") (codes "no") (
          flag b 4 (codes "fade") (codes "running") (codes "ready") (
            flag b 5 (codes "reset state") (codes "yes") (codes "no") (
              flag b 6 (codes "missing address") (codes "yes") (codes "no")
                (flag b 7 (codes "power failure") (codes "yes") (codes "no") ms)))))))

unfoldable pub dali_type : ℕ → List ℕ
unfolding dec
dali_type b =
    get_or
      (codes "fluorescent lamp"
        ∷ codes "emergency lighting"
        ∷ codes "HID lamp"
        ∷ codes "dimming bulb"
        ∷ codes "incandescent lamp"
        ∷ codes "digital signal"
        ∷ codes "LED"
        ∷ [])
      b (dec b)

-- ftime and frate under `%.1f`, with the texts for zero.
abbrev fade_times : List (List ℕ)
fade_times =
    codes "<0.7"
    ∷ codes "0.7"
    ∷ codes "1.0"
    ∷ codes "1.4"
    ∷ codes "2.0"
    ∷ codes "2.8"
    ∷ codes "4.0"
    ∷ codes "5.7"
    ∷ codes "8.0"
    ∷ codes "11.3"
    ∷ codes "16.0"
    ∷ codes "22.6"
    ∷ codes "32.0"
    ∷ codes "45.3"
    ∷ codes "64.0"
    ∷ codes "90.5"
    ∷ []

abbrev fade_rates : List (List ℕ)
fade_rates =
    codes "not applicable"
    ∷ codes "357.8"
    ∷ codes "253.0"
    ∷ codes "178.9"
    ∷ codes "126.5"
    ∷ codes "89.5"
    ∷ codes "63.2"
    ∷ codes "44.7"
    ∷ codes "31.6"
    ∷ codes "22.3"
    ∷ codes "15.8"
    ∷ codes "11.2"
    ∷ codes "7.9"
    ∷ codes "5.6"
    ∷ codes "4.0"
    ∷ codes "2.8"
    ∷ []

unfoldable pub dali_fade : ℕ → Msgs → Msgs
dali_fade b ms =
    add_value_pair
      (add_value_pair ms (codes "fadetime") (get_or fade_times (bit_and (b / 2 ^ 4) 0x0F) []))
      (codes "faderate") (get_or fade_rates (bit_and b 0x0F) [])

-- The answers with a number, a level or a type.
unfoldable pub dali_value : ℕ → ℕ → Msgs → Msgs
unfolding dec hex_byte level_of actual_level dali_type
dali_value cmd b ms =
    if cmd == 0xF2
    then add_value_pair ms (codes "init address") (dec b)
    else if cmd == 0x97
    then add_value_pair ms (codes "version") (hex_byte true b)
    else if cmd == 0x98
    then add_value_pair ms (codes "content") (dec b)
    else if cmd == 0x99
    then add_value_pair ms (codes "type") (dali_type b)
    else if cmd == 0x9A
    then add_value_pair ms (codes "physical min") (dec b)
    else if cmd == 0xA1
    then add_value_pair ms (codes "max level") (dec (level_of b))
    else if cmd == 0xA2
    then add_value_pair ms (codes "min level") (dec (level_of b))
    else if cmd == 0xA3
    then add_value_pair ms (codes "power on level") (dec (level_of b))
    else if cmd == 0xA4
    then add_value_pair ms (codes "system failure level") (dec (level_of b))
    else if cmd == 0xA0
    then add_value_pair ms (codes "actual level")
        (if b == 0xFF then codes "error" else dec (actual_level b))
    else ms

-- The level of a scene, its number from the command.
unfoldable pub dali_scene : ℕ → ℕ → Msgs → Msgs
unfolding dec level_of
dali_scene cmd b ms =
    add_value_pair ms (dec (cmd - 0xB0) ++ codes " scene level")
      (if b == 0xFF then codes "not set" else dec (level_of b))

-- The answers that are yes or no, and the rest.
unfoldable pub dali_answer : ℕ → ℕ → Msgs → Msgs
unfolding dali_value dali_status dali_fade dali_scene
dali_answer cmd b ms =
    if leb 0xB0 cmd && leb cmd 0xBF
    then dali_scene cmd b ms
    else if cmd == 0x91
    then yes_no ms (codes "ballast") b
    else if cmd == 0x92
    then yes_no ms (codes "lamp failure") b
    else if cmd == 0x93
    then yes_no ms (codes "lamp operating") b
    else if cmd == 0x94
    then yes_no ms (codes "limit error") b
    else if cmd == 0x95
    then yes_no ms (codes "reset state") b
    else if cmd == 0x96
    then yes_no ms (codes "missing address") b
    else if cmd == 0x9B
    then yes_no ms (codes "power failure") b
    else if cmd == 0x90
    then dali_status b ms
    else if cmd == 0xA5
    then dali_fade b ms
    else dali_value cmd b ms

-- The lists: the buffer they are appended to by strcat was never written.
unfoldable pub dali_list : ℕ → ℕ → Msgs → Outcome Msgs
dali_list cmd b ms =
    if cmd == 0xF1
    then if b == 0xFF
      then done (add_value_pair ms (codes "init addresses") (codes "not init"))
      else undefined
    else if b == 0
    then done (
        add_value_pair ms (if cmd == 0xC0 then codes "groups 0-7" else codes "groups 8-15")
          (codes "not belong"))
    else undefined

abbrev replied : Outcome Msgs → Outcome (Bool × Msgs)
replied undefined = undefined
replied (done ms) = done (true, ms)

-- The replies of one byte and of two bytes.
unfoldable pub dali_message : ℕ → ℕ → Msgs → Msgs
dali_message moddatalen b ms =
    if b == 1
    then add_value_pair ms (codes "msg") (codes "ok")
    else if b == 0
    then add_value_pair ms (codes "msg") (codes "error")
    else if moddatalen == 2
    then ms
    else if b == 0xFF
    then add_value_pair ms (codes "msg") (codes "invalid command")
    else if b == 2
    then add_value_pair ms (codes "msg") (codes "please wait")
    else ms

unfoldable pub umdk_dali_reply : List ℕ → ℕ → Msgs → Outcome (Bool × Msgs)
unfolding dali_sender dali_message dali_list dali_answer
umdk_dali_reply moddata moddatalen ms =
    let cmd = at moddata 0 in
    let from : Msgs = dali_sender cmd (at moddata 1) ms in
    if moddatalen == 1
    then done (true, dali_message 1 cmd ms)
    else if moddatalen == 2
    then done (true, dali_message 2 cmd from)
    else if (cmd == 0xF1) || ((cmd == 0xC0) || (cmd == 0xC1))
    then replied (dali_list cmd (at moddata 2) from)
    else done (true, dali_answer cmd (at moddata 2) from)
