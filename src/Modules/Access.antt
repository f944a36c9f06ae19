-- ===== src/Modules/Access.antt =====
-- modules/umdk-pacs.c, umdk-wiegand.c, umdk-idcard.c and umdk-st95.c: cards and keys.
-- `Cards` is about the number of a card.
pub mod Cards
use lora_mqtt.Prelude.{
  ℕ, zero, suc, ◌+◌, ◌-◌, ◌*◌, ◌/◌, ◌%◌, ◌^◌, Bool, true, false, List, [], ◌∷◌, ◌++◌, Option, none,
  some, ltb, leb, ◌==◌, if◌then◌else◌, bit_or, length, take, drop,
}
use lora_mqtt.Text.Literal.{codes, after_prefix, starts_with}
use lora_mqtt.Text.Format.{dec, hex_byte, hex_pad, pad}
use lora_mqtt.Hex.{load}
use lora_mqtt.Message.{Msgs, add_value_pair}
use lora_mqtt.Modules.{Outcome, done, undefined}
use lora_mqtt.Modules.Payload.{at, snprintf}
use lora_mqtt.Modules.Cursor.{◌>>=◌, advance, number, field, hex_bytes, written}

unfoldable pub umdk_pacs_command : List ℕ → ℕ → Outcome (List ℕ)
unfolding number field hex_pad
umdk_pacs_command param bufsize =
    if starts_with (codes "reset") param
    then done (snprintf bufsize (hex_byte false 0))
    else elim (after_prefix (codes "add ") param) [
      | some p ↦ written do
        (id, rest) ← field 16 (2 ^ 64) (some p)
        (time, end) ← field 10 (2 ^ 16) rest
        some (snprintf bufsize (hex_byte false 1 ++ (hex_pad 16 id ++ hex_pad 4 time)))
      | none ↦ elim (after_prefix (codes "remove ") param) [
        | some p ↦ done (snprintf bufsize (hex_byte false 2 ++ hex_pad 16 (number 16 (2 ^ 64) p).0))
        | none ↦ done []
      ]
    ]

-- The key, in the byte order of the host.
unfoldable pub pacs_id : Bool → List ℕ → List ℕ
unfolding hex_pad
pacs_id be moddata = hex_pad 16 (load be (take 8 (drop 1 moddata)))

unfoldable pub umdk_pacs_reply : Bool → List ℕ → ℕ → Msgs → Bool × Msgs
unfolding pacs_id
umdk_pacs_reply be moddata moddatalen ms =
    let cmd = at moddata 0 in
    (
      true,
      if moddatalen == 1
          then add_value_pair ms (codes "msg") (if cmd == 1 then codes "OK" else codes "ERROR")
          else if cmd == 0x11
          then add_value_pair ms (codes "GRANTED") (pacs_id be moddata)
          else if cmd == 0x1F
          then add_value_pair ms (codes "DENIED") (pacs_id be moddata)
          else if cmd == 0x20
          then add_value_pair ms (codes "Removed by timer") (pacs_id be moddata)
          else ms,
    )

-- The command, the card in ten digits, a space and the time.
abbrev wiegand_text : ℕ → ℕ → ℕ → ℕ → List ℕ
wiegand_text cmd id time bufsize =
    snprintf bufsize (hex_byte false cmd ++ (hex_pad 10 id ++ (b' ' ∷ hex_pad 4 time)))

unfoldable pub umdk_wiegand_command : List ℕ → ℕ → Outcome (List ℕ)
unfolding number field hex_pad
umdk_wiegand_command param bufsize =
    if starts_with (codes "reset") param
    then done (snprintf bufsize (hex_byte false 0xFE))
    else elim (after_prefix (codes "add ") param) [
      | some p ↦ written do
        (id, rest) ← field 10 (2 ^ 64) (some p)
        (time, end) ← field 10 (2 ^ 16) rest
        some (wiegand_text 0xFD id time bufsize)
      | none ↦ elim (after_prefix (codes "remove ") param) [
        | some p ↦ done (wiegand_text 0xFC (number 10 (2 ^ 64) p).0 0 bufsize)
        | none ↦ done (snprintf bufsize (hex_byte false 0xFF))
      ]
    ]

-- id, facility34 and card; the shift of facility34 is one of 32 bits.
unfoldable pub wiegand_id : List ℕ → ℕ
wiegand_id moddata = bit_or (at moddata 4 * 2 ^ 8) (at moddata 5)

unfoldable pub wiegand_card : List ℕ → ℕ
unfolding wiegand_id
wiegand_card moddata =
    let facility34 =
      bit_or (bit_or (at moddata 1 * 2 ^ 16) (at moddata 2 * 2 ^ 8)) (at moddata 3) in
    bit_or (facility34 * 2 ^ 16 % 2 ^ 32) (wiegand_id moddata)

-- A reply of more than one byte.
unfoldable pub wiegand_event : List ℕ → Msgs → Msgs
unfolding dec wiegand_id wiegand_card
wiegand_event moddata ms =
    let cmd = at moddata 0 in
    let seen : Msgs =
      add_value_pair (add_value_pair ms (codes "card") (dec (wiegand_card moddata))) (codes "ID")
        (dec (at moddata 3) ++ (b',' ∷ pad 5 (dec (wiegand_id moddata)))) in
    if cmd == 0xFD
    then add_value_pair seen (codes "action") (codes "added")
    else if cmd == 0xFC
    then add_value_pair seen (codes "action") (codes "removed")
    else if cmd == 4
    then add_value_pair seen (codes "action") (codes "removed by timer")
    else if cmd == 5
    then add_value_pair seen (codes "action") (codes "granted")
    else if cmd == 6
    then add_value_pair seen (codes "action") (codes "denied")
    else seen

unfoldable pub umdk_wiegand_reply : List ℕ → ℕ → Msgs → Bool × Msgs
unfolding wiegand_event
umdk_wiegand_reply moddata moddatalen ms =
    let cmd = at moddata 0 in
    (
      true,
      if moddatalen == 1
          then if cmd == 0
            then add_value_pair ms (codes "msg") (codes "ok")
            else if cmd == 1
            then add_value_pair ms (codes "msg") (codes "error")
            else if cmd == 0xFF
            then add_value_pair ms (codes "msg") (codes "invalid command")
            else if cmd == 2
            then add_value_pair ms (codes "msg") (codes "not support format")
            else ms
          else wiegand_event moddata ms,
    )

abbrev pub umdk_idcard_command : List ℕ → ℕ → List ℕ
umdk_idcard_command param bufsize = []

abbrev pub umdk_idcard_reply : List ℕ → ℕ → Msgs → Bool × Msgs
umdk_idcard_reply moddata moddatalen ms = (true, ms)

abbrev pub umdk_st95_command : List ℕ → ℕ → List ℕ
umdk_st95_command param bufsize = []

-- The loop over the bytes, into buf[50]; `num_char` counts what snprintf would have written, and the
-- size that is left wraps once it is past the end.
unfoldable pub st95_uid : List ℕ → ℕ → List ℕ → Outcome (List ℕ)
unfolding hex_byte
st95_uid [] num_char buf = done buf
st95_uid (b ∷ bs) num_char buf =
    let rest = st95_uid bs ((num_char + 2) % 2 ^ 8) (
      if num_char == 50
      then buf
      else take num_char buf ++ snprintf (50 - num_char) (hex_byte false b)) in
    if ltb 50 num_char then undefined else rest

abbrev with_uid : Msgs → Outcome (List ℕ) → Outcome (Bool × Msgs)
with_uid ms undefined = undefined
with_uid ms (done uid) = done (true, add_value_pair ms (codes "uid") uid)

-- Without a byte the buffer is read as it was found on the stack.
unfoldable pub umdk_st95_reply : List ℕ → ℕ → Msgs → Outcome (Bool × Msgs)
unfolding st95_uid
umdk_st95_reply moddata moddatalen ms =
    if moddatalen == 1
    then done (
      true,
      add_value_pair ms (codes "msg")
          (if at moddata 0 == 1 then codes "invalid uid" else codes "error"),
    )
    else if moddatalen == 0
    then undefined
    else with_uid ms (st95_uid (take moddatalen moddata) 0 [])
