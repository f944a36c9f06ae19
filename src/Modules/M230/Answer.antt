-- ===== src/Modules/M230/Answer.antt =====
-- modules/umdk-m230.c: the reply handler.
use lora_mqtt.Prelude.{
  ℕ, zero, suc, ◌+◌, ◌*◌, ◌/◌, ◌%◌, ◌^◌, Bool, true, ◌&&◌, List, [], ◌∷◌, ◌++◌, ltb, ◌==◌,
  if◌then◌else◌, length, pos,
}
use lora_mqtt.Text.Literal.{codes}
use lora_mqtt.Text.Format.{dec}
use lora_mqtt.Message.{Msgs, add_value_pair}
use lora_mqtt.Modules.{Outcome, done, undefined}
use lora_mqtt.Modules.Payload.{bytes_at, set_bits, at, to_signed, fraction}
use lora_mqtt.Modules.Meters.{two, two_digits}
use lora_mqtt.Modules.M200.Answer.{bcd}
use lora_mqtt.Modules.M230.Time.{timedate, serial}

-- The two words of a number change places, and so do the bytes of each.
abbrev mixed : List ℕ → ℕ → ℕ
mixed moddata i =
    at moddata (i + 1) * 2 ^ 24
    + at moddata i * 2 ^ 16
    + at moddata (i + 3) * 2 ^ 8
    + at moddata (i + 2)

abbrev energy_value : ℕ → List ℕ
energy_value v = fraction (to_signed 31 v) 3

-- The energy of a direction that the meter may not count.
abbrev or_none : ℕ → List ℕ
or_none v = if v == 0xFFFFFFFF then codes "N/A" else energy_value v

unfoldable pub energies : List ℕ → Msgs → Msgs
energies moddata ms =
    add_value_pair
      (add_value_pair
        (add_value_pair (add_value_pair ms (codes "A+") (energy_value (mixed moddata 3)))
          (codes "A-") (or_none (mixed moddata 7)))
        (codes "R+") (energy_value (mixed moddata 11)))
      (codes "R-") (or_none (mixed moddata 15))

-- Three bytes.
unfoldable pub power_limit : List ℕ → Msgs → Msgs
power_limit moddata ms =
    add_value_pair ms (codes "Power limit")
      (fraction (pos (at moddata 3 * 2 ^ 16 + at moddata 5 * 2 ^ 8 + at moddata 4)) 2)

-- Bit `i` of a byte.
abbrev flag : ℕ → ℕ → Bool
flag b i = b / 2 ^ i % 2 == 1

abbrev allowed : Bool → List ℕ
allowed b = if b then codes "Allowed" else codes "Not allowed"

unfoldable pub load_modes : List ℕ → Msgs → Msgs
load_modes moddata ms =
    add_value_pair
      (add_value_pair
        (add_value_pair
          (add_value_pair ms (codes "Energy limit control") (allowed (flag (at moddata 3) 2)))
          (codes "Power limit control") (allowed (flag (at moddata 3) 1)))
        (codes "Pulse output mode")
        (if flag (at moddata 3) 0 then codes "Load" else codes "Telemetry"))
      (codes "Load control") (if flag (at moddata 4) 1 then codes "Off" else codes "On")

unfoldable pub tariff_mode : List ℕ → Msgs → Msgs
unfolding two_digits
tariff_mode moddata ms =
    add_value_pair
      (add_value_pair ms (codes "Mode")
        (if flag (at moddata 4) 0 then codes "One-tariff" else codes "Multi-tariff"))
      (codes "Current tariff") (b'T' ∷ two (at moddata 4 / 2 % 8 + 1))

abbrev error_pairs : List ℕ → Msgs → Msgs
error_pairs [] ms = ms
error_pairs (n ∷ ns) ms = error_pairs ns (add_value_pair ms (codes "Error") (codes "E-" ++ two n))

unfoldable pub error_status : List ℕ → Msgs → Msgs
unfolding set_bits two_digits
error_status moddata ms = elim (set_bits (bytes_at 6 moddata 3) 1) as (λ _. Msgs) [
  | [] ↦ add_value_pair ms (codes "Error") (codes "No")
  | n ∷ ns ↦ error_pairs (n ∷ ns) ms
]

unfoldable pub software : List ℕ → Msgs → Msgs
unfolding bcd two_digits
software moddata ms =
    let part = λ (i : ℕ). two (bcd 0 (at moddata i ∷ [])) in
    add_value_pair ms (codes "Software version") (part 3 ++ (b'.' ∷ (part 4 ++ (b'.' ∷ part 5))))

-- The checkpoints that are set: 0x0038 stands for none.
unfoldable pub points : List ℕ → ℕ → ℕ → Msgs → Msgs
unfolding two_digits
points moddata zero i ms = ms
points moddata (suc left) i ms =
    let min = at moddata (2 * i + 3) in
    let low = at moddata (2 * i + 4) in
    points moddata left (i + 1) (
      if (min == 0) && (low == 0x38)
      then ms
      else add_value_pair ms (b'T' ∷ two (low / 2 ^ 5 % 8)) (two (low % 2 ^ 5) ++ (b':' ∷ two min)))

abbrev day_list : List ℕ → List ℕ
day_list [] = codes "]"
day_list (n ∷ ns) = two n ++ (codes ", " ++ day_list ns)

-- A buffer of 100 characters holds 24 days; the size that is left wraps round behind it.
unfoldable pub holiday_reply : List ℕ → Msgs → Outcome (Bool × Msgs)
unfolding set_bits two_digits
holiday_reply moddata ms =
    elim (set_bits (bytes_at 4 moddata 3) 1) as (λ _. Outcome (Bool × Msgs)) [
      | [] ↦ done (true, add_value_pair ms (codes "Holidays") (codes "None"))
      | n ∷ ns ↦
          if ltb 24 (length (n ∷ ns))
          then undefined
          else done (true, add_value_pair ms (codes "Holidays") (codes "[ " ++ day_list (n ∷ ns)))
    ]

-- The switch over the commands; an unknown one adds nothing.
unfoldable pub m230_data : ℕ → List ℕ → ℕ → Msgs → Outcome (Bool × Msgs)
unfolding energies power_limit timedate serial load_modes tariff_mode error_status software points
    holiday_reply
m230_data cmd moddata moddatalen ms =
    if cmd == 0x04
    then timedate moddata moddatalen ms
    else if cmd == 0x1C
    then holiday_reply moddata ms
    else done (
      true,
      if cmd == 0x03
          then energies moddata ms
          else if cmd == 0x18
          then power_limit moddata ms
          else if cmd == 0x19
          then add_value_pair ms (codes "Energy limit") (energy_value (mixed moddata 3))
          else if cmd == 0x05
          then serial moddata ms
          else if cmd == 0x08
          then load_modes moddata ms
          else if cmd == 0x0F
          then tariff_mode moddata ms
          else if cmd == 0x10
          then error_status moddata ms
          else if cmd == 0x13
          then software moddata ms
          else if cmd == 0x1A
          then points moddata 8 0 ms
          else ms,
    )

abbrev named_status : List (ℕ × List ℕ) → ℕ → Msgs → Msgs
named_status [] status ms = ms
named_status ((n, name) ∷ rest) status ms =
    let otherwise : Msgs = named_status rest status ms in
    if status == n then add_value_pair ms (codes "msg") name else otherwise

-- A frame of one byte is an answer of the gate, one of three bytes a short answer of a meter.
abbrev gate_status : List (ℕ × List ℕ)
gate_status = (0x00, codes "ok") ∷ (0xF0, codes "error") ∷ (0xFF, codes "invalid command") ∷ []

abbrev meter_status : List (ℕ × List ℕ)
meter_status =
    (0x00, codes "ok")
    ∷ (0xF0, codes "error")
    ∷ (0xF2, codes "no response")
    ∷ (0xF3, codes "device not found")
    ∷ (0xF4, codes "offline")
    ∷ (0x01, codes "invalid parameter")
    ∷ (0x02, codes "internal error")
    ∷ (0x03, codes "access error")
    ∷ (0x04, codes "time already corrected")
    ∷ (0x05, codes "offline")
    ∷ (0xF5, codes "please wait")
    ∷ []

unfoldable pub umdk_m230_reply : List ℕ → ℕ → Msgs → Outcome (Bool × Msgs)
unfolding m230_data dec
umdk_m230_reply moddata moddatalen ms =
    let from : Msgs = add_value_pair ms (codes "Address") (dec (at moddata 2)) in
    if moddatalen == 1
    then done (true, named_status gate_status (at moddata 0) ms)
    else if moddatalen == 3
    then done (true, named_status meter_status (at moddata 1) from)
    else m230_data (at moddata 0) moddata moddatalen from
