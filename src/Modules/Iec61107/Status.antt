-- ===== src/Modules/Iec61107/Status.antt =====
-- modules/umdk-iec61107.c: the answer with the state of a meter.
use lora_mqtt.Prelude.{ℕ, ◌%◌, ◌^◌, List, [], ◌∷◌, ◌++◌, ◌==◌, if◌then◌else◌, bit_and}
use lora_mqtt.Text.Literal.{codes}
use lora_mqtt.Text.Format.{dec}
use lora_mqtt.Message.{Msgs, add_value_pair}
use lora_mqtt.Modules.Payload.{set_bits, at}
use lora_mqtt.Modules.Meters.{two}

abbrev tariff_list : List ℕ → List ℕ
tariff_list [] = codes "]"
tariff_list (n ∷ ns) = dec n ++ (codes ", " ++ tariff_list ns)

-- A masked bit is compared with one and with zero, wherever it stands in the byte.
abbrev state : List ℕ → ℕ → List ℕ → List ℕ → Msgs → Msgs
state name bit one zero_name ms =
    if bit == 1
    then add_value_pair ms name one
    else if bit == 0
    then add_value_pair ms name zero_name
    else ms

unfoldable pub voltage_state : ℕ → Msgs → Msgs
voltage_state stat_volt ms =
    if stat_volt == 2
    then add_value_pair ms (codes "voltage status") (codes "undervoltage")
    else state (codes "voltage status") stat_volt (codes "overvoltage") (codes "normal") ms

-- The states before the voltage.
unfoldable pub first_states : List ℕ → Msgs → Msgs
first_states moddata ms =
    let m1 : Msgs =
      state (codes "schedule status") (bit_and (at moddata 4) 0x01) (codes "error") (codes "normal")
        ms in
    let m2 : Msgs =
      state (codes "season") (bit_and (at moddata 8) 0x04) (codes "summer") (codes "winter") m1 in
    let m3 : Msgs =
      state (codes "time status") (bit_and (at moddata 8) 0x01) (codes "failure") (codes "normal")
        m2 in
    let m4 : Msgs =
      state (codes "time correction") (bit_and (at moddata 9) 0x02) (codes "not allowed")
        (codes "allowed") m3 in
    let m5 : Msgs =
      state (codes "battery status") (bit_and (at moddata 11) 0x08) (codes "discharged")
        (codes "charged") m4 in
    state (codes "battery lifetime") (bit_and (at moddata 7) 0x08) (codes "expired")
      (codes "normal") m5

-- The states behind it.
unfoldable pub last_states : List ℕ → Msgs → Msgs
last_states moddata ms =
    let m1 : Msgs =
      state (codes "load") (bit_and (at moddata 9) 0x01) (codes "inductive") (codes "capacitive")
        ms in
    let m2 : Msgs =
      state (codes "direction") (bit_and (at moddata 10) 0x08) (codes "reverse") (codes "direct")
        m1 in
    let m3 : Msgs =
      state (codes "energy values") (bit_and (at moddata 7) 0x01) (codes "checksum error")
        (codes "normal") m2 in
    let m4 : Msgs =
      state (codes "tamper") (bit_and (at moddata 7) 0x02) (codes "failure") (codes "normal") m3 in
    let m5 : Msgs =
      state (codes "program memory") (bit_and (at moddata 6) 0x01) (codes "checksum error")
        (codes "normal") m4 in
    state (codes "metrology") (bit_and (at moddata 6) 0x02) (codes "checksum error")
      (codes "normal") m5

unfoldable pub status_reply : List ℕ → Msgs → Msgs
unfolding set_bits dec voltage_state first_states last_states
status_reply moddata ms = last_states moddata (
    voltage_state (bit_and (at moddata 9) 0x0C) (
      first_states moddata (
        add_value_pair
          (add_value_pair ms (codes "current tariff") (b'T' ∷ two (at moddata 11 % 2 ^ 3)))
          (codes "schedule tariffs")
          (codes "[ " ++ tariff_list (set_bits (at moddata 5 % 2 ^ 4 ∷ []) 1)))))
