-- ===== src/Modules/M230/Time.antt =====
-- modules/umdk-m230.c: the answers with a time and with the serial number.
use lora_mqtt.Prelude.{
  ℕ, ◌+◌, ◌-◌, Bool, true, ◌||◌, List, [], ◌∷◌, ◌++◌, ltb, leb, if◌then◌else◌, get_or,
}
use lora_mqtt.Text.Literal.{codes}
use lora_mqtt.Message.{Msgs, add_value_pair}
use lora_mqtt.Modules.{Outcome, done, undefined}
use lora_mqtt.Modules.Payload.{bytes_at, at, snprintf}
use lora_mqtt.Modules.Meters.{minus_one, two, two_digits}
use lora_mqtt.Modules.M200.Answer.{bcd}

abbrev day_names : List (List ℕ)
day_names =
    codes "Mon"
    ∷ codes "Tue"
    ∷ codes "Wed"
    ∷ codes "Thu"
    ∷ codes "Fri"
    ∷ codes "Sat"
    ∷ codes "Sun"
    ∷ codes "Hol"
    ∷ []

abbrev season_names : List (List ℕ)
season_names = codes "Summer" ∷ codes "Winter" ∷ []

-- time[i], in binary-coded decimal where the frame has it and zero elsewhere.
unfoldable pub time_field : List ℕ → ℕ → ℕ → ℕ
unfolding bcd
time_field moddata moddatalen i =
    if ltb i (moddatalen - 2) then bcd 0 (at moddata (i + 3) ∷ []) else 0

-- time[8] is filled from the whole frame, so a ninth byte is written past it, and the names are read
-- without a test.
unfoldable pub timedate : List ℕ → ℕ → Msgs → Outcome (Bool × Msgs)
unfolding time_field two_digits
timedate moddata moddatalen ms =
    let time = time_field moddata moddatalen in
    let day = minus_one (time 3) in
    if ltb 8 (moddatalen - 2) || (leb 8 day || leb 2 (time 7))
    then undefined
    else done (
      true,
      add_value_pair
          (add_value_pair
            (add_value_pair (add_value_pair ms (codes "Day") (get_or day_names day []))
              (codes "Time")
              (snprintf 10 (two (time 2) ++ (b':' ∷ (two (time 1) ++ (b':' ∷ two (time 0)))))))
            (codes "Date")
            (snprintf 10 (two (time 4) ++ (b'/' ∷ (two (time 5) ++ (b'/' ∷ two (time 6)))))))
          (codes "Season") (get_or season_names (time 7) []),
    )

unfoldable pub serial : List ℕ → Msgs → Msgs
unfolding two_digits
serial moddata ms =
    add_value_pair (add_value_pair ms (codes "Serial number") (two_digits (bytes_at 4 moddata 3)))
      (codes "Release date")
      (snprintf 10
        (two (at moddata 7) ++ (b'/' ∷ (two (at moddata 8) ++ (b'/' ∷ two (at moddata 9))))))
