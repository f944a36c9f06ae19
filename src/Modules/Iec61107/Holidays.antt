-- ===== src/Modules/Iec61107/Holidays.antt =====
-- modules/umdk-iec61107.c: holidays, as the command packs them and as the answer reads them.
use lora_mqtt.Prelude.{
  ℕ, zero, suc, ◌+◌, ◌-◌, ◌*◌, ◌/◌, ◌%◌, ◌^◌, ◌<◌, ◌≤◌, ◌≡◌, refl, ◌∙◌, ap, List, [], ◌∷◌, ◌++◌,
  All, length, arith, drop, get_or,
}
use lora_mqtt.Text.Literal.{codes}
use lora_mqtt.Text.Format.{dec}
use lora_mqtt.Message.{Msgs, add_value_pair}
use lora_mqtt.Modules.Payload.{at, snprintf}
use lora_mqtt.Modules.Meters.{two}
use lora_mqtt.Modules.Iec61107.{holiday_bytes}
use lora_mqtt.Modules.Iec61107.Lists.{
  holiday_of, holiday_pairs, holidays_reply, filler, pairs_behind,
}

-- A day of a month and the number of a schedule, as far as the two bytes have room for them.
abbrev pub IsHoliday : ℕ × (ℕ × ℕ) → Type 0
IsHoliday (day, (month, schedule)) = (day < 32) × ((month < 16) × (schedule < 64))

-- The bytes that the command makes of each.
abbrev pub packed_holidays : List (ℕ × (ℕ × ℕ)) → List ℕ
packed_holidays [] = []
packed_holidays ((day, (month, schedule)) ∷ hs) =
    holiday_bytes day month schedule ++ packed_holidays hs

-- A pair for each: the day and the month, and the schedule.
abbrev pub listed : List (ℕ × (ℕ × ℕ)) → Msgs → Msgs
listed [] ms = ms
listed ((day, (month, schedule)) ∷ hs) ms =
    listed hs (add_value_pair ms (two day ++ (b'.' ∷ two month)) (dec schedule))

get_or-drop :
    (m : List ℕ) (j : ℕ) (a : ℕ) (rest : List ℕ)
    → drop j m ≡ a ∷ rest
    → (get_or m j 0 ≡ a) × (drop (suc j) m ≡ rest)
get_or-drop [] zero a rest e = cc e
get_or-drop [] (suc j) a rest e = cc e
get_or-drop (x ∷ m) zero a rest e = (cc e, cc e)
get_or-drop (x ∷ m) (suc j) a rest e = get_or-drop m j a rest e

-- Five bits of the day stand in two bytes.
holiday_of-holiday_bytes :
    (day month schedule : ℕ)
    → day < 32
    → month < 16
    → schedule < 64
    → holiday_of ((month * 2 ^ 4 + day / 4) % 2 ^ 8) ((schedule + day % 4 * 2 ^ 6) % 2 ^ 8)
      ≡ (day, (month, schedule))
holiday_of-holiday_bytes day month schedule d m s =
    let a : (month * 2 ^ 4 + day / 4) % 2 ^ 8 % 2 ^ 3 * 2 ^ 2
          + (schedule + day % 4 * 2 ^ 6) % 2 ^ 8 / 2 ^ 6
        ≡ day =
      omega arith in
    let b : (month * 2 ^ 4 + day / 4) % 2 ^ 8 / 2 ^ 4 ≡ month = omega arith in
    let c : (schedule + day % 4 * 2 ^ 6) % 2 ^ 8 % 2 ^ 6 ≡ schedule = omega arith in
    rw (a, b, c) refl

holiday_pairs-packed_holidays :
    (m : List ℕ) (i : ℕ) (hs : List (ℕ × (ℕ × ℕ))) (ms : Msgs)
    → drop (5 + 2 * i) m ≡ packed_holidays hs
    → All IsHoliday hs
    → holiday_pairs m (length hs) i ms ≡ listed hs ms
holiday_pairs-packed_holidays m i [] ms e ok = refl
holiday_pairs-packed_holidays m i ((day, (month, schedule)) ∷ hs) ms e ((d, (n, s)), ok) =
    let high = (month * 2 ^ 4 + day / 4) % 2 ^ 8 in
    let low = (schedule + day % 4 * 2 ^ 6) % 2 ^ 8 in
    let first = get_or-drop m (5 + 2 * i) high (low ∷ packed_holidays hs) e in
    let behind : drop (6 + 2 * i) m ≡ low ∷ packed_holidays hs =
      ap (λ (j : ℕ). drop j m) {y = suc (5 + 2 * i)} (omega arith) ∙ first.1 in
    let second = get_or-drop m (6 + 2 * i) low (packed_holidays hs) behind in
    let next : drop (5 + 2 * (i + 1)) m ≡ packed_holidays hs =
      ap (λ (j : ℕ). drop j m) {y = suc (6 + 2 * i)} (omega arith) ∙ second.1 in
    let read : holiday_of (at m (5 + 2 * i)) (at m (6 + 2 * i)) ≡ (day, (month, schedule)) =
      ap (λ (x : ℕ). holiday_of x (at m (6 + 2 * i))) first.0
      ∙ ap (λ (y : ℕ). holiday_of high y) second.0
      ∙ holiday_of-holiday_bytes day month schedule d n s in
    ap
      (λ (h : ℕ × (ℕ × ℕ)).
        holiday_pairs m (length hs) (i + 1)
          (add_value_pair ms (two h.0 ++ (b'.' ∷ two h.1.0)) (dec h.1.1)))
      read
    ∙ holiday_pairs-packed_holidays m (i + 1) hs
        (add_value_pair ms (two day ++ (b'.' ∷ two month)) (dec schedule)) next ok

-- Up to sixteen holidays, each with a day below 32, a month below 16 and a schedule below 64, in the
-- bytes that the command packs them into and behind the head of an answer, are published as they were,
-- filled up to sixteen with empty ones.
pub holidays_reply-packed_holidays :
    (c mode cmd device list : ℕ) (hs : List (ℕ × (ℕ × ℕ))) (ms : Msgs)
    → All IsHoliday hs
    → length hs ≤ 16
    → holidays_reply (c ∷ mode ∷ cmd ∷ device ∷ list ∷ packed_holidays hs) (5 + 2 * length hs) ms
      ≡ filler (16 - length hs) (codes "00.00") (codes "0") (
          listed hs (
            add_value_pair ms
              (codes "holidays list")
              (snprintf 5 (dec (list / 2 ^ 4) ++ (b'/' ∷ dec (list % 2 ^ 4))))))
unfolding holidays_reply
holidays_reply-packed_holidays c mode cmd device list hs ms ok few =
    let count : pairs_behind 5 (5 + 2 * length hs) ≡ length hs = ground arith in
    rw
      (
        count,
        holiday_pairs-packed_holidays (c ∷ mode ∷ cmd ∷ device ∷ list ∷ packed_holidays hs) 0 hs
            (add_value_pair ms (codes "holidays list")
              (snprintf 5 (dec (list / 2 ^ 4) ++ (b'/' ∷ dec (list % 2 ^ 4)))))
            refl ok,
      )
      refl
