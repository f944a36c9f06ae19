-- ===== src/Modules/Gps.antt =====
-- modules/umdk-gps.c: positions. `%f` of a quotient of an integer of 32 bits by a power of ten up to
-- 10 ^ 6 is the decimal number itself: a double is nearer to it than half of the last digit.
use lora_mqtt.Prelude.{
  ℕ, suc, ◌-◌, ◌/◌, ◌%◌, ◌^◌, Bool, true, List, [], ◌∷◌, ◌++◌, ◌==◌, ltb, if◌then◌else◌, ℤ, pos,
  negsuc, replicate,
}
use lora_mqtt.Text.Literal.{codes, starts_with}
use lora_mqtt.Text.Format.{dec, pad}
use lora_mqtt.Message.{Msgs, add_value_pair}
use lora_mqtt.Modules.Payload.{at, sam_at, to_signed, snprintf}

-- The six digits behind the point, of which `places` are not zero for certain.
unfoldable pub decimal : ℕ → ℕ → List ℕ
unfolding dec
decimal places n =
    dec (n / 10 ^ places)
    ++ (b'.' ∷ (pad places (dec (n % 10 ^ places)) ++ replicate (6 - places) b'0'))

-- snprintf(buf, sizeof(buf), "%f", (double)v/1000000)
unfoldable pub degrees : ℤ → List ℕ
unfolding decimal
degrees (pos n) = decimal 6 n
degrees (negsuc n) = b'-' ∷ decimal 6 (suc n)

unfoldable pub umdk_gps_command : List ℕ → ℕ → List ℕ
umdk_gps_command param bufsize =
    if starts_with (codes "get") param then snprintf bufsize (codes "00") else []

unfoldable pub gps_data : Bool → List ℕ → Msgs → Msgs
unfolding sam_at degrees decimal dec
gps_data be moddata ms =
    add_value_pair
      (add_value_pair
        (add_value_pair
          (add_value_pair
            (add_value_pair ms (codes "valid")
              (if ltb 0 (at moddata 1) then codes "true" else codes "false"))
            (codes "lat") (degrees (to_signed 31 (sam_at be moddata 2 4))))
          (codes "lon") (degrees (to_signed 31 (sam_at be moddata 6 4))))
        (codes "vel") (dec (sam_at be moddata 10 2)))
      (codes "dir") (decimal 2 (sam_at be moddata 12 2))

unfoldable pub umdk_gps_reply : Bool → List ℕ → ℕ → Msgs → Bool × Msgs
unfolding gps_data
umdk_gps_reply be moddata moddatalen ms = (
  true,
  if at moddata 0 == 0
      then gps_data be moddata ms
      else if at moddata 0 == 1
      then add_value_pair ms (codes "msg") (codes "ok")
      else if at moddata 0 == 0xFF
      then add_value_pair ms (codes "msg") (codes "error")
      else ms,
)
