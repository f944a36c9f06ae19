-- ===== src/Modules/Meteo.antt =====
-- modules/umdk-meteo.c and modules/umdk-light.c: sensors that send numbers in sign and magnitude.
use lora_mqtt.Prelude.{
  ℕ, ◌+◌, ◌*◌, ◌^◌, ◌≡◌, refl, Bool, true, false, List, [], ◌∷◌, ◌++◌, none, some, ◌==◌,
  if◌then◌else◌, pos, All, ap, ◌∙◌, take, drop, inl, inr, arith,
}
use lora_mqtt.Text.Literal.{codes, after_prefix, starts_with}
use lora_mqtt.Text.Format.{int, hex_byte}
use lora_mqtt.Text.Scan.{atoi, cast}
use lora_mqtt.Hex.{load}
use lora_mqtt.Numbers.{convert_from_be_sam}
use lora_mqtt.Numbers.Swap.{IsByte}
use lora_mqtt.Numbers.Sam.{of_sam, convert_from_be_sam_lem}
use lora_mqtt.Message.{Msgs, add_value_pair}
use lora_mqtt.Modules.Payload.{at, sam_at, to_signed, snprintf, fraction}

unfoldable pub umdk_meteo_command : List ℕ → ℕ → List ℕ
unfolding atoi
umdk_meteo_command param bufsize = elim (after_prefix (codes "set_period ") param) [
  | some p ↦ snprintf bufsize (codes "00" ++ hex_byte false (cast 256 (atoi p)))
  | none ↦ if starts_with (codes "get") param then snprintf bufsize (codes "01") else []
]

-- The pairs of a measurement.
unfoldable pub meteo_data : Bool → List ℕ → Msgs → Msgs
unfolding sam_at add_value_pair
meteo_data be moddata ms =
    let temp = to_signed 15 (sam_at be moddata 1 2) in
    let hum = to_signed 15 (sam_at be moddata 3 2) in
    let press = sam_at be moddata 5 2 in
    add_value_pair
      (add_value_pair (add_value_pair ms (codes "temperature") (fraction temp 1)) (codes "humidity")
        (fraction hum 1))
      (codes "pressure") (int (pos press))

unfoldable pub umdk_meteo_reply : Bool → List ℕ → ℕ → Msgs → Bool × Msgs
umdk_meteo_reply be moddata moddatalen ms = (
  true,
  if at moddata 0 == 0
      then meteo_data be moddata ms
      else if at moddata 0 == 1
      then add_value_pair ms (codes "msg") (codes "ok")
      else if at moddata 0 == 0xff
      then add_value_pair ms (codes "msg") (codes "error")
      else ms,
)

unfoldable pub umdk_light_command : List ℕ → ℕ → List ℕ
unfolding atoi
umdk_light_command param bufsize = elim (after_prefix (codes "set_period ") param) [
  | some p ↦ snprintf bufsize (codes "00" ++ hex_byte false (cast 256 (atoi p)))
  | none ↦
      if starts_with (codes "get") param
      then snprintf bufsize (codes "01")
      else elim (after_prefix (codes "set_i2c ") param) [
        | some p ↦ snprintf bufsize (codes "02" ++ hex_byte false (cast 256 (atoi p)))
        | none ↦ []
      ]
]

unfoldable pub umdk_light_reply : Bool → List ℕ → ℕ → Msgs → Bool × Msgs
unfolding sam_at add_value_pair
umdk_light_reply be moddata moddatalen ms = (
  true,
  if at moddata 0 == 0
      then add_value_pair ms (codes "luminocity") (int (pos (sam_at be moddata 1 2)))
      else if at moddata 0 == 1
      then add_value_pair ms (codes "msg") (codes "ok")
      else if at moddata 0 == 0xff
      then add_value_pair ms (codes "msg") (codes "error")
      else ms,
)

-- A field of two bytes, the high one first.
field :
    (be : Bool) (moddata : List ℕ) (i a b : ℕ)
    → take 2 (drop i moddata) ≡ a ∷ b ∷ []
    → IsByte a
    → IsByte b
    → sam_at be moddata i 2 ≡ of_sam (2 ^ 15) (a * 256 + b)
unfolding sam_at
field be moddata i a b e p q =
    ap (λ (bs : List ℕ). convert_from_be_sam be 2 (load be bs)) e
    ∙ convert_from_be_sam_lem be 2 (a ∷ b ∷ []) (inr (inl refl)) refl (p, (q, tt))
    ∙ ap (of_sam (2 ^ 15)) (let f : (0 * 256 + a) * 256 + b ≡ a * 256 + b = omega arith in f)

-- A measurement is published with the temperature and the humidity in tenths and the pressure, each
-- read as sign and magnitude with the high byte first, on hosts of both byte orders.
pub umdk_meteo_reply_lem :
    (be : Bool) (a b c d e f : ℕ) (rest : List ℕ) (len : ℕ) (ms : Msgs)
    → All IsByte (a ∷ b ∷ c ∷ d ∷ e ∷ f ∷ [])
    → umdk_meteo_reply be (0 ∷ a ∷ b ∷ c ∷ d ∷ e ∷ f ∷ rest) len ms ≡ (
      true,
      add_value_pair
          (add_value_pair
            (add_value_pair ms
              (codes "temperature")
              (fraction (to_signed 15 (of_sam (2 ^ 15) (a * 256 + b))) 1))
            (codes "humidity")
            (fraction (to_signed 15 (of_sam (2 ^ 15) (c * 256 + d))) 1))
          (codes "pressure")
          (int (pos (of_sam (2 ^ 15) (e * 256 + f)))),
    )
unfolding umdk_meteo_reply meteo_data
umdk_meteo_reply_lem be a b c d e f rest len ms (p, (q, (r, (s, (t, (u, ok)))))) =
    let whole = 0 ∷ a ∷ b ∷ c ∷ d ∷ e ∷ f ∷ rest in
    rw (field be whole 1 a b refl p q, field be whole 3 c d refl r s, field be whole 5 e f refl t u)
      refl
