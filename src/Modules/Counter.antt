-- ===== src/Modules/Counter.antt =====
-- modules/umdk-counter.c: four counters of 24 bits in twelve bytes.
use lora_mqtt.Prelude.{
  ℕ, ◌+◌, ◌*◌, ◌/◌, ◌%◌, ◌^◌, ◌<◌, ◌≡◌, refl, Bool, true, false, List, [], ◌∷◌, ◌++◌, none, some,
  ◌==◌, if◌then◌else◌, take, drop, bit_and, bit_or, arith,
}
use lora_mqtt.Text.Literal.{codes, after_prefix, starts_with}
use lora_mqtt.Text.Format.{dec, hex_byte}
use lora_mqtt.Text.Scan.{strtol, cast}
use lora_mqtt.Hex.{load, be_value}
use lora_mqtt.Bits.{and_byte, low_bits, or_below, or_between, or_disjoint}
use lora_mqtt.Message.{Msgs, add_value_pair}
use lora_mqtt.Modules.Payload.{at, snprintf}

-- The parameter and the output behind the command `period`; strtol moves the parameter on.
abbrev after_period : List ℕ → ℕ → List ℕ × List ℕ
after_period param bufsize = elim (after_prefix (codes "period ") param) [
  | none ↦ (param, [])
  | some p ↦
      let r = strtol p in
      (r.1, snprintf bufsize (hex_byte false 0 ++ hex_byte false (cast 256 r.0)))
]

unfoldable pub umdk_counter_command : List ℕ → ℕ → List ℕ
unfolding strtol
umdk_counter_command param bufsize =
    let r = after_period param bufsize in
    if starts_with (codes "get") r.0
    then snprintf bufsize (hex_byte false 1)
    else if starts_with (codes "reset") r.0
    then snprintf bufsize (hex_byte false 2)
    else r.1

-- The bytes of a number in the other order, where the host is big-endian.
unfoldable pub swapped : Bool → ℕ → ℕ
swapped false num = num
swapped true num =
    bit_or
      (bit_or (bit_or (bit_and (num / 2 ^ 24) 0xff) (bit_and (num * 2 ^ 8 % 2 ^ 32) 0xff0000))
        (bit_and (num / 2 ^ 8) 0xff00))
      (bit_and (num * 2 ^ 24 % 2 ^ 32) 0xff000000)

-- num[i]
unfoldable pub num_at : Bool → List ℕ → ℕ → ℕ
unfolding swapped
num_at be moddata i = swapped be (load be (take 4 (drop (4 * i) moddata)))

unfoldable pub unpacked : ℕ → ℕ → ℕ → List ℕ
unpacked num0 num1 num2 =
    num0 / 2 ^ 8
    ∷ bit_or (bit_and num0 0xFF * 2 ^ 16) (num1 / 2 ^ 16)
    ∷ bit_or (bit_and num1 0xFFFF * 2 ^ 8) (num2 / 2 ^ 24)
    ∷ bit_and num2 0xFFFFFF
    ∷ []

unfoldable pub counter_values : Bool → List ℕ → List ℕ
unfolding num_at unpacked
counter_values be moddata =
    unpacked (num_at be moddata 0) (num_at be moddata 1) (num_at be moddata 2)

-- The loop over the counters, the names `v0` to `v3`.
unfoldable pub add_values : ℕ → List ℕ → Msgs → Msgs
unfolding dec
add_values i [] ms = ms
add_values i (v ∷ vs) ms = add_values (i + 1) vs (add_value_pair ms (b'v' ∷ dec i) (dec v))

unfoldable pub umdk_counter_reply : Bool → List ℕ → ℕ → Msgs → Bool × Msgs
unfolding counter_values add_values
umdk_counter_reply be moddata moddatalen ms = (
  true,
  if moddatalen == 1
      then if at moddata 0 == 0
        then add_value_pair ms (codes "msg") (codes "ok")
        else if at moddata 0 == 1
        then add_value_pair ms (codes "msg") (codes "invalid command")
        else if at moddata 0 == 2
        then add_value_pair ms (codes "msg") (codes "invalid parameter")
        else ms
      else add_values 0 (counter_values be moddata) ms,
)

-- The three numbers that a device sends for four counters, in little-endian bytes.
abbrev pub le_bytes : ℕ → List ℕ
le_bytes n = n % 256 ∷ n / 2 ^ 8 % 256 ∷ n / 2 ^ 16 % 256 ∷ n / 2 ^ 24 % 256 ∷ []

abbrev pub packed : ℕ → ℕ → ℕ → ℕ → List ℕ
packed a b c d =
    le_bytes (a * 2 ^ 8 + b / 2 ^ 16)
    ++ (le_bytes (b % 2 ^ 16 * 2 ^ 16 + c / 2 ^ 8) ++ le_bytes (c % 2 ^ 8 * 2 ^ 24 + d))

swapped-le_bytes : (be : Bool) (n : ℕ) → n < 2 ^ 32 → swapped be (load be (le_bytes n)) ≡ n
unfolding swapped
swapped-le_bytes false n h = omega arith
swapped-le_bytes true n h =
    let m = be_value 0 (le_bytes n) in
    let b0 = n % 256 in
    let b1 = n / 2 ^ 8 % 256 in
    let b2 = n / 2 ^ 16 % 256 in
    let b3 = n / 2 ^ 24 % 256 in
    let w : bit_and (m / 2 ^ 24) 0xff ≡ b0 = omega (arith, and_byte 0 (m / 2 ^ 24)) in
    let x : bit_and (m * 2 ^ 8 % 2 ^ 32) 0xff0000 ≡ b2 * 2 ^ 16 =
      omega (arith, and_byte 16 (m * 2 ^ 8 % 2 ^ 32)) in
    let y : bit_and (m / 2 ^ 8) 0xff00 ≡ b1 * 2 ^ 8 = omega (arith, and_byte 8 (m / 2 ^ 8)) in
    let z : bit_and (m * 2 ^ 24 % 2 ^ 32) 0xff000000 ≡ b3 * 2 ^ 24 =
      omega (arith, and_byte 24 (m * 2 ^ 24 % 2 ^ 32)) in
    rw
      (
        w,
        x,
        y,
        z,
        or_below 16 b2 b0 (omega arith),
        or_between 8 16 b2 b1 b0 (omega arith) (omega arith) (omega arith),
        or_below 24 b3 (b2 * 2 ^ 16 + (b1 * 2 ^ 8 + b0)) (omega arith),
      )
      (omega arith)

unpacked_lem :
    (a b c d : ℕ)
    → a < 2 ^ 24
    → b < 2 ^ 24
    → c < 2 ^ 24
    → d < 2 ^ 24
    → unpacked (a * 2 ^ 8 + b / 2 ^ 16) (b % 2 ^ 16 * 2 ^ 16 + c / 2 ^ 8) (c % 2 ^ 8 * 2 ^ 24 + d)
      ≡ a ∷ b ∷ c ∷ d ∷ []
unfolding unpacked
unpacked_lem a b c d h i j k =
    let num0 = a * 2 ^ 8 + b / 2 ^ 16 in
    let num1 = b % 2 ^ 16 * 2 ^ 16 + c / 2 ^ 8 in
    let num2 = c % 2 ^ 8 * 2 ^ 24 + d in
    let v0 : num0 / 2 ^ 8 ≡ a = omega arith in
    let v1 : bit_or (bit_and num0 0xFF * 2 ^ 16) (num1 / 2 ^ 16) ≡ b = omega (
      arith,
      low_bits 8 num0,
      or_disjoint 16 (bit_and num0 0xFF) (bit_and num0 0xFF * 2 ^ 16) (num1 / 2 ^ 16) refl
          (omega arith),
    ) in
    let v2 : bit_or (bit_and num1 0xFFFF * 2 ^ 8) (num2 / 2 ^ 24) ≡ c = omega (
      arith,
      low_bits 16 num1,
      or_disjoint 8 (bit_and num1 0xFFFF) (bit_and num1 0xFFFF * 2 ^ 8) (num2 / 2 ^ 24) refl
          (omega arith),
    ) in
    let v3 : bit_and num2 0xFFFFFF ≡ d = omega (arith, low_bits 24 num2) in rw (v0, v1, v2, v3) refl

-- Four counters below 2 ^ 24 that a device packed into twelve bytes are unpacked again, on hosts of
-- both byte orders.
pub counter_values-packed :
    (be : Bool) (a b c d : ℕ)
    → a < 2 ^ 24
    → b < 2 ^ 24
    → c < 2 ^ 24
    → d < 2 ^ 24
    → counter_values be (packed a b c d) ≡ a ∷ b ∷ c ∷ d ∷ []
unfolding counter_values num_at
counter_values-packed be a b c d h i j k =
    rw
      (
        swapped-le_bytes be (a * 2 ^ 8 + b / 2 ^ 16) (omega arith),
        swapped-le_bytes be (b % 2 ^ 16 * 2 ^ 16 + c / 2 ^ 8) (omega arith),
        swapped-le_bytes be (c % 2 ^ 8 * 2 ^ 24 + d) (omega arith),
      )
      (unpacked_lem a b c d h i j k)
