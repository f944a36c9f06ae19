-- ===== src/Modules/Serial/Frames.antt =====
-- modules/umdk-uart.c and umdk-irblaster.c: frames in hexadecimal, sent and received.
use mathlib.Core.List.{reverse}
use lora_mqtt.Prelude.{
  ℕ, ◌+◌, ◌-◌, ◌/◌, ◌%◌, ◌<◌, ◌≡◌, refl, ap, ◌∙◌, List, [], ◌∷◌, ◌++◌, some, true, false,
  Bool-cases, inl, inr, ltb, leb, ◌==◌, if◌then◌else◌, length, length-reverse, take, take-append,
  All, arith,
}
use lora_mqtt.Text.Literal.{codes}
use lora_mqtt.Text.Format.{hex_byte, hex_pad}
use lora_mqtt.Hex.{parsed, hex_to_bytes}
use lora_mqtt.Hex.Digits.{byte_at-hex_byte}
use lora_mqtt.Hex.Pairs.{pairs}
use lora_mqtt.Hex.Laws.{hex_to_bytes_even, hex_to_bytes_odd}
use lora_mqtt.Message.{add_value_pair, no_msgs, pairs_fit}
use lora_mqtt.Modules.{Outcome, done, undefined, converted}
use lora_mqtt.Modules.Payload.{snprintf}
use lora_mqtt.Modules.Cursor.{hex_bytes, length-hex_bytes}
use lora_mqtt.Modules.Serial.{
  fits, umdk_uart_command, umdk_irblaster_command, uart_received, umdk_uart_reply,
}

length-pairs : (h : List ℕ) → length (pairs h) ≡ length h / 2
length-pairs [] = refl
length-pairs (c ∷ []) = refl
length-pairs (c ∷ d ∷ h) = let ih = length-pairs h in omega arith

-- What becomes of a text that is passed on behind hex_to_bytes into a buffer of `size` bytes.
abbrev pub passed : ℕ → List ℕ → List ℕ → Outcome (List ℕ)
passed size h text =
    if length h % 2 == 0 then if leb (length h / 2) size then done text else undefined else done []

fits-passed :
    (size : ℕ) (h text : List ℕ) → fits size (hex_to_bytes h true) text ≡ passed size h text
fits-passed size h text = elim (Bool-cases (length h % 2 == 0)) [
  | inl p ↦
      let even : length h % 2 ≡ 0 = ground arith in
      let bytes : length (reverse (pairs h)) ≡ length h / 2 =
        length-reverse (pairs h) ∙ length-pairs h in
      rw (hex_to_bytes_even h true even, p, bytes) refl
  | inr p ↦ let odd : length h % 2 ≡ 1 = ground arith in rw (hex_to_bytes_odd h true odd, p) refl
]

-- Whatever text stands behind `send `: with an odd length the handler writes no text; with an even
-- one it is passed on behind the code of the command, for the infrared blaster behind the number of bytes too,
-- unless it stands for more bytes than the buffer on the stack has, 200 and 50, and is written past
-- it.
pub umdk_uart_command-umdk_irblaster_command :
    (h : List ℕ) (bufsize : ℕ)
    → (umdk_uart_command (codes "send " ++ h) bufsize
        ≡ passed 200 h (snprintf bufsize (codes "00" ++ h)))
      × (umdk_irblaster_command (codes "send " ++ h) bufsize
          ≡ passed 50 h (snprintf bufsize (codes "00" ++ (hex_pad 2 (length h / 2) ++ h))))
unfolding umdk_uart_command umdk_irblaster_command hex_byte
umdk_uart_command-umdk_irblaster_command h bufsize = (fits-passed 200 h _, fits-passed 50 h _)

pairs-hex_bytes : (bs : List ℕ) → All (λ b. b < 256) bs → pairs (hex_bytes bs) ≡ bs
unfolding hex_byte
pairs-hex_bytes [] h = refl
pairs-hex_bytes (b ∷ bs) h =
    rw (pairs-hex_bytes bs h.1, byte_at-hex_byte false b (hex_bytes bs) h.0) refl

uart_pairs-fit :
    (text : List ℕ)
    → pairs_fit
        (add_value_pair (add_value_pair no_msgs (codes "type") (codes "1")) (codes "msg") text)
      ≡ ltb (length text) 100
unfolding add_value_pair
uart_pairs-fit text = elim (Bool-cases (ltb (length text) 100)) [
  | inl p ↦ rw p refl
  | inr p ↦ rw p refl
]

-- Up to 49 bytes that a device received are published as a text that hex_to_bytes turns into these
-- bytes again. The text of more bytes is written past the value of its pair.
pub umdk_uart_reply-hex_to_bytes :
    (topic bs rest : List ℕ)
    → All (λ b. b < 256) bs
    → (converted topic (umdk_uart_reply (1 ∷ (bs ++ rest)) (length bs + 1) no_msgs)
        ≡ some (
            if leb (length bs) 49
            then done (
              topic,
              add_value_pair
                  (add_value_pair no_msgs (codes "type") (codes "1"))
                  (codes "msg")
                  (hex_bytes bs),
            )
            else undefined))
      × (hex_to_bytes (hex_bytes bs) false ≡ parsed bs)
unfolding umdk_uart_reply uart_received
umdk_uart_reply-hex_to_bytes topic bs rest h =
    let own : take (length bs + 1 - 1) (bs ++ rest) ≡ bs =
      ap (λ (n : ℕ). take n (bs ++ rest)) (omega arith) ∙ take-append bs rest in
    let test : ltb (length (hex_bytes bs)) 255 ≡ leb (length bs) 127 =
      ground (arith, length-hex_bytes bs) in
    let fit : ltb (length (hex_bytes bs)) 100 ≡ leb (length bs) 49 =
      ground (arith, length-hex_bytes bs) in
    (
      rw (own, test)
          (elim (Bool-cases (leb (length bs) 127)) [
            | inl p ↦
                rw (p, uart_pairs-fit (hex_bytes bs), fit)
                  (elim (Bool-cases (leb (length bs) 49)) [ inl q ↦ rw q refl | inr q ↦ rw q refl ])
            | inr p ↦ let q : leb (length bs) 49 ≡ false = ground arith in rw (p, q) refl
          ]),
      hex_to_bytes_even (hex_bytes bs) false (omega (arith, length-hex_bytes bs))
          ∙ ap parsed (pairs-hex_bytes bs h),
    )
