-- ===== src/Modules/Access/Cards.antt =====
-- modules/umdk-wiegand.c: the number of the card.
use lora_mqtt.Prelude.{ℕ, ◌+◌, ◌*◌, ◌%◌, ◌^◌, ◌≡◌, refl, List, [], ◌∷◌, All, arith}
use lora_mqtt.Numbers.Swap.{IsByte}
use lora_mqtt.Bits.{or_disjoint}
use lora_mqtt.Message.{Msgs}
use lora_mqtt.Modules.Access.{wiegand_id, wiegand_card, wiegand_event, umdk_wiegand_reply}

wiegand_card-bytes :
    (cmd a b c d e : ℕ) (rest : List ℕ)
    → All IsByte (a ∷ b ∷ c ∷ d ∷ e ∷ [])
    → wiegand_card (cmd ∷ a ∷ b ∷ c ∷ d ∷ e ∷ rest) ≡ ((b * 256 + c) * 256 + d) * 256 + e
unfolding wiegand_card wiegand_id
wiegand_card-bytes cmd a b c d e rest (p, (q, (r, (s, (t, ok))))) =
    let x = or_disjoint 16 a (a * 2 ^ 16) (b * 2 ^ 8) refl (omega arith) in
    let y = or_disjoint 8 (a * 2 ^ 8 + b) (a * 2 ^ 16 + b * 2 ^ 8) c (omega arith) r in
    let z = or_disjoint 8 d (d * 2 ^ 8) e refl t in
    let f = a * 2 ^ 16 + b * 2 ^ 8 + c in
    let w =
      or_disjoint 16 (b * 2 ^ 8 + c) (f * 2 ^ 16 % 2 ^ 32) (d * 2 ^ 8 + e) (omega arith)
        (omega arith) in
    rw (x, y, z, w) (omega arith)

-- The first of the five bytes behind the code, the highest of the card number, is lost: the number
-- is made of the other four, and a reply with another first byte is published the same.
pub umdk_wiegand_reply_lem :
    (cmd a b c d e : ℕ) (rest : List ℕ) (len : ℕ) (ms : Msgs)
    → All IsByte (a ∷ b ∷ c ∷ d ∷ e ∷ [])
    → (wiegand_card (cmd ∷ a ∷ b ∷ c ∷ d ∷ e ∷ rest) ≡ ((b * 256 + c) * 256 + d) * 256 + e)
      × (umdk_wiegand_reply (cmd ∷ a ∷ b ∷ c ∷ d ∷ e ∷ rest) len ms
          ≡ umdk_wiegand_reply (cmd ∷ 0 ∷ b ∷ c ∷ d ∷ e ∷ rest) len ms)
unfolding umdk_wiegand_reply wiegand_event
umdk_wiegand_reply_lem cmd a b c d e rest len ms h =
    let own = wiegand_card-bytes cmd a b c d e rest h in
    let other = wiegand_card-bytes cmd 0 b c d e rest (omega arith, h.1) in
    (own, rw (own, other) refl)
