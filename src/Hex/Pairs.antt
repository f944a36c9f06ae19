-- ===== src/Hex/Pairs.antt =====
-- The pairs of a text, from its start: what both loops of `hex_to_bytesn` read.
use mathlib.Core.List.{reverse, reverse-append}
use lora_mqtt.Prelude.{
  ℕ, zero, suc, ◌-◌, ◌*◌, ◌/◌, ◌%◌, ◌<◌, ◌≡◌, refl, ap, ap₂, sym, ◌∙◌, List, [], ◌∷◌, ◌++◌, some,
  true, length, drop, All, arith,
}
use lora_mqtt.Text.Format.{hex_byte}
use lora_mqtt.Hex.{byte_at, backward, forward}
use lora_mqtt.Hex.Digits.{byte_at-hex_byte}

abbrev pub pairs : List ℕ → List ℕ
pairs [] = []
pairs (c ∷ []) = []
pairs (c ∷ d ∷ s) = byte_at (c ∷ d ∷ s) ∷ pairs s

pub forward_lem : (s : List ℕ) → length s % 2 ≡ 0 → forward s ≡ some (pairs s)
unfolding forward
forward_lem [] h = refl
forward_lem (c ∷ []) h = absurd (omega arith)
forward_lem (c ∷ d ∷ s) h = rw (forward_lem s (omega arith))

-- The first `n` pairs.
abbrev firsts : ℕ → List ℕ → List ℕ
firsts zero s = []
firsts (suc n) s = byte_at s ∷ firsts n (drop 2 s)

drop-nil : (k : ℕ) → drop {A = ℕ} k [] ≡ []
drop-nil zero = refl
drop-nil (suc k) = refl

drop_two : (k : ℕ) (s : List ℕ) → drop k (drop 2 s) ≡ drop (suc (suc k)) s
drop_two k [] = drop-nil k
drop_two k (c ∷ []) = drop-nil k
drop_two k (c ∷ d ∷ s) = refl

twice-suc : (n : ℕ) → suc (suc (2 * n)) ≡ 2 * suc n
twice-suc n = omega arith

firsts-suc : (n : ℕ) (s : List ℕ) → firsts (suc n) s ≡ firsts n s ++ byte_at (drop (2 * n) s) ∷ []
firsts-suc zero s = refl
firsts-suc (suc n) s =
    ap (λ t. byte_at s ∷ t)
      (firsts-suc n (drop 2 s)
        ∙ ap (λ t. firsts n (drop 2 s) ++ byte_at t ∷ [])
            (drop_two (2 * n) s ∙ ap (λ (t : ℕ). drop t s) (twice-suc n)))

firsts-pairs : (n : ℕ) (s : List ℕ) → length s ≡ 2 * n → firsts n s ≡ pairs s
firsts-pairs zero [] h = refl
firsts-pairs zero (c ∷ s) h = absurd (omega arith)
firsts-pairs (suc n) [] h = absurd (omega arith)
firsts-pairs (suc n) (c ∷ []) h = absurd (omega arith)
firsts-pairs (suc n) (c ∷ d ∷ s) h = rw (firsts-pairs n s (omega arith))

backward-firsts : (n at : ℕ) (s : List ℕ) → at ≡ 2 * n - 2 → backward s n at ≡ reverse (firsts n s)
unfolding backward
backward-firsts zero at s h = refl
backward-firsts (suc n) at s h =
    let e : at ≡ 2 * n = omega arith in
    ap₂ ◌∷◌ (ap (λ (t : ℕ). byte_at (drop t s)) e) (backward-firsts n (at - 2) s (omega arith))
    ∙ sym
        (ap reverse (firsts-suc n s) ∙ reverse-append (firsts n s) (byte_at (drop (2 * n) s) ∷ []))

pub backward_lem :
    (s : List ℕ) → length s % 2 ≡ 0 → backward s (length s / 2) (length s - 2) ≡ reverse (pairs s)
backward_lem s h =
    backward-firsts (length s / 2) (length s - 2) s (omega arith)
    ∙ ap reverse (firsts-pairs (length s / 2) s (omega arith))

-- The text of bytes in upper case.
abbrev pub hex_text : List ℕ → List ℕ
hex_text [] = []
hex_text (b ∷ bs) = hex_byte true b ++ hex_text bs

pub pairs-hex_text : (bs : List ℕ) → All (λ b. b < 256) bs → pairs (hex_text bs) ≡ bs
unfolding hex_byte
pairs-hex_text [] h = refl
pairs-hex_text (b ∷ bs) h = rw (pairs-hex_text bs h.1, byte_at-hex_byte true b (hex_text bs) h.0)

pub length-hex_text : (bs : List ℕ) → length (hex_text bs) ≡ 2 * length bs
unfolding hex_byte
length-hex_text [] = omega arith
length-hex_text (b ∷ bs) = omega (arith, length-hex_text bs)
