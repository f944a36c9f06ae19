-- ===== src/Numbers/Decimal.antt =====
-- utils.c: int_to_float_str prints a number of 10 ^ -p units.
use lora_mqtt.Prelude.{
  ℕ, suc, ◌+◌, ◌*◌, ◌/◌, ◌%◌, ◌^◌, ◌<◌, ◌≡◌, refl, true, false, List, [], ◌∷◌, ◌++◌, some, ltb,
  if◌then◌else◌, length, append-nil, ap, sym, ◌∙◌, ℤ, abs, is_neg, arith,
}
use native.Mathlib.Nat.{one-le-pow, mod-lt, mod-le, mod-add-div', div-le_self}
use lora_mqtt.Text.Format.{dec, pad}
use lora_mqtt.Text.Scan.{scan_dec}
use lora_mqtt.Text.Digits.{scan_dec-dec, pad-dec}
use lora_mqtt.Numbers.{int_to_float_str}

-- For one to nine digits and a number below 2 ^ 31 in size the text is a sign where the number is
-- negative, then two numbers with a point between them: the second one has exactly `p + 1` digits, and
-- with the first one before it is the number without its sign.
pub int_to_float_str_lem :
    (v : ℤ) (p : ℕ)
    → p < 9
    → abs v < 2 ^ 31
    → (whole : List ℕ) × (part : List ℕ) × (n : ℕ) × (m : ℕ) × (int_to_float_str v (suc p)
        ≡ some ((if is_neg v then b'-' ∷ [] else []) ++ (whole ++ b'.' ∷ part)))
      × (scan_dec false 0 (whole ++ b'.' ∷ part) ≡ some (n, b'.' ∷ part))
      × (scan_dec false 0 part ≡ some (m, []))
      × (length part ≡ suc p)
      × (n * 10 ^ suc p + m ≡ abs v)
unfolding int_to_float_str scan_dec
int_to_float_str_lem v p h l =
    let d = 10 ^ suc p in
    let n = abs v / d in
    let m = abs v % d in
    let some_digits : ltb (suc p) 10 ≡ true = ground arith in
    let low : m < d = mod-lt (abs v) (one-le-pow (suc p) 10 (omega arith)) in
    let padded = pad-dec p m false [] low (omega (arith, mod-le (abs v) d)) in
    (
      dec n,
      pad (suc p) (dec m),
      n,
      m,
      rw some_digits refl,
      scan_dec-dec n false (b'.' ∷ pad (suc p) (dec m)) (omega (arith, div-le_self (abs v) d)),
      ap (λ (t : List ℕ). scan_dec false 0 t) (sym (append-nil (pad (suc p) (dec m)))) ∙ padded.0,
      padded.1,
      omega (arith, mod-add-div' (abs v) d),
    )
