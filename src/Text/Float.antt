-- ===== src/Text/Float.antt =====
-- strtof: where the number at the start of a text ends, in the C locale.
use lora_mqtt.Prelude.{
  ℕ, ◌-◌, Bool, true, false, ◌&&◌, ◌||◌, List, [], ◌∷◌, Option, none, some, leb, ◌==◌,
  if◌then◌else◌,
}
use lora_mqtt.Text.Literal.{codes}
use lora_mqtt.Text.Scan.{skip_space, is_digit}

abbrev is_hex_digit : ℕ → Bool
is_hex_digit c = is_digit c || ((leb b'a' c && leb c b'f') || (leb b'A' c && leb c b'F'))

abbrev is_word : ℕ → Bool
is_word c = is_digit c || ((leb b'a' c && leb c b'z') || ((leb b'A' c && leb c b'Z') || c == b'_'))

-- Whether a letter is `low`, which is in lower case, or its capital.
abbrev is_letter : ℕ → ℕ → Bool
is_letter low c = (c == low) || (c == low - 32)

-- The rest behind a word in any case.
after_word : List ℕ → List ℕ → Option (List ℕ)
after_word [] s = some s
after_word (w ∷ ws) [] = none
after_word (w ∷ ws) (c ∷ s) = if is_letter w c then after_word ws s else none

-- Skips a run of digits; says whether there was one.
skip_run : (ℕ → Bool) → Bool → List ℕ → Bool × List ℕ
skip_run p seen [] = (seen, [])
skip_run p seen (c ∷ s) = if p c then skip_run p true s else (seen, c ∷ s)

skip_sign : List ℕ → List ℕ
skip_sign [] = []
skip_sign (c ∷ s) = if (c == b'+') || (c == b'-') then s else c ∷ s

abbrev if_seen : Bool × List ℕ → Option (List ℕ)
if_seen (seen, r) = if seen then some r else none

-- Digits with at most one point, and at least one digit.
fraction : (ℕ → Bool) → Bool × List ℕ → Option (List ℕ)
unfolding skip_run
fraction p (seen, []) = if_seen (seen, [])
fraction p (seen, c ∷ s) = if c == b'.' then if_seen (skip_run p seen s) else if_seen (seen, c ∷ s)

-- The exponent is read only if it has a digit.
exponent : ℕ → List ℕ → List ℕ
unfolding skip_run skip_sign
exponent mark [] = []
exponent mark (c ∷ s) =
    if is_letter mark c
    then elim (if_seen (skip_run is_digit false (skip_sign s))) [ none ↦ c ∷ s | some r ↦ r ]
    else c ∷ s

decimal : List ℕ → Option (List ℕ)
unfolding fraction exponent is_digit
decimal s = elim (fraction is_digit (skip_run is_digit false s)) [
  | none ↦ none
  | some r ↦ some (exponent b'e' r)
]

-- Behind `0x`; without a hexadecimal digit there, the number is the `0` alone.
hexadecimal : List ℕ → Option (List ℕ)
unfolding decimal
hexadecimal s = elim (fraction is_hex_digit (skip_run is_hex_digit false s)) [
  | none ↦ none
  | some r ↦ some (exponent b'p' r)
]

-- Behind `nan`: an optional word in brackets.
nan_tail : List ℕ → List ℕ
unfolding skip_run
nan_tail [] = []
nan_tail (c ∷ s) =
    if c == b'('
    then elim (skip_run is_word true s).1 [ [] ↦ c ∷ s | d ∷ r ↦ if d == b')' then r else c ∷ s ]
    else c ∷ s

abbrev or_else : Option (List ℕ) → Option (List ℕ) → Option (List ℕ)
or_else none b = b
or_else (some r) b = some r

abbrev then_nan_tail : Option (List ℕ) → Option (List ℕ)
then_nan_tail none = none
then_nan_tail (some r) = some (nan_tail r)

abbrev then_hexadecimal : Option (List ℕ) → Option (List ℕ)
then_hexadecimal none = none
then_hexadecimal (some r) = hexadecimal r

unsigned : List ℕ → Option (List ℕ)
unfolding hexadecimal nan_tail after_word
unsigned s = or_else (after_word (codes "infinity") s) (
    or_else (after_word (codes "inf") s) (
      or_else (then_nan_tail (after_word (codes "nan") s))
        (or_else (then_hexadecimal (after_word (codes "0x") s)) (decimal s))))

-- What stands behind the number at the start of `s`; `none` where there is no number, and the end
-- is the start.
unfoldable pub strtof_end : List ℕ → Option (List ℕ)
unfolding unsigned skip_sign skip_space
strtof_end s = unsigned (skip_sign (skip_space s))
