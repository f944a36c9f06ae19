-- ===== src/Reply/Fields.antt =====
-- The fixed-width hexadecimal fields of a reply.
use mathlib.Core.List.{reverse}
use lora_mqtt.Prelude.{
  ℕ, zero, suc, ◌*◌, ◌/◌, ◌%◌, ◌<◌, ◌≡◌, refl, ap, sym, ◌∙◌, Bool, true, false, not, List, [], ◌∷◌,
  some, append-nil, ◌==◌, if◌then◌else◌, length, length-reverse, take, drop, All, arith,
}
use lora_mqtt.Text.Literal.{cstr}
use lora_mqtt.Text.Scan.{hex_value}
use lora_mqtt.Hex.{parsed, past_end, hex_to_bytes, load}
use lora_mqtt.Hex.Pairs.{pairs, forward_lem}
use lora_mqtt.Hex.Laws.{IsHex, hex_number, hex_to_bytes_even, load-hex_to_bytes}
use lora_mqtt.Gate.{Config, Env}
use lora_mqtt.Reply.{stored, read_field, read_number}

hex-ne-zero : (c d : ℕ) → hex_value c ≡ some d → (c == 0) ≡ false
unfolding hex_value
hex-ne-zero c d h = ground arith

cstr-hex : (s : List ℕ) → All IsHex s → cstr s ≡ s
unfolding cstr
cstr-hex [] h = refl
cstr-hex (c ∷ s) h = rw (hex-ne-zero c h.0.0 h.0.1, cstr-hex s h.1)

length-pairs : (s : List ℕ) → length (pairs s) ≡ length s / 2
length-pairs [] = omega arith
length-pairs (c ∷ []) = omega arith
length-pairs (c ∷ d ∷ s) = omega (arith, length-pairs s)

length-ordered :
    (rev : Bool) (s : List ℕ) → length (if rev then reverse (pairs s) else pairs s) ≡ length s / 2
length-ordered true s = length-reverse (pairs s) ∙ length-pairs s
length-ordered false s = length-pairs s

drop-take : (n m : ℕ) (xs : List ℕ) → n ≡ m → drop n (take m xs) ≡ []
drop-take zero zero xs h = refl
drop-take zero (suc m) xs h = absurd (omega arith)
drop-take (suc n) zero xs h = absurd (omega arith)
drop-take (suc n) (suc m) [] h = refl
drop-take (suc n) (suc m) (x ∷ xs) h = drop-take n m xs (omega arith)

-- An integer that is filled to its last byte keeps nothing of what it held before.
stored_full : (n : ℕ) (old bs : List ℕ) → length bs ≡ n → stored n old (parsed bs) ≡ parsed bs
stored_full n old bs h = ground (arith, drop-take (length bs) n old h, append-nil bs)

length_of :
    (rev : Bool) (s bs : List ℕ)
    → length s % 2 ≡ 0
    → hex_to_bytes s rev ≡ parsed bs
    → length bs ≡ length s / 2
length_of rev s bs e h =
    let same : (if rev then reverse (pairs s) else pairs s) ≡ bs = cc (hex_to_bytes_even s rev e) in
    ap length (sym same) ∙ length-ordered rev s

-- A text of hexadecimal digits that fills an integer, parsed in the byte order chosen for the host.
pub stored-hex_to_bytes :
    (be : Bool) (size : ℕ) (old s : List ℕ)
    → length s ≡ 2 * size
    → All IsHex s
    → (bs : List ℕ) × (stored size old (hex_to_bytes s (not be)) ≡ parsed bs)
      × (load be bs ≡ hex_number 0 s)
stored-hex_to_bytes be size old s n h =
    let even : length s % 2 ≡ 0 = omega arith in
    let r = load-hex_to_bytes be s even h in
    let full : length r.0 ≡ size = omega (arith, length_of (not be) s r.0 even r.1) in
    (r.0, ap (stored size old) r.1 ∙ stored_full size old r.0 full, r.2)

-- A field of hexadecimal digits that fills its integer is read as the number that it stands for, on
-- hosts of both byte orders and whatever the variable held.
pub read_field_lem :
    (c : Config) (env : Env) (width size : ℕ) (str : List ℕ)
    → length (take width str) ≡ 2 * size
    → All IsHex (take width str)
    → (bs : List ℕ) × (read_field c env width size str ≡ parsed bs)
      × (load c.big_endian bs ≡ hex_number 0 (take width str))
unfolding read_field
read_field_lem c env width size str n h =
    let r = stored-hex_to_bytes c.big_endian size env.stack (take width str) n h in
    (
      r.0,
      ap (λ t. stored size env.stack (hex_to_bytes t (not c.big_endian)))
            (cstr-hex (take width str) h)
          ∙ r.1,
      r.2,
    )

-- On a big-endian host the loop from the start ignores the length that `hex_to_bytesn` is given: where
-- the text from the field on has an even number of characters, more than twice the bytes of the
-- integer, the variable is overrun.
pub read_number_overruns :
    (c : Config) (env : Env) (len size : ℕ) (str : List ℕ)
    → c.big_endian ≡ true
    → len % 2 ≡ 0
    → length (cstr str) % 2 ≡ 0
    → 2 * size < length (cstr str)
    → read_number c env len size str ≡ past_end
unfolding read_number
read_number_overruns c env len size str be l e h =
    ground (arith, forward_lem (cstr str) e, length-pairs (cstr str))
