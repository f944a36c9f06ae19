-- ===== src/Hex/RoundTrip.antt =====
-- `bytes_to_hex` against `hex_to_bytes`.
use mathlib.Core.Path.{subst}
use mathlib.Core.List.{reverse, reverse-cons, reverse-reverse}
use lora_mqtt.Prelude.{
  ℕ, zero, suc, ◌+◌, ◌-◌, ◌<◌, ◌≡◌, refl, ap, ap₂, sym, ◌∙◌, Bool, true, false, List, [], ◌∷◌, ◌⊎◌,
  inl, inr, All-append, ◌++◌, append_assoc, append-nil, if◌then◌else◌, length, length-reverse, drop,
  get_or, All, arith,
}
use lora_mqtt.Text.Format.{hex_byte}
use lora_mqtt.Hex.{parsed, hex_to_bytes, bytes_to_hex, hex_loop}
use lora_mqtt.Hex.Pairs.{hex_text, pairs-hex_text, length-hex_text}
use lora_mqtt.Hex.Laws.{hex_to_bytes_even}

get_or-append-left :
    (xs ys : List ℕ) (i : ℕ) → i < length xs → get_or (xs ++ ys) i 0 ≡ get_or xs i 0
get_or-append-left [] ys i h = absurd (omega arith)
get_or-append-left (x ∷ xs) ys zero h = refl
get_or-append-left (x ∷ xs) ys (suc i) h = get_or-append-left xs ys i (omega arith)

get_or-append_last : (xs : List ℕ) (y i : ℕ) → i ≡ length xs → get_or (xs ++ y ∷ []) i 0 ≡ y
get_or-append_last [] y zero h = refl
get_or-append_last [] y (suc i) h = absurd (omega arith)
get_or-append_last (x ∷ xs) y zero h = absurd (omega arith)
get_or-append_last (x ∷ xs) y (suc i) h = get_or-append_last xs y i (omega arith)

le_or_eq : (i n : ℕ) → i < suc n → (i < n) ⊎ (i ≡ n)
le_or_eq i n h = grind arith

get_or-reverse :
    (xs : List ℕ) (i : ℕ)
    → i < length xs
    → get_or xs (length xs - 1 - i) 0 ≡ get_or (reverse xs) i 0
get_or-reverse [] i h = absurd (omega arith)
get_or-reverse (x ∷ xs) i h = elim (le_or_eq i (length xs) (omega arith)) [
  | inl lt ↦
      ap (λ t. get_or (x ∷ xs) t 0) (before lt)
      ∙ get_or-reverse xs i lt
      ∙ sym (get_or-append-left (reverse xs) (x ∷ []) i (omega (arith, length-reverse xs)))
      ∙ ap (λ t. get_or t i 0) (sym (reverse-cons x xs))
  | inr e ↦
      ap (λ t. get_or (x ∷ xs) t 0) (first e)
      ∙ sym (get_or-append_last (reverse xs) x i (omega (arith, length-reverse xs)))
      ∙ ap (λ t. get_or t i 0) (sym (reverse-cons x xs))
]
  where
    before : i < length xs → length (x ∷ xs) - 1 - i ≡ suc (length xs - 1 - i)
    before lt = omega arith

    first : i ≡ length xs → length (x ∷ xs) - 1 - i ≡ 0
    first e = omega arith

-- The order in which the bytes are printed.
abbrev printed : Bool → List ℕ → List ℕ
printed true bs = reverse bs
printed false bs = bs

get_or-printed :
    (rev : Bool) (bs : List ℕ) (i : ℕ)
    → i < length bs
    → get_or bs (if rev then length bs - 1 - i else i) 0 ≡ get_or (printed rev bs) i 0
get_or-printed true bs i h = get_or-reverse bs i h
get_or-printed false bs i h = refl

length-printed : (rev : Bool) (bs : List ℕ) → length (printed rev bs) ≡ length bs
length-printed true bs = length-reverse bs
length-printed false bs = refl

drop_step : (xs : List ℕ) (i : ℕ) → i < length xs → drop i xs ≡ get_or xs i 0 ∷ drop (suc i) xs
drop_step [] i h = absurd (omega arith)
drop_step (x ∷ xs) zero h = refl
drop_step (x ∷ xs) (suc i) h = drop_step xs i (omega arith)

drop_all : (xs : List ℕ) (i : ℕ) → i ≡ length xs → drop i xs ≡ []
drop_all [] zero h = refl
drop_all [] (suc i) h = refl
drop_all (x ∷ xs) zero h = absurd (omega arith)
drop_all (x ∷ xs) (suc i) h = drop_all xs i (omega arith)

hex_loop-eq :
    (bs : List ℕ) (rev : Bool) (left i : ℕ) (str : List ℕ)
    → i + left ≡ length bs
    → hex_loop bs (length bs) rev left i str ≡ str ++ hex_text (drop i (printed rev bs))
unfolding hex_loop
hex_loop-eq bs rev zero i str h = sym (
    ap (λ t. str ++ hex_text t) (drop_all _ i (omega (arith, length-printed rev bs)))
    ∙ append-nil str)
hex_loop-eq bs rev (suc left) i str h =
    hex_loop-eq bs rev left (i + 1) _ (omega arith)
    ∙ append_assoc str _ _
    ∙ ap (λ t. str ++ t)
        (ap₂ (λ b n. hex_byte true b ++ hex_text (drop n (printed rev bs)))
            (get_or-printed rev bs i (omega arith)) (let e : i + 1 ≡ suc i = omega arith in e)
          ∙ ap hex_text (sym (drop_step (printed rev bs) i (omega (arith, length-printed rev bs)))))

pub bytes_to_hex_lem :
    (bs : List ℕ) (str : List ℕ) (rev : Bool)
    → bytes_to_hex bs (length bs) str rev ≡ str ++ hex_text (printed rev bs)
unfolding bytes_to_hex
bytes_to_hex_lem bs str rev = hex_loop-eq bs rev (length bs) 0 str (omega arith)

All-reverse : (P : ℕ → Type 0) (bs : List ℕ) → All P bs → All P (reverse bs)
All-reverse P [] h = tt
All-reverse P (b ∷ bs) h =
    subst (All P) (sym (reverse-cons b bs))
      (All-append P (reverse bs) (b ∷ []) (All-reverse P bs h.1) (h.0, tt))

All-printed :
    (rev : Bool) (bs : List ℕ) → All (λ b. b < 256) bs → All (λ b. b < 256) (printed rev bs)
All-printed true bs h = All-reverse (λ b. b < 256) bs h
All-printed false bs h = h

printed-printed :
    (rev : Bool) (bs : List ℕ) → (if rev then reverse (printed rev bs) else printed rev bs) ≡ bs
printed-printed true bs = reverse-reverse bs
printed-printed false bs = refl

-- Bytes printed in either order into an empty buffer are read back by `hex_to_bytes` in the same
-- order.
pub hex_to_bytes-bytes_to_hex :
    (bs : List ℕ) (rev : Bool)
    → All (λ b. b < 256) bs
    → hex_to_bytes (bytes_to_hex bs (length bs) [] rev) rev ≡ parsed bs
hex_to_bytes-bytes_to_hex bs rev h =
    ap (λ t. hex_to_bytes t rev) (bytes_to_hex_lem bs [] rev)
    ∙ hex_to_bytes_even (hex_text (printed rev bs)) rev
        (omega (arith, length-hex_text (printed rev bs)))
    ∙ ap parsed (
        ap (λ t. if rev then reverse t else t) (pairs-hex_text _ (All-printed rev bs h))
        ∙ printed-printed rev bs)
