-- ===== src/Settings/Tokens.antt =====
-- mqtt.c: the tokens of a line of the configuration file, among them numbers.
use lora_mqtt.Prelude.{
  ℕ, ◌^◌, ◌<◌, ◌≡◌, refl, ap, sym, ◌∙◌, Bool, true, false, not, ◌&&◌, List, [], ◌∷◌, ◌++◌, some,
  ◌==◌, length, All, append-nil, append_assoc, ℤ, pos, arith,
}
use lora_mqtt.Text.Format.{dec}
use lora_mqtt.Text.Scan.{is_digit, scan_dec}
use lora_mqtt.Text.Digits.{IsDecimal, dec-IsDecimal, scan_dec-dec, strtol-decimal}
use lora_mqtt.Message.{is_nil}
use lora_mqtt.Settings.{is_delim, skip_delims, take_token, strtok, scan_int, int_or, int32}

-- A token: some characters, none of them a delimiter.
abbrev pub IsToken : List ℕ → Type 0
IsToken t = (is_nil t ≡ false) × All (λ c. is_delim c ≡ false) t

take_token-append :
    (t cur rest : List ℕ) (c : ℕ)
    → All (λ d. is_delim d ≡ false) t
    → is_delim c ≡ true
    → take_token is_delim cur (t ++ c ∷ rest) ≡ (cur ++ t, rest)
unfolding take_token
take_token-append [] cur rest c h p =
    rw (take_token, p) (ap (λ (l : List ℕ). (l, rest)) (sym (append-nil cur)))
take_token-append (d ∷ t) cur rest c h p =
    rw (take_token, h.0)
      (take_token-append t (cur ++ d ∷ []) rest c h.1 p
        ∙ ap (λ (l : List ℕ). (l, rest)) (append_assoc cur (d ∷ []) t))

pub strtok-token :
    (t rest : List ℕ) (c : ℕ)
    → IsToken t
    → is_delim c ≡ true
    → strtok is_delim (t ++ c ∷ rest) ≡ some (t, rest)
unfolding strtok skip_delims
strtok-token [] rest c h p = absurd (cc h.0)
strtok-token (d ∷ t) rest c h p =
    rw (skip_delims, h.1.0) (ap some (take_token-append (d ∷ t) [] rest c h.1 p))

pub strtok-skip :
    (c : ℕ) (s : List ℕ) → is_delim c ≡ true → strtok is_delim (c ∷ s) ≡ strtok is_delim s
unfolding strtok skip_delims
strtok-skip c s p = rw (skip_delims, p) refl

decimal-delim : (c : ℕ) → is_digit c ≡ true → is_delim c ≡ false
unfolding is_digit
decimal-delim c h = ground arith

decimal-IsToken : (s : List ℕ) → 0 < length s → IsDecimal s → IsToken s
decimal-IsToken [] l h = absurd (omega arith)
decimal-IsToken (c ∷ s) l h = (refl, go (c ∷ s) h)
  where
    go : (t : List ℕ) → IsDecimal t → All (λ d. is_delim d ≡ false) t
    go [] k = tt
    go (d ∷ t) k = (decimal-delim d k.0, go t k.1)

scan_int-decimal :
    (s : List ℕ) (n : ℕ)
    → 0 < length s
    → IsDecimal s
    → scan_dec false 0 s ≡ some (n, [])
    → n < 2 ^ 31
    → scan_int s ≡ some (pos n)
unfolding scan_int
scan_int-decimal [] n l h e b = absurd (omega arith)
scan_int-decimal (c ∷ s) n l h e b =
    let r = strtol-decimal c s n [] h.0 e (omega arith) in
    let small : int32 (pos n) ≡ pos n = ground arith in
    let longer : (length {A = ℕ} [] == length (c ∷ s)) ≡ false = ground arith in
    rw (scan_int, r.0, r.1, longer) (ap some small)

scan_dec-end : (n : ℕ) → scan_dec true n [] ≡ some (n, [])
unfolding scan_dec
scan_dec-end n = refl

scan_int-dec : (n : ℕ) → n < 2 ^ 31 → scan_int (dec n) ≡ some (pos n)
scan_int-dec n h =
    let printed = dec-IsDecimal n in
    scan_int-decimal (dec n) n printed.0 printed.1
      (ap (λ (t : List ℕ). scan_dec false 0 t) (sym (append-nil (dec n)))
        ∙ scan_dec-dec n false [] (omega arith)
        ∙ scan_dec-end n)
      h

pub dec-IsToken : (n : ℕ) → IsToken (dec n)
dec-IsToken n = let printed = dec-IsDecimal n in decimal-IsToken (dec n) printed.0 printed.1

abbrev free_of_delims : List ℕ → Bool
free_of_delims [] = true
free_of_delims (c ∷ t) = not (is_delim c) && free_of_delims t

checked : (t : List ℕ) → free_of_delims t ≡ true → All (λ d. is_delim d ≡ false) t
checked [] h = tt
checked (c ∷ t) h = (ground arith, checked t (ground arith))

pub token : (t : List ℕ) → is_nil t ≡ false → free_of_delims t ≡ true → IsToken t
token t h k = (h, checked t k)

pub int_or-dec : (old : ℤ) (n : ℕ) → n < 2 ^ 31 → int_or old (dec n) ≡ pos n
int_or-dec old n h = rw (int_or, scan_int-dec n h) refl
