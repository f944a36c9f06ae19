-- ===== src/Message/Escape.antt =====
-- mqtt_escape_quotes against the replacement of each quote by a backslash and a quote.
use lora_mqtt.Prelude.{
  ℕ, ◌≡◌, ◌≢◌, refl, inl, inr, ap, sym, ◌∙◌, Bool, true, false, not, ◌&&◌, List, [], ◌∷◌, ◌++◌,
  some, append_assoc, ◌==◌, if◌then◌else◌, Bool-cases, arith,
}
use lora_mqtt.Message.{
  quote_tokens, append_tokens, mqtt_escape_quotes, copy_tokens, escaped_quote, is_nil,
}

abbrev pub escape : List ℕ → List ℕ
escape [] = []
escape (c ∷ s) = (if c == b'"' then escaped_quote else c ∷ []) ++ escape s

-- No quote stands at the start, at the end, or beside another; `prev` says whether one stands before.
abbrev pub spaced : Bool → List ℕ → Bool
spaced prev [] = not prev
spaced prev (c ∷ s) = if c == b'"' then not prev && spaced true s else spaced false s

is_nil-snoc : (xs : List ℕ) (c : ℕ) → is_nil (xs ++ c ∷ []) ≡ false
is_nil-snoc [] c = refl
is_nil-snoc (x ∷ xs) c = refl

quote_tokens-quote :
    (cur s : List ℕ) (c : ℕ)
    → (c == b'"') ≡ true
    → is_nil cur ≡ false
    → quote_tokens cur (c ∷ s) ≡ cur ∷ quote_tokens [] s
unfolding quote_tokens
quote_tokens-quote cur s c q n = rw (q, n, quote_tokens)

quote_tokens-other :
    (cur s : List ℕ) (c : ℕ)
    → (c == b'"') ≡ false
    → quote_tokens cur (c ∷ s) ≡ quote_tokens (cur ++ c ∷ []) s
unfolding quote_tokens
quote_tokens-other cur s c q = rw (q, quote_tokens)

escape-quote :
    (s : List ℕ) (c : ℕ)
    → (c == b'"') ≡ true
    → escape (c ∷ s) ++ escaped_quote ≡ escaped_quote ++ (escape s ++ escaped_quote)
escape-quote s c q = rw q

escape-other :
    (s : List ℕ) (c : ℕ)
    → (c == b'"') ≡ false
    → escape (c ∷ s) ++ escaped_quote ≡ c ∷ (escape s ++ escaped_quote)
escape-other s c q = rw q

spaced-quote :
    (s : List ℕ) (c : ℕ) (prev : Bool)
    → (c == b'"') ≡ true
    → spaced prev (c ∷ s) ≡ true
    → spaced true s ≡ true
spaced-quote s c true q h = absurd (let e : false ≡ true = rw q at h in cc)
spaced-quote s c false q h = rw q at h

spaced-other :
    (s : List ℕ) (c : ℕ) (prev : Bool)
    → (c == b'"') ≡ false
    → spaced prev (c ∷ s) ≡ true
    → spaced false s ≡ true
spaced-other s c prev q h = rw q at h

spaced_start : (s : List ℕ) (c : ℕ) → spaced true (c ∷ s) ≡ true → (c == b'"') ≡ false
spaced_start s c h = ground arith

other :
    (s : List ℕ) (c : ℕ) (cur : List ℕ)
    → (c == b'"') ≡ false
    → append_tokens (quote_tokens (cur ++ c ∷ []) s)
      ≡ (cur ++ c ∷ []) ++ (escape s ++ escaped_quote)
    → append_tokens (quote_tokens cur (c ∷ s)) ≡ cur ++ (escape (c ∷ s) ++ escaped_quote)
other s c cur q ih =
    ap append_tokens (quote_tokens-other cur s c q)
    ∙ ih
    ∙ append_assoc cur (c ∷ []) _
    ∙ ap (λ t. cur ++ t) (sym (escape-other s c q))

start :
    (s : List ℕ) (c : ℕ)
    → (c == b'"') ≡ false
    → append_tokens (quote_tokens (c ∷ []) s) ≡ (c ∷ []) ++ (escape s ++ escaped_quote)
    → append_tokens (quote_tokens [] (c ∷ s)) ≡ escape (c ∷ s) ++ escaped_quote
start s c q ih = ap append_tokens (quote_tokens-other [] s c q) ∙ ih ∙ sym (escape-other s c q)

-- The text that is written for the tokens, while the token `cur` is under way.
append_tokens-quote_tokens :
    (s cur : List ℕ)
    → is_nil cur ≡ false
    → spaced false s ≡ true
    → append_tokens (quote_tokens cur s) ≡ cur ++ (escape s ++ escaped_quote)
unfolding append_tokens
append_tokens-quote_tokens [] cur n h = unfold quote_tokens in rw n refl
append_tokens-quote_tokens (c ∷ []) cur n h = elim (Bool-cases (c == b'"')) [
  | inl q ↦ absurd (let e : false ≡ true = spaced-quote [] c false q h in cc)
  | inr q ↦
      other [] c cur q (append_tokens-quote_tokens [] (cur ++ c ∷ []) (is_nil-snoc cur c) refl)
]
append_tokens-quote_tokens (c ∷ d ∷ s) cur n h = elim (Bool-cases (c == b'"')) [
  | inl q ↦
      let h' = spaced-quote (d ∷ s) c false q h in
      let r = spaced_start s d h' in
      ap append_tokens (quote_tokens-quote cur (d ∷ s) c q n)
      ∙ ap (λ t. cur ++ (escaped_quote ++ t))
          (start s d r (append_tokens-quote_tokens s (d ∷ []) refl (spaced-other s d true r h')))
      ∙ ap (λ t. cur ++ t) (sym (escape-quote (d ∷ s) c q))
  | inr q ↦ other (d ∷ s) c cur q (
      append_tokens-quote_tokens (d ∷ s) (cur ++ c ∷ []) (is_nil-snoc cur c)
        (spaced-other (d ∷ s) c false q h))
]

copied : (ts : List (List ℕ)) (s : List ℕ) → append_tokens ts ≡ s → s ≢ [] → copy_tokens ts ≡ some s
unfolding append_tokens
copied [] s h n = absurd (n (sym h))
copied (t ∷ ts) s h n = ap some h

-- A text in which no quote stands at the start, at the end or beside another one is escaped quote by
-- quote, with one more escaped quote behind it.
pub mqtt_escape_quotes_lem :
    (s : List ℕ) → spaced true s ≡ true → mqtt_escape_quotes s ≡ some (escape s ++ escaped_quote)
unfolding mqtt_escape_quotes
mqtt_escape_quotes_lem [] h = absurd (cc)
mqtt_escape_quotes_lem (c ∷ s) h =
    let q = spaced_start s c h in
    let e = append_tokens-quote_tokens s (c ∷ []) refl (spaced-other s c true q h) in
    copied (quote_tokens [] (c ∷ s)) (c ∷ (escape s ++ escaped_quote))
      (start s c q e ∙ escape-other s c q) (λ e. cc)
    ∙ ap some (sym (escape-other s c q))
