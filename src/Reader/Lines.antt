-- ===== src/Reader/Lines.antt =====
-- mqtt.c: the lines of the gate become messages.
use lora_mqtt.Prelude.{
  ℕ, ◌+◌, ◌<◌, ◌≡◌, refl, ap, ◌∙◌, sym, true, false, List, [], ◌∷◌, ◌++◌, some, ltb, ◌==◌, length,
  length-append, All, append-nil, append_assoc, arith,
}
use lora_mqtt.Text.Literal.{cstr}
use lora_mqtt.Message.{is_nil}
use lora_mqtt.Reply.{reply_len}
use lora_mqtt.Reader.{split_lines, kept, messages}

-- A reply of the gate: some characters, among them neither a line feed nor a terminator.
abbrev pub IsPlain : List ℕ → Type 0
IsPlain t = All (λ c. ((c == 10) ≡ false) × ((c == 0) ≡ false)) t

abbrev pub IsReply : List ℕ → Type 0
IsReply t = (is_nil t ≡ false) × IsPlain t

-- Every reply with a line feed behind it.
abbrev pub lines : List (List ℕ) → List ℕ
lines [] = []
lines (t ∷ ts) = t ++ 10 ∷ lines ts

split_lines-append :
    (t cur rest : List ℕ) → IsPlain t → split_lines cur (t ++ rest) ≡ split_lines (cur ++ t) rest
unfolding split_lines
split_lines-append [] cur rest h = ap (λ (c : List ℕ). split_lines c rest) (sym (append-nil cur))
split_lines-append (c ∷ t) cur rest h =
    rw (h.0.0, split_lines)
      (split_lines-append t (cur ++ c ∷ []) rest h.1
        ∙ ap (λ (l : List ℕ). split_lines l rest) (append_assoc cur (c ∷ []) t))

cstr-plain : (t rest : List ℕ) → IsPlain t → cstr (t ++ rest) ≡ t ++ cstr rest
unfolding cstr
cstr-plain [] rest h = refl
cstr-plain (c ∷ t) rest h = rw (h.0.1, cstr-plain t rest h.1)

cstr-lines : (ts : List (List ℕ)) → All IsReply ts → cstr (lines ts) ≡ lines ts
unfolding cstr
cstr-lines [] h = refl
cstr-lines (t ∷ ts) h =
    cstr-plain t (10 ∷ lines ts) h.0.1 ∙ ap (λ (s : List ℕ). t ++ 10 ∷ s) (cstr-lines ts h.1)

kept-lines :
    (ts : List (List ℕ))
    → All IsReply ts
    → length (lines ts) < reply_len
    → kept (split_lines [] (lines ts)) ≡ ts
unfolding split_lines kept
kept-lines [] h l = refl
kept-lines (t ∷ ts) h l =
    let size = length-append t (10 ∷ lines ts) in
    let short : ltb reply_len (length t + 1) ≡ false = ground arith in
    ap kept (split_lines-append t [] (10 ∷ lines ts) h.0.1)
    ∙ rw (h.0.0, short, kept-lines ts h.1 (omega arith)) refl

-- Replies that fit the buffer, each ended by a line feed, are the messages for the publisher, in
-- their order.
pub messages-lines :
    (ts : List (List ℕ))
    → All IsReply ts
    → length (lines ts) < reply_len
    → messages (lines ts) ≡ some ts
unfolding messages
messages-lines ts h l =
    let fits : ltb (length (lines ts)) reply_len ≡ true = ground arith in
    rw (fits, cstr-lines ts h, kept-lines ts h l)
