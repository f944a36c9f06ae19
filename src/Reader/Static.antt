-- ===== src/Reader/Static.antt =====
-- mqtt.c: a line of the list of static devices becomes a command for the gate.
use lora_mqtt.Prelude.{
  ℕ, ◌≤◌, ◌≡◌, refl, ap, ◌∙◌, sym, true, false, List, [], ◌∷◌, ◌++◌, ltb, ◌==◌, get_or, length, All,
  append-nil, append_assoc, arith,
}
use lora_mqtt.Text.Scan.{is_space}
use lora_mqtt.Message.{is_nil}
use lora_mqtt.Gate.{Effect, uart}
use lora_mqtt.Reader.{words, static_device, static_line}

abbrev pub IsDark : List ℕ → Type 0
IsDark t = All (λ c. is_space c ≡ false) t

-- A field: some characters without white space, at most 31 of them.
abbrev pub IsWord : List ℕ → Type 0
IsWord t = (is_nil t ≡ false) × (IsDark t × (length t ≤ 31))

-- Fields with one space behind each, the line feed behind the last one.
abbrev pub line_of : List ℕ → List ℕ → List ℕ → List ℕ → List ℕ → List ℕ
line_of a b c d e = a ++ b' ' ∷ (b ++ b' ' ∷ (c ++ b' ' ∷ (d ++ b' ' ∷ (e ++ 10 ∷ []))))

words-append : (t cur rest : List ℕ) → IsDark t → words cur (t ++ rest) ≡ words (cur ++ t) rest
unfolding words
words-append [] cur rest h = ap (λ (c : List ℕ). words c rest) (sym (append-nil cur))
words-append (c ∷ t) cur rest h =
    rw (h.0, words)
      (words-append t (cur ++ c ∷ []) rest h.1
        ∙ ap (λ (l : List ℕ). words l rest) (append_assoc cur (c ∷ []) t))

word :
    (t : List ℕ) (s : ℕ) (rest : List ℕ)
    → IsWord t
    → is_space s ≡ true
    → words [] (t ++ s ∷ rest) ≡ t ∷ words [] rest
unfolding words
word t s rest h p = words-append t [] (s ∷ rest) h.1.0 ∙ rw (p, words) (rw h.0 refl)

first : (a rest : List ℕ) → is_nil a ≡ false → get_or (a ++ rest) 0 0 ≡ get_or a 0 0
first [] rest h = absurd (cc h)
first (x ∷ a) rest h = refl

-- One more word in front.
then_word :
    (t : List ℕ) (s : ℕ) (rest : List ℕ) {ts : List (List ℕ)}
    → IsWord t
    → is_space s ≡ true
    → words [] rest ≡ ts
    → words [] (t ++ s ∷ rest) ≡ t ∷ ts
then_word t s rest h p q = word t s rest h p ∙ ap (λ (l : List (List ℕ)). t ∷ l) q

space : is_space b' ' ≡ true
unfolding is_space
space = refl

feed : is_space 10 ≡ true
unfolding is_space
feed = refl

none_left : words [] [] ≡ []
unfolding words
none_left = refl

words-line_of :
    (a b c d e : List ℕ)
    → All IsWord (a ∷ b ∷ c ∷ d ∷ e ∷ [])
    → words [] (line_of a b c d e) ≡ a ∷ b ∷ c ∷ d ∷ e ∷ []
words-line_of a b c d e (p, (q, (r, (s, (t, ok))))) = then_word a b' ' _ p space (
    then_word b b' ' _ q space (
      then_word c b' ' _ r space (then_word d b' ' _ s space (then_word e 10 [] t feed none_left))))

fits : (t : List ℕ) → IsWord t → ltb 31 (length t) ≡ false
fits t h = ground arith

static_device-words :
    (a b c d e : List ℕ)
    → All IsWord (a ∷ b ∷ c ∷ d ∷ e ∷ [])
    → static_device (a ∷ b ∷ c ∷ d ∷ e ∷ [])
      ≡ uart (b'A' ∷ (a ++ (b ++ (c ++ (d ++ (e ++ 13 ∷ []))))))
static_device-words a b c d e (p, (q, (r, (s, (t, ok))))) =
    rw (fits a p, fits b q, fits c r, fits d s, fits e t) refl

-- A line of five fields that is long enough and no comment is sent as one command, the fields
-- without the space between them.
pub static_line_lem :
    (a b c d e : List ℕ)
    → All IsWord (a ∷ b ∷ c ∷ d ∷ e ∷ [])
    → 54 ≤ length (line_of a b c d e)
    → (get_or a 0 0 == b'#') ≡ false
    → static_line (line_of a b c d e)
      ≡ uart (b'A' ∷ (a ++ (b ++ (c ++ (d ++ (e ++ 13 ∷ [])))))) ∷ []
unfolding static_line
static_line_lem a b c d e h l n =
    let kept : ltb (length (line_of a b c d e)) 54 ≡ false = ground arith in
    rw
      (
        first a (b' ' ∷ (b ++ b' ' ∷ (c ++ b' ' ∷ (d ++ b' ' ∷ (e ++ 10 ∷ []))))) h.0.0,
        n,
        kept,
        words-line_of a b c d e h,
      )
      (ap (λ (x : Effect). x ∷ []) (static_device-words a b c d e h))
