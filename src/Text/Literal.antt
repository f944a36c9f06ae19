-- ===== src/Text/Literal.antt =====
-- String literals, the string held by a buffer, and the prefix and search tests.
use Prim.Native.Char.{code}
use Prim.Native.String.{String}
use lora_mqtt.Prelude.{
  ℕ, Bool, true, false, ◌&&◌, List, [], ◌∷◌, Option, none, some, ◌==◌, if◌then◌else◌,
}

abbrev pub codes : String → List ℕ
codes String.[] = []
codes (String.◌∷◌ c s) = code c ∷ codes s

-- The string that a buffer holds: what stands before the first NUL.
unfoldable pub cstr : List ℕ → List ℕ
cstr [] = []
cstr (c ∷ s) = if c == 0 then [] else c ∷ cstr s

-- strcmp(s, t) == 0
abbrev pub str_eq : List ℕ → List ℕ → Bool
str_eq [] [] = true
str_eq [] (d ∷ t) = false
str_eq (c ∷ s) [] = false
str_eq (c ∷ s) (d ∷ t) = (c == d) && str_eq s t

-- strstr(s, p) == s, and what follows the prefix.
abbrev pub after_prefix : List ℕ → List ℕ → Option (List ℕ)
after_prefix [] s = some s
after_prefix (c ∷ p) [] = none
after_prefix (c ∷ p) (d ∷ s) = if c == d then after_prefix p s else none

abbrev pub starts_with : List ℕ → List ℕ → Bool
starts_with [] s = true
starts_with (c ∷ p) [] = false
starts_with (c ∷ p) (d ∷ s) = (c == d) && starts_with p s

-- strstr(s, p): the rest of `s` behind the first place where `p` stands.
unfoldable pub find_after : List ℕ → List ℕ → Option (List ℕ)
find_after p [] = after_prefix p []
find_after p (c ∷ s) = elim (after_prefix p (c ∷ s)) [ some r ↦ some r | none ↦ find_after p s ]
