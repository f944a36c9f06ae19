-- ===== src/Modules/Lookup.antt =====
-- unwds-mqtt.c: the ways to a module, by its id and by its name, in a registry without double
-- entries.
use mathlib.Core.Path.{subst}
use lora_mqtt.Prelude.{
  ℕ, ◌≡◌, refl, true, false, List, [], ◌∷◌, some, ◌==◌, inl, inr, ◌⊎◌, All, pos, arith,
}
use lora_mqtt.Text.Literal.{str_eq}
use lora_mqtt.Text.Format.{hex_byte}
use lora_mqtt.Message.{Msgs}
use lora_mqtt.Modules.{
  Module, Command, Reply, behind, converted, convert_to, convert_from, unwds_modid_by_name,
}

pub str_eq_refl : (s : List ℕ) → str_eq s s ≡ true
str_eq_refl [] = refl
str_eq_refl (c ∷ s) = let ih = str_eq_refl s in ground (arith, ih)

-- Two modules that share neither id nor name.
abbrev pub Differ : Module → Module → Type 0
Differ m k = ((m.id == k.id) ≡ false) × (str_eq k.name m.name ≡ false)

abbrev pub IsRegistry : List Module → Type 0
IsRegistry [] = Unit
IsRegistry (m ∷ ms) = All (Differ m) ms × IsRegistry ms

abbrev pub Has : Module → List Module → Type 0
Has k [] = ⊥
Has k (m ∷ ms) = (m ≡ k) ⊎ Has k ms

Has-Differ : (m k : Module) (ms : List Module) → Has k ms → All (Differ m) ms → Differ m k
Has-Differ m k [] h d = absurd h
Has-Differ m k (x ∷ ms) (inl e) d = subst (Differ m) e d.0
Has-Differ m k (x ∷ ms) (inr h) d = Has-Differ m k ms h d.1

-- A registry without double entries has at most one module of a name and of an id.
pub convert_from_lem :
    (ms : List Module) (m : Module) (k : Command) (param : List ℕ) (bufsize : ℕ)
    → IsRegistry ms
    → Has m ms
    → m.cmd ≡ some k
    → convert_from ms m.name param bufsize
      ≡ some (behind bufsize (hex_byte false m.id) (k param bufsize))
unfolding convert_from
convert_from_lem [] m k param bufsize r h q = absurd h
convert_from_lem (x ∷ ms) m k param bufsize r (inl e) q =
    subst
      (λ (y : Module).
        y.cmd ≡ some k
        → convert_from (x ∷ ms) y.name param bufsize
          ≡ some (behind bufsize (hex_byte false y.id) (k param bufsize)))
      e (λ q'. rw (str_eq_refl x.name, q')) q
convert_from_lem (x ∷ ms) m k param bufsize r (inr h) q =
    rw (Has-Differ x m ms h r.0).1 (convert_from_lem ms m k param bufsize r.1 h q)

convert_to_lem :
    (ms : List Module) (m : Module) (f : Reply) (moddata : List ℕ) (len : ℕ) (msgs : Msgs)
    → IsRegistry ms
    → Has m ms
    → m.reply ≡ some f
    → convert_to ms m.id moddata len msgs ≡ converted m.name (f moddata len msgs)
unfolding convert_to
convert_to_lem [] m f moddata len msgs r h p = absurd h
convert_to_lem (x ∷ ms) m f moddata len msgs r (inl e) p =
    let own : (x.id == x.id) ≡ true = ground arith in
    subst
      (λ (y : Module).
        y.reply ≡ some f
        → convert_to (x ∷ ms) y.id moddata len msgs ≡ converted y.name (f moddata len msgs))
      e (λ p'. rw (own, p')) p
convert_to_lem (x ∷ ms) m f moddata len msgs r (inr h) p =
    rw (Has-Differ x m ms h r.0).0 (convert_to_lem ms m f moddata len msgs r.1 h p)

unwds_modid_by_name_lem :
    (ms : List Module) (m : Module)
    → IsRegistry ms
    → Has m ms
    → unwds_modid_by_name ms m.name ≡ pos m.id
unfolding unwds_modid_by_name
unwds_modid_by_name_lem [] m r h = absurd h
unwds_modid_by_name_lem (x ∷ ms) m r (inl e) =
    subst (λ (y : Module). unwds_modid_by_name (x ∷ ms) y.name ≡ pos y.id) e
      (rw (str_eq_refl x.name))
unwds_modid_by_name_lem (x ∷ ms) m r (inr h) =
    rw (Has-Differ x m ms h r.0).1 (unwds_modid_by_name_lem ms m r.1 h)

-- In a registry without double entries, for a module with both handlers: its replies are converted
-- by its own handler and published under its name, and a command on that name is converted by its
-- own handler, behind its id in hexadecimal, which is the id that the name is resolved to.
pub convert_to-convert_from :
    (ms : List Module) (m : Module) (f : Reply) (k : Command) (moddata param : List ℕ)
    (len bufsize : ℕ) (msgs : Msgs)
    → IsRegistry ms
    → Has m ms
    → m.reply ≡ some f
    → m.cmd ≡ some k
    → (convert_to ms m.id moddata len msgs ≡ converted m.name (f moddata len msgs))
      × (convert_from ms m.name param bufsize
          ≡ some (behind bufsize (hex_byte false m.id) (k param bufsize)))
      × (unwds_modid_by_name ms m.name ≡ pos m.id)
convert_to-convert_from ms m f k moddata param len bufsize msgs r h p q = (
  convert_to_lem ms m f moddata len msgs r h p,
  convert_from_lem ms m k param bufsize r h q,
  unwds_modid_by_name_lem ms m r h,
)
