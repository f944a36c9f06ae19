-- ===== src/Modules/Modbus/Bounds.antt =====
-- modules/umdk-modbus.c: the size of the text that the command handler leaves.
use lora_mqtt.Prelude.{
  ℕ, zero, suc, ◌+◌, ◌-◌, ◌*◌, ◌/◌, ◌%◌, ◌^◌, ◌≤◌, ◌<◌, ◌≡◌, replicate, List, [], ◌∷◌, ◌++◌, Option,
  none, some, inl, inr, true, false, Bool-cases, Option-cases, ltb, leb, length, length-append,
  length-take, length-take_le, take, arith,
}
use lora_mqtt.Text.Literal.{codes, after_prefix}
use lora_mqtt.Text.Format.{hex_byte}
use lora_mqtt.Hex.{Parsed, parsed, rejected, past_end, hex_to_bytes}
use lora_mqtt.Modules.{Outcome, done, undefined}
use lora_mqtt.Modules.Payload.{snprintf}
use lora_mqtt.Modules.Cursor.{hex_bytes, advance, number, length-hex_bytes, hex_char}
use lora_mqtt.Modules.Serial.{hex_chars, mode_text}
use lora_mqtt.Modules.Modbus.{
  Request, bytes_loop, data_bytes, send_request, request_of, frame_of, hex_of, requested, chosen,
  reads, writes, gets, mults, files, two_words, three_words, get_request, write_mult, file_request,
  modbus_send, modbus_pack, modbus_set, modbus_request, umdk_modbus_command,
}

-- What a handler leaves has at most `n` characters, where it leaves anything.
abbrev pub IsShort : ℕ → Outcome (List ℕ) → Type 0
IsShort n undefined = Unit
IsShort n (done t) = length t ≤ n

length-hex_chars : (s : List ℕ) → length (hex_chars s) ≤ 4 * length s
length-hex_chars [] = omega arith
length-hex_chars (c ∷ s) =
    let ih = length-hex_chars s in
    omega (arith, length-append (take 4 (hex_char c)) (hex_chars s), length-take 4 (hex_char c))

snprintf-IsShort : (size : ℕ) (t : List ℕ) → length t ≤ 159 → length (snprintf size t) ≤ 159
snprintf-IsShort size t h = omega (arith, length-take_le (size - 1) t)

send_request-IsShort : (bufsize : ℕ) (r : Option Request) → IsShort 159 (send_request bufsize r)
unfolding send_request hex_byte
send_request-IsShort bufsize none = tt
send_request-IsShort bufsize (some r) = elim (Bool-cases (ltb 64 (length r.set))) [
  | inl p ↦ rw p tt
  | inr p ↦ elim (Bool-cases (leb 64 r.length)) [
    | inl q ↦ rw (p, q) (snprintf-IsShort bufsize _ (omega arith))
    | inr q ↦
        let data_length = length-take r.length (r.set ++ replicate (64 - length r.set) 0) in
        let small : r.length < 64 = ground arith in
        rw (p, q)
          (snprintf-IsShort bufsize _ (omega (arith, length-hex_bytes (data_bytes r), data_length)))
  ]
]

request_of-IsShort :
    (bufsize : ℕ) (parse : ℕ → List ℕ → Option Request) (o : Option (ℕ × List ℕ))
    → IsShort 159 (request_of bufsize parse o)
unfolding hex_byte
request_of-IsShort bufsize parse none = snprintf-IsShort bufsize _ (omega arith)
request_of-IsShort bufsize parse (some w) = send_request-IsShort bufsize (parse w.0 w.1)

frame_of-IsShort : (bufsize : ℕ) (h : List ℕ) (p : Parsed) → IsShort 159 (frame_of bufsize h p)
frame_of-IsShort bufsize h rejected = snprintf-IsShort bufsize _ (omega arith)
frame_of-IsShort bufsize h past_end = tt
frame_of-IsShort bufsize h (parsed bs) = elim (Bool-cases (ltb 100 (length bs))) [
  | inl p ↦ rw p tt
  | inr p ↦ elim (Bool-cases (leb 80 (length h / 2))) [
    | inl q ↦ rw (p, q) (snprintf-IsShort bufsize _ (omega arith))
    | inr q ↦
        let small : length h / 2 < 80 = ground arith in
        rw (p, q) (snprintf-IsShort bufsize h (omega arith))
  ]
]

requested-IsShort :
    (bufsize : ℕ) (words : List (List ℕ × ℕ)) (parse : ℕ → List ℕ → Option Request) (s : List ℕ)
    → IsShort 159 (requested bufsize words parse s)
unfolding requested
requested-IsShort bufsize words parse s = request_of-IsShort bufsize parse (chosen words s)

modbus_send-IsShort : (h : List ℕ) (bufsize : ℕ) → IsShort 159 (modbus_send h bufsize)
unfolding modbus_send
modbus_send-IsShort h bufsize = frame_of-IsShort bufsize h (hex_to_bytes h true)

-- The loop over the bytes returns one for each round.
length-bytes_loop :
    (n : ℕ) (place : Option (List ℕ)) (bs : List ℕ) (end : Option (List ℕ))
    → bytes_loop n place ≡ some (bs, end)
    → length bs ≡ n
unfolding bytes_loop
length-bytes_loop zero place bs end e = ground arith
length-bytes_loop (suc n) none bs end e = ground arith
length-bytes_loop (suc n) (some s) bs end e =
    elim (Option-cases (bytes_loop n (advance (number 16 (2 ^ 8) s).1))) [
      | inl p ↦ ground (arith, p, e)
      | inr (r, p) ↦ let ih = length-bytes_loop n _ r.0 r.1 p in ground (arith, p, e, ih)
    ]

mode_text-IsShort : (head p : List ℕ) → length head ≤ 2 → length (mode_text head p) ≤ 42
unfolding mode_text
mode_text-IsShort head p h = elim (Bool-cases (ltb 10 (length p))) [
  | inl q ↦ rw q (omega arith)
  | inr q ↦
      let small : length p ≤ 10 = ground arith in
      rw q (omega (arith, length-append head (hex_chars p), length-hex_chars p))
]

hex_of-IsShort :
    (bufsize n : ℕ) (place : Option (List ℕ))
    → n < 80
    → IsShort 159 (hex_of bufsize (bytes_loop n place))
hex_of-IsShort bufsize n place h = elim (Option-cases (bytes_loop n place)) [
  | inl p ↦ rw p tt
  | inr (r, p) ↦
      let text =
        snprintf-IsShort bufsize (hex_bytes r.0)
          (omega (arith, length-hex_bytes r.0, length-bytes_loop n place r.0 r.1 p)) in
      elim (Bool-cases (leb (2 * length r.0) (bufsize + 2))) [
        | inl q ↦ rw (p, q) text
        | inr q ↦ rw (p, q) tt
      ]
]

modbus_pack-IsShort : (p : List ℕ) (bufsize : ℕ) → IsShort 159 (modbus_pack p bufsize)
unfolding modbus_pack
modbus_pack-IsShort p bufsize =
    let total = (length p % 2 ^ 8 + 1) % 2 ^ 8 / 3 in
    elim (Bool-cases (leb 80 total)) [
      | inl q ↦ rw q (snprintf-IsShort bufsize _ (omega arith))
      | inr q ↦
          let small : total < 80 = ground arith in
          rw q (hex_of-IsShort bufsize total (some p) small)
    ]

modbus_set-IsShort : (p : List ℕ) (bufsize : ℕ) → length (modbus_set p bufsize) ≤ 159
unfolding modbus_set hex_byte
modbus_set-IsShort p bufsize = elim (Option-cases (after_prefix (codes "device ") p)) [
  | inr (q, e) ↦ rw e (snprintf-IsShort bufsize _ (omega arith))
  | inl e ↦ elim (Option-cases (after_prefix (codes "mode ") p)) [
    | inl f ↦ rw (e, f) (snprintf-IsShort bufsize _ (omega arith))
    | inr (q, f) ↦
        let head = length-take_le (bufsize - 1) (hex_byte false 0xFF) in
        let m = mode_text-IsShort (snprintf bufsize (hex_byte false 0xFF)) q (omega arith) in
        rw (e, f) (omega arith)
  ]
]

-- One more command in a chain of else if.
choice-IsShort :
    (o : Option (List ℕ)) (f : List ℕ → Outcome (List ℕ)) (g : Outcome (List ℕ))
    → ((q : List ℕ) → IsShort 159 (f q))
    → IsShort 159 g
    → IsShort 159 (elim o [ some q ↦ f q | none ↦ g ])
choice-IsShort none f g h k = k
choice-IsShort (some q) f g h k = h q

modbus_request-IsShort : (param : List ℕ) (bufsize : ℕ) → IsShort 159 (modbus_request param bufsize)
unfolding modbus_request hex_byte
modbus_request-IsShort param bufsize =
    let word = λ (name : List ℕ). choice-IsShort (after_prefix name param) in
    let parsed_as = requested-IsShort bufsize in
    word (codes "read ") _ _ (parsed_as reads two_words) (
      word (codes "write ") _ _ (parsed_as writes two_words) (
        word (codes "get ") _ _ (parsed_as gets get_request) (
          word (codes "write_mult ") _ _ (parsed_as mults write_mult) (
            word (codes "file ") _ _ (parsed_as files file_request) (
              word (codes "write_mask ") _ _
                (λ p. send_request-IsShort bufsize (three_words 0x16 p))
                (snprintf-IsShort bufsize (hex_byte false 0xFF) (omega arith)))))))

-- Whichever command it is given and however long the text of it, the handler leaves at most 159
-- characters, where C says what it leaves.
pub umdk_modbus_command-IsShort :
    (param : List ℕ) (bufsize : ℕ) → IsShort 159 (umdk_modbus_command param bufsize)
unfolding umdk_modbus_command
umdk_modbus_command-IsShort param bufsize =
    let word = λ (name : List ℕ). choice-IsShort (after_prefix name param) in
    word (codes "send ") _ _ (λ h. modbus_send-IsShort h bufsize)
      (word (codes "pack ") _ _ (λ p. modbus_pack-IsShort p bufsize)
        (word (codes "set ") _ _ (λ p. modbus_set-IsShort p bufsize)
          (modbus_request-IsShort param bufsize)))
