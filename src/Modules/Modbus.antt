-- ===== src/Modules/Modbus.antt =====
-- modules/umdk-modbus.c: requests in words for a Modbus line, and its answers.
-- `Answer` is the reply handler, `Requests` about the requests that are sent, `Bounds` about the size
-- of what is sent.
pub mod Answer
pub mod Requests
pub mod Bounds
use lora_mqtt.Prelude.{
  ℕ, zero, suc, ◌+◌, ◌-◌, ◌*◌, ◌/◌, ◌%◌, ◌^◌, Bool, true, false, List, [], ◌∷◌, ◌++◌, Option, none,
  some, ltb, leb, ◌==◌, if◌then◌else◌, length, take, get_or, replicate,
}
use lora_mqtt.Text.Literal.{codes, after_prefix}
use lora_mqtt.Text.Format.{hex_byte}
use lora_mqtt.Hex.{Parsed, parsed, rejected, past_end, hex_to_bytes}
use lora_mqtt.Modules.{Outcome, done, undefined}
use lora_mqtt.Modules.Payload.{snprintf}
use lora_mqtt.Modules.Cursor.{◌>>=◌, number, field, word, be16, hex_bytes}
use lora_mqtt.Modules.Serial.{mode_text}

-- The address, the function and data[0], data[1], … as far as they are set, and `length`.
pub record Request : Type 0 where
  pub addr : ℕ
  pub cmd : ℕ
  pub set : List ℕ
  pub length : ℕ

-- A chain of else if: the function behind the first word that the text starts with.
unfoldable pub chosen : List (List ℕ × ℕ) → List ℕ → Option (ℕ × List ℕ)
chosen [] s = none
chosen ((name, code) ∷ rest) s = elim (after_prefix name s) [
  | some r ↦ some (code, r)
  | none ↦ chosen rest s
]

-- Some bytes, and some words.
unfoldable pub bytes_loop : ℕ → Option (List ℕ) → Option (List ℕ × Option (List ℕ))
unfolding field
bytes_loop zero place = some ([], place)
bytes_loop (suc k) place = do
  (b, next) ← field 16 (2 ^ 8) place
  (bs, end) ← bytes_loop k next
  some (b ∷ bs, end)

unfoldable pub words_loop : ℕ → Option (List ℕ) → Option (List ℕ × Option (List ℕ))
unfolding word
words_loop zero place = some ([], place)
words_loop (suc k) place = do
  (w, next) ← word place
  (ws, end) ← words_loop k next
  some (w ++ ws, end)

-- `read` and `write`: two words behind the address.
unfoldable pub two_words : ℕ → List ℕ → Option Request
unfolding field words_loop
two_words cmd s = do
  (addr, p0) ← field 10 (2 ^ 8) (some s)
  (ws, end) ← words_loop 2 p0
  some (record { addr = addr; cmd = cmd; set = ws; length = 4 })

-- `write_mask`
unfoldable pub three_words : ℕ → List ℕ → Option Request
unfolding field words_loop
three_words cmd s = do
  (addr, p0) ← field 10 (2 ^ 8) (some s)
  (ws, end) ← words_loop 3 p0
  some (record { addr = addr; cmd = cmd; set = ws; length = 6 })

-- `get`: a word for `fifo`, three bytes for `info`, otherwise the address alone.
unfoldable pub get_request : ℕ → List ℕ → Option Request
unfolding number field words_loop bytes_loop
get_request cmd s =
    if cmd == 0x18
    then (do
      (addr, p0) ← field 10 (2 ^ 8) (some s)
      (w, end) ← words_loop 1 p0
      some (record { addr = addr; cmd = cmd; set = w; length = 2 }))
    else if cmd == 0x2B
    then (do
      (addr, p0) ← field 10 (2 ^ 8) (some s)
      (bs, end) ← bytes_loop 3 p0
      some (record { addr = addr; cmd = cmd; set = bs; length = 3 }))
    else some (record { addr = (number 10 (2 ^ 8) s).0; cmd = cmd; set = []; length = 0 })

-- `write_mult`: two words, a count of bytes, and the bytes or the words.
unfoldable pub write_mult : ℕ → List ℕ → Option Request
unfolding field words_loop bytes_loop
write_mult cmd s = do
  (addr, p0) ← field 10 (2 ^ 8) (some s)
  (ws, p1) ← words_loop 2 p0
  (count, p2) ← field 16 (2 ^ 8) p1
  (rest, end) ← if cmd == 0x0F then bytes_loop count p2 else words_loop (count / 2) p2
  some (record { addr = addr; cmd = cmd; set = ws ++ count ∷ rest; length = (5 + count) % 2 ^ 8 })

-- `file`: two bytes and three words, and for `write` as many words as the last of them says.
unfoldable pub file_request : ℕ → List ℕ → Option Request
unfolding field words_loop bytes_loop
file_request cmd s = do
  (addr, p0) ← field 10 (2 ^ 8) (some s)
  (head, p1) ← bytes_loop 2 p0
  (ws, p2) ← words_loop 2 p1
  (last, p3) ← field 16 (2 ^ 16) p2
  (rest, end) ← words_loop (if cmd == 0x15 then last else 0) p3
  some (record {
    addr = addr;
    cmd = cmd;
    set = head ++ (ws ++ (be16 last ++ rest));
    length = (1 + get_or head 0 0) % 2 ^ 8;
  })

abbrev invalid_format : List ℕ
invalid_format = codes "04"

-- data[64] = {} with the bytes that were set.
abbrev pub data_bytes : Request → List ℕ
data_bytes r = take r.length (r.set ++ replicate (64 - length r.set) 0)

-- What follows the chain: a request that set more than data[64] holds was written past it, one that
-- is too long is refused.
unfoldable pub send_request : ℕ → Option Request → Outcome (List ℕ)
unfolding hex_byte
send_request bufsize none = undefined
send_request bufsize (some r) =
    if ltb 64 (length r.set)
    then undefined
    else done (
        if leb 64 r.length
        then snprintf bufsize invalid_format
        else snprintf bufsize
            (hex_byte false r.addr ++ (hex_byte false r.cmd ++ hex_bytes (data_bytes r))))

-- What follows a word, where there is one.
abbrev pub request_of : ℕ → (ℕ → List ℕ → Option Request) → Option (ℕ × List ℕ) → Outcome (List ℕ)
request_of bufsize parse none = done (snprintf bufsize (hex_byte false 0xFF))
request_of bufsize parse (some (cmd, rest)) = send_request bufsize (parse cmd rest)

-- A sub-command of some words, each with the same way to read what follows.
unfoldable pub requested :
    ℕ → List (List ℕ × ℕ) → (ℕ → List ℕ → Option Request) → List ℕ → Outcome (List ℕ)
unfolding chosen
requested bufsize words parse s = request_of bufsize parse (chosen words s)

-- A frame in hexadecimal, through bytes[100]; `4` is the answer to a text that is none.
abbrev pub frame_of : ℕ → List ℕ → Parsed → Outcome (List ℕ)
frame_of bufsize h rejected = done (snprintf bufsize invalid_format)
frame_of bufsize h past_end = undefined
frame_of bufsize h (parsed bs) =
    if ltb 100 (length bs)
    then undefined
    else done (snprintf bufsize (if leb 80 (length h / 2) then invalid_format else h))

unfoldable pub modbus_send : List ℕ → ℕ → Outcome (List ℕ)
unfolding hex_to_bytes
modbus_send h bufsize = frame_of bufsize h (hex_to_bytes h true)

-- The bytes in hexadecimal, one snprintf each. The text is cut at the size; a byte that starts behind
-- it has a size below zero, which is a large one, and is written past the end.
abbrev pub hex_of : ℕ → Option (List ℕ × Option (List ℕ)) → Outcome (List ℕ)
hex_of bufsize none = undefined
hex_of bufsize (some (bs, end)) =
    if leb (2 * length bs) (bufsize + 2) then done (snprintf bufsize (hex_bytes bs)) else undefined

-- A frame in hexadecimal with spaces; the number of bytes is that of two digits and a space each.
unfoldable pub modbus_pack : List ℕ → ℕ → Outcome (List ℕ)
unfolding bytes_loop
modbus_pack p bufsize =
    let length_total = (length p % 2 ^ 8 + 1) % 2 ^ 8 / 3 in
    if leb 80 length_total
    then done (snprintf bufsize invalid_format)
    else hex_of bufsize (bytes_loop length_total (some p))

unfoldable pub modbus_set : List ℕ → ℕ → List ℕ
unfolding number mode_text
modbus_set p bufsize = elim (after_prefix (codes "device ") p) [
  | some q ↦ snprintf bufsize (hex_byte false 0xFE ++ hex_byte false (number 16 (2 ^ 8) q).0)
  | none ↦ elim (after_prefix (codes "mode ") p) [
    | some q ↦ mode_text (snprintf bufsize (hex_byte false 0xFF)) q
    | none ↦ snprintf bufsize (hex_byte false 0xFF)
  ]
]

abbrev pub reads : List (List ℕ × ℕ)
reads =
    (codes "inputs ", 0x02)
    ∷ (codes "coils ", 0x01)
    ∷ (codes "hold_reg ", 0x03)
    ∷ (codes "inp_reg ", 0x04)
    ∷ (codes "diagnostic ", 0x08)
    ∷ []

abbrev pub writes : List (List ℕ × ℕ)
writes = (codes "coil ", 0x05) ∷ (codes "reg ", 0x06) ∷ []

abbrev pub gets : List (List ℕ × ℕ)
gets =
    (codes "exceptions ", 0x07)
    ∷ (codes "server_id ", 0x11)
    ∷ (codes "event_count ", 0x0B)
    ∷ (codes "event_log ", 0x0C)
    ∷ (codes "fifo ", 0x18)
    ∷ (codes "info ", 0x2B)
    ∷ []

abbrev pub mults : List (List ℕ × ℕ)
mults = (codes "coils ", 0x0F) ∷ (codes "regs ", 0x10) ∷ []

abbrev pub files : List (List ℕ × ℕ)
files = (codes "read ", 0x14) ∷ (codes "write ", 0x15) ∷ []

-- The words of the requests, in the order of the tests.
unfoldable pub modbus_request : List ℕ → ℕ → Outcome (List ℕ)
unfolding requested three_words
modbus_request param bufsize = elim (after_prefix (codes "read ") param) [
  | some p ↦ requested bufsize reads two_words p
  | none ↦ elim (after_prefix (codes "write ") param) [
    | some p ↦ requested bufsize writes two_words p
    | none ↦ elim (after_prefix (codes "get ") param) [
      | some p ↦ requested bufsize gets get_request p
      | none ↦ elim (after_prefix (codes "write_mult ") param) [
        | some p ↦ requested bufsize mults write_mult p
        | none ↦ elim (after_prefix (codes "file ") param) [
          | some p ↦ requested bufsize files file_request p
          | none ↦ elim (after_prefix (codes "write_mask ") param) [
            | some p ↦ send_request bufsize (three_words 0x16 p)
            | none ↦ done (snprintf bufsize (hex_byte false 0xFF))
          ]
        ]
      ]
    ]
  ]
]

unfoldable pub umdk_modbus_command : List ℕ → ℕ → Outcome (List ℕ)
unfolding modbus_send modbus_pack modbus_set
umdk_modbus_command param bufsize = elim (after_prefix (codes "send ") param) [
  | some h ↦ modbus_send h bufsize
  | none ↦ elim (after_prefix (codes "pack ") param) [
    | some p ↦ modbus_pack p bufsize
    | none ↦ elim (after_prefix (codes "set ") param) [
      | some p ↦ done (modbus_set p bufsize)
      | none ↦ modbus_request param bufsize
    ]
  ]
]
