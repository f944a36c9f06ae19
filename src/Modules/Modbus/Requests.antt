-- ===== src/Modules/Modbus/Requests.antt =====
-- modules/umdk-modbus.c: the requests of two words.
use lora_mqtt.Prelude.{
  ℕ, ◌/◌, ◌%◌, ◌^◌, ◌<◌, ◌-◌, ◌≡◌, refl, ap, take-all, List, [], ◌∷◌, ◌++◌, some, All, arith,
}
use lora_mqtt.Text.Literal.{codes}
use lora_mqtt.Text.Format.{dec, hex, hex_byte}
use lora_mqtt.Text.Numerals.{strtol_in-dec, strtol_in-hex, strtol_in-hex_end}
use lora_mqtt.Modules.{done}
use lora_mqtt.Modules.Cursor.{number, word, hex_bytes, be16}
use lora_mqtt.Modules.Modbus.{
  two_words, send_request, umdk_modbus_command, modbus_request, requested,
}

-- The numbers of a request: the address in decimal, two words in hexadecimal.
abbrev pub arguments : ℕ → ℕ → ℕ → List ℕ
arguments addr a b = dec addr ++ (b' ' ∷ (hex a ++ (b' ' ∷ hex b)))

two_words_lem :
    (cmd addr a b : ℕ)
    → addr < 2 ^ 8
    → a < 2 ^ 16
    → b < 2 ^ 16
    → two_words cmd (arguments addr a b)
      ≡ some (record { addr = addr; cmd = cmd; set = be16 a ++ (be16 b ++ []); length = 4 })
unfolding two_words number word
two_words_lem cmd addr a b h i j =
    let small : (addr % 2 ^ 8 ≡ addr) × (a % 2 ^ 16 ≡ a) × (b % 2 ^ 16 ≡ b) = omega arith in
    rw
      (
        strtol_in-dec addr (b' ' ∷ (hex a ++ (b' ' ∷ hex b))) (omega arith) refl,
        strtol_in-hex a (b' ' ∷ hex b) (omega arith) refl,
        strtol_in-hex_end b (omega arith),
        small.0,
        small.1,
        small.2,
      )
      refl

abbrev pub bytes_of : ℕ → ℕ → ℕ → ℕ → List ℕ
bytes_of cmd addr a b = addr ∷ cmd ∷ a / 2 ^ 8 ∷ a % 2 ^ 8 ∷ b / 2 ^ 8 ∷ b % 2 ^ 8 ∷ []

send_request-two_words :
    (cmd addr a b bufsize : ℕ)
    → addr < 2 ^ 8
    → a < 2 ^ 16
    → b < 2 ^ 16
    → 12 < bufsize
    → send_request bufsize (two_words cmd (arguments addr a b))
      ≡ done (hex_bytes (bytes_of cmd addr a b))
unfolding send_request hex_byte
send_request-two_words cmd addr a b bufsize h i j k =
    rw (two_words_lem cmd addr a b h i j)
      (ap done (take-all (hex_bytes (bytes_of cmd addr a b)) (bufsize - 1) (omega arith)))

-- The requests of two words, as they are written in a command.
abbrev pub requests : List (List ℕ × ℕ)
requests =
    (codes "read inputs ", 0x02)
    ∷ (codes "read coils ", 0x01)
    ∷ (codes "read hold_reg ", 0x03)
    ∷ (codes "read inp_reg ", 0x04)
    ∷ (codes "read diagnostic ", 0x08)
    ∷ (codes "write coil ", 0x05)
    ∷ (codes "write reg ", 0x06)
    ∷ []

-- Each of the seven requests, with an address below 2 ^ 8 in decimal and two words below 2 ^ 16 in
-- hexadecimal, becomes the frame of address, function and the two words, high byte first, in
-- hexadecimal, for a buffer of more than twelve characters.
pub umdk_modbus_command-requests :
    (addr a b bufsize : ℕ)
    → addr < 2 ^ 8
    → a < 2 ^ 16
    → b < 2 ^ 16
    → 12 < bufsize
    → All
        (λ (w : List ℕ × ℕ).
          umdk_modbus_command (w.0 ++ arguments addr a b) bufsize
          ≡ done (hex_bytes (bytes_of w.1 addr a b)))
        requests
unfolding umdk_modbus_command modbus_request requested
umdk_modbus_command-requests addr a b bufsize h i j k =
    let sent = λ (cmd : ℕ). send_request-two_words cmd addr a b bufsize h i j k in
    (sent 2, (sent 1, (sent 3, (sent 4, (sent 8, (sent 5, (sent 6, tt)))))))
