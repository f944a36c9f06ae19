-- ===== src/Modules/Dali/Frames.antt =====
-- modules/umdk-dali.c: queries on a lamp or a group, and the answers to them.
use lora_mqtt.Prelude.{
  ℕ, ◌+◌, ◌*◌, ◌/◌, ◌%◌, ◌^◌, ◌<◌, ◌-◌, ◌≡◌, refl, ap, sym, ◌∙◌, List, [], ◌∷◌, ◌++◌, true, false,
  some, ◌||◌, if◌then◌else◌, ◌==◌, ltb, All, arith, take-all,
}
use lora_mqtt.Text.Literal.{codes}
use lora_mqtt.Text.Format.{dec, hex_byte}
use lora_mqtt.Text.Numerals.{strtol_in-dec_end}
use lora_mqtt.Bits.{low_bits}
use lora_mqtt.Message.{Msgs, add_value_pair}
use lora_mqtt.Modules.{done}
use lora_mqtt.Modules.Cursor.{number, hex_bytes}
use lora_mqtt.Modules.Dali.Table.{plain, word_of, queries}
use lora_mqtt.Modules.Dali.{
  umdk_dali_command, dali_words, dali_send, matching, read_argument, target, order, dali_frame,
  dali_address, dali_service,
}
use lora_mqtt.Modules.Dali.Answer.{dali_sender, dali_answer, umdk_dali_reply}

-- A word behind `query `, the code of the command and the service byte: 0x0C where the answer is
-- data, 0x04 where it is yes or no.
abbrev pub Query : Type 0
Query = List ℕ × (ℕ × ℕ)

-- The queries without an argument of their own that are answered with one byte.
abbrev pub byte_queries : List Query
byte_queries =
    (codes "status ", (0x90, 0x0C))
    ∷ (codes "ballast ", (0x91, 0x04))
    ∷ (codes "fail ", (0x92, 0x04))
    ∷ (codes "on ", (0x93, 0x04))
    ∷ (codes "lim error ", (0x94, 0x04))
    ∷ (codes "reset ", (0x95, 0x04))
    ∷ (codes "no_addr ", (0x96, 0x04))
    ∷ (codes "version ", (0x97, 0x0C))
    ∷ (codes "dtr ", (0x98, 0x0C))
    ∷ (codes "type ", (0x99, 0x0C))
    ∷ (codes "phys min ", (0x9A, 0x0C))
    ∷ (codes "power fail ", (0x9B, 0x04))
    ∷ (codes "actual ", (0xA0, 0x0C))
    ∷ (codes "max ", (0xA1, 0x0C))
    ∷ (codes "min ", (0xA2, 0x0C))
    ∷ (codes "power_on ", (0xA3, 0x0C))
    ∷ (codes "sys fail ", (0xA4, 0x0C))
    ∷ (codes "fade ", (0xA5, 0x0C))
    ∷ []

-- Those that are answered with the list of the groups.
abbrev pub list_queries : List Query
list_queries = (codes "group_7 ", (0xC0, 0x0C)) ∷ (codes "group_15 ", (0xC1, 0x0C)) ∷ []

dali_sender-dali_address :
    (cmd type_addr address : ℕ) (ms : Msgs)
    → cmd < 0xF0
    → type_addr < 2
    → address < 63
    → dali_sender cmd (dali_address type_addr address 1) ms
      ≡ add_value_pair ms (if type_addr == 1 then codes "group" else codes "address") (dec address)
unfolding dali_sender dali_address
dali_sender-dali_address cmd type_addr address ms h i j =
    let own = low_bits 6 address in
    let half : (type_addr * 2 ^ 7 + address * 2 + 1) / 2 ≡ type_addr * 2 ^ 6 + address =
      omega arith in
    let low = low_bits 6 (type_addr * 2 ^ 6 + address) in ground (arith, own, half, low)

target-dev : (a : ℕ) → a < 2 ^ 8 → target (codes "dev " ++ dec a) ≡ some (a, 0)
unfolding target number
target-dev a h =
    let small : a % 2 ^ 8 ≡ a = omega arith in rw (strtol_in-dec_end a (omega arith), small) refl

target-group : (a : ℕ) → a < 2 ^ 8 → target (codes "group " ++ dec a) ≡ some (a, 1)
unfolding target number
target-group a h =
    let small : a % 2 ^ 8 ≡ a = omega arith in rw (strtol_in-dec_end a (omega arith), small) refl

dali_send-target :
    (bufsize cmd type_rx a type_addr : ℕ) (s : List ℕ)
    → 8 < bufsize
    → target s ≡ some (a, type_addr)
    → dali_send bufsize (some (order cmd 0 1 type_rx (some s)))
      ≡ done (dali_frame cmd (dali_service type_rx cmd) 0 (dali_address type_addr a 1))
unfolding dali_send order dali_frame hex_byte
dali_send-target bufsize cmd type_rx a type_addr s h e = rw e (
    ap done (
      take-all (dali_frame cmd (dali_service type_rx cmd) 0 (dali_address type_addr a 1))
        (bufsize - 1) (omega arith)))

-- The frame of a query on one lamp and on a group: the code, the service byte, no data and the
-- address byte, with the bit for a group and the lowest bit set.
abbrev pub IsAsked : ℕ → ℕ → Query → Type 0
IsAsked a bufsize (name, (cmd, service)) =
    (umdk_dali_command (codes "query " ++ (name ++ (codes "dev " ++ dec a))) bufsize
      ≡ done (hex_bytes (cmd ∷ service ∷ 0 ∷ (a * 2 + 1) ∷ [])))
    × (umdk_dali_command (codes "query " ++ (name ++ (codes "group " ++ dec a))) bufsize
        ≡ done (hex_bytes (cmd ∷ service ∷ 0 ∷ (0x80 + (a * 2 + 1)) ∷ [])))

-- The pairs of an answer with this code and address byte: those of the byte `b`, behind the number.
abbrev pub IsAnswered : ℕ → ℕ → Msgs → Query → Type 0
IsAnswered a b ms (name, (cmd, service)) =
    (umdk_dali_reply (cmd ∷ (a * 2 + 1) ∷ b ∷ []) 3 ms
      ≡ done (true, dali_answer cmd b (add_value_pair ms (codes "address") (dec a))))
    × (umdk_dali_reply (cmd ∷ (0x80 + (a * 2 + 1)) ∷ b ∷ []) 3 ms
        ≡ done (true, dali_answer cmd b (add_value_pair ms (codes "group") (dec a))))

-- A query that the table has by its name, without an argument and with this service byte.
abbrev IsPlain : Query → Type 0
IsPlain (name, (cmd, service)) =
    ((s : List ℕ) → matching queries (name ++ s) ≡ some (word_of name cmd (service / 8) plain, s))
    × (dali_service (service / 8) cmd ≡ service)

abbrev HasOneByte : Query → Type 0
HasOneByte (name, (cmd, service)) =
    (ltb cmd 0xF0 ≡ true) × (((cmd == 0xF1) || ((cmd == 0xC0) || (cmd == 0xC1))) ≡ false)

module _ (a : ℕ) (h : a < 63) where
  dev_byte : dali_address 0 a 1 ≡ a * 2 + 1
  unfolding dali_address
  dev_byte = let own = low_bits 6 a in omega (arith, own)

  group_byte : dali_address 1 a 1 ≡ 0x80 + (a * 2 + 1)
  unfolding dali_address
  group_byte = let own = low_bits 6 a in omega (arith, own)

  query-target :
      (bufsize type_addr : ℕ) (q : Query) (text : List ℕ)
      → 8 < bufsize
      → IsPlain q
      → target (text ++ dec a) ≡ some (a, type_addr)
      → umdk_dali_command (codes "query " ++ (q.0 ++ (text ++ dec a))) bufsize
        ≡ done (dali_frame q.1.0 q.1.1 0 (dali_address type_addr a 1))
  unfolding umdk_dali_command dali_words read_argument
  query-target bufsize type_addr (name, (cmd, service)) text i p e = rw (p.0 (text ++ dec a)) (
      dali_send-target bufsize cmd (service / 8) a type_addr (text ++ dec a) i e
      ∙ ap (λ (n : ℕ). done (dali_frame cmd n 0 (dali_address type_addr a 1))) p.1)

  asked : (bufsize : ℕ) (q : Query) → 8 < bufsize → IsPlain q → IsAsked a bufsize q
  unfolding dali_frame
  asked bufsize (name, (cmd, service)) i p = (
    query-target bufsize 0 (name, (cmd, service)) (codes "dev ") i p (target-dev a (omega arith))
        ∙ ap (λ (n : ℕ). done (dali_frame cmd service 0 n)) dev_byte,
    query-target bufsize 1 (name, (cmd, service)) (codes "group ") i p
          (target-group a (omega arith))
        ∙ ap (λ (n : ℕ). done (dali_frame cmd service 0 n)) group_byte,
  )

  answered : (b : ℕ) (ms : Msgs) (q : Query) → HasOneByte q → IsAnswered a b ms q
  unfolding umdk_dali_reply
  answered b ms (name, (cmd, service)) (small, other) =
      let sent : (t : ℕ)
          → t < 2
          → dali_sender cmd (dali_address t a 1) ms
            ≡ add_value_pair ms (if t == 1 then codes "group" else codes "address") (dec a) =
        λ t j. dali_sender-dali_address cmd t a ms (ground (arith, small)) j h in
      (
        rw (other, sym dev_byte, sent 0 (omega arith)) refl,
        rw (other, sym group_byte, sent 1 (omega arith)) refl,
      )

  IsAsked-All :
      (bufsize : ℕ) (qs : List Query) → 8 < bufsize → All IsPlain qs → All (IsAsked a bufsize) qs
  IsAsked-All bufsize [] i p = tt
  IsAsked-All bufsize (q ∷ qs) i p = (asked bufsize q i p.0, IsAsked-All bufsize qs i p.1)

  answered-All :
      (b : ℕ) (ms : Msgs) (qs : List Query) → All HasOneByte qs → All (IsAnswered a b ms) qs
  answered-All b ms [] p = tt
  answered-All b ms (q ∷ qs) p = (answered b ms q p.0, answered-All b ms qs p.1)

-- Each query without an argument of its own, on a lamp or a group with a number below 63 and for a
-- buffer of more than eight characters, becomes the frame of its code, service byte and address byte.
-- An answer of one byte with this code and address byte, for a query that is not about the list of
-- groups, adds the same number, as an address or as a group, and behind it the pairs of the byte.
pub umdk_dali_command-umdk_dali_reply :
    (a bufsize b : ℕ) (ms : Msgs)
    → a < 63
    → 8 < bufsize
    → All (IsAsked a bufsize) (byte_queries ++ list_queries) × All (IsAnswered a b ms) byte_queries
unfolding matching dali_service
umdk_dali_command-umdk_dali_reply a bufsize b ms h i = (
  IsAsked-All a h bufsize (byte_queries ++ list_queries) i (
    (λ s. refl, refl),
    (
      (λ s. refl, refl),
      (
        (λ s. refl, refl),
        (
          (λ s. refl, refl),
          (
            (λ s. refl, refl),
            (
              (λ s. refl, refl),
              (
                (λ s. refl, refl),
                (
                  (λ s. refl, refl),
                  (
                    (λ s. refl, refl),
                    (
                      (λ s. refl, refl),
                      (
                        (λ s. refl, refl),
                        (
                          (λ s. refl, refl),
                          (
                            (λ s. refl, refl),
                            (
                              (λ s. refl, refl),
                              (
                                (λ s. refl, refl),
                                (
                                  (λ s. refl, refl),
                                  (
                                    (λ s. refl, refl),
                                    (
                                      (λ s. refl, refl),
                                      ((λ s. refl, refl), ((λ s. refl, refl), tt)),
                                    ),
                                  ),
                                ),
                              ),
                            ),
                          ),
                        ),
                      ),
                    ),
                  ),
                ),
              ),
            ),
          ),
        ),
      ),
    ),
  ),
  answered-All a h b ms byte_queries (
    (refl, refl),
    (
      (refl, refl),
      (
        (refl, refl),
        (
          (refl, refl),
          (
            (refl, refl),
            (
              (refl, refl),
              (
                (refl, refl),
                (
                  (refl, refl),
                  (
                    (refl, refl),
                    (
                      (refl, refl),
                      (
                        (refl, refl),
                        (
                          (refl, refl),
                          (
                            (refl, refl),
                            (
                              (refl, refl),
                              ((refl, refl), ((refl, refl), ((refl, refl), ((refl, refl), tt)))),
                            ),
                          ),
                        ),
                      ),
                    ),
                  ),
                ),
              ),
            ),
          ),
        ),
      ),
    ),
  ),
)
