-- ===== src/Reader/Examples.antt =====
-- Input of the serial port, and the theorems at inputs.
use lora_mqtt.Prelude.{◌≡◌, refl, [], ◌∷◌, ◌++◌, some, arith}
use lora_mqtt.Text.Literal.{codes}
use lora_mqtt.Text.Scan.{is_space}
use lora_mqtt.Gate.{uart}
use lora_mqtt.Reader.{messages, static_line}
use lora_mqtt.Reader.Lines.{lines, messages-lines}
use lora_mqtt.Reader.Static.{static_line_lem}

-- Empty lines are left out, and what follows a terminator is not seen.
skips :
    messages (codes "A01" ++ 10 ∷ 10 ∷ (codes "P02" ++ 0 ∷ codes "K"))
    ≡ some (codes "A01" ∷ codes "P02" ∷ [])
unfolding messages
skips = refl

comment :
    static_line (codes "# a comment that is longer than the fifty-four characters of a line") ≡ []
unfolding static_line
comment = refl

messages-lines_example :
    messages (lines (codes "A1" ∷ codes "P2" ∷ [])) ≡ some (codes "A1" ∷ codes "P2" ∷ [])
messages-lines_example =
    messages-lines (codes "A1" ∷ codes "P2" ∷ [])
      ((refl, ((refl, refl), ((refl, refl), tt))), ((refl, ((refl, refl), ((refl, refl), tt))), tt))
      (omega arith)

static_line_lem_example :
    static_line (codes "abababababababab 0000000000000001 00000000 abababab 00" ++ 10 ∷ [])
    ≡ uart (codes "Aabababababababab000000000000000100000000abababab00" ++ 13 ∷ []) ∷ []
unfolding is_space
static_line_lem_example =
    static_line_lem (codes "abababababababab") (codes "0000000000000001") (codes "00000000")
      (codes "abababab") (codes "00")
      (
        (
          refl,
          (
            (
              refl,
              (
                refl,
                (
                  refl,
                  (
                    refl,
                    (
                      refl,
                      (
                        refl,
                        (
                          refl,
                          (
                            refl,
                            (refl, (refl, (refl, (refl, (refl, (refl, (refl, (refl, tt)))))))),
                          ),
                        ),
                      ),
                    ),
                  ),
                ),
              ),
            ),
            omega arith,
          ),
        ),
        (
          (
            refl,
            (
              (
                refl,
                (
                  refl,
                  (
                    refl,
                    (
                      refl,
                      (
                        refl,
                        (
                          refl,
                          (
                            refl,
                            (
                              refl,
                              (refl, (refl, (refl, (refl, (refl, (refl, (refl, (refl, tt)))))))),
                            ),
                          ),
                        ),
                      ),
                    ),
                  ),
                ),
              ),
              omega arith,
            ),
          ),
          (
            (
              refl,
              ((refl, (refl, (refl, (refl, (refl, (refl, (refl, (refl, tt)))))))), omega arith),
            ),
            (
              (
                refl,
                ((refl, (refl, (refl, (refl, (refl, (refl, (refl, (refl, tt)))))))), omega arith),
              ),
              ((refl, ((refl, (refl, tt)), omega arith)), tt),
            ),
          ),
        ),
      )
      (omega arith) refl
