-- ===== src/Modules/Pulse/Hours.antt =====
-- modules/umdk-pulse.c: the values of the hours before, against the differences that were sent.
use lora_mqtt.Prelude.{ℕ, zero, suc, ◌+◌, ◌-◌, ◌%◌, ◌^◌, ◌≡◌, List, [], ◌∷◌}
use lora_mqtt.Modules.Payload.{at, word_at}

-- The values that the device meant: the newest one and the words before it, low byte first.
abbrev pub meant : List ℕ → ℕ → ℕ → ℕ → List ℕ
meant moddata zero p value = []
meant moddata (suc hours) p value =
    let before = (value + (2 ^ 32 - word_at moddata p)) % 2 ^ 32 in
    before ∷ meant moddata hours (p + 2) before

-- The two bytes of each difference are equal.
abbrev pub AreEqual : List ℕ → ℕ → ℕ → Type 0
AreEqual moddata zero p = Unit
AreEqual moddata (suc hours) p =
    (at moddata p ≡ at moddata (p + 1)) × AreEqual moddata hours (p + 2)
