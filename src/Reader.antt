-- ===== src/Reader.antt =====
-- mqtt.c: uart_reader, one round of its loop, and send_static_devices_list.
-- `Lines` is about the split of the input, `Static` about the list of static devices.
pub mod Lines
pub mod Static
mod Examples
use lora_mqtt.Prelude.{
  ℕ, zero, suc, ◌+◌, Bool, true, false, not, ◌||◌, List, [], ◌∷◌, ◌++◌, Option, none, some, ltb,
  ◌==◌, if◌then◌else◌, length, get_or,
}
use lora_mqtt.Text.Literal.{cstr}
use lora_mqtt.Text.Scan.{is_space}
use lora_mqtt.Message.{is_nil}
use lora_mqtt.Gate.{Gate, Effect, uart, fault}
use lora_mqtt.Reply.{reply_len}
use lora_mqtt.Callback.{devices_list}

-- The parts that strsep(&running, "\n") yields, the empty ones too; `cur` is the part under way.
unfoldable pub split_lines : List ℕ → List ℕ → List (List ℕ)
split_lines cur [] = cur ∷ []
split_lines cur (c ∷ s) = elim (c == 10) [
  | true ↦ cur ∷ split_lines [] s
  | false ↦ split_lines (cur ++ c ∷ []) s
]

-- The parts that are sent as messages: neither empty nor longer than the buffer of a message.
unfoldable pub kept : List (List ℕ) → List (List ℕ)
kept [] = []
kept (t ∷ ts) =
    let rest = kept ts in if is_nil t || ltb reply_len (length t + 1) then rest else t ∷ rest

-- What was read: `none` where the buffer, with the terminator, is overrun.
unfoldable pub messages : List ℕ → Option (List (List ℕ))
unfolding cstr split_lines kept
messages input =
    if ltb (length input) reply_len then some (kept (split_lines [] (cstr input))) else none

-- sscanf with `%s` five times: the words between white space; `cur` is the word under way.
unfoldable pub words : List ℕ → List ℕ → List (List ℕ)
unfolding is_space
words cur [] = if is_nil cur then [] else cur ∷ []
words cur (c ∷ s) = elim (is_space c) [
  | true ↦ if is_nil cur then words [] s else cur ∷ words [] s
  | false ↦ words (cur ++ c ∷ []) s
]

abbrev all_fit : List ℕ → List ℕ → List ℕ → List ℕ → List ℕ → Bool
all_fit a b c d e = not (
    ltb 31 (length a)
    || (ltb 31 (length b) || (ltb 31 (length c) || (ltb 31 (length d) || ltb 31 (length e)))))

-- The command for a line of five words; with fewer of them buffers are printed that nothing was
-- written to, and a word of more than 31 characters overruns its buffer.
abbrev pub static_device : List (List ℕ) → Effect
static_device (a ∷ b ∷ c ∷ d ∷ e ∷ rest) =
    if all_fit a b c d e then uart (b'A' ∷ (a ++ (b ++ (c ++ (d ++ (e ++ 13 ∷ [])))))) else fault
static_device ts = fault

unfoldable pub static_line : List ℕ → List Effect
unfolding words
static_line line =
    if (get_or line 0 0 == b'#') || ltb (length line) 54
    then []
    else static_device (words [] line) ∷ []

-- The loop over the lines that fgets returns.
unfoldable pub static_lines : List (List ℕ) → List Effect
unfolding static_line
static_lines [] = []
static_lines (l ∷ ls) = static_line l ++ static_lines ls

-- `file` holds the lines of the file, where it can be opened.
unfoldable pub send_static_devices_list : Option (List (List ℕ)) → List Effect
unfolding static_lines
send_static_devices_list none = uart (b'K' ∷ 13 ∷ []) ∷ []
send_static_devices_list (some lines) = uart (b'K' ∷ 13 ∷ []) ∷ static_lines lines

-- What follows the pause: the device list on demand.
abbrev on_demand : Gate → Gate × List Effect
on_demand g =
    if g.devlist_needed then devices_list (record g { devlist_needed = false }) true else (g, [])

abbrev static_once : Option (List (List ℕ)) → Gate → Gate × List Effect
static_once file g =
    if g.static_devices_list_sent
    then (g, [])
    else (record g { static_devices_list_sent = true }, send_static_devices_list file)

abbrev posted : Option (List (List ℕ)) → List (List ℕ) × List Effect
posted none = ([], fault ∷ [])
posted (some ms) = (ms, [])

-- One round: the state, the effects, and the messages for the publisher. `input` is what the port
-- holds after the request.
unfoldable pub uart_reader :
    Gate → List ℕ → Option (List (List ℕ)) → Gate × List Effect × List (List ℕ)
unfolding messages devices_list send_static_devices_list
uart_reader g input file =
    let ms = posted (messages input) in
    let one = on_demand g in
    let two = static_once file one.0 in
    (two.0, uart (b'F' ∷ 13 ∷ []) ∷ (ms.1 ++ (one.1 ++ two.1)), ms.0)
