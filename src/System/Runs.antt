-- ===== src/System/Runs.antt =====
-- The invariant along the histories of the threads.
mod Worker
mod Replies
mod Messages
use mathlib.Core.Path.{subst}
use lora_mqtt.Prelude.{
  ◌≡◌, refl, sym, arith, Option, List, [], ◌∷◌, All, length-replicate, ℕ, zero, suc, replicate,
  true, false,
}
use lora_mqtt.Pending.{init_pending, new_item, Slot, Table}
use lora_mqtt.Pending.Lookup.{device, UniqueIds}
use lora_mqtt.Modules.{Module}
use lora_mqtt.Gate.{Config, Gate}
use lora_mqtt.Callback.{devices_list}
use lora_mqtt.Reader.{uart_reader}
use lora_mqtt.System.{Event, replied, received, passed, polled, start, step, run}
use lora_mqtt.System.Slots.{IsOk, new_item-IsSane}
use lora_mqtt.System.Table.{IsWf}
use Worker.{worker_pass-IsWf}
use Replies.{serve_reply-IsWf}
use Messages.{my_message_callback-IsWf}

abbrev unused : Slot
unused = record { free = true; item = new_item 0 0 false }

unused-UniqueIds : (n : ℕ) → UniqueIds (replicate n unused)
unused-UniqueIds zero = tt
unused-UniqueIds (suc n) = (λ h. absurd (cc), unused-UniqueIds n)

unused-IsOk : (n : ℕ) → All IsOk (replicate n unused)
unfolding new_item
unused-IsOk zero = tt
unused-IsOk (suc n) = ((new_item-IsSane 0 0 false, λ h. refl), unused-IsOk n)

init_pending-IsWf : IsWf init_pending
unfolding init_pending
init_pending-IsWf = record {
  ids = unused-UniqueIds 1000;
  slots = unused-IsOk 1000;
  size = length-replicate 1000 unused;
}

uart_reader-pending :
    (g : Gate) (input : List ℕ) (file : Option (List (List ℕ)))
    → (uart_reader g input file).0.pending ≡ g.pending
unfolding uart_reader devices_list
uart_reader-pending g input file = ground arith

step-IsWf :
    (modules : List Module) (g : Gate) (e : Event)
    → IsWf g.pending
    → IsWf (step modules g e).0.pending
unfolding step
step-IsWf modules g (replied env mtext) w = serve_reply-IsWf modules env g mtext w
step-IsWf modules g (received env message) w = my_message_callback-IsWf modules env g message w
step-IsWf modules g (passed envs) w = worker_pass-IsWf g.config envs g.pending w
step-IsWf modules g (polled input file) w = subst IsWf (sym (uart_reader-pending g input file)) w

run-IsWf :
    (modules : List Module) (g : Gate) (es : List Event)
    → IsWf g.pending
    → IsWf (run modules g es).pending
unfolding run
run-IsWf modules g [] w = w
run-IsWf modules g (e ∷ es) w = run-IsWf modules (step modules g e).0 es (step-IsWf modules g e w)

-- After any sequence of turns of the publisher, the callback, the pending worker and the UART reader
-- since the start, whatever they read, no device occupies
-- two cells, no attempt counter is above six, no pending counter has left its type, a free cell
-- holds no frame, and the table has its thousand cells.
pub run-start-IsWf :
    (modules : List Module) (c : Config) (es : List Event) → IsWf (run modules (start c) es).pending
unfolding start
run-start-IsWf modules c es = run-IsWf modules (start c) es init_pending-IsWf
