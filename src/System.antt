-- ===== src/System.antt =====
-- mqtt.c as a whole: the threads act on the shared state one handler at a time, in any order.
-- `Table` has the invariant of the table, `Runs` is about histories, `ClassA` about one frame.
pub mod Slots
pub mod Table
pub mod Runs
pub mod ClassA
mod Examples
use lora_mqtt.Prelude.{ℕ, Option, true, false, List, [], ◌∷◌}
use lora_mqtt.Pending.{init_pending}
use lora_mqtt.Modules.{Module}
use lora_mqtt.Gate.{Config, Env, Effect, Gate}
use lora_mqtt.Worker.{worker_pass}
use lora_mqtt.Reply.{serve_reply}
use lora_mqtt.Reader.{uart_reader}
use lora_mqtt.Callback.{Incoming, my_message_callback}

-- One turn of a thread: a line for the publisher, a message for the callback, a pass of the pending
-- worker, a round of the UART reader with what the port and the file of static devices hold. The lines
-- that the reader posts may reach the publisher at any later turn.
pub data Event : Type 0 where
  replied : Env → List ℕ → Event
  received : Env → Incoming → Event
  passed : (ℕ → Env) → Event
  polled : List ℕ → Option (List (List ℕ)) → Event

-- The state when the threads start.
unfoldable pub start : Config → Gate
unfolding init_pending
start c = record {
  config = c;
  pending = init_pending;
  list_for_gate = false;
  devlist_needed = true;
  static_devices_list_sent = false;
}

unfoldable pub step : List Module → Gate → Event → Gate × List Effect
step modules g (replied env mtext) = serve_reply modules env g mtext
step modules g (received env message) = my_message_callback modules env g message
step modules g (passed envs) =
    let r = worker_pass g.config envs g.pending in (record g { pending = r.0 }, r.1)
step modules g (polled input file) = let r = uart_reader g input file in (r.0, r.1)

unfoldable pub run : List Module → Gate → List Event → Gate
unfolding step
run modules g [] = g
run modules g (e ∷ es) = run modules (step modules g e).0 es
