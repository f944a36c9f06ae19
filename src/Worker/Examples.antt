-- ===== src/Worker/Examples.antt =====
-- Rounds of the pending worker, and the theorems at inputs.
use lora_mqtt.Prelude.{
  ◌≡◌, ◌≢◌, refl, ℕ, ◌≤◌, ◌<◌, ◌⊎◌, true, false, List, [], ◌∷◌, ◌++◌, arith, pos, take,
}
use lora_mqtt.Text.Literal.{codes}
use lora_mqtt.Fifo.{Frame}
use lora_mqtt.Pending.{PendingItem}
use lora_mqtt.Gate.{Config, Env, regular, uart}
use lora_mqtt.Worker.{serve_pending, serve_send}
use lora_mqtt.Worker.Rounds.{Round, serve_pending-Round}
use lora_mqtt.Worker.Queue.{serve_pending-pending_fifo}
use lora_mqtt.Worker.Progress.{rank, run, frame_leaves}

abbrev plain : Config
plain = record {
  mosq = true;
  mqtt_format = regular;
  mqtt_sepio = false;
  mqtt_retain = false;
  mqtt_qos = pos 1;
  tx_delay = pos 10;
  tx_maxretr = pos 3;
  big_endian = false;
}

abbrev at : ℕ → Env
at now = record {
  now = now;
  clock = record { date = codes "2017-05-01T12:00:00"; tv_usec = 0 };
  topic_memory = true;
  msg_memory = true;
  text_memory = true;
  cell_memory = true;
  stack = [];
}

abbrev frame : Frame
frame = codes "Iab0101"

-- A class B device that has been tried `tries` times.
abbrev waiting : ℕ → PendingItem
waiting tries = record {
  nodeid = 0xab;
  pending_fifo = frame ∷ codes "Iab02" ∷ [];
  last_msg = 100;
  last_inv = 0;
  nodeclass = 1;
  has_been_invited = false;
  can_send = false;
  num_retries = tries;
  num_pending = 0;
}

transmits : (serve_pending plain (at 200) (waiting 2)).1 ≡ uart (codes "Iab0101" ++ 13 ∷ []) ∷ []
unfolding serve_pending serve_send
transmits = refl

waits : serve_pending plain (at 105) (waiting 2) ≡ (waiting 2, [])
unfolding serve_pending
waits = refl

serve_pending-Round_example :
    Round plain
      (at 200)
      (waiting 6)
      (serve_pending plain (at 200) (waiting 6)).0
      (serve_pending plain (at 200) (waiting 6)).1
serve_pending-Round_example = serve_pending-Round plain (at 200) (waiting 6)

serve_pending-pending_fifo_example :
    let e' = (serve_pending plain (at 200) (waiting 6)).0 in
    (e'.pending_fifo ≡ (waiting 6).pending_fifo)
    ⊎ ((x : Frame) × ((waiting 6).pending_fifo ≡ x ∷ e'.pending_fifo)
        × (5 < (waiting 6).num_retries)
        × (e'.num_retries ≡ 0))
serve_pending-pending_fifo_example = serve_pending-pending_fifo plain (at 200) (waiting 6)

abbrev late : List Env
late = at 1000 ∷ at 2000 ∷ at 3000 ∷ at 4000 ∷ at 5000 ∷ at 6000 ∷ at 7000 ∷ []

class_b : (waiting 0).nodeclass ≢ 0
class_b h = cc

frame_leaves_example :
    (k : ℕ) × (k ≤ rank (waiting 0))
    × ((run plain (take k late) (waiting 0)).pending_fifo ≡ codes "Iab02" ∷ [])
frame_leaves_example =
    frame_leaves plain late (waiting 0) frame (codes "Iab02" ∷ []) 300 100 refl (omega arith)
      class_b (omega arith) (omega arith) (omega arith) (omega arith)
      (
        refl,
        refl,
        omega arith,
        (
          refl,
          refl,
          omega arith,
          (
            refl,
            refl,
            omega arith,
            (
              refl,
              refl,
              omega arith,
              (refl, refl, omega arith, (refl, refl, omega arith, (refl, refl, omega arith, tt))),
            ),
          ),
        ),
      )
      (omega arith)
