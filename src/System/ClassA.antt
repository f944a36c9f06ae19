-- ===== src/System/ClassA.antt =====
-- mqtt.c: one frame of a class A device, from the request of the gate to the acknowledgement.
use lora_mqtt.Prelude.{◌-◌, ◌≤◌, ◌<◌, ◌≡◌, true, [], ◌∷◌, ◌++◌, elapsed_gt, arith}
use lora_mqtt.Fifo.{Frame, Fifo, m_dequeue, m_peek, is_fifo_empty}
use lora_mqtt.Pending.{PendingItem, class_a}
use lora_mqtt.Gate.{Config, Env, uart}
use lora_mqtt.Worker.{serve_pending, serve_send, after_send}
use lora_mqtt.Reply.{acknowledge, demand}

-- A class A device with a frame waiting and counted, not given up yet, whose gate requests the next
-- frame: the next round of the pending worker transmits the oldest frame, at any time past the
-- configured delay since the epoch, and no second time without a new request; the acknowledgement
-- takes that frame alone off the queue and the count.
pub demand-acknowledge :
    (c : Config) (env later : Env) (e : PendingItem) (x : Frame) (l : Fifo)
    → e.pending_fifo ≡ x ∷ l
    → e.nodeclass ≡ class_a
    → 0 < e.num_pending
    → e.num_retries ≤ 5
    → elapsed_gt env.now 0 c.tx_delay ≡ true
    → ((serve_pending c env (demand e)).1 ≡ uart (x ++ 13 ∷ []) ∷ [])
      × (serve_pending c later (serve_pending c env (demand e)).0
          ≡ ((serve_pending c env (demand e)).0, []))
      × ((acknowledge (serve_pending c env (demand e)).0).pending_fifo ≡ l)
      × ((acknowledge (serve_pending c env (demand e)).0).num_pending ≡ e.num_pending - 1)
unfolding serve_pending serve_send after_send demand acknowledge is_fifo_empty m_peek m_dequeue
demand-acknowledge c env later e x l q a n r d =
    (ground arith, ground arith, ground arith, ground arith)
