-- ===== src/Worker/Queue.antt =====
-- When a frame leaves the queue of a device.
use lora_mqtt.Prelude.{◌<◌, ◌≡◌, ◌⊎◌, ◌∷◌, arith}
use lora_mqtt.Fifo.{Frame}
use lora_mqtt.Pending.{PendingItem}
use lora_mqtt.Gate.{Config, Env}
use lora_mqtt.Worker.{serve_pending, serve_invite, serve_send}

-- A round keeps the queue, or it drops the oldest frame alone after more than five attempts and
-- starts the count afresh.
pub serve_pending-pending_fifo :
    (c : Config) (env : Env) (e : PendingItem)
    → let e' = (serve_pending c env e).0 in
      (e'.pending_fifo ≡ e.pending_fifo)
      ⊎ ((x : Frame) × (e.pending_fifo ≡ x ∷ e'.pending_fifo)
          × (5 < e.num_retries)
          × (e'.num_retries ≡ 0))
unfolding serve_pending serve_invite serve_send
serve_pending-pending_fifo c env e = ground arith
