-- ===== src/System/Slots.antt =====
-- The invariant of one slot, and the operations on a device.
use lora_mqtt.Prelude.{ℕ, ◌≤◌, ◌<◌, ◌^◌, ◌≡◌, Bool, true, List, [], arith}
use lora_mqtt.Pending.{PendingItem, Slot, new_item, rejoin}
use lora_mqtt.Gate.{Config, Env}
use lora_mqtt.Worker.{serve_pending, serve_invite, serve_send}
use lora_mqtt.Reply.{acknowledge, demand}
use lora_mqtt.Callback.{queued}

-- At most six attempts are counted, so `num_retries` never wraps, and `num_pending` fits its type.
pub record IsSane (e : PendingItem) : Type 0 where
  pub tries : e.num_retries ≤ 6
  pub count : e.num_pending < 2 ^ 16

-- A free cell holds no frames, so that taking the cell loses none.
abbrev pub IsOk : Slot → Type 0
IsOk s = IsSane s.item × (s.free ≡ true → s.pending_fifo ≡ [])

pub new_item-IsSane : (id cls : ℕ) (b : Bool) → IsSane (new_item id cls b)
unfolding new_item
new_item-IsSane id cls b = omega arith

pub rejoin-IsSane :
    (cls : ℕ) (b : Bool) (now : ℕ) (e : PendingItem) → IsSane e → IsSane (rejoin cls b now e)
unfolding rejoin
rejoin-IsSane cls b now e h = ground arith

pub acknowledge-IsSane : (e : PendingItem) → IsSane e → IsSane (acknowledge e)
unfolding acknowledge
acknowledge-IsSane e h = omega arith

pub demand-IsSane : (e : PendingItem) → IsSane e → IsSane (demand e)
unfolding demand
demand-IsSane e h = ground arith

pub queued-IsSane :
    (memory : Bool) (frame : List ℕ) (e : PendingItem) → IsSane e → IsSane (queued memory frame e)
unfolding queued
queued-IsSane memory frame e h = ground arith

pub serve_pending-IsSane :
    (c : Config) (env : Env) (e : PendingItem) → IsSane e → IsSane (serve_pending c env e).0
unfolding serve_pending serve_invite serve_send
serve_pending-IsSane c env e h = ground arith
