-- ===== src/Worker.antt =====
-- mqtt.c: pending_worker and invite_mote. One pass of the loop serves each slot by itself: a call of
-- `serve_slot` is one round of the inner loop.
-- `Rounds` is the rounds as a step relation, `Queue` when a frame leaves the queue, `Progress` how
-- long one stays there.
pub mod Rounds
pub mod Queue
pub mod Progress
mod Examples
use lora_mqtt.Prelude.{
  ℕ, zero, suc, ◌+◌, ◌*◌, ◌%◌, ◌^◌, Bool, true, false, not, ◌&&◌, List, [], ◌∷◌, ◌++◌, Option, none,
  some, ltb, ◌==◌, if◌then◌else◌, elapsed_gt, eq_int, pos,
}
use lora_mqtt.Text.Literal.{codes}
use lora_mqtt.Text.Format.{hex}
use lora_mqtt.Fifo.{Fifo, m_dequeue, m_peek, is_fifo_empty}
use lora_mqtt.Pending.{Slot, PendingItem, Table, class_a, class_c}
use lora_mqtt.Message.{MqttMsg}
use lora_mqtt.Gate.{Config, Env, Effect, uart, pair, device_message, gate_command}

abbrev pub invite_timeout_s : ℕ
invite_timeout_s = 45

abbrev pub num_retries_max : ℕ
num_retries_max = 5

abbrev pub num_retries_inv : ℕ
num_retries_inv = 5

-- ++ on an unsigned short.
abbrev pub next_retry : PendingItem → ℕ
next_retry e = (e.num_retries + 1) % 2 ^ 16

-- m_dequeue(&e->pending_fifo, NULL)
abbrev pub popped : Fifo → Fifo
popped l = (m_dequeue l).1

unfoldable pub invite_mote : Config → Env → ℕ → List Effect
invite_mote c env addr =
    elim (device_message c env (hex addr) (
      pair (codes "invited") (codes "1")
      ∷ pair (codes "message") (codes "sending invitation to the node")
      ∷ [])) [ none ↦ [] | some es ↦ es ++ gate_command b'V' addr [] ∷ [] ]

abbrev pub invite_failed : List MqttMsg
invite_failed =
    pair (codes "invited") (codes "0") ∷ pair (codes "message") (codes "failed to invite node") ∷ []

abbrev pub send_failed : List MqttMsg
send_failed =
    pair (codes "sent") (codes "0")
    ∷ pair (codes "message") (codes "failed to send message to the node")
    ∷ []

-- The device is invited and has not joined.
unfoldable pub serve_invite : Config → Env → PendingItem → PendingItem × List Effect
unfolding m_dequeue
serve_invite c env e =
    if ltb num_retries_inv e.num_retries
    then elim (device_message c env (hex e.nodeid) invite_failed) [
      | none ↦ (e, [])
      | some es ↦ (record e { pending_fifo = popped e.pending_fifo; num_retries = 0 }, es)
    ]
    else if elapsed_gt env.now e.last_inv (pos (e.num_retries * invite_timeout_s))
    then (record e { last_inv = env.now; num_retries = next_retry e }, invite_mote c env e.nodeid)
    else (e, [])

-- What is written after a frame went out: after `tx_maxretr` transmissions a class C device is
-- invited again.
unfoldable pub after_send : Config → Env → PendingItem → PendingItem
after_send c env e =
    if (e.nodeclass == class_c) && eq_int (next_retry e) c.tx_maxretr
    then record e {
      last_msg = env.now;
      last_inv = env.now;
      has_been_invited = true;
      can_send = false;
      num_retries = 1;
    }
    else record e { last_msg = env.now; can_send = false; num_retries = next_retry e }

unfoldable pub serve_send : Config → Env → PendingItem → PendingItem × List Effect
unfolding m_dequeue m_peek after_send
serve_send c env e =
    if ltb num_retries_max e.num_retries
    then elim (device_message c env (hex e.nodeid) send_failed) [
      | none ↦ (e, [])
      | some es ↦ (record e { pending_fifo = popped e.pending_fifo; num_retries = 0 }, es)
    ]
    else elim (m_peek e.pending_fifo) [
      | none ↦ (e, [])
      | some buf ↦ (after_send c env e, uart (buf ++ 13 ∷ []) ∷ [])
    ]

unfoldable pub serve_pending : Config → Env → PendingItem → PendingItem × List Effect
unfolding is_fifo_empty
serve_pending c env e =
    if is_fifo_empty e.pending_fifo
    then (e, [])
    else if (e.nodeclass == class_a) && not e.can_send
    then (e, [])
    else if (e.nodeclass == class_c) && e.has_been_invited
    then serve_invite c env e
    else if elapsed_gt env.now e.last_msg c.tx_delay
    then serve_send c env e
    else (e, [])

unfoldable pub serve_slot : Config → Env → Slot → Slot × List Effect
unfolding serve_pending
serve_slot c env s =
    if s.free
    then (s, [])
    else let r = serve_pending c env s.item in (record { free = false; item = r.0 }, r.1)

-- The inner loop, slot by slot; `envs i` is what the round for slot `i` reads.
unfoldable pub worker_pass : Config → (ℕ → Env) → Table → Table × List Effect
unfolding serve_slot
worker_pass c envs [] = ([], [])
worker_pass c envs (s ∷ t) =
    let r = serve_slot c (envs 0) s in
    let q = worker_pass c (λ i. envs (suc i)) t in (r.0 ∷ q.0, r.1 ++ q.1)
