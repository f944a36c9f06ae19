-- ===== src/Worker/Rounds.antt =====
-- The rounds of the pending worker as a step relation: what may happen to a device, and when.
use mathlib.Core.Path.{subst}
use lora_mqtt.Prelude.{
  ◌+◌, ◌*◌, ◌≤◌, ◌<◌, ◌≡◌, refl, sym, inl, inr, Bool, true, false, not, ◌&&◌, List, [], ◌∷◌, ◌++◌,
  some, none, ltb, ◌==◌, if◌then◌else◌, elapsed_gt, arith, Option-cases, Bool-cases, pos,
}
use lora_mqtt.Text.Format.{hex}
use lora_mqtt.Fifo.{Frame, Fifo}
use lora_mqtt.Message.{MqttMsg}
use lora_mqtt.Pending.{PendingItem, class_a, class_c}
use lora_mqtt.Gate.{Config, Env, Effect, uart, device_message}
use lora_mqtt.Worker.{
  serve_pending, serve_invite, serve_send, after_send, invite_mote, next_retry, invite_failed,
  send_failed, invite_timeout_s,
}

-- The device waits for an invited node to join.
abbrev pub invited : PendingItem → Bool
invited e = (e.nodeclass == class_c) && e.has_been_invited

abbrev pub failure : PendingItem → List MqttMsg
failure e = if invited e then invite_failed else send_failed

-- Nothing happens where the queue is empty, where a class A device did not ask, where an invitation or
-- a frame is not due yet, and where a failure cannot be published for want of memory. `transmit`: the oldest frame goes out and stays in the queue.
-- `invite`: an invitation goes out. `give_up`: the oldest frame is dropped and the failure published.
pub data Round (c : Config) (env : Env) (e : PendingItem) : PendingItem → List Effect → Type 0 where
  empty : e.pending_fifo ≡ [] → Round c env e e []
  asleep : e.nodeclass ≡ class_a → e.can_send ≡ false → Round c env e e []
  await_join :
      e.num_retries ≤ 5
      → invited e ≡ true
      → elapsed_gt env.now e.last_inv (pos (e.num_retries * invite_timeout_s)) ≡ false
      → Round c env e e []
  await_pause :
      invited e ≡ false → elapsed_gt env.now e.last_msg c.tx_delay ≡ false → Round c env e e []
  no_memory :
      5 < e.num_retries
      → device_message c env (hex e.nodeid) (failure e) ≡ none
      → Round c env e e []
  transmit :
      (x : Frame) (l : Fifo)
      → e.pending_fifo ≡ x ∷ l
      → e.num_retries ≤ 5
      → invited e ≡ false
      → (e.nodeclass ≡ class_a → e.can_send ≡ true)
      → elapsed_gt env.now e.last_msg c.tx_delay ≡ true
      → Round c env e (after_send c env e) (uart (x ++ 13 ∷ []) ∷ [])
  invite :
      e.num_retries ≤ 5
      → invited e ≡ true
      → e.last_inv + e.num_retries * invite_timeout_s < env.now
      → Round c env e
          (record e { last_inv = env.now; num_retries = next_retry e })
          (invite_mote c env e.nodeid)
  give_up :
      (x : Frame) (l : Fifo) (es : List Effect)
      → e.pending_fifo ≡ x ∷ l
      → 5 < e.num_retries
      → device_message c env (hex e.nodeid) (failure e) ≡ some es
      → Round c env e (record e { pending_fifo = l; num_retries = 0 }) es

of_result :
    (c : Config) (env : Env) (e : PendingItem) {r s : PendingItem × List Effect}
    → r ≡ s
    → Round c env e s.0 s.1
    → Round c env e r.0 r.1
of_result c env e p h = subst (λ t. Round c env e t.0 t.1) (sym p) h

serve_invite-Round :
    (c : Config) (env : Env) (e : PendingItem) (x : Frame) (l : Fifo)
    → e.pending_fifo ≡ x ∷ l
    → invited e ≡ true
    → Round c env e (serve_invite c env e).0 (serve_invite c env e).1
unfolding serve_invite
serve_invite-Round c env e x l q i = elim (Bool-cases (ltb 5 e.num_retries)) [
  | inl m ↦ elim (Option-cases (device_message c env (hex e.nodeid) invite_failed)) [
    | inl n ↦ of_result c env e {s = (e, [])} (rw (m, n)) (no_memory (ground arith) (rw i n))
    | inr (es, n) ↦
        of_result c env e {s = (record e { pending_fifo = l; num_retries = 0 }, es)} (ground arith)
          (give_up x l es q (ground arith) (rw i n))
  ]
  | inr m ↦
      elim (Bool-cases (elapsed_gt env.now e.last_inv (pos (e.num_retries * invite_timeout_s)))) [
        | inl d ↦
            of_result c env e {s = (_, _)} (rw (m, d)) (invite (ground arith) i (ground arith))
        | inr d ↦ of_result c env e {s = (e, [])} (rw (m, d)) (await_join (ground arith) i d)
      ]
]

serve_send-Round :
    (c : Config) (env : Env) (e : PendingItem) (x : Frame) (l : Fifo)
    → e.pending_fifo ≡ x ∷ l
    → invited e ≡ false
    → (e.nodeclass ≡ class_a → e.can_send ≡ true)
    → elapsed_gt env.now e.last_msg c.tx_delay ≡ true
    → Round c env e (serve_send c env e).0 (serve_send c env e).1
unfolding serve_send
serve_send-Round c env e x l q i a d = elim (Bool-cases (ltb 5 e.num_retries)) [
  | inl m ↦ elim (Option-cases (device_message c env (hex e.nodeid) send_failed)) [
    | inl n ↦ of_result c env e {s = (e, [])} (rw (m, n)) (no_memory (ground arith) (rw i n))
    | inr (es, n) ↦
        of_result c env e {s = (record e { pending_fifo = l; num_retries = 0 }, es)} (ground arith)
          (give_up x l es q (ground arith) (rw i n))
  ]
  | inr m ↦
      of_result c env e {s = (after_send c env e, uart (x ++ 13 ∷ []) ∷ [])} (ground arith)
        (transmit x l q (ground arith) i a d)
]

-- Every round of `pending_worker` for an occupied slot is a step of the relation: nothing, a
-- transmission of the oldest frame, an invitation, or the drop of the oldest frame, each under its
-- conditions and with its effects.
pub serve_pending-Round :
    (c : Config) (env : Env) (e : PendingItem)
    → Round c env e (serve_pending c env e).0 (serve_pending c env e).1
unfolding serve_pending
serve_pending-Round c env e = queue e.pending_fifo refl
  where
    Goal : Type 0
    Goal = Round c env e (serve_pending c env e).0 (serve_pending c env e).1

    idle : serve_pending c env e ≡ (e, []) → Round c env e e [] → Goal
    idle p r = of_result c env e {s = (e, [])} p r

    queue : (q : Fifo) → e.pending_fifo ≡ q → Goal
    queue [] p = idle (ground arith) (empty p)
    queue (x ∷ l) p = elim (Bool-cases ((e.nodeclass == class_a) && not e.can_send)) [
      | inl a ↦ idle (ground arith) (asleep (ground arith) (ground arith))
      | inr a ↦ elim (Bool-cases (invited e)) [
        | inl i ↦
            of_result c env e {s = serve_invite c env e} (ground arith)
              (serve_invite-Round c env e x l p i)
        | inr i ↦ elim (Bool-cases (elapsed_gt env.now e.last_msg c.tx_delay)) [
          | inl d ↦
              of_result c env e {s = serve_send c env e} (ground arith)
                (serve_send-Round c env e x l p i (ground arith) d)
          | inr d ↦ idle (ground arith) (await_pause i d)
        ]
      ]
    ]
