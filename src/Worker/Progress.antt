-- ===== src/Worker/Progress.antt =====
-- pending_worker: how long a frame stays in the queue of a device of class B or C.
use lora_mqtt.Prelude.{
  ℕ, suc, ◌+◌, ◌-◌, ◌≤◌, ◌<◌, ◌≡◌, sym, ◌∙◌, ◌≢◌, ◌⊎◌, inl, inr, true, not, ◌&&◌, List, [], ◌∷◌,
  ◌==◌, if◌then◌else◌, elapsed_gt, arith, ℤ, pos, negsuc, length, take,
}
use lora_mqtt.Text.Format.{hex}
use lora_mqtt.Fifo.{Frame, Fifo}
use lora_mqtt.Pending.{PendingItem, class_a, class_c}
use lora_mqtt.Gate.{Config, Env}
use lora_mqtt.Gate.Output.{device_message-some}
use lora_mqtt.Worker.{serve_pending, serve_invite, serve_send, invite_failed, send_failed}

-- How many rounds at most the oldest frame still takes part in.
abbrev pub rank : PendingItem → ℕ
rank e = (7 - e.num_retries) + (if (e.nodeclass == class_c) && not e.has_been_invited then 7 else 0)

-- The round finds memory, and the pause since the last transmission or invitation is over.
pub record Ready (c : Config) (env : Env) (e : PendingItem) : Type 0 where
  pub msg_memory : env.msg_memory ≡ true
  pub text_memory : env.text_memory ≡ true
  pub on_demand : e.nodeclass ≡ class_a → e.can_send ≡ true
  pub invite_due : e.last_inv + 225 < env.now
  pub send_due : elapsed_gt env.now e.last_msg c.tx_delay ≡ true

-- A round that is ready drops the oldest frame or brings it one step nearer to that.
pub serve_pending_advances :
    (c : Config) (env : Env) (e : PendingItem) (x : Frame) (l : Fifo)
    → e.pending_fifo ≡ x ∷ l
    → e.num_retries ≤ 6
    → Ready c env e
    → let e' = (serve_pending c env e).0 in
      ((e'.pending_fifo ≡ l) ⊎ ((e'.pending_fifo ≡ x ∷ l) × (rank e' < rank e)))
      × (e'.num_retries ≤ 6)
      × (e'.nodeclass ≡ e.nodeclass)
      × ((e'.last_msg ≡ e.last_msg) ⊎ (e'.last_msg ≡ env.now))
      × ((e'.last_inv ≡ e.last_inv) ⊎ (e'.last_inv ≡ env.now))
unfolding serve_pending serve_invite serve_send
serve_pending_advances c env e x l p r ready =
    let f =
      device_message-some c env (hex e.nodeid) invite_failed ready.msg_memory ready.text_memory in
    let g =
      device_message-some c env (hex e.nodeid) send_failed ready.msg_memory ready.text_memory in
    ground (arith, f, g)

-- Rounds for one slot, in turn.
abbrev pub run : Config → List Env → PendingItem → PendingItem
run c [] e = e
run c (env ∷ envs) e = run c envs (serve_pending c env e).0

-- A pause of more than `d` seconds is more than the configured one.
abbrev pub Covers : ℕ → ℤ → Type 0
Covers d (pos n) = n ≤ d
Covers d (negsuc n) = Unit {0}

-- The rounds find memory, and each comes more than `d` seconds after the one before; `t` is the time
-- of the last round.
abbrev pub Paced : ℕ → ℕ → List Env → Type 0
Paced d t [] = Unit {0}
Paced d t (env ∷ envs) =
    (env.msg_memory ≡ true) × (env.text_memory ≡ true) × (t + d < env.now) × Paced d env.now envs

elapsed_of_pause :
    (t d now last : ℕ) (z : ℤ) → Covers d z → last ≤ t → t + d < now → elapsed_gt now last z ≡ true
elapsed_of_pause t d now last (pos n) c l h = ground arith
elapsed_of_pause t d now last (negsuc n) c l h = ground arith

rank_pos : (e : PendingItem) → e.num_retries ≤ 6 → 1 ≤ rank e
rank_pos e h = omega arith

-- For a device of class B or C with a frame at the head of its queue, among rounds of the pending
-- worker that find memory and are paced by at least the longest invitation timeout and the
-- configured delay there is one, not later than the rank, after which that frame alone has left
-- the queue.
pub frame_leaves :
    (c : Config) (envs : List Env) (e : PendingItem) (x : Frame) (l : Fifo) (d t : ℕ)
    → e.pending_fifo ≡ x ∷ l
    → e.num_retries ≤ 6
    → e.nodeclass ≢ class_a
    → e.last_msg ≤ t
    → e.last_inv ≤ t
    → 225 ≤ d
    → Covers d c.tx_delay
    → Paced d t envs
    → rank e ≤ length envs
    → (k : ℕ) × (k ≤ rank e) × ((run c (take k envs) e).pending_fifo ≡ l)
frame_leaves c [] e x l d t p r a m i q v w n = absurd (omega arith)
frame_leaves c (env ∷ envs) e x l d t p r a m i q v w n =
    let ready : Ready c env e = record {
      msg_memory = w.0;
      text_memory = w.1;
      on_demand = λ z. absurd (a z);
      invite_due = omega arith;
      send_due = elapsed_of_pause t d env.now e.last_msg c.tx_delay v m w.2;
    } in
    let advances = serve_pending_advances c env e x l p r ready in
    let e' = (serve_pending c env e).0 in
    elim advances.0 [
      | inl gone ↦ (1, rank_pos e r, gone)
      | inr (kept, down) ↦
          let later : (k : ℕ) × (k ≤ rank e') × ((run c (take k envs) e').pending_fifo ≡ l) =
            frame_leaves c envs e' x l d env.now kept advances.1 (λ z. a (sym advances.2 ∙ z))
              (omega (arith, advances.3)) (omega (arith, advances.4)) q v w.3 (omega arith) in
          (suc later.0, omega arith, later.2)
    ]
