-- ===== src/System/Runs/Replies.antt =====
-- The handlers of the replies and the invariant of the table.
use lora_mqtt.Prelude.{
  ℕ, ◌≡◌, refl, sym, Bool, true, false, List, Option, none, some, if◌then◌else◌, arith,
  Option-cases, inl, inr, ◌==◌, drop, get_or,
}
use mathlib.Core.Path.{subst}
use lora_mqtt.Hex.{Parsed, parsed, rejected, past_end, load}
use lora_mqtt.Pending.{Table, pending_to_nodeid}
use lora_mqtt.Message.{MqttStatus}
use lora_mqtt.Modules.{Module}
use lora_mqtt.Gate.{Config, Gate, Env, Effect, with_message}
use lora_mqtt.Reply.{
  with_bytes, with_number, acknowledge, demand, publish_data, reply_list, reply_ind, reply_join,
  reply_kick, reply_ack, reply_pending_req, serve_reply,
}
use lora_mqtt.Reply.Acks.{acknowledge-nodeid, demand-nodeid}
use lora_mqtt.System.Slots.{acknowledge-IsSane, demand-IsSane}
use lora_mqtt.System.Table.{IsWf, update_at-IsWf, add_device-IsWf, kick_device-IsWf}

-- What a handler returns keeps the invariant.
pub record Keeps (r : Gate × List Effect) : Type 0 where
  pub wf : IsWf r.0.pending

pub with_number-Keeps :
    (c : Config) (g : Gate) (p : Parsed) (k : ℕ → Gate × List Effect)
    → IsWf g.pending
    → ((n : ℕ) → Keeps (k n))
    → Keeps (with_number c g p k)
unfolding with_number
with_number-Keeps c g (parsed bs) k w h = h (load c.big_endian bs)
with_number-Keeps c g rejected k w h = record { wf = w }
with_number-Keeps c g past_end k w h = record { wf = w }

pub with_message-Keeps :
    (g : Gate) (o : Option (List Effect)) (k : List Effect → Gate × List Effect)
    → IsWf g.pending
    → ((es : List Effect) → Keeps (k es))
    → Keeps (with_message g o k)
unfolding with_message
with_message-Keeps g none k w h = record { wf = w }
with_message-Keeps g (some es) k w h = h es

with_bytes-Keeps :
    (g : Gate) (p : Parsed) (k : List ℕ → Gate × List Effect)
    → IsWf g.pending
    → ((bs : List ℕ) → Keeps (k bs))
    → Keeps (with_bytes g p k)
unfolding with_bytes
with_bytes-Keeps g (parsed bs) k w h = h bs
with_bytes-Keeps g rejected k w h = record { wf = w }
with_bytes-Keeps g past_end k w h = record { wf = w }

pub if-Keeps :
    (b : Bool) {x y : Gate × List Effect} → Keeps x → Keeps y → Keeps (if b then x else y)
if-Keeps true h k = h
if-Keeps false h k = k

-- A result with the table that is named.
pub of_table : {r : Gate × List Effect} (t : Table) → IsWf t → r.0.pending ≡ t → Keeps r
of_table t w e = record { wf = subst IsWf (sym e) w }

module _ (env : Env) (g : Gate) (str : List ℕ) (w : IsWf g.pending) where
  reply_list-Keeps : Keeps (reply_list env g str)
  unfolding reply_list
  reply_list-Keeps = with_number-Keeps _ _ _ _ w λ nodeid. with_number-Keeps _ _ _ _ w λ appid.
      with_number-Keeps _ _ _ _ w λ lseen.
        with_number-Keeps _ _ _ _ w
          λ cl. of_table _ (add_device-IsWf g.pending nodeid cl true env.now w) (ground arith)

  reply_join-Keeps : Keeps (reply_join env g str)
  unfolding reply_join
  reply_join-Keeps = with_number-Keeps _ _ _ _ w λ nodeid.
      with_message-Keeps _ _ _ w
        λ es. of_table _ (add_device-IsWf g.pending nodeid _ true env.now w) refl

  reply_kick-Keeps : Keeps (reply_kick env g str)
  unfolding reply_kick
  reply_kick-Keeps = with_number-Keeps _ _ _ _ w λ id.
      elim (Option-cases (pending_to_nodeid g.pending id)) [
        | inl n ↦ of_table g.pending w (rw n)
        | inr (i, p) ↦ of_table _ (kick_device-IsWf g.pending id w) (rw p)
      ]

  reply_ack-Keeps : Keeps (reply_ack env g str)
  unfolding reply_ack
  reply_ack-Keeps = with_number-Keeps _ _ _ _ w λ id.
      elim (Option-cases (pending_to_nodeid g.pending id)) [
        | inl n ↦ of_table g.pending w (rw n)
        | inr (i, p) ↦
            of_table _
              (update_at-IsWf acknowledge acknowledge-IsSane acknowledge-nodeid g.pending id i p w)
              (rw p)
      ]

  reply_pending_req-Keeps : Keeps (reply_pending_req env g str)
  unfolding reply_pending_req
  reply_pending_req-Keeps = with_number-Keeps _ _ _ _ w λ id.
      elim (Option-cases (pending_to_nodeid g.pending id)) [
        | inl n ↦ of_table g.pending w (rw n)
        | inr (i, p) ↦
            of_table _ (update_at-IsWf demand demand-IsSane demand-nodeid g.pending id i p w) (rw p)
      ]

  publish_data-Keeps :
      (modules : List Module) (addr : List ℕ) (status : MqttStatus) (bytes : List ℕ) (len : ℕ)
      → Keeps (publish_data modules env g addr status bytes len)
  unfolding publish_data
  publish_data-Keeps modules addr status bytes len = of_table g.pending w (ground arith)

  reply_ind-Keeps : (modules : List Module) → Keeps (reply_ind modules env g str)
  unfolding reply_ind
  reply_ind-Keeps modules = with_number-Keeps _ _ _ _ w λ nodeid.
      with_number-Keeps _ _ _ _ w λ rssi.
        with_number-Keeps _ _ _ _ w
          λ status. with_bytes-Keeps _ _ _ w λ bs. publish_data-Keeps modules _ _ _ _

pub serve_reply-IsWf :
    (modules : List Module) (env : Env) (g : Gate) (mtext : List ℕ)
    → IsWf g.pending
    → IsWf (serve_reply modules env g mtext).0.pending
unfolding serve_reply
serve_reply-IsWf modules env g mtext w =
    let str = drop 1 mtext in
    let is = λ (c : ℕ). get_or mtext 0 0 == c in
    (if-Keeps (is b'L') (reply_list-Keeps env g str w) (
      if-Keeps (is b'I') (reply_ind-Keeps env g str w modules) (
        if-Keeps (is b'J') (reply_join-Keeps env g str w) (
          if-Keeps (is b'K') (reply_kick-Keeps env g str w) (
            if-Keeps (is b'A') (reply_ack-Keeps env g str w)
              (if-Keeps (is b'R') (reply_pending_req-Keeps env g str w) (record { wf = w }))))))).wf
