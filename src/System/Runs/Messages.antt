-- ===== src/System/Runs/Messages.antt =====
-- The callback for messages of the broker and the invariant of the table.
use lora_mqtt.Prelude.{
  ℕ, ◌≡◌, refl, false, not, ◌==◌, ◌&&◌, List, [], ◌∷◌, Option, none, some, arith, Option-cases, inl,
  inr, ltb, length, get_or, eq_int,
}
use lora_mqtt.Text.Literal.{codes, starts_with, str_eq}
use lora_mqtt.Pending.{pending_to_nodeid, item_at}
use lora_mqtt.Modules.{Module, Outcome, done, undefined}
use lora_mqtt.Gate.{Gate, Env, Effect, fault}
use lora_mqtt.Callback.{
  topics_fit, mote_command, with_text, with_written, send_text, mote_topics, gate_topics,
  list_request, serve_message, split_topic, Incoming, after_effects, queued, individual_frame,
  enqueue_frame, message_to_mote, message_broadcast, send_command, serve_topics, devices_list,
  my_message_callback,
}
use lora_mqtt.Callback.Downlink.{queued-nodeid}
use lora_mqtt.System.Slots.{queued-IsSane}
use lora_mqtt.System.Table.{IsWf, update_at-IsWf, add_device-IsWf}
use lora_mqtt.System.Runs.Replies.{Keeps, with_number-Keeps, with_message-Keeps, if-Keeps, of_table}

after_effects-Keeps :
    (es : List Effect) (r : Gate × List Effect) → Keeps r → Keeps (after_effects es r)
after_effects-Keeps es r h = record { wf = h.wf }

enqueue_frame-Keeps :
    (env : Env) (g : Gate) (addr : ℕ) (payload : List ℕ)
    → IsWf g.pending
    → Keeps (enqueue_frame env g addr payload)
unfolding enqueue_frame
enqueue_frame-Keeps env g addr payload w = elim (Option-cases (pending_to_nodeid g.pending addr)) [
  | inl n ↦ of_table g.pending w (ground arith)
  | inr (i, p) ↦ elim (Option-cases (item_at g.pending i)) [
    | inl n ↦ of_table g.pending w (ground arith)
    | inr (e, q) ↦
        let write = queued env.cell_memory (individual_frame addr payload) in
        of_table _
          (update_at-IsWf write (queued-IsSane env.cell_memory (individual_frame addr payload))
            (queued-nodeid env.cell_memory (individual_frame addr payload)) g.pending addr i p w)
          (ground arith)
  ]
]

message_to_mote-Keeps :
    (env : Env) (g : Gate) (addr : ℕ) (payload : List ℕ)
    → IsWf g.pending
    → Keeps (message_to_mote env g addr payload)
unfolding message_to_mote
message_to_mote-Keeps env g addr payload w = lookup (pending_to_nodeid g.pending addr) refl
  where
    lookup :
        (o : Option ℕ)
        → pending_to_nodeid g.pending addr ≡ o
        → Keeps (message_to_mote env g addr payload)
    lookup (some i) p = rw (p, message_to_mote) (enqueue_frame-Keeps env g addr payload w)
    lookup none p =
        rw (p, message_to_mote)
          (with_message-Keeps _ _ _ w λ es. after_effects-Keeps es _ (
            enqueue_frame-Keeps env _ addr payload
              (add_device-IsWf g.pending addr _ false env.now w)))

with_text-Keeps :
    (g : Gate) (o : Option (List ℕ)) (k : List ℕ → Gate × List Effect)
    → IsWf g.pending
    → ((t : List ℕ) → Keeps (k t))
    → Keeps (with_text g o k)
unfolding with_text
with_text-Keeps g none k w h = record { wf = w }
with_text-Keeps g (some t) k w h = h t

with_written-Keeps :
    (g : Gate) (o : Option (Outcome (List ℕ))) (k : List ℕ → Gate × List Effect)
    → IsWf g.pending
    → ((t : List ℕ) → Keeps (k t))
    → Keeps (with_written g o k)
unfolding with_written
with_written-Keeps g none k w h = record { wf = w }
with_written-Keeps g (some undefined) k w h = record { wf = w }
with_written-Keeps g (some (done t)) k w h = h t

send_text-Keeps :
    (env : Env) (g : Gate) (addr : Option ℕ) (buf : List ℕ)
    → IsWf g.pending
    → Keeps (send_text env g addr buf)
unfolding send_text message_broadcast
send_text-Keeps env g none buf w = record { wf = w }
send_text-Keeps env g (some nodeid) buf w = message_to_mote-Keeps env g nodeid buf w

module _ (modules : List Module) (env : Env) where
  send_command-Keeps :
      (g : Gate) (addr : Option ℕ) (type : List ℕ) (payload : Option (List ℕ))
      → IsWf g.pending
      → Keeps (send_command modules env g addr type payload)
  unfolding send_command
  send_command-Keeps g addr type none w =
      with_written-Keeps _ _ _ w λ buf. send_text-Keeps env g addr buf w
  send_command-Keeps g addr type (some param) w =
      with_written-Keeps _ _ _ w λ buf. send_text-Keeps env g addr buf w

  module _ (g : Gate) (ts : List (List ℕ)) (payload : Option (List ℕ)) (w : IsWf g.pending) where
    mote_topics-Keeps : Keeps (mote_topics modules env g ts payload)
    unfolding mote_topics mote_command
    mote_topics-Keeps =
        if-Keeps (ltb 3 (length ts))
          (if-Keeps (str_eq (get_or ts 2 []) (b'*' ∷ []))
            (with_text-Keeps _ _ _ w λ type. send_command-Keeps g none type payload w)
            (with_number-Keeps _ _ _ _ w λ nodeid.
              with_text-Keeps _ _ _ w λ type. send_command-Keeps g (some nodeid) type payload w))
          (record { wf = w })

    gate_topics-Keeps : Keeps (gate_topics modules env g ts payload)
    unfolding gate_topics
    gate_topics-Keeps =
        if-Keeps (starts_with (codes "gate") (get_or ts 2 []))
          (with_message-Keeps _ _ _ w λ es. after_effects-Keeps es _ mote_topics-Keeps)
          mote_topics-Keeps

    list_request-Keeps : Keeps (list_request g ts)
    unfolding list_request devices_list
    list_request-Keeps =
        if-Keeps ((length ts == 3) && starts_with (codes "get") (get_or ts 2 []))
          (record { wf = w }) (record { wf = w })

  pub my_message_callback-IsWf :
      (g : Gate) (message : Incoming)
      → IsWf g.pending
      → IsWf (my_message_callback modules env g message).0.pending
  unfolding my_message_callback serve_message serve_topics
  my_message_callback-IsWf g message w =
      let ts = split_topic [] message.topic in
      let stay : Keeps (g, []) = record { wf = w } in
      let broken : Keeps (g, fault ∷ []) = record { wf = w } in
      let served : Keeps (serve_topics modules env g ts message.payload) =
        after_effects-Keeps (list_request g ts).1 _ (
          gate_topics-Keeps (list_request g ts).0 ts message.payload
            (list_request-Keeps g ts message.payload w).wf) in
      (if-Keeps (eq_int 0 message.mid)
        (if-Keeps (not (topics_fit ts)) broken (
          if-Keeps (ltb (length ts) 2) stay (
            if-Keeps (not (starts_with (codes "devices") (get_or ts 0 []))) stay
              (if-Keeps (not (starts_with (codes "lora") (get_or ts 1 []))) stay served))))
        stay).wf
