-- ===== src/Reply/Acks.antt =====
-- Replies that change the table, as updates of the map from device ids.
use lora_mqtt.Prelude.{
  ℕ, ◌≡◌, refl, inl, inr, List, [], none, some, ◌⊎◌, ◌-◌, fun_ext, drop, false, true, not, ◌&&◌,
  ◌∷◌, ◌==◌, if◌then◌else◌, arith, Option-cases,
}
use lora_mqtt.Hex.{parsed, load}
use lora_mqtt.Fifo.{Fifo, m_dequeue}
use lora_mqtt.Pending.{PendingItem, Table, pending_to_nodeid}
use lora_mqtt.Pending.Lookup.{device, UniqueIds, pending_to_nodeid-none, pending_to_nodeid-some}
use lora_mqtt.Pending.Updates.{change, device-update_at}
use lora_mqtt.Pending.Devices.{kick_device_lem}
use lora_mqtt.Gate.{Gate, Env}
use lora_mqtt.Reply.{
  with_number, read_field, acknowledge, demand, reply_ack, reply_pending_req, reply_kick,
}

pub acknowledge-nodeid : (e : PendingItem) → (acknowledge e).nodeid ≡ e.nodeid
unfolding acknowledge
acknowledge-nodeid e = refl

pub demand-nodeid : (e : PendingItem) → (demand e).nodeid ≡ e.nodeid
unfolding demand
demand-nodeid e = ground arith

-- A record without its oldest frame, invitation and retries, and with one frame less to wait for.
abbrev pub acknowledged : PendingItem → PendingItem
acknowledged e = record e {
  pending_fifo = drop 1 e.pending_fifo;
  has_been_invited = false;
  num_retries = 0;
  num_pending = e.num_pending - 1;
}

-- A record that the pending worker may send from at once, where the device is of class A and has a
-- frame counted; any other record stays.
abbrev pub demanded : PendingItem → PendingItem
demanded e =
    let waits = (e.nodeclass == 0) && not (e.num_pending == 0) in
    record e {
      last_msg = if waits then 0 else e.last_msg;
      can_send = if waits then true else e.can_send;
    }

demand-demanded : (e : PendingItem) → demand e ≡ demanded e
unfolding demand
demand-demanded e = ground arith

popped-drop : (l : Fifo) → (m_dequeue l).1 ≡ drop 1 l
unfolding m_dequeue
popped-drop [] = refl
popped-drop (f ∷ l) = refl

acknowledge-acknowledged : (e : PendingItem) → acknowledge e ≡ acknowledged e
unfolding acknowledge
acknowledge-acknowledged e = rw (popped-drop e.pending_fifo) refl

module _ (f : PendingItem → PendingItem) where
  change_absent :
      (t : Table) (id j : ℕ)
      → device t id ≡ none
      → device t j ≡ (if id == j then change f (device t j) else device t j)
  change_absent t id j h = ground arith

module _ (env : Env) (g : Gate) (str bs : List ℕ)
    (field : read_field g.config env 16 8 str ≡ parsed bs) where
  -- An acknowledgement whose address was read takes the oldest frame off the queue of that device,
  -- ends its invitation and its retries, lowers the count of its frames unless it is zero, and
  -- changes no other device; nothing is sent.
  pub reply_ack_lem :
      (j : ℕ)
      → ((reply_ack env g str).1 ≡ [])
        × (device (reply_ack env g str).0.pending j ≡ (
            if load g.big_endian bs == j
            then change acknowledged (device g.pending j)
            else device g.pending j))
  unfolding reply_ack with_number
  reply_ack_lem j =
      let id = load g.big_endian bs in
      let same : acknowledge ≡ acknowledged = fun_ext acknowledge-acknowledged in
      elim (Option-cases (pending_to_nodeid g.pending id)) [
        | inl n ↦
            let absent =
              change_absent acknowledged g.pending id j (pending_to_nodeid-none g.pending id n) in
            ground (arith, absent)
        | inr (i, p) ↦
            ground (arith, device-update_at acknowledge acknowledge-nodeid g.pending id i j p, same)
      ]

  -- A request for frames whose address was read, for a device of class A with a frame counted, sets
  -- the time of its last message to zero and allows it to send; the record stays where the device is
  -- of another class or has no frame counted. No other device changes, and nothing is sent.
  pub reply_pending_req_lem :
      (j : ℕ)
      → ((reply_pending_req env g str).1 ≡ [])
        × (device (reply_pending_req env g str).0.pending j ≡ (
            if load g.big_endian bs == j
            then change demanded (device g.pending j)
            else device g.pending j))
  unfolding reply_pending_req with_number
  reply_pending_req_lem j =
      let id = load g.big_endian bs in
      let same : demand ≡ demanded = fun_ext demand-demanded in
      elim (Option-cases (pending_to_nodeid g.pending id)) [
        | inl n ↦
            let absent =
              change_absent demanded g.pending id j (pending_to_nodeid-none g.pending id n) in
            ground (arith, absent)
        | inr (i, p) ↦
            ground (arith, device-update_at demand demand-nodeid g.pending id i j p, same)
      ]

  -- In a table without double entries a kick removes the device that it names, and no other. It
  -- publishes nothing for a device that is not in the table.
  pub reply_kick_lem :
      (j : ℕ)
      → UniqueIds g.pending
      → (device (reply_kick env g str).0.pending j
          ≡ (if load g.big_endian bs == j then none else device g.pending j))
        × (((reply_kick env g str).1 ≡ [])
            ⊎ ((e : PendingItem) × (device g.pending (load g.big_endian bs) ≡ some e)))
  unfolding reply_kick with_number
  reply_kick_lem j u =
      let id = load g.big_endian bs in
      let kick = kick_device_lem g.pending id j u in
      elim (Option-cases (pending_to_nodeid g.pending id)) [
        | inl n ↦
            let absent = pending_to_nodeid-none g.pending id n in
            (ground (arith, absent), inl (ground arith))
        | inr (i, p) ↦
            let found = pending_to_nodeid-some g.pending id i p in
            (ground (arith, kick.1), inr (found.0, found.2))
      ]
