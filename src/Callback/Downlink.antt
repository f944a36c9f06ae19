-- ===== src/Callback/Downlink.antt =====
-- Frames for a mote, from the callback to the queue of the device.
use lora_mqtt.Prelude.{
  ℕ, ◌+◌, ◌%◌, ◌^◌, ◌≡◌, refl, [], ◌∷◌, ◌++◌, inl, inr, Bool, true, false, List, Option, none, some,
  ◌==◌, if◌then◌else◌, arith, Option-cases,
}
use lora_mqtt.Text.Format.{hex}
use lora_mqtt.Pending.{
  PendingItem, Table, class_a, class_c, pending_to_nodeid, add_device, new_item,
}
use lora_mqtt.Pending.Lookup.{device, pending_to_nodeid-none, pending_to_nodeid-some}
use lora_mqtt.Pending.Updates.{device-update_at}
use lora_mqtt.Pending.Devices.{IsFull, add_device_lem}
use lora_mqtt.Gate.{with_message, Gate, Env}
use lora_mqtt.Gate.Output.{device_message-some}
use lora_mqtt.Callback.{
  not_in_network, queued, notice, enqueue_frame, message_to_mote, individual_frame,
}

-- The record that a frame for `addr` is queued in: an unknown device is invited as one of class C.
abbrev pub addressee : ℕ → Option PendingItem → PendingItem
addressee addr none = new_item addr class_c true
addressee addr (some e) = e

pub queued-nodeid :
    (memory : Bool) (frame : List ℕ) (e : PendingItem) → (queued memory frame e).nodeid ≡ e.nodeid
unfolding queued
queued-nodeid memory frame e = ground arith

-- A record with one more frame at the end of its queue; only a class A device has its frames
-- counted.
abbrev pub with_frame : List ℕ → PendingItem → PendingItem
with_frame frame e = record e {
  pending_fifo = e.pending_fifo ++ frame ∷ [];
  num_pending = if e.nodeclass == class_a then (e.num_pending + 1) % 2 ^ 16 else e.num_pending;
}

queued-with_frame : (frame : List ℕ) (e : PendingItem) → queued true frame e ≡ with_frame frame e
unfolding queued
queued-with_frame frame e = refl

enqueue_frame_lem :
    (env : Env) (g : Gate) (addr : ℕ) (payload : List ℕ) (e : PendingItem) (j : ℕ)
    → device g.pending addr ≡ some e
    → (device (enqueue_frame env g addr payload).0.pending j ≡ (
        if addr == j
        then some (queued env.cell_memory (individual_frame addr payload) e)
        else device g.pending j))
      × ((enqueue_frame env g addr payload).1 ≡ notice env.cell_memory addr e)
unfolding enqueue_frame
enqueue_frame_lem env g addr payload e j h =
    elim (Option-cases (pending_to_nodeid g.pending addr)) [
      | inl n ↦ let absent = pending_to_nodeid-none g.pending addr n in absurd (cc)
      | inr (i, p) ↦
          let found = pending_to_nodeid-some g.pending addr i p in
          let write = queued env.cell_memory (individual_frame addr payload) in
          let moved =
            device-update_at write (queued-nodeid env.cell_memory (individual_frame addr payload))
              g.pending addr i j p in
          (ground (arith, moved, found.1, found.2), ground (arith, found.1, found.2))
    ]

joined :
    (t : Table) (addr now j : ℕ)
    → (IsFull t → device t addr ≡ none → ⊥)
    → device t addr ≡ none
    → device (add_device t addr class_c false now).1 j
      ≡ (if addr == j then some (new_item addr class_c true) else device t j)
joined t addr now j room absent = elim (add_device_lem t addr class_c false now j) [
  | inl full ↦ absurd (room full.2 absent)
  | inr fine ↦ ground (arith, fine.1, absent)
]

-- With memory at hand, and room in the table or the device in it already, a frame ends up at the end
-- of the queue of its device, and the records of all other devices stay. A device that was not in
-- the table is there afterwards, as one of class C that waits for its invitation.
pub message_to_mote_lem :
    (env : Env) (g : Gate) (addr : ℕ) (payload : List ℕ) (j : ℕ)
    → env.msg_memory ≡ true
    → env.text_memory ≡ true
    → env.cell_memory ≡ true
    → (IsFull g.pending → device g.pending addr ≡ none → ⊥)
    → device (message_to_mote env g addr payload).0.pending j ≡ (
        if addr == j
        then some
            (with_frame (individual_frame addr payload) (addressee addr (device g.pending addr)))
        else device g.pending j)
unfolding message_to_mote with_message
message_to_mote_lem env g addr payload j m t c room =
    elim (Option-cases (pending_to_nodeid g.pending addr)) [
      | inr (i, p) ↦
          let found = pending_to_nodeid-some g.pending addr i p in
          ground (
            arith,
            (enqueue_frame_lem env g addr payload found.0 j found.2).0,
            found.2,
            queued-with_frame (individual_frame addr payload) found.0,
          )
      | inl n ↦
          let absent = pending_to_nodeid-none g.pending addr n in
          let said = device_message-some g.config env (hex addr) not_in_network m t in
          let there = joined g.pending addr env.now j room absent in
          let g' : Gate = record g {
            pending = (add_device g.pending addr class_c false env.now).1;
          } in
          let e : device g'.pending addr ≡ some (new_item addr class_c true) =
            ground (arith, joined g.pending addr env.now addr room absent) in
          ground (
            arith,
            (enqueue_frame_lem env g' addr payload (new_item addr class_c true) j e).0,
            said,
            queued-with_frame (individual_frame addr payload) (new_item addr class_c true),
            absent,
            there,
          )
    ]
