-- ===== src/Pending.antt =====
-- mqtt.c: the table of devices with their pending frames, `pending_free` and `pending`, slot by
-- slot. A pointer to a slot is its index.
-- `Lookup` reads the table as a map from device ids, `Updates` has the laws of writes through a
-- pointer, `Devices` those of add_device and kick_device.
pub mod Lookup
pub mod Updates
pub mod Devices
mod Examples
use lora_mqtt.Prelude.{
  ℕ, zero, suc, Bool, true, false, not, ◌&&◌, List, [], ◌∷◌, Option, none, some, ◌==◌,
  if◌then◌else◌, replicate,
}
use lora_mqtt.Fifo.{Fifo, drain}

abbrev pub max_pending_nodes : ℕ
max_pending_nodes = 1000

-- ls_node_class_t
abbrev pub class_a : ℕ
class_a = 0

abbrev pub class_c : ℕ
class_c = 2

pub record PendingItem : Type 0 where
  pub nodeid : ℕ
  pub pending_fifo : Fifo
  pub last_msg : ℕ
  pub last_inv : ℕ
  pub nodeclass : ℕ
  pub has_been_invited : Bool
  pub can_send : Bool
  pub num_retries : ℕ
  pub num_pending : ℕ

-- pending_free[i] and pending[i]
pub record Slot : Type 0 where
  pub free : Bool
  pub item : PendingItem
  pub open item use *

abbrev pub Table : Type 0
Table = List Slot

-- A read through a pointer to a slot.
unfoldable pub item_at : Table → ℕ → Option PendingItem
item_at [] i = none
item_at (s ∷ t) zero = some s.item
item_at (s ∷ t) (suc i) = item_at t i

-- What `add_device` writes into a free cell, and what `init_pending` writes over the zeroed memory.
unfoldable pub new_item : ℕ → ℕ → Bool → PendingItem
new_item id cls invited = record {
  nodeid = id;
  pending_fifo = [];
  last_msg = 0;
  last_inv = 0;
  nodeclass = cls;
  has_been_invited = invited;
  can_send = false;
  num_retries = 0;
  num_pending = 0;
}

unfoldable pub init_pending : Table
unfolding new_item
init_pending = replicate max_pending_nodes (record { free = true; item = new_item 0 0 false })

abbrev pub next_index : Option ℕ → Option ℕ
next_index none = none
next_index (some i) = some (suc i)

unfoldable pub pending_to_nodeid : Table → ℕ → Option ℕ
pending_to_nodeid [] id = none
pending_to_nodeid (s ∷ t) id =
    if s.free
    then next_index (pending_to_nodeid t id)
    else if s.nodeid == id
    then some 0
    else next_index (pending_to_nodeid t id)

-- A write through a pointer to a slot.
unfoldable pub update_at : Table → ℕ → (PendingItem → PendingItem) → Table
update_at [] i f = []
update_at (s ∷ t) zero f = record s { item = f s.item } ∷ t
update_at (s ∷ t) (suc i) f = s ∷ update_at t i f

-- The record that exists already: `e` of `add_device`.
unfoldable pub rejoin : ℕ → Bool → ℕ → PendingItem → PendingItem
rejoin cls was_joined now e =
    record (if (cls == class_c) && (e.has_been_invited && was_joined)
      then record e { last_msg = now; has_been_invited = false }
      else e) { nodeclass = cls; num_retries = 0 }

-- The loop of `add_device` over the free cells; `none` where there is no free cell.
unfoldable pub occupy : Table → PendingItem → Option Table
occupy [] e = none
occupy (s ∷ t) e = elim s.free [
  | true ↦ some (record { free = false; item = e } ∷ t)
  | false ↦ elim (occupy t e) [ none ↦ none | some t' ↦ some (s ∷ t') ]
]

unfoldable pub add_device : Table → ℕ → ℕ → Bool → ℕ → Bool × Table
unfolding rejoin occupy new_item
add_device t id cls was_joined now = elim (pending_to_nodeid t id) [
  | some i ↦ (true, update_at t i (rejoin cls was_joined now))
  | none ↦ elim (occupy t (new_item id cls (not was_joined))) [
    | none ↦ (false, t)
    | some t' ↦ (true, t')
  ]
]

unfoldable pub kick_device : Table → ℕ → Bool × Table
unfolding drain
kick_device [] id = (false, [])
kick_device (s ∷ t) id =
    let later : Bool × Table = kick_device t id in
    if s.free
    then (later.0, s ∷ later.1)
    else if s.nodeid == id
    then (
      true,
      record { free = true; item = record (s.item) { pending_fifo = drain s.pending_fifo } } ∷ t,
    )
    else (later.0, s ∷ later.1)
