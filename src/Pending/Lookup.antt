-- ===== src/Pending/Lookup.antt =====
-- The table as a map from device ids to their records, and `pending_to_nodeid` against it.
use lora_mqtt.Prelude.{
  ℕ, zero, suc, ◌≡◌, refl, inl, inr, false, [], ◌∷◌, Option, none, some, ◌==◌, if◌then◌else◌, arith,
  Option-cases,
}
use lora_mqtt.Pending.{Table, PendingItem, item_at, pending_to_nodeid}

-- The record of the device `id`, where it occupies a cell.
unfoldable pub device : Table → ℕ → Option PendingItem
device [] id = none
device (s ∷ t) id =
    if s.free then device t id else if s.nodeid == id then some s.item else device t id

-- No device occupies two cells.
abbrev pub UniqueIds : Table → Type 0
UniqueIds [] = Unit {0}
UniqueIds (s ∷ t) = (s.free ≡ false → device t s.nodeid ≡ none) × UniqueIds t

pub pending_to_nodeid-none :
    (t : Table) (id : ℕ) → pending_to_nodeid t id ≡ none → device t id ≡ none
unfolding pending_to_nodeid device
pending_to_nodeid-none [] id h = refl
pending_to_nodeid-none (s ∷ t) id h = ground (arith, pending_to_nodeid-none t id)

-- The pointer that `pending_to_nodeid` returns leads to the record of that device.
pub pending_to_nodeid-some :
    (t : Table) (id i : ℕ)
    → pending_to_nodeid t id ≡ some i
    → (e : PendingItem) × (item_at t i ≡ some e) × (device t id ≡ some e) × (e.nodeid ≡ id)
unfolding pending_to_nodeid device item_at
pending_to_nodeid-some [] id i h = absurd (cc)
pending_to_nodeid-some (s ∷ t) id zero h = (s.item, refl, ground arith, ground arith)
pending_to_nodeid-some (s ∷ t) id (suc i) h =
    let later : pending_to_nodeid t id ≡ some i = ground arith in
    let r = pending_to_nodeid-some t id i later in (r.0, r.1, ground arith, r.3)

pub device-none-pending_to_nodeid :
    (t : Table) (id : ℕ) → device t id ≡ none → pending_to_nodeid t id ≡ none
device-none-pending_to_nodeid t id h = elim (Option-cases (pending_to_nodeid t id)) [
  | inl e ↦ e
  | inr (i, e) ↦ let r = pending_to_nodeid-some t id i e in absurd (cc)
]

-- The record found under an id carries that id.
pub device-nodeid : (t : Table) (id : ℕ) (e : PendingItem) → device t id ≡ some e → e.nodeid ≡ id
unfolding device
device-nodeid [] id e h = absurd (cc)
device-nodeid (s ∷ t) id e h = ground (arith, device-nodeid t id e)
