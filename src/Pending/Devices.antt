-- ===== src/Pending/Devices.antt =====
-- add_device and kick_device as operations on the map from device ids.
use lora_mqtt.Prelude.{
  ℕ, ◌≡◌, refl, ◌↔◌, ◌⊎◌, inl, inr, Bool, true, false, not, [], ◌∷◌, Option, none, some, ◌==◌,
  if◌then◌else◌, arith, All, Option-cases, Bool-cases,
}
use lora_mqtt.Pending.{
  Table, PendingItem, pending_to_nodeid, new_item, rejoin, occupy, add_device, kick_device,
}
use lora_mqtt.Pending.Lookup.{device, UniqueIds, pending_to_nodeid-none, pending_to_nodeid-some}
use lora_mqtt.Pending.Updates.{device-update_at}

-- The record of a device after `add_device`, from its record before.
abbrev pub added : ℕ → ℕ → Bool → ℕ → Option PendingItem → PendingItem
added id cls was_joined now none = new_item id cls (not was_joined)
added id cls was_joined now (some e) = rejoin cls was_joined now e

pub rejoin-nodeid :
    (cls : ℕ) (was_joined : Bool) (now : ℕ) (e : PendingItem)
    → (rejoin cls was_joined now e).nodeid ≡ e.nodeid
unfolding rejoin
rejoin-nodeid cls was_joined now e = ground arith

pub device-occupy :
    (t t' : Table) (e : PendingItem) (j : ℕ)
    → device t e.nodeid ≡ none
    → occupy t e ≡ some t'
    → device t' j ≡ (if e.nodeid == j then some e else device t j)
unfolding device occupy
device-occupy [] t' e j h o = absurd (cc)
device-occupy (s ∷ t) t' e j h o = elim (Bool-cases s.free) [
  | inl f ↦ ground arith
  | inr f ↦ elim (Option-cases (occupy t e)) [
    | inl n ↦ absurd (ground arith)
    | inr (u, p) ↦ ground (arith, device-occupy t u e j)
  ]
]

-- The cells are in use, all of them.
abbrev pub IsFull : Table → Type 0
IsFull = All (λ s. s.free ≡ false)

occupy-IsFull : (t : Table) (e : PendingItem) → (occupy t e ≡ none) ↔ IsFull t
unfolding occupy
occupy-IsFull [] e = (λ h. tt, λ h. refl)
occupy-IsFull (s ∷ t) e = let ih = occupy-IsFull t e in ground (arith, ih)

-- `add_device` succeeds unless the device is unknown and every cell is in use, in which case the
-- table is as before. Where it succeeds, the device has its updated record or a new one, and every
-- other device keeps its own.
pub add_device_lem :
    (t : Table) (id cls : ℕ) (was_joined : Bool) (now j : ℕ)
    → ((add_device t id cls was_joined now ≡ (false, t)) × (device t id ≡ none) × IsFull t)
      ⊎ (((add_device t id cls was_joined now).0 ≡ true)
          × (device (add_device t id cls was_joined now).1 j
              ≡ (if id == j then some (added id cls was_joined now (device t id)) else device t j)))
unfolding add_device
add_device_lem t id cls was_joined now j = elim (Option-cases (pending_to_nodeid t id)) [
  | inr (i, p) ↦
      let found = pending_to_nodeid-some t id i p in
      let moved =
        device-update_at (rejoin cls was_joined now) (rejoin-nodeid cls was_joined now) t id i j
          p in
      inr (ground arith, ground (arith, moved, found.2))
  | inl p ↦
      let absent = pending_to_nodeid-none t id p in
      elim (Option-cases (occupy t (new_item id cls (not was_joined)))) [
        | inl n ↦ inl (ground arith, absent, (occupy-IsFull t _).0 n)
        | inr (u, o) ↦
            let moved = device-occupy t u (new_item id cls (not was_joined)) j absent o in
            inr (ground arith, ground (arith, moved, absent))
      ]
]

abbrev pub is_some {ℓ} : {A : Type ℓ} → Option A → Bool
is_some none = false
is_some (some a) = true

-- In a table without double entries kick_device removes the device and no other, and says whether
-- there was one.
pub kick_device_lem :
    (t : Table) (id j : ℕ)
    → UniqueIds t
    → ((kick_device t id).0 ≡ is_some (device t id))
      × (device (kick_device t id).1 j ≡ (if id == j then none else device t j))
unfolding kick_device device
kick_device_lem [] id j u = (refl, ground arith)
kick_device_lem (s ∷ t) id j u = elim (Bool-cases s.free) [
  | inl f ↦ ground (arith, kick_device_lem t id j u.1)
  | inr f ↦ ground (arith, kick_device_lem t id j u.1, u.0 f)
]
