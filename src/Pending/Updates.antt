-- ===== src/Pending/Updates.antt =====
-- A write through a pointer to a slot, as an update of the map from device ids.
use lora_mqtt.Prelude.{
  ℕ, zero, suc, ◌≡◌, refl, ap, [], ◌∷◌, Option, none, some, ◌==◌, if◌then◌else◌, length, arith,
}
use lora_mqtt.Pending.{Table, PendingItem, pending_to_nodeid, update_at}
use lora_mqtt.Pending.Lookup.{device, UniqueIds}

abbrev pub change : (PendingItem → PendingItem) → Option PendingItem → Option PendingItem
change f none = none
change f (some e) = some (f e)

module _ (f : PendingItem → PendingItem) (keeps : (e : PendingItem) → (f e).nodeid ≡ e.nodeid) where
  pub device-update_at :
      (t : Table) (id i j : ℕ)
      → pending_to_nodeid t id ≡ some i
      → device (update_at t i f) j ≡ (if id == j then change f (device t j) else device t j)
  unfolding pending_to_nodeid device update_at
  device-update_at [] id i j h = absurd (cc)
  device-update_at (s ∷ t) id zero j h = ground (arith, keeps s.item)
  device-update_at (s ∷ t) id (suc i) j h =
      let later : pending_to_nodeid t id ≡ some i = ground arith in
      ground (arith, device-update_at t id i j later)

  pub device-update_at-none :
      (t : Table) (i j : ℕ) → device t j ≡ none → device (update_at t i f) j ≡ none
  unfolding device update_at
  device-update_at-none [] i j h = h
  device-update_at-none (s ∷ t) zero j h = ground (arith, keeps s.item)
  device-update_at-none (s ∷ t) (suc i) j h = ground (arith, device-update_at-none t i j)

  pub update_at-UniqueIds : (t : Table) (i : ℕ) → UniqueIds t → UniqueIds (update_at t i f)
  unfolding update_at
  update_at-UniqueIds [] i u = u
  update_at-UniqueIds (s ∷ t) zero u = (λ h. ground (arith, keeps s.item, u.0 h), u.1)
  update_at-UniqueIds (s ∷ t) (suc i) u =
      (λ h. device-update_at-none t i s.nodeid (u.0 h), update_at-UniqueIds t i u.1)

pub length-update_at :
    (f : PendingItem → PendingItem) (t : Table) (i : ℕ) → length (update_at t i f) ≡ length t
unfolding update_at
length-update_at f [] i = refl
length-update_at f (s ∷ t) zero = refl
length-update_at f (s ∷ t) (suc i) = ap suc (length-update_at f t i)
