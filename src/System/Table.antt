-- ===== src/System/Table.antt =====
-- The invariant of the table: no device twice, every slot in order, the size of the array.
use mathlib.Core.Path.{subst}
use lora_mqtt.Prelude.{
  ℕ, zero, suc, ◌≡◌, refl, ◌∙◌, inl, inr, Bool, true, false, not, [], ◌∷◌, none, some, ◌==◌, length,
  All, arith, Option-cases, Bool-cases,
}
use lora_mqtt.Fifo.{drain, drain-eq-nil}
use lora_mqtt.Pending.{
  PendingItem, Slot, Table, pending_to_nodeid, update_at, occupy, new_item, rejoin, add_device,
  kick_device, max_pending_nodes,
}
use lora_mqtt.Pending.Lookup.{device, UniqueIds, pending_to_nodeid-none}
use lora_mqtt.Pending.Updates.{update_at-UniqueIds, length-update_at}
use lora_mqtt.Pending.Devices.{device-occupy, rejoin-nodeid}
use lora_mqtt.System.Slots.{IsSane, IsOk, new_item-IsSane, rejoin-IsSane}

pub record IsWf (t : Table) : Type 0 where
  pub ids : UniqueIds t
  pub slots : All IsOk t
  pub size : length t ≡ max_pending_nodes

module _ (f : PendingItem → PendingItem) (sane : (e : PendingItem) → IsSane e → IsSane (f e)) where
  update_at-IsOk :
      (t : Table) (id i : ℕ)
      → pending_to_nodeid t id ≡ some i
      → All IsOk t
      → All IsOk (update_at t i f)
  unfolding pending_to_nodeid update_at
  update_at-IsOk [] id i p h = h
  update_at-IsOk (s ∷ t) id zero p h =
      let busy : s.free ≡ false = ground arith in ((sane s.item h.0.0, λ q. absurd (cc)), h.1)
  update_at-IsOk (s ∷ t) id (suc i) p h =
      let later : pending_to_nodeid t id ≡ some i = ground arith in
      (h.0, update_at-IsOk t id i later h.1)

  -- A write through a pointer that a lookup returned keeps the invariant.
  pub update_at-IsWf :
      ((e : PendingItem) → (f e).nodeid ≡ e.nodeid)
      → (t : Table) (id i : ℕ) → pending_to_nodeid t id ≡ some i
      → IsWf t
      → IsWf (update_at t i f)
  update_at-IsWf keeps t id i p w = record {
    ids = update_at-UniqueIds f keeps t i w.ids;
    slots = update_at-IsOk t id i p w.slots;
    size = length-update_at f t i ∙ w.size;
  }

module _ (e : PendingItem) where
  occupy-UniqueIds :
      (t u : Table) → device t e.nodeid ≡ none → occupy t e ≡ some u → UniqueIds t → UniqueIds u
  unfolding occupy device
  occupy-UniqueIds [] u h o w = absurd (cc)
  occupy-UniqueIds (s ∷ t) u h o w = elim (Bool-cases s.free) [
    | inl f ↦
        let eq : record { free = false; item = e } ∷ t ≡ u = ground arith in
        subst UniqueIds eq (λ q. ground arith, w.1)
    | inr f ↦ elim (Option-cases (occupy t e)) [
      | inl n ↦ absurd (ground arith)
      | inr (v, p) ↦
          let eq : s ∷ v ≡ u = ground arith in
          let below : device t e.nodeid ≡ none = ground arith in
          subst UniqueIds eq (
            λ q. ground (arith, device-occupy t v e s.nodeid below p, w.0 q),
            occupy-UniqueIds t v below p w.1,
          )
    ]
  ]

  occupy-IsOk : (t u : Table) → IsSane e → occupy t e ≡ some u → All IsOk t → All IsOk u
  unfolding occupy
  occupy-IsOk [] u h o w = absurd (cc)
  occupy-IsOk (s ∷ t) u h o w = elim (Bool-cases s.free) [
    | inl f ↦
        let eq : record { free = false; item = e } ∷ t ≡ u = ground arith in
        subst (All IsOk) eq ((h, λ q. absurd (cc)), w.1)
    | inr f ↦ elim (Option-cases (occupy t e)) [
      | inl n ↦ absurd (ground arith)
      | inr (v, p) ↦
          let eq : s ∷ v ≡ u = ground arith in subst (All IsOk) eq (w.0, occupy-IsOk t v h p w.1)
    ]
  ]

  length-occupy : (t u : Table) → occupy t e ≡ some u → length u ≡ length t
  unfolding occupy
  length-occupy [] u o = absurd (cc)
  length-occupy (s ∷ t) u o = elim (Option-cases (occupy t e)) [
    | inl n ↦ ground arith
    | inr (v, p) ↦ ground (arith, length-occupy t v p)
  ]

-- `add_device` keeps the invariant on every branch.
pub add_device-IsWf :
    (t : Table) (id cls : ℕ) (was_joined : Bool) (now : ℕ)
    → IsWf t
    → IsWf (add_device t id cls was_joined now).1
unfolding add_device
add_device-IsWf t id cls was_joined now w = elim (Option-cases (pending_to_nodeid t id)) [
  | inr (i, p) ↦ subst IsWf (ground arith) (
      update_at-IsWf (rejoin cls was_joined now) (rejoin-IsSane cls was_joined now)
        (rejoin-nodeid cls was_joined now) t id i p w)
  | inl p ↦
      let e = new_item id cls (not was_joined) in
      let absent = pending_to_nodeid-none t id p in
      elim (Option-cases (occupy t e)) [
        | inl n ↦ subst IsWf (ground arith) w
        | inr (u, o) ↦ subst IsWf (ground arith) (record {
          ids = occupy-UniqueIds e t u absent o w.ids;
          slots = occupy-IsOk e t u (new_item-IsSane id cls (not was_joined)) o w.slots;
          size = length-occupy e t u o ∙ w.size;
        })
      ]
]

kick_device_absent :
    (t : Table) (id j : ℕ) → device t j ≡ none → device (kick_device t id).1 j ≡ none
unfolding kick_device device
kick_device_absent [] id j h = refl
kick_device_absent (s ∷ t) id j h = ground (arith, kick_device_absent t id j)

abbrev vacated : Slot → Slot
vacated s = record { free = true; item = record (s.item) { pending_fifo = drain s.pending_fifo } }

kick_device_cases :
    (P : Table → Type 0) (s : Slot) (t : Table) (id : ℕ)
    → P (s ∷ (kick_device t id).1)
    → P (vacated s ∷ t)
    → P (kick_device (s ∷ t) id).1
unfolding kick_device
kick_device_cases P s t id kept left = elim (Bool-cases s.free) [
  | inl f ↦ subst P (ground arith) kept
  | inr f ↦ elim (Bool-cases (s.nodeid == id)) [
    | inl e ↦ subst P (ground arith) left
    | inr e ↦ subst P (ground arith) kept
  ]
]

kick_device-UniqueIds : (t : Table) (id : ℕ) → UniqueIds t → UniqueIds (kick_device t id).1
kick_device-UniqueIds [] id w = unfold kick_device in w
kick_device-UniqueIds (s ∷ t) id w =
    kick_device_cases UniqueIds s t id
      (λ q. kick_device_absent t id s.nodeid (w.0 q), kick_device-UniqueIds t id w.1)
      (λ q. absurd (cc), w.1)

kick_device-IsOk : (t : Table) (id : ℕ) → All IsOk t → All IsOk (kick_device t id).1
kick_device-IsOk [] id w = unfold kick_device in w
kick_device-IsOk (s ∷ t) id w =
    kick_device_cases (All IsOk) s t id (w.0, kick_device-IsOk t id w.1)
      ((record { tries = w.0.0.tries; count = w.0.0.count }, λ q. drain-eq-nil s.pending_fifo), w.1)

length-kick_device : (t : Table) (id : ℕ) → length (kick_device t id).1 ≡ length t
unfolding kick_device
length-kick_device [] id = refl
length-kick_device (s ∷ t) id = ground (arith, length-kick_device t id)

-- `kick_device` keeps the invariant: the cell that it frees is empty.
pub kick_device-IsWf : (t : Table) (id : ℕ) → IsWf t → IsWf (kick_device t id).1
kick_device-IsWf t id w = record {
  ids = kick_device-UniqueIds t id w.ids;
  slots = kick_device-IsOk t id w.slots;
  size = length-kick_device t id ∙ w.size;
}
