-- ===== src/Pending/Examples.antt =====
-- The table at work on three cells, and the theorems at inputs.
use lora_mqtt.Prelude.{◌≡◌, refl, ℕ, ◌⊎◌, true, false, [], ◌∷◌, some, none, if◌then◌else◌, ◌==◌}
use lora_mqtt.Pending.{Slot, Table, new_item, add_device, kick_device, pending_to_nodeid}
use lora_mqtt.Pending.Lookup.{device, UniqueIds}
use lora_mqtt.Pending.Devices.{kick_device_lem, is_some, add_device_lem, added, IsFull}

abbrev cell : ℕ → Slot
cell id = record { free = false; item = new_item id 2 false }

abbrev three_cells : Table
three_cells = cell 7 ∷ record (cell 0) { free = true } ∷ cell 9 ∷ []

finds_third : pending_to_nodeid three_cells 9 ≡ some 2
unfolding pending_to_nodeid new_item
finds_third = refl

takes_free_cell : pending_to_nodeid (add_device three_cells 5 0 true 100).1 5 ≡ some 1
unfolding pending_to_nodeid add_device
takes_free_cell = refl

three_cells-UniqueIds : UniqueIds three_cells
unfolding device new_item
three_cells-UniqueIds = (λ h. refl, (λ h. absurd (cc), (λ h. refl, tt)))

kick_device_lem_example :
    ((kick_device three_cells 9).0 ≡ is_some (device three_cells 9))
    × (device (kick_device three_cells 9).1 7 ≡ (if 9 == 7 then none else device three_cells 7))
kick_device_lem_example = kick_device_lem three_cells 9 7 three_cells-UniqueIds

add_device_lem_example :
    ((add_device three_cells 5 0 true 100 ≡ (false, three_cells))
      × (device three_cells 5 ≡ none)
      × IsFull three_cells)
    ⊎ (((add_device three_cells 5 0 true 100).0 ≡ true)
        × (device (add_device three_cells 5 0 true 100).1 9 ≡ (
            if 5 == 9
            then some (added 5 0 true 100 (device three_cells 5))
            else device three_cells 9)))
add_device_lem_example = add_device_lem three_cells 5 0 true 100 9
