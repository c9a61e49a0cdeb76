-- ===== src/Compat/Loopback/Tests.antt =====
-- Runs of src/loopback.c on concrete inputs.
use esp_smoltcp.Common.{◌≡◌, refl, some, List, [], ◌∷◌}
use esp_smoltcp.Compat.State.{Slot, empty_slot}
use esp_smoltcp.Compat.Loopback.{bind_slots, find_target, scan}

abbrev empty_slots : List Slot
empty_slots = empty_slot ∷ empty_slot ∷ empty_slot ∷ empty_slot ∷ []

bound_twice : find_target 7 (bind_slots 7 3 (bind_slots 9 2 empty_slots).1).1 ≡ some 3
unfolding bind_slots find_target scan
bound_twice = refl
