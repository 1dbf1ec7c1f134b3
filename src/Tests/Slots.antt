-- ===== src/Tests/Slots.antt =====
-- One slot, taken by job 7.
use predictive_autoscaler.Prelude.{ℕ, ◌+◌, ◌≤◌, ◌≡◌, ◌↔◌, refl, Bool, true, [], length}
use predictive_autoscaler.Admission.{Admission, busy, new_admission, run}
use predictive_autoscaler.Admission.Slots.{Reached, started, called, Reached-slots}

abbrev one_slot : Admission
one_slot = record { slots = 1; free = 1; running = [] }

one_slot-Reached : Reached 1 one_slot
unfolding new_admission
one_slot-Reached = started refl

abbrev house : Admission
house = (run true 7 one_slot).1

Reached-slots_example :
    (length house.running ≤ 1)
    × (house.free + length house.running ≡ 1)
    × ((takes : Bool) (job : ℕ) → ((run takes job house).0 ≡ busy) ↔ (length house.running ≡ 1))
Reached-slots_example = Reached-slots 1 house (called true 7 one_slot-Reached)
