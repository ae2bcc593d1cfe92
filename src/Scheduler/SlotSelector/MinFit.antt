-- ===== src/Scheduler/SlotSelector/MinFit.antt =====
-- The slot that is chosen for a job which no entry can take.
use vm_scheduler.Prelude.{
  ℕ, ◌-◌, ◌≡◌, inl, inr, Bool, true, false, not, some, List, arith, All, All-get_elem?, length,
  get_elem?, get_elem?-length,
}
use vm_scheduler.Common.Slot.{SlotCapacity, fits}
use vm_scheduler.Std.LowerBound.{lower_bound-EndOrStop, EndOrStop}
use vm_scheduler.Std.Outcome.{Returns}
use vm_scheduler.Scheduler.SlotSelector.{slot_or_last, min_fit_slot}

module _ (possible_slots : List SlotCapacity) (slot : SlotCapacity) where
  abbrev pub too_small : SlotCapacity → Bool
  too_small lhs = not (fits slot lhs)

  slot_or_last-Returns :
      (Q : SlotCapacity → Type 0) (i : ℕ) (last : SlotCapacity)
      → get_elem? possible_slots (length possible_slots - 1) ≡ some last
      → Q last
      → EndOrStop too_small possible_slots i
      → ((found : SlotCapacity)
          → get_elem? possible_slots i ≡ some found
          → too_small found ≡ false
          → Q found)
      → Returns Q (slot_or_last possible_slots (get_elem? possible_slots i))
  unfolding slot_or_last
  slot_or_last-Returns Q i last e q (inr (found, here, stop)) h = rw here (h found here stop)
  slot_or_last-Returns Q i last e q (inl end) h =
      rw end (rw (get_elem?-length possible_slots) (rw e q))

  -- It is one of the possible slots: there are some, and the last one stands in where none is found.
  pub min_fit_slot-All :
      (Q : SlotCapacity → Type 0) (last : SlotCapacity)
      → get_elem? possible_slots (length possible_slots - 1) ≡ some last
      → All Q possible_slots
      → Returns Q (min_fit_slot possible_slots slot)
  unfolding min_fit_slot
  min_fit_slot-All Q last e h =
      slot_or_last-Returns Q _ last e (All-get_elem? Q possible_slots _ last h e)
        (lower_bound-EndOrStop too_small possible_slots)
        (λ found here _. All-get_elem? Q possible_slots _ found h here)

  -- And it has room for the job, if the last slot has: on any list, also one on which the binary
  -- search is not the linear one.
  pub min_fit_slot-fits :
      (Q : SlotCapacity → Type 0) (last : SlotCapacity)
      → get_elem? possible_slots (length possible_slots - 1) ≡ some last
      → fits slot last ≡ true
      → All Q possible_slots
      → Returns (λ found. (fits slot found ≡ true) × Q found) (min_fit_slot possible_slots slot)
  unfolding min_fit_slot
  min_fit_slot-fits Q last e room h =
      slot_or_last-Returns _ _ last e (room, All-get_elem? Q possible_slots _ last h e)
        (lower_bound-EndOrStop too_small possible_slots)
        (λ found here stop. (ground arith, All-get_elem? Q possible_slots _ found h here))
