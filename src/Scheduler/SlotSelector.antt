-- ===== src/Scheduler/SlotSelector.antt =====
-- libs/scheduler/impl/vm_slot_selector.{h,cpp}: the new VMs for the jobs that no active VM takes.
-- `std::list` keeps its iterators valid, so an entry carries a number that stands for the
-- iterator to it, and the multimap of iterators is a list of capacities and such numbers. Where
-- several entries have a capacity, `find` may answer any in C++, and answers the oldest here.
mod Links
mod Index
mod Best
mod Good
mod Steps
pub mod MinFit
mod Capacity
mod Jobs
pub mod Distinct
pub mod Correct
use vm_scheduler.Prelude.{
  ℕ, zero, suc, ◌+◌, ◌-◌, Bool, not, ◌&&◌, Option, none, some, List, [], ◌∷◌, ◌++◌, length,
  get_elem?, ◌==◌, if◌then◌else◌,
}
use vm_scheduler.Common.Slot.{
  SlotCapacity, less, equal, fits, add_assign, sub_assign, mul_assign, times, minus,
}
use vm_scheduler.Std.LowerBound.{lower_bound}
use vm_scheduler.Std.Map.{assign, emplace}
use vm_scheduler.Std.Ordered.{sort}
use vm_scheduler.Std.Outcome.{Outcome, returns, undefined, out_of_fuel, ◌>>=◌}
use vm_scheduler.State.Job.{QueuedJobInfo}
use vm_scheduler.State.Plan.{DesiredSlot, VmInfo, desired}
use vm_scheduler.Scheduler.OrderedJobs.{larger_job}

-- An entry of `DesiredSlotsWithJobs`.
pub record Entry : Type 0 where
  pub key : ℕ
  pub slot : DesiredSlot
  pub job_ids : List ℕ

-- `desiredSlots` and `totalSlotSizeToDesiredSlots`, with the number that the next entry gets.
pub record Slots : Type 0 where
  pub entries : List Entry
  pub index : List (SlotCapacity × ℕ)
  pub next_key : ℕ

-- The search for the best entry that is there: of those that fit, the first with the least idle.
unfoldable pub better : SlotCapacity → Entry → Option Entry → Bool
better required e none = fits required e.slot.idle
better required e (some best) = fits required e.slot.idle && less e.slot.idle best.slot.idle

unfoldable pub best_entry : SlotCapacity → Option Entry → List Entry → Option Entry
unfolding better
best_entry required best [] = best
best_entry required best (e ∷ entries) =
    best_entry required (if better required e best then some e else best) entries

-- `bestFitDesiredSlot->second.push_back(job.id)` and `->first.idle -= job.requiredCapacity`.
abbrev pub take_job : QueuedJobInfo → Entry → Entry
take_job job e = record e {
  slot = record { total = e.slot.total; idle = sub_assign e.slot.idle job.required_capacity };
  job_ids = e.job_ids ++ job.id ∷ [];
}

unfoldable pub give_job : ℕ → QueuedJobInfo → List Entry → List Entry
give_job key job [] = []
give_job key job (e ∷ entries) =
    if e.key == key then take_job job e ∷ entries else e ∷ give_job key job entries

unfoldable pub find_entry : ℕ → List Entry → Option Entry
find_entry key [] = none
find_entry key (e ∷ entries) = if e.key == key then some e else find_entry key entries

unfoldable pub erase_entry : ℕ → List Entry → List Entry
erase_entry key [] = []
erase_entry key (e ∷ entries) = if e.key == key then entries else e ∷ erase_entry key entries

-- `count`, `find` and `erase` of the multimap.
unfoldable pub count_index : SlotCapacity → List (SlotCapacity × ℕ) → ℕ
count_index c [] = 0
count_index c ((d, key) ∷ index) =
    if equal c d then suc (count_index c index) else count_index c index

unfoldable pub find_index : SlotCapacity → List (SlotCapacity × ℕ) → Option ℕ
find_index c [] = none
find_index c ((d, key) ∷ index) = if equal c d then some key else find_index c index

unfoldable pub erase_index : SlotCapacity → List (SlotCapacity × ℕ) → List (SlotCapacity × ℕ)
erase_index c [] = []
erase_index c ((d, key) ∷ index) = if equal c d then index else (d, key) ∷ erase_index c index

unfoldable pub find_slot : SlotCapacity → List SlotCapacity → Option SlotCapacity
find_slot c [] = none
find_slot c (d ∷ slots) = if equal d c then some d else find_slot c slots

-- An iterator that is dereferenced must not be the end.
abbrev pub deref {ℓ} : {A : Type ℓ} → Option A → Outcome A
deref none = undefined
deref (some a) = returns a

-- The entry that stands for two of one capacity.
abbrev pub joined : ℕ → Entry → Entry → Entry
joined key first second = record {
  key = key;
  slot = record {
    total = mul_assign first.slot.total 2;
    idle = add_assign first.slot.idle second.slot.idle;
  };
  job_ids = first.job_ids ++ second.job_ids;
}

-- `find(startSlot)`, the move out of the entry, and the two `erase` calls.
abbrev pub extract : SlotCapacity → Slots → Outcome (Entry × Slots)
extract start s = do
  key ← deref (find_index start s.index)
  e ← deref (find_entry key s.entries)
  returns (e, record s { entries = erase_entry key s.entries; index = erase_index start s.index })

-- `list.insert(end, …)` and the entry for it in the multimap.
abbrev pub append_entry : SlotCapacity → Entry → Slots → Slots
append_entry c e s = record {
  entries = s.entries ++ e ∷ [];
  index = s.index ++ (c, e.key) ∷ [];
  next_key = suc s.next_key;
}

-- A new entry of the least fitting slot, for one job.
abbrev pub opened : SlotCapacity → QueuedJobInfo → ℕ → Entry
opened slot job key = record {
  key = key;
  slot = record { total = slot; idle = minus slot job.required_capacity };
  job_ids = job.id ∷ [];
}

-- The recursive call of `merge_`, or the end.
abbrev pub go_on :
    (SlotCapacity → Slots → Outcome Slots) → Slots → Option (SlotCapacity × Slots) → Outcome Slots
go_on again s none = returns s
go_on again s (some (twice, s')) = again twice s'

module _ (possible_slots : List SlotCapacity) where
  -- `getMinFitSlot_`: what the search found, or `*rbegin()`, which an empty vector lacks.
  unfoldable pub slot_or_last : Option SlotCapacity → Outcome SlotCapacity
  slot_or_last (some found) = returns found
  slot_or_last none = deref (get_elem? possible_slots (length possible_slots - 1))

  unfoldable pub min_fit_slot : SlotCapacity → Outcome SlotCapacity
  unfolding slot_or_last
  min_fit_slot slot =
      slot_or_last
        (get_elem? possible_slots (lower_bound (λ lhs. not (fits slot lhs)) possible_slots))

  -- One level of `merge_`, up to its recursive call: the capacity to go on with, if any.
  unfoldable pub merge_once : SlotCapacity → Slots → Outcome (Option (SlotCapacity × Slots))
  merge_once start s =
      if count_index start s.index == 1
      then returns none
      else elim (find_slot (times start 2) possible_slots) [
        | none ↦ returns none
        | some twice ↦ do
          (first, s') ← extract start s
          (second, s'') ← extract start s'
          returns (some (twice, append_entry twice (joined s''.next_key first second) s''))
      ]

  unfoldable pub merge : ℕ → SlotCapacity → Slots → Outcome Slots
  merge zero start s = out_of_fuel
  merge (suc fuel) start s = merge_once start s >>= go_on (merge fuel) s

  -- The body of the loop over the jobs. Each level of `merge_` takes one entry off the multimap,
  -- so their number is fuel enough.
  unfoldable pub place_on : QueuedJobInfo → Slots → Option Entry → Outcome Slots
  place_on job s (some e) = returns (record s { entries = give_job e.key job s.entries })
  place_on job s none = do
    slot ← min_fit_slot job.required_capacity
    let s' = append_entry slot (opened slot job s.next_key) s
    merge (length s'.index) slot s'

  unfoldable pub place : QueuedJobInfo → Slots → Outcome Slots
  unfolding place_on
  place job s = place_on job s (best_entry job.required_capacity none s.entries)

  unfoldable pub place_all : List QueuedJobInfo → Slots → Outcome Slots
  place_all [] s = returns s
  place_all (job ∷ jobs) s = place job s >>= place_all jobs

-- The last loop: the entries get the ids 0, 1, …, and each of their jobs is assigned to the id.
unfoldable pub assign_all : ℕ → List ℕ → List (ℕ × VmInfo) → List (ℕ × VmInfo)
assign_all id [] assignments = assignments
assign_all id (job ∷ jobs) assignments = assign_all id jobs (assign job (desired id) assignments)

unfoldable pub publish :
    ℕ
    → List Entry
    → List (ℕ × VmInfo)
    → List (ℕ × DesiredSlot)
    → List (ℕ × VmInfo) × List (ℕ × DesiredSlot)
publish id [] assignments slots = (assignments, slots)
publish id (e ∷ entries) assignments slots =
    publish (id + 1) entries (assign_all id e.job_ids assignments) (emplace id e.slot slots)

unfoldable pub no_slots : Slots
no_slots = record { entries = []; index = []; next_key = 0 }

unfoldable pub select :
    List SlotCapacity → List QueuedJobInfo → Outcome (List (ℕ × VmInfo) × List (ℕ × DesiredSlot))
select possible_slots jobs = do
  s ← place_all possible_slots (sort larger_job jobs) no_slots
  returns (publish 0 s.entries [] [])
