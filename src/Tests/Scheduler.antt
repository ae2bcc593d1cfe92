-- ===== src/Tests/Scheduler.antt =====
-- libs/scheduler at small states: two active VMs, three queued jobs, two instance types.
use vm_scheduler.Prelude.{
  ℕ, ◌≡◌, refl, true, false, none, some, List, [], ◌∷◌, arith, All, ◌≤◌, get_elem?,
}
use vm_scheduler.Common.Slot.{SlotCapacity, fits, add_assign, sub_assign, add-sub_assign}
use vm_scheduler.Std.LowerBound.{lower_bound}
use vm_scheduler.Std.Outcome.{Returns}
use vm_scheduler.State.Job.{QueuedJobInfo}
use vm_scheduler.State.Vm.{ActiveVm}
use vm_scheduler.State.Plan.{State}
use vm_scheduler.Scheduler.Config.{ComplexVmAssignerConfig, descending, best_fit}
use vm_scheduler.Scheduler.Strategies.{VmPool, less_idle, best_fit_allocate}
use vm_scheduler.Scheduler.Strategies.Fit.{best_fit_allocate-least, best_fit_allocate_misses}
use vm_scheduler.Scheduler.JobAllocator.{JobAllocator, allocate}
use vm_scheduler.Scheduler.SlotSelector.{select, min_fit_slot}
use vm_scheduler.Scheduler.SlotSelector.MinFit.{min_fit_slot-fits}
use vm_scheduler.Scheduler.OrderedJobs.{create_ordered_jobs, Ordered, create_ordered_jobs-Ordered}
use vm_scheduler.Scheduler.SlotSelector.Correct.{IsSelection, select-IsSelection}
use vm_scheduler.Scheduler.ComplexVmAssigner.{complex_assign}
use vm_scheduler.Scheduler.ComplexVmAssigner.Steps.{Answers, allocate-Answers}
use vm_scheduler.Scheduler.ComplexVmAssigner.Correct.{IsAssignment, complex_assign-IsAssignment}

abbrev slot : ℕ → ℕ → SlotCapacity
slot cpu ram = record { cpu = cpu; ram = ram }

abbrev job : ℕ → ℕ → ℕ → QueuedJobInfo
job id cpu ram = record { id = id; required_capacity = slot cpu ram }

abbrev small_vm : ActiveVm
small_vm = record { id = 1; total_capacity = slot 4 8; idle_capacity = slot 2 4 }

abbrev large_vm : ActiveVm
large_vm = record { id = 2; total_capacity = slot 8 16; idle_capacity = slot 8 16 }

abbrev jobs : List QueuedJobInfo
jobs = job 10 1 2 ∷ job 11 8 8 ∷ job 12 3 4 ∷ []

abbrev state : State
state = record { queued_jobs = jobs; vms = small_vm ∷ large_vm ∷ [] }

abbrev types : List SlotCapacity
types = slot 4 8 ∷ slot 8 16 ∷ []

abbrev config : ComplexVmAssignerConfig
config = record { job_ordering = descending; allocation_strategy = best_fit }

complex_assign-IsAssignment_example :
    Returns (IsAssignment state) (complex_assign 1 config types state)
complex_assign-IsAssignment_example =
    complex_assign-IsAssignment types (ground arith) (slot 8 16) refl config (λ e. cc) state
      (ground arith) (refl, (refl, (refl, tt))) (λ j. ground arith) 1

select-IsSelection_example : Returns (IsSelection jobs) (select types jobs)
select-IsSelection_example =
    select-IsSelection types (ground arith) (slot 8 16) refl jobs (refl, (refl, (refl, tt)))
      (λ j. ground arith)

abbrev tall : ActiveVm
tall = record { id = 3; total_capacity = slot 2 8; idle_capacity = slot 2 8 }

abbrev wide : ActiveVm
wide = record { id = 4; total_capacity = slot 4 4; idle_capacity = slot 4 4 }

abbrev pool : VmPool
pool = record { vms = small_vm ∷ large_vm ∷ []; updated_vm_ids = [] }

allocate-Answers_example :
    Returns
      (Answers (JobAllocator.best_fit pool) (job 12 3 4))
      (allocate 1 (JobAllocator.best_fit pool) (job 12 3 4))
allocate-Answers_example = allocate-Answers 1 (JobAllocator.best_fit pool) (job 12 3 4) refl

best_fit_allocate-least_example :
    (i : ℕ) × (vm : ActiveVm) × (get_elem? pool.vms i ≡ some vm)
    × (vm.id ≡ 2)
    × (fits (slot 3 4) vm.idle_capacity ≡ true)
    × All (λ w. fits (slot 3 4) w.idle_capacity ≡ true → less_idle w vm ≡ false) pool.vms
unfolding best_fit_allocate lower_bound
best_fit_allocate-least_example =
    best_fit_allocate-least (slot 3 4) pool 2 (ground arith) (ground arith) refl

best_fit_allocate_misses_example :
    (best_fit_allocate (slot 1 6) (record { vms = tall ∷ wide ∷ []; updated_vm_ids = [] })).0 ≡ none
best_fit_allocate_misses_example = best_fit_allocate_misses (slot 1 6) tall wide [] refl refl

create_ordered_jobs-Ordered_example : Ordered descending jobs (create_ordered_jobs descending jobs)
create_ordered_jobs-Ordered_example = create_ordered_jobs-Ordered descending jobs

min_fit_slot-fits_example :
    Returns
      (λ found. (fits (slot 5 2) found ≡ true) × (found.cpu ≤ 8))
      (min_fit_slot types (slot 5 2))
min_fit_slot-fits_example =
    min_fit_slot-fits types (slot 5 2) (λ c. c.cpu ≤ 8) (slot 8 16) refl refl (ground arith)

add-sub_assign_example : add_assign (sub_assign (slot 4 8) (slot 3 4)) (slot 3 4) ≡ slot 4 8
add-sub_assign_example = add-sub_assign (slot 4 8) (slot 3 4) (ground arith) refl
