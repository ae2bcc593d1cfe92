-- ===== src/Scheduler/ComplexVmAssigner.antt =====
-- libs/scheduler/impl/complex_vm_assigner.cpp: jobs in order, first to active VMs, then to new ones.
pub mod Steps
mod Pools
pub mod Correct
use vm_scheduler.Prelude.{ℕ, Option, none, some, List, [], ◌∷◌, ◌++◌}
use vm_scheduler.Common.Slot.{SlotCapacity}
use vm_scheduler.Std.Map.{assign, merge}
use vm_scheduler.Std.Outcome.{Outcome, returns, ◌>>=◌}
use vm_scheduler.State.Job.{QueuedJobInfo}
use vm_scheduler.State.Plan.{VmInfo, existing, State, StateChange}
use vm_scheduler.Scheduler.Config.{ComplexVmAssignerConfig}
use vm_scheduler.Scheduler.JobAllocator.{
  JobAllocator, create_job_allocator, allocate, get_vms_with_updated_capacities, get_idle_vms,
}
use vm_scheduler.Scheduler.OrderedJobs.{create_ordered_jobs}
use vm_scheduler.Scheduler.SlotSelector.{select}

-- The variables of the loop in `assign`.
pub record Progress : Type 0 where
  pub allocator : JobAllocator
  pub job_to_existing_vms : List (ℕ × VmInfo)
  pub unallocated_jobs : List QueuedJobInfo

-- The loop's body, after the call of `allocate`.
unfoldable pub record_answer : QueuedJobInfo → Progress → Option ℕ × JobAllocator → Progress
record_answer job p (some vm_id, allocator) = record p {
  allocator = allocator;
  job_to_existing_vms = assign job.id (existing vm_id) p.job_to_existing_vms;
}
record_answer job p (none, allocator) = record p {
  allocator = allocator;
  unallocated_jobs = p.unallocated_jobs ++ job ∷ [];
}

unfoldable pub allocate_all : ℕ → List QueuedJobInfo → Progress → Outcome Progress
allocate_all fuel [] p = returns p
allocate_all fuel (job ∷ jobs) p = do
  answer ← allocate fuel p.allocator job
  allocate_all fuel jobs (record_answer job p answer)

unfoldable pub begin : ComplexVmAssignerConfig → State → Progress
begin config state = record {
  allocator = create_job_allocator config.allocation_strategy state.vms;
  job_to_existing_vms = [];
  unallocated_jobs = [];
}

-- `fuel` bounds the rounds of `NextFit`'s loops, the only ones that may not end.
unfoldable pub complex_assign :
    ℕ → ComplexVmAssignerConfig → List SlotCapacity → State → Outcome StateChange
complex_assign fuel config possible_slots state = do
  p ←
      allocate_all fuel (create_ordered_jobs config.job_ordering state.queued_jobs)
        (begin config state)
  (job_to_vm, desired_slot_map) ← select possible_slots p.unallocated_jobs
  returns (record {
    job_to_vm = merge job_to_vm p.job_to_existing_vms;
    desired_slot_map = desired_slot_map;
    updated_idle_capacities = get_vms_with_updated_capacities p.allocator;
    vms_to_terminate = get_idle_vms p.allocator;
  })
