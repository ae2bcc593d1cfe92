-- ===== src/Scheduler/SimpleVmAssigner.antt =====
-- libs/scheduler/impl/simple_vm_assigner.cpp: a new VM for each job, of exactly its size.
pub mod Own
use vm_scheduler.Prelude.{ℕ, ◌+◌, List, [], ◌∷◌}
use vm_scheduler.Std.Map.{assign, emplace}
use vm_scheduler.State.Job.{QueuedJobInfo}
use vm_scheduler.State.Plan.{DesiredSlot, VmInfo, desired, State, StateChange}
use vm_scheduler.Scheduler.JobAllocator.{idle_ids}

abbrev pub whole_slot : QueuedJobInfo → DesiredSlot
whole_slot job = record { total = job.required_capacity; idle = record { cpu = 0; ram = 0 } }

unfoldable pub one_each :
    ℕ
    → List QueuedJobInfo
    → List (ℕ × VmInfo)
    → List (ℕ × DesiredSlot)
    → List (ℕ × VmInfo) × List (ℕ × DesiredSlot)
one_each id [] assignments slots = (assignments, slots)
one_each id (job ∷ jobs) assignments slots =
    one_each (id + 1) jobs (assign job.id (desired id) assignments)
      (emplace id (whole_slot job) slots)

unfoldable pub simple_assign : State → StateChange
simple_assign state =
    let (assignments, slots) = one_each 0 state.queued_jobs [] [] in
    record {
      job_to_vm = assignments;
      desired_slot_map = slots;
      updated_idle_capacities = [];
      vms_to_terminate = idle_ids state.vms;
    }
