-- ===== src/Storage/Operation.antt =====
-- libs/task_storage/include/task_storage.h: the operations that write, as one
-- type, but for `startScheduling` and `commitPlanChange`.
pub mod Safety
pub mod Perform
pub mod Finished
use vm_scheduler.Prelude.{ℕ, List}
use vm_scheduler.Common.Result.{success, failure}
use vm_scheduler.State.Vm.{AllocatedVmInfo}
use vm_scheduler.Storage.Transaction.{Session, Run, ended, crashed}
use vm_scheduler.Storage.Vms
use vm_scheduler.Storage.Agents
use vm_scheduler.Storage.Jobs
use vm_scheduler.Storage.Jobs.{TaskParameters, JobState}

pub data Operation : Type 0 where
  add_task : TaskParameters → Operation
  cancel_task : ℕ → Operation
  cancel_timed_out_jobs : Operation
  update_job_state : ℕ → ℕ → JobState → Operation
  get_assigned_jobs : ℕ → Operation
  get_vms_to_allocate : ℕ → Operation
  get_vms_to_terminate : ℕ → Operation
  return_unterminated_vms : List ℕ → Operation
  save_vm_termination_result : ℕ → Operation
  save_vm_allocation_result : ℕ → AllocatedVmInfo → Operation
  restart_stale_allocating_vms : ℕ → ℕ → Operation
  terminate_stale_allocating_vms : ℕ → ℕ → ℕ → Operation
  rollback_unallocated_vms_state : List ℕ → ℕ → ℕ → Operation
  terminate_vms_with_inactive_agents : ℕ → ℕ → Operation
  terminate_vms_without_agents : ℕ → ℕ → Operation

abbrev pub forget {ℓ} : {A : Type ℓ} → Run A → Run (Unit {0})
forget (ended (success a) s) = ended (success tt) s
forget (ended (failure e) s) = ended (failure e) s
forget crashed = crashed

unfoldable pub perform : Operation → Session → Run (Unit {0})
perform (add_task p) s = forget (Jobs.add_task p s)
perform (cancel_task id) s = Jobs.cancel_task id s
perform cancel_timed_out_jobs s = Jobs.cancel_timed_out_jobs s
perform (update_job_state v j state) s = Jobs.update_job_state v j state s
perform (get_assigned_jobs id) s = forget (Agents.get_assigned_jobs id s)
perform (get_vms_to_allocate n) s = forget (Vms.get_vms_to_allocate n s)
perform (get_vms_to_terminate n) s = forget (Vms.get_vms_to_terminate n s)
perform (return_unterminated_vms ids) s = Vms.return_unterminated_vms ids s
perform (save_vm_termination_result id) s = Vms.save_vm_termination_result id s
perform (save_vm_allocation_result id info) s = Vms.save_vm_allocation_result id info s
perform (restart_stale_allocating_vms time limit) s = Vms.restart_stale_allocating_vms time limit s
perform (terminate_stale_allocating_vms time limit jobs) s =
    Vms.terminate_stale_allocating_vms time limit jobs s
perform (rollback_unallocated_vms_state ids limit jobs) s =
    Vms.rollback_unallocated_vms_state ids limit jobs s
perform (terminate_vms_with_inactive_agents time jobs) s =
    Vms.terminate_vms_with_inactive_agents time jobs s
perform (terminate_vms_without_agents time jobs) s = Vms.terminate_vms_without_agents time jobs s
