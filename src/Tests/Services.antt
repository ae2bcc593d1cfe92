-- ===== src/Tests/Services.antt =====
-- The allocator and the failure detector, and VMs with no cloud id, at the small database.
use vm_scheduler.Prelude.{ltb, true, false, ◌≡◌, refl, some, [], ◌∷◌, get_elem?, none}
use vm_scheduler.Common.Result.{runtime_exception, success, failure}
use vm_scheduler.State.Job
use vm_scheduler.State.Vm
use vm_scheduler.State.Vm.{VmStatus}
use vm_scheduler.Storage.Rows.{VmRow, update_where, select_where, set_vm_status}
use vm_scheduler.Storage.Transaction.{Session, crashed, ended}
use vm_scheduler.Storage.Vms.{
  rollback_unallocated_vms_state, restart_allocating_vms, terminate_vms_where, exec_writable_query,
  restart_jobs, get_vms_to_terminate, with_vms,
}
use vm_scheduler.Storage.Agents.{get_allocated_vms}
use vm_scheduler.Storage.Agents.CloudIds.{
  FailsWithPg, get_allocated_vms-unnamed, get_vms_to_terminate-unnamed,
}
use vm_scheduler.Storage.Vms.Rollback.{rollback-vms}
use vm_scheduler.Services.Allocator.{CloudClient, AllocatorConfig, allocate, terminate}
use vm_scheduler.Services.FailureDetector.{FailureDetectorConfig, monitor}
use vm_scheduler.Services.Safety.{StoresAfter, services-final}
use vm_scheduler.Scheduler.Config.{complex, descending, best_fit}
use vm_scheduler.Services.Scheduler.{Scheduler, schedule}
use vm_scheduler.Services.Scheduler.Final.{StoresIfReturns, schedule-final}
use vm_scheduler.Tests.Storage.{job_row, vm_row, db, session, end_of}

-- A cloud that has no VM to give.
abbrev cloud : CloudClient
cloud = record {
  allocate = λ id capacity. failure runtime_exception;
  terminate = λ id. success tt;
  get_all_allocated_vms = success [];
}

abbrev allocator : AllocatorConfig
allocator = record {
  max_vm_allocation_count = 3;
  max_vm_termination_count = 3;
  vm_restart_attempt_count = 2;
  job_restart_attempt_count = 2;
}

abbrev detector : FailureDetectorConfig
detector = record {
  allocation_time_limit = 60;
  agent_inactivity_time_limit = 60;
  agent_startup_time_limit = 60;
  termination_time_limit = 60;
  vm_restart_attempt_count = 2;
  job_restart_attempt_count = 2;
}

services-final_example :
    StoresAfter
      (λ db. get_elem? db.jobs 2 ≡ some (job_row 3 Job.completed (some 1)))
      (allocate cloud allocator session)
    × StoresAfter
        (λ db. get_elem? db.jobs 2 ≡ some (job_row 3 Job.completed (some 1)))
        (terminate cloud allocator session)
    × StoresAfter
        (λ db. get_elem? db.jobs 2 ≡ some (job_row 3 Job.completed (some 1)))
        (monitor detector cloud session)
services-final_example =
    services-final 2 (job_row 3 Job.completed (some 1)) cloud allocator detector session refl refl

abbrev unnamed_vm : VmStatus → VmRow
unnamed_vm status = record vm_row { status = status; cloud_vm_id = none }

get_allocated_vms-unnamed_example : FailsWithPg (
    get_allocated_vms (record {
      stored = with_vms db (vm_row ∷ unnamed_vm Vm.allocating ∷ []);
      seen = db;
      now = 5;
      thrown = [];
    }))
get_allocated_vms-unnamed_example =
    get_allocated_vms-unnamed (with_vms db (vm_row ∷ unnamed_vm Vm.allocating ∷ [])) db 5 1
      (unnamed_vm Vm.allocating) refl refl refl

get_vms_to_terminate-unnamed_example :
    get_vms_to_terminate 4 (record {
      stored = with_vms db (unnamed_vm Vm.allocated ∷ unnamed_vm Vm.pending_termination ∷ []);
      seen = db;
      now = 5;
      thrown = [];
    })
    ≡ crashed
get_vms_to_terminate-unnamed_example =
    get_vms_to_terminate-unnamed db db 5 3 (unnamed_vm Vm.allocated ∷ [])
      (unnamed_vm Vm.pending_termination) [] (refl, tt) refl refl

abbrev scheduler : Scheduler
scheduler = record {
  id = "backend";
  config = record {
    scheduling_interval = 2;
    vm_assigner_type = complex;
    complex_vm_assigner_config =
        some (record { job_ordering = descending; allocation_strategy = best_fit });
  };
  possible_slots = record { cpu = 4; ram = 8 } ∷ [];
}

schedule-final_example :
    StoresIfReturns
      (λ db. get_elem? db.jobs 2 ≡ some (job_row 3 Job.completed (some 1)))
      (schedule 1 scheduler none session)
schedule-final_example =
    schedule-final 2 (job_row 3 Job.completed (some 1)) refl 1 scheduler none session refl

abbrev waiting : Session
waiting = record {
  stored = with_vms db (unnamed_vm Vm.allocating ∷ []);
  seen = db;
  now = 5;
  thrown = [];
}

abbrev after_rollback : Session
after_rollback = end_of (rollback_unallocated_vms_state (1 ∷ []) 2 2 waiting)

rolled : rollback_unallocated_vms_state (1 ∷ []) 2 2 waiting ≡ ended (success tt) after_rollback
unfolding rollback_unallocated_vms_state restart_allocating_vms terminate_vms_where
    exec_writable_query restart_jobs update_where select_where set_vm_status
rolled = refl

rollback-vms_example :
    (after : VmRow) × (get_elem? after_rollback.stored.vms 0 ≡ some after)
    × (after.id ≡ 1)
    × (ltb 0 2 ≡ true → (after.status ≡ Vm.pending_allocation) × (after.restart_count ≡ 1))
    × (ltb 0 2 ≡ false → after.status ≡ Vm.terminated)
rollback-vms_example =
    rollback-vms (1 ∷ []) 2 2 0 (unnamed_vm Vm.allocating) waiting after_rollback rolled refl refl
      refl
