-- ===== src/Services/Allocator.antt =====
-- libs/allocator/impl/allocator.cpp: VMs that the storage wants are allocated in the cloud, and
-- those that it gives up are terminated there.
use Prim.Native.String.{String}
use text.Mathlib.Text.{◌==◌ as str_eq}
use vm_scheduler.Prelude.{ℕ, Bool, false, ◌&&◌, ◌||◌, List, [], ◌∷◌, ◌++◌, if◌then◌else◌}
use vm_scheduler.Common.Slot.{SlotCapacity}
use vm_scheduler.Common.Result.{Result, success, failure}
use vm_scheduler.State.Vm.{AllocatedVmInfo, AllocationPendingVmInfo, TerminationPendingVmInfo}
use vm_scheduler.Storage.Transaction.{Run, ended, crashed, Txn, ◌>>=◌, ◌>>◌, gives}
use vm_scheduler.Storage.Vms.{
  get_vms_to_allocate, save_vm_allocation_result, rollback_unallocated_vms_state,
  get_vms_to_terminate, save_vm_termination_result, return_unterminated_vms,
}
use vm_scheduler.Storage.Agents.{get_allocated_vms}

-- A failure is logged, and the caller goes on.
abbrev pub logged_run : Run (Unit {0}) → Run (Unit {0})
logged_run (ended (failure e) s) = ended (success tt) s
logged_run run = run

abbrev pub logged : Txn (Unit {0}) → Txn (Unit {0})
logged m s = logged_run (m s)

-- A failure is logged, and the caller returns.
abbrev pub or_return : {A : Type 0} → Run A → (A → Txn (Unit {0})) → Run (Unit {0})
or_return (ended (success a) s) f = f a s
or_return (ended (failure e) s) f = ended (success tt) s
or_return crashed f = crashed

-- What the cloud client answers to `allocate`, `terminate` and `getAllAllocatedVms`.
pub record CloudClient : Type 0 where
  pub allocate : ℕ → SlotCapacity → Result AllocatedVmInfo
  pub terminate : String → Result (Unit {0})
  pub get_all_allocated_vms : Result (List AllocatedVmInfo)

pub record AllocatorConfig : Type 0 where
  pub max_vm_allocation_count : ℕ
  pub max_vm_termination_count : ℕ
  pub vm_restart_attempt_count : ℕ
  pub job_restart_attempt_count : ℕ

-- A round of the loop of `allocate`, with the VMs that the cloud refused.
abbrev pub after_allocation :
    (List ℕ → Txn (List ℕ)) → List ℕ → ℕ → Result AllocatedVmInfo → Txn (List ℕ)
after_allocation rest unallocated id (success info) =
    logged (save_vm_allocation_result id info) >> rest unallocated
after_allocation rest unallocated id (failure e) = rest (unallocated ++ id ∷ [])

abbrev pub after_termination :
    (List ℕ → Txn (List ℕ)) → List ℕ → ℕ → Result (Unit {0}) → Txn (List ℕ)
after_termination rest unterminated id (success _) =
    logged (save_vm_termination_result id) >> rest unterminated
after_termination rest unterminated id (failure e) = rest (unterminated ++ id ∷ [])

abbrev pub same_info : AllocatedVmInfo → AllocatedVmInfo → Bool
same_info a b = str_eq a.id b.id && str_eq a.type b.type

abbrev pub has_info : AllocatedVmInfo → List AllocatedVmInfo → Bool
has_info vm [] = false
has_info vm (other ∷ others) = same_info other vm || has_info vm others

-- The VMs of the cloud that the storage does not have among its active ones.
unfoldable pub untracked : List AllocatedVmInfo → List AllocatedVmInfo → List AllocatedVmInfo
untracked tracked [] = []
untracked tracked (vm ∷ vms) =
    if has_info vm tracked then untracked tracked vms else vm ∷ untracked tracked vms

abbrev pub untracked_of :
    List AllocatedVmInfo → Result (List AllocatedVmInfo) → List AllocatedVmInfo
untracked_of tracked (success all) = untracked tracked all
untracked_of tracked (failure e) = []

abbrev pub return_them : List ℕ → Txn (Unit {0})
return_them [] = gives tt
return_them (id ∷ ids) = logged (return_unterminated_vms (id ∷ ids))

abbrev pub roll_back : AllocatorConfig → List ℕ → Txn (Unit {0})
roll_back config [] = gives tt
roll_back config (id ∷ ids) = logged (
    rollback_unallocated_vms_state (id ∷ ids) config.vm_restart_attempt_count
      config.job_restart_attempt_count)

module _ (cloud : CloudClient) where
  unfoldable pub allocate_each : List AllocationPendingVmInfo → List ℕ → Txn (List ℕ)
  allocate_each [] unallocated = gives unallocated
  allocate_each (vm ∷ vms) unallocated =
      after_allocation (allocate_each vms) unallocated vm.id (cloud.allocate vm.id vm.capacity)

  unfoldable pub terminate_each : List TerminationPendingVmInfo → List ℕ → Txn (List ℕ)
  terminate_each [] unterminated = gives unterminated
  terminate_each (vm ∷ vms) unterminated =
      after_termination (terminate_each vms) unterminated vm.id (cloud.terminate vm.cloud_vm_id)

  module _ (config : AllocatorConfig) where
    unfoldable pub allocate : Txn (Unit {0})
    allocate s =
        or_return (get_vms_to_allocate config.max_vm_allocation_count s)
          (λ vms. allocate_each vms [] >>= roll_back config)

    unfoldable pub terminate : Txn (Unit {0})
    terminate s =
        or_return (get_vms_to_terminate config.max_vm_termination_count s)
          (λ vms. terminate_each vms [] >>= return_them)

  abbrev pub untracked_or_none : Run (List AllocatedVmInfo) → Run (List AllocatedVmInfo)
  untracked_or_none (ended (success tracked) s) =
      ended (success (untracked_of tracked cloud.get_all_allocated_vms)) s
  untracked_or_none (ended (failure e) s) = ended (success []) s
  untracked_or_none crashed = crashed

  -- The VMs whose termination the cloud is asked for.
  unfoldable pub terminate_untracked_vms : Txn (List AllocatedVmInfo)
  terminate_untracked_vms s = untracked_or_none (get_allocated_vms s)
