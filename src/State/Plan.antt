-- ===== src/State/Plan.antt =====
-- libs/state/include/state.h: what a scheduling pass reads, and the change that it asks for.
use vm_scheduler.Prelude.{ℕ, List}
use vm_scheduler.Common.Slot.{SlotCapacity}
use vm_scheduler.State.Job.{QueuedJobInfo}
use vm_scheduler.State.Vm.{ActiveVm}

pub record DesiredSlot : Type 0 where
  pub total : SlotCapacity
  pub idle : SlotCapacity

-- `std::variant<VmId, DesiredSlotId>`.
pub data VmInfo : Type 0 where
  existing : ℕ → VmInfo
  desired : ℕ → VmInfo

-- The maps are association lists from their keys.
pub record StateChange : Type 0 where
  pub job_to_vm : List (ℕ × VmInfo)
  pub desired_slot_map : List (ℕ × DesiredSlot)
  pub updated_idle_capacities : List (ℕ × SlotCapacity)
  pub vms_to_terminate : List ℕ

pub record State : Type 0 where
  pub queued_jobs : List QueuedJobInfo
  pub vms : List ActiveVm
