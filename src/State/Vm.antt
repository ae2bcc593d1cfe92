-- ===== src/State/Vm.antt =====
-- libs/state/include/vm.h and libs/state/impl/vm.cpp: VM statuses, their names, and active VMs.
use Prim.Native.String.{String}
use vm_scheduler.Prelude.{ℕ, Bool, false, ◌||◌, Option, List, [], ◌∷◌, ◌==◌}
use vm_scheduler.Std.Names.{at_name}
use vm_scheduler.Common.Slot.{SlotCapacity}

pub record AllocatedVmInfo : Type 0 where
  pub id : String
  pub type : String

pub record AllocationPendingVmInfo : Type 0 where
  pub id : ℕ
  pub capacity : SlotCapacity

pub record TerminationPendingVmInfo : Type 0 where
  pub id : ℕ
  pub cloud_vm_id : String

pub data VmStatus : Type 0 where
  pending_allocation allocating allocated agent_started : VmStatus
  pending_termination terminating terminated : VmStatus

unfoldable pub to_string : VmStatus → String
to_string pending_allocation = "pending_allocation"
to_string allocating = "allocating"
to_string allocated = "allocated"
to_string agent_started = "agent_started"
to_string pending_termination = "pending_termination"
to_string terminating = "terminating"
to_string terminated = "terminated"

abbrev pub status_names : List (String × VmStatus)
status_names =
    ("pending_allocation", pending_allocation)
    ∷ ("allocating", allocating)
    ∷ ("allocated", allocated)
    ∷ ("agent_started", agent_started)
    ∷ ("pending_termination", pending_termination)
    ∷ ("terminating", terminating)
    ∷ ("terminated", terminated)
    ∷ []

unfoldable pub vm_status_from_string : String → Option VmStatus
unfolding at_name
vm_status_from_string s = at_name s status_names

abbrev pub number : VmStatus → ℕ
number pending_allocation = 0
number allocating = 1
number allocated = 2
number agent_started = 3
number pending_termination = 4
number terminating = 5
number terminated = 6

abbrev pub same_status : VmStatus → VmStatus → Bool
same_status a b = number a == number b

abbrev pub contains_status : VmStatus → List VmStatus → Bool
contains_status s [] = false
contains_status s (t ∷ ts) = same_status s t || contains_status s ts

abbrev pub active_vm_statuses : List VmStatus
active_vm_statuses = pending_allocation ∷ allocating ∷ allocated ∷ agent_started ∷ []

pub record ActiveVm : Type 0 where
  pub id : ℕ
  pub total_capacity : SlotCapacity
  pub idle_capacity : SlotCapacity
