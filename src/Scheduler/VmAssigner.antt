-- ===== src/Scheduler/VmAssigner.antt =====
-- libs/scheduler/impl/create_vm_assigner.cpp and include/vm_assigner.h: the assigner that the
-- configuration names, and its `assign`.
use vm_scheduler.Prelude.{ℕ, Option, none, some, List}
use vm_scheduler.Common.Slot.{SlotCapacity}
use vm_scheduler.Std.Outcome.{Outcome, returns, undefined}
use vm_scheduler.State.Plan.{State, StateChange}
use vm_scheduler.Scheduler.Config.{VmAssignerType, simple, complex, ComplexVmAssignerConfig}
use vm_scheduler.Scheduler.SimpleVmAssigner.{simple_assign}
use vm_scheduler.Scheduler.ComplexVmAssigner.{complex_assign}

-- `createVmAssigner(...)->assign()`. The complex assigner dereferences its configuration.
unfoldable pub assign_by :
    ℕ
    → VmAssignerType
    → State
    → Option ComplexVmAssignerConfig
    → List SlotCapacity
    → Outcome StateChange
assign_by fuel simple state config possible_slots = returns (simple_assign state)
assign_by fuel complex state none possible_slots = undefined
assign_by fuel complex state (some config) possible_slots =
    complex_assign fuel config possible_slots state
