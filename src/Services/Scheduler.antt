-- ===== src/Services/Scheduler.antt =====
-- libs/scheduler/impl/scheduler.cpp: one pass of the scheduler over the storage.
pub mod Final
use Prim.Native.String.{String}
use vm_scheduler.Prelude.{ℕ, Bool, true, false, Option, none, some, List, [], ◌∷◌, ◌&&◌, not}
use vm_scheduler.Common.Slot.{SlotCapacity, less}
use vm_scheduler.Common.Result.{Result, success, failure, runtime_exception}
use vm_scheduler.Std.Outcome.{Outcome, returns, ◌>>=◌}
use vm_scheduler.State.Plan.{State}
use vm_scheduler.Scheduler.Config.{VmAssignerType, ComplexVmAssignerConfig}
use vm_scheduler.Scheduler.VmAssigner.{assign_by}
use vm_scheduler.Storage.Transaction.{Session, Run, ended, crashed}
use vm_scheduler.Storage.Plan.{start_scheduling}
use vm_scheduler.Storage.Jobs.{get_current_state}
use vm_scheduler.Storage.Commit.{commit_plan_change}
use vm_scheduler.Services.Allocator.{logged}

pub record SchedulerConfig : Type 0 where
  pub scheduling_interval : ℕ
  pub vm_assigner_type : VmAssignerType
  pub complex_vm_assigner_config : Option ComplexVmAssignerConfig

pub record Scheduler : Type 0 where
  pub id : String
  pub config : SchedulerConfig
  pub possible_slots : List SlotCapacity

-- `std::is_sorted`.
unfoldable pub is_sorted : List SlotCapacity → Bool
is_sorted [] = true
is_sorted (a ∷ []) = true
is_sorted (a ∷ b ∷ rest) = not (less b a) && is_sorted (b ∷ rest)

abbrev sorted_or_throw : Bool → Scheduler → Result Scheduler
sorted_or_throw true scheduler = success scheduler
sorted_or_throw false scheduler = failure runtime_exception

-- The constructor throws on slots that are not there or not in order.
unfoldable pub create_scheduler : String → SchedulerConfig → List SlotCapacity → Result Scheduler
create_scheduler id config [] = failure runtime_exception
create_scheduler id config (slot ∷ slots) =
    sorted_or_throw (is_sorted (slot ∷ slots))
      (record { id = id; config = config; possible_slots = slot ∷ slots })

module _ (fuel : ℕ) (scheduler : Scheduler) where
  abbrev pub commit_change : ℕ → State → Session → Outcome (Run (Unit {0}))
  commit_change plan_id state s = do
    change ←
        assign_by fuel scheduler.config.vm_assigner_type state
          scheduler.config.complex_vm_assigner_config scheduler.possible_slots
    returns (logged (commit_plan_change change plan_id) s)

  abbrev pub with_state : ℕ → Run State → Outcome (Run (Unit {0}))
  with_state plan_id (ended (success state) s) = commit_change plan_id state s
  with_state plan_id (ended (failure e) s) = returns (ended (success tt) s)
  with_state plan_id crashed = returns crashed

  abbrev pub with_plan : Run ℕ → Outcome (Run (Unit {0}))
  with_plan (ended (success plan_id) s) = with_state plan_id (get_current_state s)
  with_plan (ended (failure e) s) = returns (ended (success tt) s)
  with_plan crashed = returns crashed

  -- `none` is a scheduler with no lock, `some none` one whose lock is not acquired.
  unfoldable pub schedule : Option (Option ℕ) → Session → Outcome (Run (Unit {0}))
  schedule (some none) s = returns (ended (success tt) s)
  schedule none s =
      with_plan (start_scheduling scheduler.id scheduler.config.scheduling_interval none s)
  schedule (some (some lock_number)) s =
      with_plan
        (start_scheduling scheduler.id scheduler.config.scheduling_interval (some lock_number) s)
