-- ===== src/Storage/Commit/Wanted.antt =====
-- What a change asks `commitPlanChange` to do to each row, and that the parts of the commit do it.
use vm_scheduler.Prelude.{
  ℕ, suc, ◌+◌, ◌==◌, elem, if◌then◌else◌, ◌≡◌, refl, ap, Bool, true, false, Option, none, some,
  List, [], ◌∷◌, map,
}
use vm_scheduler.Common.Slot.{SlotCapacity}
use vm_scheduler.Std.Map.{lookup}
use vm_scheduler.State.Job.{scheduled}
use vm_scheduler.State.Vm
use vm_scheduler.State.Vm.{pending_termination, pending_allocation}
use vm_scheduler.State.Plan.{DesiredSlot, VmInfo, existing, desired, StateChange}
use vm_scheduler.Storage.Rows.{VmRow, JobRow, update_where, set_vm_status}
use vm_scheduler.Storage.Commit.{take_capacity, new_vm}
use vm_scheduler.Storage.Commit.Effect.{new_rows}

-- The place of a slot among the new ones, from 0 on.
abbrev pub position_of : ℕ → List (ℕ × DesiredSlot) → ℕ
position_of k [] = 0
position_of k ((j, slot) ∷ slots) = if j == k then 0 else suc (position_of k slots)

-- The job on the VM that it is assigned to: an existing one, or the new one for its slot. The new
-- VMs have the ids from `next` on, in the order of their slots.
abbrev pub placed : ℕ → List (ℕ × DesiredSlot) → Option VmInfo → JobRow → JobRow
placed next slots none job = job
placed next slots (some (existing id)) job = record job { status = scheduled; vm_id = some id }
placed next slots (some (desired k)) job = record job {
  status = scheduled;
  vm_id = some (next + position_of k slots);
}

abbrev pub job_after : StateChange → ℕ → JobRow → JobRow
job_after change next job = placed next change.desired_slot_map (lookup job.id change.job_to_vm) job

-- The row of a VM that was there: what it has idle, and whether it is to be terminated.
abbrev pub with_idle : Option SlotCapacity → VmRow → VmRow
with_idle none vm = vm
with_idle (some idle) vm = record {
  id = vm.id;
  status = vm.status;
  cpu = vm.cpu;
  ram = vm.ram;
  cpu_idle = idle.cpu;
  ram_idle = idle.ram;
  cloud_vm_id = vm.cloud_vm_id;
  cloud_vm_type = vm.cloud_vm_type;
  last_status_update = vm.last_status_update;
  agent_activity = vm.agent_activity;
  restart_count = vm.restart_count;
}

abbrev pub vm_after : StateChange → ℕ → VmRow → VmRow
vm_after change now vm = with_idle (lookup vm.id change.updated_idle_capacities) (
    if elem vm.id change.vms_to_terminate
    then record vm {
      status = pending_termination;
      last_status_update =
          if Vm.same_status vm.status pending_termination then vm.last_status_update else now;
    }
    else vm)

-- The rows of the new VMs, from the id `next` on.
abbrev pub wanted_vms : ℕ → ℕ → List (ℕ × DesiredSlot) → List VmRow
wanted_vms now next [] = []
wanted_vms now next ((k, slot) ∷ slots) =
    record {
      id = next;
      status = pending_allocation;
      cpu = slot.total.cpu;
      ram = slot.total.ram;
      cpu_idle = slot.idle.cpu;
      ram_idle = slot.idle.ram;
      cloud_vm_id = none;
      cloud_vm_type = none;
      last_status_update = now;
      agent_activity = none;
      restart_count = 0;
    }
    ∷ wanted_vms now (suc next) slots

pub map-ext :
    {A B : Type 0} (f g : A → B) (xs : List A) → ((a : A) → f a ≡ g a) → map f xs ≡ map g xs
map-ext f g [] h = refl
map-ext f g (x ∷ xs) h = cc (h x, map-ext f g xs h)

pub new_rows-wanted_vms :
    (now next : ℕ) (slots : List (ℕ × DesiredSlot))
    → new_rows now next slots ≡ wanted_vms now next slots
new_rows-wanted_vms now next [] = refl
new_rows-wanted_vms now next ((k, slot) ∷ slots) =
    ap (λ rows. new_vm now next slot ∷ rows) (new_rows-wanted_vms now (suc next) slots)

idle-row :
    (idle : Option SlotCapacity) (vm : VmRow)
    → (elim idle [ none ↦ vm | some c ↦ record vm { cpu_idle = c.cpu; ram_idle = c.ram } ])
      ≡ with_idle idle vm
idle-row none vm = refl
idle-row (some c) vm = refl

one_vm :
    (change : StateChange) (now : ℕ) (vm : VmRow) (ends : Bool)
    → take_capacity change.updated_idle_capacities
        (if ends then set_vm_status now pending_termination vm else vm)
      ≡ with_idle (lookup vm.id change.updated_idle_capacities) (
          if ends
          then record vm {
            status = pending_termination;
            last_status_update =
                if Vm.same_status vm.status pending_termination then vm.last_status_update else now;
          }
          else vm)
unfolding take_capacity set_vm_status
one_vm change now vm true = idle-row (lookup vm.id change.updated_idle_capacities) _
one_vm change now vm false = idle-row (lookup vm.id change.updated_idle_capacities) vm

-- What is done to the VMs that were there, row by row.
pub old_vms :
    (change : StateChange) (now : ℕ) (vms : List VmRow)
    → map (take_capacity change.updated_idle_capacities) (
        update_where
          (λ vm. elem vm.id change.vms_to_terminate)
          (set_vm_status now pending_termination)
          vms)
      ≡ map (vm_after change now) vms
unfolding update_where
old_vms change now [] = refl
old_vms change now (vm ∷ vms) =
    cc (one_vm change now vm (elem vm.id change.vms_to_terminate), old_vms change now vms)
