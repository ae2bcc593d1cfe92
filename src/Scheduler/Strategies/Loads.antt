-- ===== src/Scheduler/Strategies/Loads.antt =====
-- What a placement means for the idle capacities: sums over the VMs of an id.
use native.Mathlib.Bridge.{le_prop}
use mathlib.Core.List.Perm
use vm_scheduler.Prelude.{
  ℕ, ◌+◌, ◌-◌, ◌^◌, ◌≤◌, ◌<◌, ◌≡◌, arith, All, All-Perm, sum_of, sum_of-Perm, ◌==◌, if◌then◌else◌,
}
use vm_scheduler.Common.Slot.{SlotCapacity, sub_assign, sub_assign_lem}
use vm_scheduler.State.Vm.{ActiveVm}
use vm_scheduler.Scheduler.Strategies.{VmPool, occupy}
use vm_scheduler.Scheduler.Strategies.Placement.{Placement}

-- A VM never has more idle than it has, and has amounts that an `int` holds.
abbrev pub IsSound : ActiveVm → Type 0
IsSound vm =
    (vm.idle_capacity.cpu ≤ vm.total_capacity.cpu)
    × (vm.idle_capacity.ram ≤ vm.total_capacity.ram)
    × (vm.total_capacity.cpu < 2 ^ 31)
    × (vm.total_capacity.ram < 2 ^ 31)

IsSound-prop : (vm : ActiveVm) → IsProp (IsSound vm)
IsSound-prop vm = hlevel le_prop

-- The idle cores, idle memory, total cores and total memory of the VMs that have an id.
abbrev pub of_id : ℕ → (ActiveVm → ℕ) → ActiveVm → ℕ
of_id v f vm = if vm.id == v then f vm else 0

abbrev pub idle_cpu : ActiveVm → ℕ
idle_cpu vm = vm.idle_capacity.cpu

abbrev pub idle_ram : ActiveVm → ℕ
idle_ram vm = vm.idle_capacity.ram

abbrev pub total_cpu : ActiveVm → ℕ
total_cpu vm = vm.total_capacity.cpu

abbrev pub total_ram : ActiveVm → ℕ
total_ram vm = vm.total_capacity.ram

abbrev pub one : ActiveVm → ℕ
one vm = 1

module _ (required : SlotCapacity) (before after : VmPool) (id : ℕ)
    (p : Placement required before id after) (sound : All IsSound before.vms) where
  chosen : IsSound p.vm × All IsSound p.others
  chosen = All-Perm IsSound IsSound-prop p.found sound

  lessened : sub_assign p.vm.idle_capacity required ≡ record {
    cpu = p.vm.idle_capacity.cpu - required.cpu;
    ram = p.vm.idle_capacity.ram - required.ram;
  }
  lessened =
      let small = chosen.0 in
      let enough = p.enough in
      sub_assign_lem p.vm.idle_capacity required (omega arith, omega arith)
        (ground arith, ground arith)

  still : IsSound (occupy required p.vm)
  still = let small = chosen.0 in ground (arith, lessened)

  pub Placement-IsSound : All IsSound after.vms
  Placement-IsSound = All-Perm IsSound IsSound-prop (Perm.symm p.left) (still, chosen.1)

  -- The VM that was chosen has the requirement less, and the totals are as they were.
  pub Placement-loads :
      (v : ℕ)
      → (sum_of (of_id v idle_cpu) before.vms
          ≡ sum_of (of_id v idle_cpu) after.vms + (if id == v then required.cpu else 0))
        × (sum_of (of_id v idle_ram) before.vms
            ≡ sum_of (of_id v idle_ram) after.vms + (if id == v then required.ram else 0))
        × (sum_of (of_id v total_cpu) before.vms ≡ sum_of (of_id v total_cpu) after.vms)
        × (sum_of (of_id v total_ram) before.vms ≡ sum_of (of_id v total_ram) after.vms)
        × (sum_of (of_id v one) before.vms ≡ sum_of (of_id v one) after.vms)
  Placement-loads v =
      let enough = p.enough in
      let named = p.named in
      let loads = λ (f : ActiveVm → ℕ). sum_of-Perm f p.found in
      let left = λ (f : ActiveVm → ℕ). sum_of-Perm f p.left in
      ground (
        arith,
        lessened,
        loads (of_id v idle_cpu),
        loads (of_id v idle_ram),
        loads (of_id v total_cpu),
        loads (of_id v total_ram),
        loads (of_id v one),
        left (of_id v idle_cpu),
        left (of_id v idle_ram),
        left (of_id v total_cpu),
        left (of_id v total_ram),
        left (of_id v one),
      )
