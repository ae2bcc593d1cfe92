-- ===== src/Scheduler/Strategies.antt =====
-- libs/scheduler/impl/job_allocator.{h,cpp}: how the four strategies choose a VM for a job.
pub mod Placement
pub mod Loads
pub mod Fit
use vm_scheduler.Prelude.{
  ℕ, zero, suc, ◌-◌, Bool, not, Option, none, some, List, [], ◌∷◌, length, get_elem?, erase_idx,
  set, ◌==◌, if◌then◌else◌,
}
use vm_scheduler.Common.Slot.{SlotCapacity, less, fits, sub_assign}
use vm_scheduler.Std.LowerBound.{lower_bound}
use vm_scheduler.Std.Ordered.{insert_ordered, insert_all, sort}
use vm_scheduler.Std.Outcome.{Outcome, returns, undefined, out_of_fuel}
use vm_scheduler.State.Vm.{ActiveVm}

-- The fields that the four classes share: `vms_` and `updatedVmIds_`.
pub record VmPool : Type 0 where
  pub vms : List ActiveVm
  pub updated_vm_ids : List ℕ

-- `vm.idleCapacity -= job.requiredCapacity`.
abbrev pub occupy : SlotCapacity → ActiveVm → ActiveVm
occupy required vm = record vm { idle_capacity = sub_assign vm.idle_capacity required }

-- The comparison of the multisets, `compareActiveVms`, and the descending one of `WorstFit`.
abbrev pub less_idle : ActiveVm → ActiveVm → Bool
less_idle lhs rhs = less lhs.idle_capacity rhs.idle_capacity

abbrev pub more_idle : ActiveVm → ActiveVm → Bool
more_idle lhs rhs = less rhs.idle_capacity lhs.idle_capacity

module _ (required : SlotCapacity) where
  -- The loop of `FirstFit::allocate`: the VM chosen, and the VMs after it.
  unfoldable pub first_fit_from : List ActiveVm → Option (ℕ × List ActiveVm)
  first_fit_from [] = none
  first_fit_from (vm ∷ vms) =
      if fits required vm.idle_capacity
      then some (vm.id, occupy required vm ∷ vms)
      else elim (first_fit_from vms) [ none ↦ none | some (id, after) ↦ some (id, vm ∷ after) ]

  unfoldable pub first_fit_allocate : VmPool → Option ℕ × VmPool
  unfolding first_fit_from
  first_fit_allocate pool = elim (first_fit_from pool.vms) [
    | none ↦ (none, pool)
    | some (id, after) ↦
        (some id, record { vms = after; updated_vm_ids = id ∷ pool.updated_vm_ids })
  ]

  -- The end of `WorstFit::allocate` and `BestFit::allocate`: the VM at a position is taken out of
  -- the multiset and put back with less to give, if it has enough.
  unfoldable pub allocate_here : ℕ → VmPool → Option ActiveVm → Option ℕ × VmPool
  unfolding insert_ordered
  allocate_here i pool none = (none, pool)
  allocate_here i pool (some vm) =
      if fits required vm.idle_capacity
      then (
        some vm.id,
        record {
          vms = insert_ordered less_idle (occupy required vm) (erase_idx pool.vms i);
          updated_vm_ids = vm.id ∷ pool.updated_vm_ids;
        },
      )
      else (none, pool)

  unfoldable pub allocate_at : ℕ → VmPool → Option ℕ × VmPool
  unfolding allocate_here
  allocate_at i pool = allocate_here i pool (get_elem? pool.vms i)

  -- `--end()`; an empty multiset has no last element, and none is found at position 0.
  unfoldable pub worst_fit_allocate : VmPool → Option ℕ × VmPool
  unfolding allocate_at
  worst_fit_allocate pool = allocate_at (length pool.vms - 1) pool

  unfoldable pub best_fit_allocate : VmPool → Option ℕ × VmPool
  unfolding allocate_at
  best_fit_allocate pool =
      allocate_at (lower_bound (λ vm. not (fits required vm.idle_capacity)) pool.vms) pool

unfoldable pub worst_fit_pool : List ActiveVm → VmPool
unfolding insert_all sort
worst_fit_pool vms = record {
  vms = insert_all less_idle (sort more_idle vms) [];
  updated_vm_ids = [];
}

unfoldable pub best_fit_pool : List ActiveVm → VmPool
unfolding insert_all sort
best_fit_pool vms = record {
  vms = insert_all less_idle (sort less_idle vms) [];
  updated_vm_ids = [];
}

-- `NextFit::iter_`: a position in `vms_`, its end included, or an iterator of another vector.
pub data Iterator : Type 0 where
  at : ℕ → Iterator
  foreign : Iterator

-- `iter_(vms.begin())` names the constructor's parameter, from which the vector was moved just
-- before: the iterator is not one of `vms_`, unless both are empty.
unfoldable pub next_fit_start : List ActiveVm → Iterator
next_fit_start [] = at 0
next_fit_start (vm ∷ vms) = foreign

-- One of the two loops of `NextFit::allocate`, `while (iter_ != stop)`. The body does not advance
-- the iterator: `some` is the allocation that ends the call, `none` the end of the loop.
unfoldable pub next_fit_loop : SlotCapacity → ℕ → ℕ → ℕ → VmPool → Outcome (Option (ℕ × VmPool))
next_fit_loop required zero iter stop pool = out_of_fuel
next_fit_loop required (suc fuel) iter stop pool =
    let again = next_fit_loop required fuel iter stop pool in
    if iter == stop then returns none else elim (get_elem? pool.vms iter) [
      | none ↦ undefined
      | some vm ↦
          if fits required vm.idle_capacity
          then returns (
              some (
                vm.id,
                record {
                  vms = set pool.vms iter (occupy required vm);
                  updated_vm_ids = vm.id ∷ pool.updated_vm_ids;
                },
              ))
          else again
    ]
