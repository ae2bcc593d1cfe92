-- ===== src/Scheduler/JobAllocator.antt =====
-- libs/scheduler/impl/job_allocator.{h,cpp}: the interface `JobAllocator` over its four classes.
use vm_scheduler.Prelude.{ℕ, Option, none, some, List, [], ◌∷◌, length, elem, if◌then◌else◌}
use vm_scheduler.Common.Slot.{SlotCapacity, equal}
use vm_scheduler.Std.Map.{emplace}
use vm_scheduler.Std.Outcome.{Outcome, returns, undefined, ◌>>=◌}
use vm_scheduler.State.Job.{QueuedJobInfo}
use vm_scheduler.State.Vm.{ActiveVm}
use vm_scheduler.Scheduler.Config.{AllocationStrategy}
use vm_scheduler.Scheduler.Strategies.{
  VmPool, Iterator, at, foreign, first_fit_allocate, worst_fit_allocate, best_fit_allocate,
  worst_fit_pool, best_fit_pool, next_fit_start, next_fit_loop,
}

-- An object of one of the four classes.
pub data JobAllocator : Type 0 where
  first_fit : VmPool → JobAllocator
  next_fit : Iterator → VmPool → JobAllocator
  worst_fit : VmPool → JobAllocator
  best_fit : VmPool → JobAllocator

abbrev pub pool_of : JobAllocator → VmPool
pool_of (first_fit pool) = pool
pool_of (next_fit iter pool) = pool
pool_of (worst_fit pool) = pool
pool_of (best_fit pool) = pool

unfoldable pub create_job_allocator : AllocationStrategy → List ActiveVm → JobAllocator
unfolding worst_fit_pool best_fit_pool next_fit_start
create_job_allocator AllocationStrategy.first_fit vms =
    first_fit (record { vms = vms; updated_vm_ids = [] })
create_job_allocator AllocationStrategy.next_fit vms =
    next_fit (next_fit_start vms) (record { vms = vms; updated_vm_ids = [] })
create_job_allocator AllocationStrategy.worst_fit vms = worst_fit (worst_fit_pool vms)
create_job_allocator AllocationStrategy.best_fit vms = best_fit (best_fit_pool vms)

-- The end of the loop is reached only where it starts, so the iterator is at `begin()` then.
abbrev next_fit_second :
    ℕ → VmPool → Outcome (Option (ℕ × VmPool)) → Outcome (Option ℕ × JobAllocator)
next_fit_second start pool round = do
  found ← round
  returns (elim found [
    | some (id, after) ↦ (some id, next_fit (at 0) after)
    | none ↦ (none, next_fit (at start) pool)
  ])

-- `fuel` bounds the rounds of a loop; only those of `NextFit` do not end by themselves.
abbrev next_fit_allocate : ℕ → SlotCapacity → Iterator → VmPool → Outcome (Option ℕ × JobAllocator)
next_fit_allocate fuel required foreign pool = undefined
next_fit_allocate fuel required (at start) pool = do
  found ← next_fit_loop required fuel start (length pool.vms) pool
  elim found [
    | some (id, after) ↦ returns (some id, next_fit (at start) after)
    | none ↦ next_fit_second start pool (next_fit_loop required fuel 0 start pool)
  ]

abbrev answer : (VmPool → JobAllocator) → Option ℕ × VmPool → Outcome (Option ℕ × JobAllocator)
answer wrap (id, pool) = returns (id, wrap pool)

unfoldable pub allocate : ℕ → JobAllocator → QueuedJobInfo → Outcome (Option ℕ × JobAllocator)
unfolding next_fit_loop
allocate fuel (first_fit pool) job =
    answer first_fit (first_fit_allocate job.required_capacity pool)
allocate fuel (worst_fit pool) job =
    answer worst_fit (worst_fit_allocate job.required_capacity pool)
allocate fuel (best_fit pool) job = answer best_fit (best_fit_allocate job.required_capacity pool)
allocate fuel (next_fit iter pool) job = next_fit_allocate fuel job.required_capacity iter pool

updated_capacities : List ℕ → List ActiveVm → List (ℕ × SlotCapacity) → List (ℕ × SlotCapacity)
updated_capacities ids [] updated = updated
updated_capacities ids (vm ∷ vms) updated =
    updated_capacities ids vms
      (if elem vm.id ids then emplace vm.id vm.idle_capacity updated else updated)

unfoldable pub get_vms_with_updated_capacities : JobAllocator → List (ℕ × SlotCapacity)
unfolding updated_capacities emplace
get_vms_with_updated_capacities a = updated_capacities (pool_of a).updated_vm_ids (pool_of a).vms []

-- The ids of the VMs on which nothing runs.
unfoldable pub idle_ids : List ActiveVm → List ℕ
idle_ids [] = []
idle_ids (vm ∷ vms) =
    if equal vm.total_capacity vm.idle_capacity then vm.id ∷ idle_ids vms else idle_ids vms

unfoldable pub get_idle_vms : JobAllocator → List ℕ
unfolding idle_ids
get_idle_vms a = idle_ids (pool_of a).vms
