-- ===== src/Scheduler/ComplexVmAssigner/Pools.antt =====
-- What the constructors of the strategies keep of the VMs, and what an idle VM is.
use vm_scheduler.Prelude.{
  ℕ, ◌≤◌, ◌≡◌, ◌≢◌, refl, true, false, List, [], ◌∷◌, arith, All, sum_of, elem, inl, inr,
  Bool-cases, ◌==◌,
}
use vm_scheduler.Common.Slot.{equal}
use vm_scheduler.Std.Ordered.{sort, sum_of-insert_all, sum_of-sort, All-insert_all, All-sort}
use vm_scheduler.State.Job.{QueuedJobInfo}
use vm_scheduler.State.Vm.{ActiveVm}
use vm_scheduler.Scheduler.Config.{
  JobOrdering, fifo, ascending, descending, AllocationStrategy, first_fit, next_fit, worst_fit,
  best_fit,
}
use vm_scheduler.Scheduler.OrderedJobs.{smaller_job, larger_job, create_ordered_jobs}
use vm_scheduler.Scheduler.Strategies.{less_idle, more_idle, worst_fit_pool, best_fit_pool}
use vm_scheduler.Scheduler.Strategies.Loads.{
  IsSound, of_id, idle_cpu, idle_ram, total_cpu, total_ram, one,
}
use vm_scheduler.Scheduler.JobAllocator.{create_job_allocator, pool_of, idle_ids}
use vm_scheduler.Scheduler.ComplexVmAssigner.Steps.{is_next_fit}

pub sum_of-ext :
    (f g : QueuedJobInfo → ℕ)
    → ((job : QueuedJobInfo) → f job ≡ g job)
    → (jobs : List QueuedJobInfo) → sum_of f jobs ≡ sum_of g jobs
sum_of-ext f g h [] = refl
sum_of-ext f g h (job ∷ jobs) = omega (arith, h job, sum_of-ext f g h jobs)

-- The constructors of the strategies reorder the VMs, and do no more.
pub sum_of-create :
    (strategy : AllocationStrategy) (vms : List ActiveVm) (f : ActiveVm → ℕ)
    → sum_of f (pool_of (create_job_allocator strategy vms)).vms ≡ sum_of f vms
unfolding create_job_allocator worst_fit_pool best_fit_pool
sum_of-create first_fit vms f = refl
sum_of-create next_fit vms f = refl
sum_of-create worst_fit vms f =
    omega
      (arith, sum_of-insert_all less_idle f (sort more_idle vms) [], sum_of-sort more_idle f vms)
sum_of-create best_fit vms f =
    omega
      (arith, sum_of-insert_all less_idle f (sort less_idle vms) [], sum_of-sort less_idle f vms)

pub All-create :
    (strategy : AllocationStrategy) (vms : List ActiveVm)
    → All IsSound vms
    → All IsSound (pool_of (create_job_allocator strategy vms)).vms
unfolding create_job_allocator worst_fit_pool best_fit_pool
All-create first_fit vms h = h
All-create next_fit vms h = h
All-create worst_fit vms h =
    All-insert_all less_idle IsSound _ [] (All-sort more_idle IsSound vms h) tt
All-create best_fit vms h =
    All-insert_all less_idle IsSound _ [] (All-sort less_idle IsSound vms h) tt

pub is_next_fit-create :
    (strategy : AllocationStrategy) (vms : List ActiveVm)
    → strategy ≢ next_fit
    → is_next_fit (create_job_allocator strategy vms) ≡ false
unfolding create_job_allocator
is_next_fit-create first_fit vms h = refl
is_next_fit-create next_fit vms h = absurd (h refl)
is_next_fit-create worst_fit vms h = refl
is_next_fit-create best_fit vms h = refl

pub All-create_ordered_jobs :
    (P : QueuedJobInfo → Type 0) (o : JobOrdering) (jobs : List QueuedJobInfo)
    → All P jobs
    → All P (create_ordered_jobs o jobs)
unfolding create_ordered_jobs
All-create_ordered_jobs P fifo jobs h = h
All-create_ordered_jobs P ascending jobs h = All-sort smaller_job P jobs h
All-create_ordered_jobs P descending jobs h = All-sort larger_job P jobs h

of_id-zero :
    (v : ℕ) (f : ActiveVm → ℕ) (vms : List ActiveVm)
    → sum_of (of_id v one) vms ≡ 0
    → sum_of (of_id v f) vms ≡ 0
of_id-zero v f [] h = refl
of_id-zero v f (vm ∷ vms) h = ground (arith, of_id-zero v f vms)

idle_ids-of_id :
    (v : ℕ) (vms : List ActiveVm) → sum_of (of_id v one) vms ≡ 0 → elem v (idle_ids vms) ≡ false
unfolding idle_ids
idle_ids-of_id v [] h = refl
idle_ids-of_id v (vm ∷ vms) h = ground (arith, idle_ids-of_id v vms)

-- A VM reported as idle has everything idle.
pub idle_ids-idle :
    (v : ℕ) (vms : List ActiveVm)
    → sum_of (of_id v one) vms ≤ 1
    → elem v (idle_ids vms) ≡ true
    → (sum_of (of_id v idle_cpu) vms ≡ sum_of (of_id v total_cpu) vms)
      × (sum_of (of_id v idle_ram) vms ≡ sum_of (of_id v total_ram) vms)
unfolding idle_ids
idle_ids-idle v [] h e = cc
idle_ids-idle v (vm ∷ vms) h e = elim (Bool-cases (vm.id == v)) [
  | inr other ↦ ground (arith, idle_ids-idle v vms)
  | inl same ↦
      let rest : sum_of (of_id v one) vms ≡ 0 = ground arith in
      let unlisted = idle_ids-of_id v vms rest in
      let whole : equal vm.total_capacity vm.idle_capacity ≡ true = ground arith in
      ground (
        arith,
        of_id-zero v idle_cpu vms rest,
        of_id-zero v total_cpu vms rest,
        of_id-zero v idle_ram vms rest,
        of_id-zero v total_ram vms rest,
      )
]

pub idle-total :
    (v : ℕ) (vms : List ActiveVm)
    → All IsSound vms
    → (sum_of (of_id v idle_cpu) vms ≤ sum_of (of_id v total_cpu) vms)
      × (sum_of (of_id v idle_ram) vms ≤ sum_of (of_id v total_ram) vms)
idle-total v [] h = (omega arith, omega arith)
idle-total v (vm ∷ vms) h = ground (arith, idle-total v vms)
