-- ===== src/Scheduler/ComplexVmAssigner/Correct.antt =====
-- What `ComplexVmAssigner::assign` promises.
use vm_scheduler.Prelude.{
  ℕ, ◌+◌, ◌-◌, ◌≤◌, ◌≡◌, ◌≢◌, refl, true, Option, none, some, List, arith, All, sum_of, sum_of-Perm,
  All-mono, elem, ◌==◌, if◌then◌else◌, length, get_elem?, map,
}
use vm_scheduler.Common.Slot.{SlotCapacity, IsInt, fits}
use vm_scheduler.Std.Map.{lookup, has_key, merge, lookup-merge, has_key-merge, lookup-has_key}
use vm_scheduler.Std.Outcome.{Returns, Returns-eq}
use vm_scheduler.State.Job.{QueuedJobInfo}
use vm_scheduler.State.Vm.{ActiveVm}
use vm_scheduler.State.Plan.{DesiredSlot, VmInfo, existing, desired, State, StateChange}
use vm_scheduler.Scheduler.Config.{next_fit, ComplexVmAssignerConfig}
use vm_scheduler.Scheduler.OrderedJobs.{create_ordered_jobs, create_ordered_jobs-Perm}
use vm_scheduler.Scheduler.Strategies.Loads.{
  IsSound, of_id, idle_cpu, idle_ram, total_cpu, total_ram, one,
}
use vm_scheduler.Scheduler.JobAllocator.{pool_of, get_idle_vms, get_vms_with_updated_capacities}
use vm_scheduler.Scheduler.SlotSelector.{select}
use vm_scheduler.Scheduler.SlotSelector.Correct.{
  goes_to, stays_on, is_listed, cpu_on, ram_on, IsSelection, select-IsSelection,
}
use vm_scheduler.Scheduler.SlotSelector.Distinct.{jobs_with, jobs_with-elem}
use vm_scheduler.Scheduler.ComplexVmAssigner.{Progress, begin, complex_assign}
use vm_scheduler.Scheduler.ComplexVmAssigner.Pools.{
  sum_of-ext, sum_of-create, All-create, is_next_fit-create, All-create_ordered_jobs, idle_ids-idle,
  idle-total,
}
use vm_scheduler.Scheduler.ComplexVmAssigner.Steps.{on, load_on, Carried, allocate_all-Carried}

-- Every queued job has an assignment, if to a new VM then to one that is listed, and nothing else
-- has. The jobs left on an active VM require no more than it had to give. Of a new VM, what is idle and what its jobs require make up the
-- total. A VM that is to be terminated gets no job that requires anything, if no other has its id.
pub record IsAssignment (state : State) (change : StateChange) : Type 0 where
  pub all_assigned :
      (j : ℕ) → has_key j change.job_to_vm ≡ elem j (map (λ job. job.id) state.queued_jobs)
  pub all_listed : (j : ℕ) → is_listed change.desired_slot_map (lookup j change.job_to_vm) ≡ true
  pub cpu_within :
      (v : ℕ)
      → load_on v (λ c. c.cpu) state.queued_jobs change.job_to_vm
        ≤ sum_of (of_id v idle_cpu) state.vms
  pub ram_within :
      (v : ℕ)
      → load_on v (λ c. c.ram) state.queued_jobs change.job_to_vm
        ≤ sum_of (of_id v idle_ram) state.vms
  pub cpu_exact :
      All
        (λ p. p.1.idle.cpu + cpu_on p.0 state.queued_jobs change.job_to_vm ≡ p.1.total.cpu)
        change.desired_slot_map
  pub ram_exact :
      All
        (λ p. p.1.idle.ram + ram_on p.0 state.queued_jobs change.job_to_vm ≡ p.1.total.ram)
        change.desired_slot_map
  pub terminated_unused :
      (v : ℕ)
      → sum_of (of_id v one) state.vms ≤ 1
      → elem v change.vms_to_terminate ≡ true
      → (load_on v (λ c. c.cpu) state.queued_jobs change.job_to_vm ≡ 0)
        × (load_on v (λ c. c.ram) state.queued_jobs change.job_to_vm ≡ 0)

is_listed-via :
    (slots : List (ℕ × DesiredSlot)) (a b : Option VmInfo)
    → is_listed slots a ≡ true
    → ((k : ℕ) → goes_to k b ≡ goes_to k a)
    → is_listed slots b ≡ true
is_listed-via slots a none h same = refl
is_listed-via slots a (some (existing v)) h same = refl
is_listed-via slots none (some (desired k)) h same = ground (arith, same k)
is_listed-via slots (some (existing v)) (some (desired k)) h same = ground (arith, same k)
is_listed-via slots (some (desired i)) (some (desired k)) h same = ground (arith, same k)

module _ (possible_slots : List SlotCapacity) (ints : All IsInt possible_slots)
    (last : SlotCapacity)
    (is_last : get_elem? possible_slots (length possible_slots - 1) ≡ some last)
    (config : ComplexVmAssignerConfig) (search : config.allocation_strategy ≢ next_fit)
    (state : State) (sound : All IsSound state.vms)
    (servable : All (λ job. fits job.required_capacity last ≡ true) state.queued_jobs)
    (distinct : (j : ℕ) → jobs_with j state.queued_jobs ≤ 1) where
  abbrev ordered : List QueuedJobInfo
  ordered = create_ordered_jobs config.job_ordering state.queued_jobs

  in_order : (f : QueuedJobInfo → ℕ) → sum_of f ordered ≡ sum_of f state.queued_jobs
  in_order f = sum_of-Perm f (create_ordered_jobs-Perm config.job_ordering state.queued_jobs)

  module _ (q : Progress) (c : Carried ordered (begin config state) q)
      (r : List (ℕ × VmInfo) × List (ℕ × DesiredSlot)) (s : IsSelection q.unallocated_jobs r) where
    abbrev both : List (ℕ × VmInfo)
    both = merge r.0 q.job_to_existing_vms

    apart : (j : ℕ) → has_key j r.0 ≡ true → lookup j q.job_to_existing_vms ≡ none
    unfolding begin has_key
    apart j h = ground (
      arith,
      s.all_assigned j,
      jobs_with-elem j q.unallocated_jobs,
      c.counted j,
      in_order (λ job. if job.id == j then 1 else 0),
      distinct j,
      lookup-has_key j q.job_to_existing_vms,
    )

    stays_on-both :
        (v j : ℕ) → stays_on v (lookup j both) ≡ stays_on v (lookup j q.job_to_existing_vms)
    stays_on-both v j =
        ground (arith, lookup-merge j r.0 q.job_to_existing_vms, s.all_new v j, apart j)

    goes_to-both : (k j : ℕ) → goes_to k (lookup j both) ≡ goes_to k (lookup j r.0)
    unfolding begin lookup
    goes_to-both k j = ground (
      arith,
      lookup-merge j r.0 q.job_to_existing_vms,
      lookup-has_key j r.0,
      c.old (λ _ _. refl) k j,
    )

    both-all_assigned : (j : ℕ) → has_key j both ≡ elem j (map (λ job. job.id) state.queued_jobs)
    unfolding begin has_key
    both-all_assigned j = ground (
      arith,
      has_key-merge j r.0 q.job_to_existing_vms,
      s.all_assigned j,
      jobs_with-elem j q.unallocated_jobs,
      jobs_with-elem j state.queued_jobs,
      c.counted j,
      in_order (λ job. if job.id == j then 1 else 0),
    )

    both-all_listed : (j : ℕ) → is_listed r.1 (lookup j both) ≡ true
    unfolding begin lookup
    both-all_listed j =
        is_listed-via r.1 (lookup j r.0) (lookup j both) (s.all_listed j) (λ k. goes_to-both k j)

    left_over :
        (k : ℕ) (f : QueuedJobInfo → ℕ)
        → sum_of (λ job. if goes_to k (lookup job.id r.0) then f job else 0) q.unallocated_jobs
          ≡ sum_of (λ job. if goes_to k (lookup job.id both) then f job else 0) state.queued_jobs
    unfolding begin lookup
    left_over k f = omega (
      arith,
      c.left (λ job. if goes_to k (lookup job.id r.0) then f job else 0),
      in_order (λ job. if goes_to k (lookup job.id both) then f job else 0),
      sum_of-ext
          (λ job.
            if has_key job.id q.job_to_existing_vms
            then 0
            else if goes_to k (lookup job.id r.0)
            then f job
            else 0)
          (λ job. if goes_to k (lookup job.id both) then f job else 0)
          (λ job. ground (
            arith,
            goes_to-both k job.id,
            apart job.id,
            lookup-has_key job.id r.0,
            lookup-has_key job.id q.job_to_existing_vms,
          ))
          ordered,
    )

    kept_on :
        (v : ℕ) (f : SlotCapacity → ℕ)
        → load_on v f state.queued_jobs both ≡ load_on v f ordered q.job_to_existing_vms
    kept_on v f = omega (
      arith,
      in_order (λ job. if stays_on v (lookup job.id both) then f job.required_capacity else 0),
      sum_of-ext (λ job. if stays_on v (lookup job.id both) then f job.required_capacity else 0)
          (λ job.
            if stays_on v (lookup job.id q.job_to_existing_vms) then f job.required_capacity else 0)
          (λ job. ground (arith, stays_on-both v job.id)) ordered,
    )

    began :
        (v : ℕ) (f : ActiveVm → ℕ)
        → on v f (begin config state).allocator ≡ sum_of (of_id v f) state.vms
    unfolding begin
    began v f = sum_of-create config.allocation_strategy state.vms (of_id v f)

    result-IsAssignment : IsAssignment state (record {
      job_to_vm = both;
      desired_slot_map = r.1;
      updated_idle_capacities = get_vms_with_updated_capacities q.allocator;
      vms_to_terminate = get_idle_vms q.allocator;
    })
    unfolding get_idle_vms
    result-IsAssignment = record {
      all_assigned = both-all_assigned;
      all_listed = both-all_listed;
      cpu_within = λ v. omega (arith, c.cpu v, began v idle_cpu, kept_on v (λ c. c.cpu));
      ram_within = λ v. omega (arith, c.ram v, began v idle_ram, kept_on v (λ c. c.ram));
      cpu_exact =
          All-mono _ _ (λ p e. omega (arith, e, left_over p.0 (λ job. job.required_capacity.cpu)))
            r.1 s.cpu_exact;
      ram_exact =
          All-mono _ _ (λ p e. omega (arith, e, left_over p.0 (λ job. job.required_capacity.ram)))
            r.1 s.ram_exact;
      terminated_unused = λ v once e.
          let all_idle =
            idle_ids-idle v (pool_of q.allocator).vms (omega (arith, c.ones v, began v one)) e in
          let bounded = idle-total v state.vms sound in
          (
            omega (
              arith,
              all_idle.0,
              bounded.0,
              c.cpu v,
              c.total_cpus v,
              began v idle_cpu,
              began v total_cpu,
              kept_on v (λ c. c.cpu),
            ),
            omega (
              arith,
              all_idle.1,
              bounded.1,
              c.ram v,
              c.total_rams v,
              began v idle_ram,
              began v total_ram,
              kept_on v (λ c. c.ram),
            ),
          );
    }

  -- The complex assigner, with any strategy but `next_fit`, returns, if the possible slots hold
  -- amounts of an `int`, the active VMs have no more idle than they have and amounts of an `int`,
  -- and the queued jobs have distinct ids and each would fit the last possible slot. Then exactly
  -- the queued jobs are assigned, on a new VM only if it is listed, the jobs put on an active VM require no more than it has idle,
  -- of every new VM the idle capacity and the requirements of its jobs make up the total, and a
  -- VM to be terminated, if its id is its own, gets no job that requires anything.
  pub complex_assign-IsAssignment :
      (fuel : ℕ) → Returns (IsAssignment state) (complex_assign fuel config possible_slots state)
  unfolding complex_assign begin has_key
  complex_assign-IsAssignment fuel =
      let (q, e, c) =
        allocate_all-Carried fuel ordered (begin config state)
          (is_next_fit-create config.allocation_strategy state.vms search)
          (All-create config.allocation_strategy state.vms sound)
          (λ j. omega (arith, distinct j, in_order (λ job. if job.id == j then 1 else 0))) in
      let (r, e', s) =
        Returns-eq (IsSelection q.unallocated_jobs) (select possible_slots q.unallocated_jobs) (
          select-IsSelection possible_slots ints last is_last q.unallocated_jobs
            (c.keeps (λ job. fits job.required_capacity last ≡ true) tt
              (All-create_ordered_jobs _ config.job_ordering state.queued_jobs servable))
            (λ j.
              omega (
                arith,
                c.counted j,
                distinct j,
                in_order (λ job. if job.id == j then 1 else 0),
              ))) in
      rw e (rw e' (result-IsAssignment q c r s))
