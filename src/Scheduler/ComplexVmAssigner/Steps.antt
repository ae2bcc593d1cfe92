-- ===== src/Scheduler/ComplexVmAssigner/Steps.antt =====
-- libs/scheduler/impl/complex_vm_assigner.cpp: what the loop over the jobs keeps.
use vm_scheduler.Prelude.{
  ℕ, ◌+◌, ◌≤◌, ◌≡◌, refl, Bool, true, false, Option, none, some, List, [], ◌∷◌, arith, All,
  All-append, sum_of, sum_of-append, ◌==◌, if◌then◌else◌,
}
use vm_scheduler.Common.Slot.{SlotCapacity}
use vm_scheduler.Std.Map.{lookup, has_key, lookup-assign, has_key-assign, lookup-has_key}
use vm_scheduler.Std.Outcome.{returns, Returns, Returns-eq}
use vm_scheduler.State.Job.{QueuedJobInfo}
use vm_scheduler.State.Vm.{ActiveVm}
use vm_scheduler.State.Plan.{VmInfo, existing}
use vm_scheduler.Scheduler.Strategies.Placement.{
  Placement, Allocates, first_fit_allocate-Allocates, worst_fit_allocate-Allocates,
  best_fit_allocate-Allocates,
}
use vm_scheduler.Scheduler.Strategies.Loads.{
  IsSound, of_id, idle_cpu, idle_ram, total_cpu, total_ram, one, Placement-IsSound, Placement-loads,
}
use vm_scheduler.Scheduler.JobAllocator.{
  JobAllocator, first_fit, next_fit, worst_fit, best_fit, pool_of, allocate,
}
use vm_scheduler.Scheduler.SlotSelector.Correct.{goes_to, stays_on}
use vm_scheduler.Scheduler.SlotSelector.Distinct.{jobs_with}
use vm_scheduler.Scheduler.ComplexVmAssigner.{Progress, record_answer, allocate_all}

abbrev pub is_next_fit : JobAllocator → Bool
is_next_fit (next_fit iter pool) = true
is_next_fit _ = false

abbrev pub Answers : JobAllocator → QueuedJobInfo → Option ℕ × JobAllocator → Type 0
Answers a job r =
    (is_next_fit r.1 ≡ false) × Allocates job.required_capacity (pool_of a) r.0 (pool_of r.1)

-- With any strategy but `next_fit`, a job is refused and the VMs stay as they are, or one VM with
-- enough to give has the requirement taken off and all others are as they were.
pub allocate-Answers :
    (fuel : ℕ) (a : JobAllocator) (job : QueuedJobInfo)
    → is_next_fit a ≡ false
    → Returns (Answers a job) (allocate fuel a job)
unfolding allocate
allocate-Answers fuel (first_fit pool) job h =
    (refl, first_fit_allocate-Allocates job.required_capacity pool)
allocate-Answers fuel (worst_fit pool) job h =
    (refl, worst_fit_allocate-Allocates job.required_capacity pool)
allocate-Answers fuel (best_fit pool) job h =
    (refl, best_fit_allocate-Allocates job.required_capacity pool)
allocate-Answers fuel (next_fit iter pool) job h = cc

-- The sums over the VMs of an id.
abbrev pub on : ℕ → (ActiveVm → ℕ) → JobAllocator → ℕ
on v f a = sum_of (of_id v f) (pool_of a).vms

-- What the jobs that a map leaves on the active VM `v` require of one resource.
abbrev pub load_on : ℕ → (SlotCapacity → ℕ) → List QueuedJobInfo → List (ℕ × VmInfo) → ℕ
load_on v f jobs m =
    sum_of (λ job. if stays_on v (lookup job.id m) then f job.required_capacity else 0) jobs

abbrev pub known : ℕ → List (ℕ × VmInfo) → ℕ
known j m = if has_key j m then 1 else 0

-- From one state of the loop to a later one, with the jobs in between.
pub record Carried (jobs : List QueuedJobInfo) (p q : Progress) : Type 1 where
  pub settled : is_next_fit q.allocator ≡ false
  pub sound : All IsSound (pool_of q.allocator).vms
  pub stays :
      (j : ℕ)
      → jobs_with j jobs ≡ 0
      → lookup j q.job_to_existing_vms ≡ lookup j p.job_to_existing_vms
  pub keeps :
      (P : QueuedJobInfo → Type 0)
      → All P p.unallocated_jobs
      → All P jobs
      → All P q.unallocated_jobs
  pub left :
      (g : QueuedJobInfo → ℕ)
      → sum_of g q.unallocated_jobs
        ≡ sum_of g p.unallocated_jobs
          + sum_of (λ job. if has_key job.id q.job_to_existing_vms then 0 else g job) jobs
  pub counted :
      (j : ℕ)
      → known j q.job_to_existing_vms + jobs_with j q.unallocated_jobs
        ≡ known j p.job_to_existing_vms + jobs_with j p.unallocated_jobs + jobs_with j jobs
  pub old :
      ((k j : ℕ) → goes_to k (lookup j p.job_to_existing_vms) ≡ false)
      → (k j : ℕ) → goes_to k (lookup j q.job_to_existing_vms) ≡ false
  pub cpu :
      (v : ℕ)
      → on v idle_cpu p.allocator
        ≡ on v idle_cpu q.allocator + load_on v (λ c. c.cpu) jobs q.job_to_existing_vms
  pub ram :
      (v : ℕ)
      → on v idle_ram p.allocator
        ≡ on v idle_ram q.allocator + load_on v (λ c. c.ram) jobs q.job_to_existing_vms
  pub total_cpus : (v : ℕ) → on v total_cpu p.allocator ≡ on v total_cpu q.allocator
  pub total_rams : (v : ℕ) → on v total_ram p.allocator ≡ on v total_ram q.allocator
  pub ones : (v : ℕ) → on v one p.allocator ≡ on v one q.allocator

abbrev pub Once : List QueuedJobInfo → Progress → Type 0
Once jobs p = (j : ℕ) → known j p.job_to_existing_vms + jobs_with j jobs ≤ 1

-- One round: the answer to the first job, and what the others do after it.
module _ (job : QueuedJobInfo) (jobs : List QueuedJobInfo) (p q : Progress)
    (sound : All IsSound (pool_of p.allocator).vms) (distinct : Once (job ∷ jobs) p) where
  module _ (a : JobAllocator) (same : pool_of a ≡ pool_of p.allocator)
      (c : Carried jobs (record_answer job p (none, a)) q) where
    Carried-refused : Carried (job ∷ jobs) p q
    unfolding record_answer
    Carried-refused = record {
      settled = c.settled;
      sound = c.sound;
      stays = λ j h. c.stays j (ground arith);
      keeps = λ P h k. c.keeps P (All-append P p.unallocated_jobs _ h (k.0, tt)) k.1;
      left = λ g. ground (
        arith,
        c.left g,
        sum_of-append g p.unallocated_jobs (job ∷ []),
        distinct job.id,
        c.stays job.id,
        lookup-has_key job.id p.job_to_existing_vms,
        lookup-has_key job.id q.job_to_existing_vms,
      );
      counted = λ j. omega (
        arith,
        c.counted j,
        sum_of-append (λ i. if i.id == j then 1 else 0) p.unallocated_jobs (job ∷ []),
      );
      old = c.old;
      cpu = λ v. ground (
        arith,
        c.cpu v,
        distinct job.id,
        c.stays job.id,
        lookup-has_key job.id p.job_to_existing_vms,
      );
      ram = λ v. ground (
        arith,
        c.ram v,
        distinct job.id,
        c.stays job.id,
        lookup-has_key job.id p.job_to_existing_vms,
      );
      total_cpus = λ v. ground (arith, c.total_cpus v);
      total_rams = λ v. ground (arith, c.total_rams v);
      ones = λ v. ground (arith, c.ones v);
    }

  module _ (a : JobAllocator) (id : ℕ)
      (placed : Placement job.required_capacity (pool_of p.allocator) id (pool_of a))
      (c : Carried jobs (record_answer job p (some id, a)) q) where
    stays_put : lookup job.id q.job_to_existing_vms ≡ some (existing id)
    unfolding record_answer
    stays_put = ground (
      arith,
      distinct job.id,
      c.stays job.id,
      lookup-assign job.id job.id (existing id) p.job_to_existing_vms,
    )

    Carried-placed : Carried (job ∷ jobs) p q
    unfolding record_answer
    Carried-placed =
        let loads =
          Placement-loads job.required_capacity (pool_of p.allocator) (pool_of a) id placed sound in
        record {
          settled = c.settled;
          sound = c.sound;
          stays = λ j h.
              ground (arith, c.stays j, lookup-assign job.id j (existing id) p.job_to_existing_vms);
          keeps = λ P h k. c.keeps P h k.1;
          left =
              λ g. ground (arith, c.left g, stays_put, lookup-has_key job.id q.job_to_existing_vms);
          counted = λ j. ground (
            arith,
            c.counted j,
            distinct j,
            has_key-assign job.id j (existing id) p.job_to_existing_vms,
          );
          old = λ h. c.old λ k j.
              ground (arith, h k j, lookup-assign job.id j (existing id) p.job_to_existing_vms);
          cpu = λ v. ground (arith, c.cpu v, (loads v).0, stays_put);
          ram = λ v. ground (arith, c.ram v, (loads v).1, stays_put);
          total_cpus = λ v. ground (arith, c.total_cpus v, (loads v).2);
          total_rams = λ v. ground (arith, c.total_rams v, (loads v).3);
          ones = λ v. ground (arith, c.ones v, (loads v).4);
        }

-- The loop, started anywhere, does what is asked of it.
abbrev Carries : ℕ → List QueuedJobInfo → Type 1
Carries fuel jobs =
    (p : Progress)
    → is_next_fit p.allocator ≡ false
    → All IsSound (pool_of p.allocator).vms
    → Once jobs p
    → (q : Progress) × (allocate_all fuel jobs p ≡ returns q) × Carried jobs p q

Carries-cons :
    (fuel : ℕ) (job : QueuedJobInfo) (jobs : List QueuedJobInfo) (rest : Carries fuel jobs)
    (p : Progress)
    → All IsSound (pool_of p.allocator).vms
    → Once (job ∷ jobs) p
    → (r : Option ℕ × JobAllocator) → Answers p.allocator job r
    → (q : Progress) × (allocate_all fuel jobs (record_answer job p r) ≡ returns q)
      × Carried (job ∷ jobs) p q
unfolding record_answer
Carries-cons fuel job jobs rest p sound distinct (none, a) h =
    let (q, e, c) =
      rest (record_answer job p (none, a)) h.0 (ground (arith, h.1))
        (λ j. ground (arith, distinct j)) in
    (q, e, Carried-refused job jobs p q sound distinct a h.1 c)
Carries-cons fuel job jobs rest p sound distinct (some id, a) h =
    let (q, e, c) =
      rest (record_answer job p (some id, a)) h.0 (Placement-IsSound _ _ _ id h.1 sound) (λ j.
        ground (arith, distinct j, has_key-assign job.id j (existing id) p.job_to_existing_vms)) in
    (q, e, Carried-placed job jobs p q sound distinct a id h.1 c)

pub allocate_all-Carried : (fuel : ℕ) (jobs : List QueuedJobInfo) → Carries fuel jobs
unfolding allocate_all
allocate_all-Carried fuel [] p settled sound distinct = (
  p,
  refl,
  record {
    settled = settled;
    sound = sound;
    stays = λ j h. refl;
    keeps = λ P h k. h;
    left = λ g. omega arith;
    counted = λ j. omega arith;
    old = λ h. h;
    cpu = λ v. omega arith;
    ram = λ v. omega arith;
    total_cpus = λ v. refl;
    total_rams = λ v. refl;
    ones = λ v. refl;
  },
)
allocate_all-Carried fuel (job ∷ jobs) p settled sound distinct =
    let (r, e, h) =
      Returns-eq (Answers p.allocator job) (allocate fuel p.allocator job)
        (allocate-Answers fuel p.allocator job settled) in
    rw e (Carries-cons fuel job jobs (allocate_all-Carried fuel jobs) p sound distinct r h)
