-- ===== src/Scheduler/SlotSelector/Distinct.antt =====
-- Jobs whose ids are distinct, as the primary key of the table of jobs makes them.
use vm_scheduler.Prelude.{
  ℕ, ◌≤◌, ◌≡◌, refl, true, false, List, [], ◌∷◌, arith, All, All-mono, All-zip, sum_of, elem, ◌==◌,
  if◌then◌else◌, map,
}
use vm_scheduler.Common.Slot.{SlotCapacity}
use vm_scheduler.State.Job.{QueuedJobInfo}

-- How many of the jobs have an id.
abbrev pub jobs_with : ℕ → List QueuedJobInfo → ℕ
jobs_with j jobs = sum_of (λ job. if job.id == j then 1 else 0) jobs

pub jobs_with-elem :
    (j : ℕ) (jobs : List QueuedJobInfo)
    → elem j (map (λ job. job.id) jobs) ≡ (if jobs_with j jobs == 0 then false else true)
jobs_with-elem j [] = refl
jobs_with-elem j (job ∷ jobs) = ground (arith, jobs_with-elem j jobs)

-- The requirement of the job with an id.
abbrev pub required_in : ℕ → List QueuedJobInfo → SlotCapacity
required_in j [] = record { cpu = 0; ram = 0 }
required_in j (job ∷ jobs) = if job.id == j then job.required_capacity else required_in j jobs

jobs_with-All : (jobs : List QueuedJobInfo) → All (λ job. 1 ≤ jobs_with job.id jobs) jobs
jobs_with-All [] = tt
jobs_with-All (job ∷ jobs) =
    (ground arith, All-mono _ _ (λ other h. ground arith) jobs (jobs_with-All jobs))

pub required_in-All :
    (jobs : List QueuedJobInfo)
    → ((j : ℕ) → jobs_with j jobs ≤ 1)
    → All (λ job. required_in job.id jobs ≡ job.required_capacity) jobs
required_in-All [] once = tt
required_in-All (job ∷ jobs) once = (
  ground arith,
  All-zip _ _ _ (λ other h k. ground (arith, once other.id)) jobs (jobs_with-All jobs)
      (required_in-All jobs (λ j. ground (arith, once j))),
)
