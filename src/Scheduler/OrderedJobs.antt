-- ===== src/Scheduler/OrderedJobs.antt =====
-- libs/scheduler/impl/ordered_jobs.{h,cpp}: the order in which queued jobs are placed.
use vm_scheduler.Prelude.{
  ◌<◌, ◌≤◌, ◌≡◌, ◌⊎◌, inl, inr, refl, sym, subst, Bool, false, List, [], ◌∷◌, Perm, All, All-mono,
  arith, ltb, Bool-cases,
}
use mathlib.Core.List.Perm
use vm_scheduler.Common.Slot.{less}
use vm_scheduler.Std.Ordered.{sort, sort-perm, sort-IsSorted, IsSorted, IsStrictWeak}
use vm_scheduler.State.Job.{QueuedJobInfo}
use vm_scheduler.Scheduler.Config.{JobOrdering, fifo, ascending, descending}

abbrev pub smaller_job : QueuedJobInfo → QueuedJobInfo → Bool
smaller_job lhs rhs = less lhs.required_capacity rhs.required_capacity

abbrev pub larger_job : QueuedJobInfo → QueuedJobInfo → Bool
larger_job lhs rhs = less rhs.required_capacity lhs.required_capacity

unfoldable pub create_ordered_jobs : JobOrdering → List QueuedJobInfo → List QueuedJobInfo
create_ordered_jobs fifo jobs = jobs
create_ordered_jobs ascending jobs = sort smaller_job jobs
create_ordered_jobs descending jobs = sort larger_job jobs

-- That the first job may stand before the second: by cores, and by memory where these agree.
abbrev pub Smaller : QueuedJobInfo → QueuedJobInfo → Type 0
Smaller a b =
    (a.required_capacity.cpu < b.required_capacity.cpu)
    ⊎ ((a.required_capacity.cpu ≡ b.required_capacity.cpu)
        × (a.required_capacity.ram ≤ b.required_capacity.ram))

abbrev pub Larger : QueuedJobInfo → QueuedJobInfo → Type 0
Larger a b = Smaller b a

-- Every job may stand before all that follow.
abbrev pub InOrder : (QueuedJobInfo → QueuedJobInfo → Type 0) → List QueuedJobInfo → Type 0
InOrder before [] = Unit
InOrder before (job ∷ jobs) = All (before job) jobs × InOrder before jobs

-- What each ordering makes of a list of jobs.
abbrev pub Ordered : JobOrdering → List QueuedJobInfo → List QueuedJobInfo → Type 0
Ordered fifo jobs result = result ≡ jobs
Ordered ascending jobs result = Perm result jobs × InOrder Smaller result
Ordered descending jobs result = Perm result jobs × InOrder Larger result

smaller_job-IsStrictWeak : IsStrictWeak smaller_job
smaller_job-IsStrictWeak = record {
  asymm = λ a b h. ground arith;
  negative = λ a b c h k. ground arith;
}

larger_job-IsStrictWeak : IsStrictWeak larger_job
larger_job-IsStrictWeak = record {
  asymm = λ a b h. ground arith;
  negative = λ a b c h k. ground arith;
}

IsSorted-InOrder :
    (lt : QueuedJobInfo → QueuedJobInfo → Bool) (before : QueuedJobInfo → QueuedJobInfo → Type 0)
    → ((a b : QueuedJobInfo) → lt b a ≡ false → before a b)
    → (jobs : List QueuedJobInfo) → IsSorted lt jobs
    → InOrder before jobs
IsSorted-InOrder lt before means [] h = tt
IsSorted-InOrder lt before means (job ∷ jobs) h =
    (All-mono _ _ (λ b k. means job b k) jobs h.0, IsSorted-InOrder lt before means jobs h.1)

smaller_job-Smaller : (a b : QueuedJobInfo) → smaller_job b a ≡ false → Smaller a b
smaller_job-Smaller a b h =
    elim (Bool-cases (ltb a.required_capacity.cpu b.required_capacity.cpu)) [
      | inl t ↦ inl (ground (arith, t))
      | inr f ↦ inr (ground (arith, f, h), ground (arith, f, h))
    ]

-- First in first out leaves the jobs as they come. The other orders lose no job and make none up:
-- the ascending one has every job before those that ask for more, by cores and then by memory, and
-- the descending one before those that ask for less.
pub create_ordered_jobs-Ordered :
    (o : JobOrdering) (jobs : List QueuedJobInfo) → Ordered o jobs (create_ordered_jobs o jobs)
unfolding create_ordered_jobs
create_ordered_jobs-Ordered fifo jobs = refl
create_ordered_jobs-Ordered ascending jobs = (
  sort-perm smaller_job jobs,
  IsSorted-InOrder smaller_job Smaller smaller_job-Smaller _
      (sort-IsSorted smaller_job smaller_job-IsStrictWeak jobs),
)
create_ordered_jobs-Ordered descending jobs = (
  sort-perm larger_job jobs,
  IsSorted-InOrder larger_job Larger (λ a b. smaller_job-Smaller b a) _
      (sort-IsSorted larger_job larger_job-IsStrictWeak jobs),
)

pub create_ordered_jobs-Perm :
    (o : JobOrdering) (jobs : List QueuedJobInfo) → Perm (create_ordered_jobs o jobs) jobs
create_ordered_jobs-Perm fifo jobs =
    subst (λ l. Perm l jobs) (sym (create_ordered_jobs-Ordered fifo jobs)) Perm.rfl
create_ordered_jobs-Perm ascending jobs = (create_ordered_jobs-Ordered ascending jobs).0
create_ordered_jobs-Perm descending jobs = (create_ordered_jobs-Ordered descending jobs).0
