-- ===== src/Storage/Commit/Jobs.antt =====
-- What a committed plan does to a job.
use vm_scheduler.Prelude.{
  ℕ, zero, suc, ◌≡◌, refl, ◌∙◌, ap, true, false, Option, none, some, List, [], ◌∷◌, map, arith,
  elem, get_elem?, Bool-cases, inl, inr,
}
use mathlib.Core.Option.{some-injective}
use vm_scheduler.Common.Result.{success}
use vm_scheduler.Std.Map.{lookup, has_key, lookup-has_key}
use vm_scheduler.State.Job
use vm_scheduler.State.Job.{JobStatus, scheduled, final_job_statuses}
use vm_scheduler.State.Plan.{VmInfo, existing, desired, StateChange}
use vm_scheduler.Storage.Rows.{JobRow, select_where}
use vm_scheduler.Storage.Transaction.{Session, ended}
use vm_scheduler.Storage.Commit.{keys, some_final, commit_plan_change}
use vm_scheduler.Storage.Commit.Wanted.{placed, job_after}
use vm_scheduler.Storage.Commit.Committed.{Committed, commit_plan_change-Committed}

has_key-keys {ℓ} : {V : Type ℓ} → (k : ℕ) (m : List (ℕ × V)) → elem k (keys m) ≡ has_key k m
unfolding has_key
has_key-keys k [] = refl
has_key-keys k ((j, v) ∷ m) = ground (arith, has_key-keys k m)

-- A job with a final status among those asked for is a conflict.
some_final-job :
    (ids : List ℕ) (jobs : List JobRow) (i : ℕ) (job : JobRow)
    → get_elem? jobs i ≡ some job
    → elem job.id ids ≡ true
    → Job.contains_status job.status final_job_statuses ≡ true
    → some_final (map (λ job. job.status) (select_where (λ job. elem job.id ids) jobs)) ≡ true
unfolding some_final select_where
some_final-job ids [] i job e here final = cc
some_final-job ids (other ∷ jobs) zero job e here final =
    let same : other ≡ job = some-injective other job e in
    let here' : elem other.id ids ≡ true = ap (λ x. elem x.id ids) same ∙ here in
    let final' : Job.contains_status other.status final_job_statuses ≡ true =
      ap (λ x. Job.contains_status x.status final_job_statuses) same ∙ final in
    rw here' (rw final' refl)
some_final-job ids (other ∷ jobs) (suc i) job e here final =
    let rest = some_final-job ids jobs i job e here final in
    elim (Bool-cases (elem other.id ids)) [
      | inr out ↦ rw out rest
      | inl within ↦
          rw within (elim (Bool-cases (Job.contains_status other.status final_job_statuses)) [
            | inl f ↦ rw f refl
            | inr n ↦ rw n rest
          ])
    ]

get_elem?-map {ℓ} :
    {A : Type ℓ}
    → (f : A → A) (xs : List A) (i : ℕ) (x : A) → get_elem? xs i ≡ some x
    → get_elem? (map f xs) i ≡ some (f x)
get_elem?-map f [] i x e = cc
get_elem?-map f (y ∷ ys) zero x e = ap (λ z. some (f z)) (some-injective y x e)
get_elem?-map f (y ∷ ys) (suc i) x e = get_elem?-map f ys i x e

-- The row of a job after the commit: where it was, with the new status if it is assigned.
job_after-cases :
    (change : StateChange) (next : ℕ) (job : JobRow)
    → (has_key job.id change.job_to_vm ≡ false → job_after change next job ≡ job)
      × (has_key job.id change.job_to_vm ≡ true
          → (id : ℕ) × (job_after change next job
              ≡ record job { status = scheduled; vm_id = some id }))
job_after-cases change next job = by_assignment (lookup job.id change.job_to_vm) refl
  where
    by_assignment :
        (vm : Option VmInfo)
        → lookup job.id change.job_to_vm ≡ vm
        → (has_key job.id change.job_to_vm ≡ false
            → placed next change.desired_slot_map vm job ≡ job)
          × (has_key job.id change.job_to_vm ≡ true
              → (id : ℕ) × (placed next change.desired_slot_map vm job
                  ≡ record job { status = scheduled; vm_id = some id }))
    by_assignment none e = (λ h. refl, λ h. ground (arith, lookup-has_key job.id change.job_to_vm))
    by_assignment (some (existing id)) e =
        (λ h. ground (arith, lookup-has_key job.id change.job_to_vm), λ h. (id, refl))
    by_assignment (some (desired k)) e =
        (λ h. ground (arith, lookup-has_key job.id change.job_to_vm), λ h. (_, refl))

pub Committed-jobs :
    (change : StateChange) (plan_id : ℕ) (s t : Session) (i : ℕ) (job : JobRow)
    → Committed change plan_id s t
    → get_elem? s.stored.jobs i ≡ some job
    → (Job.contains_status job.status final_job_statuses ≡ true
        → get_elem? t.stored.jobs i ≡ some job)
      × (has_key job.id change.job_to_vm ≡ false → get_elem? t.stored.jobs i ≡ some job)
      × (has_key job.id change.job_to_vm ≡ true
          → (id : ℕ) × (get_elem? t.stored.jobs i
              ≡ some (record job { status = scheduled; vm_id = some id })))
Committed-jobs change plan_id s t i job c here =
    let (untouched, taken) = job_after-cases change s.stored.next_vm_id job in
    let row : get_elem? t.stored.jobs i ≡ some (job_after change s.stored.next_vm_id job) =
      ap (λ js. get_elem? js i) c.jobs
      ∙ get_elem?-map (job_after change s.stored.next_vm_id) s.stored.jobs i job here in
    let stays : has_key job.id change.job_to_vm ≡ false → get_elem? t.stored.jobs i ≡ some job =
      λ h. row ∙ ap (λ x. some x) (untouched h) in
    (
      λ final. stays (elim (Bool-cases (has_key job.id change.job_to_vm)) [
        | inr out ↦ out
        | inl within ↦ cc (
          some_final-job (keys change.job_to_vm) s.stored.jobs i job here
              (has_key-keys job.id change.job_to_vm ∙ within) final,
          c.no_final,
        )
      ]),
      stays,
      λ h. let (id, r) = taken h in (id, row ∙ ap (λ x. some x) r),
    )

-- When a plan is committed, whichever calls of the database threw before: a job with a final
-- status keeps its row as it was, a job that the plan assigns and no other is scheduled, on one
-- VM, and nothing else of it changes.
pub commit_plan_change-jobs :
    (change : StateChange) (plan_id : ℕ) (s t : Session) (i : ℕ) (job : JobRow)
    → commit_plan_change change plan_id s ≡ ended (success tt) t
    → get_elem? s.stored.jobs i ≡ some job
    → (Job.contains_status job.status final_job_statuses ≡ true
        → get_elem? t.stored.jobs i ≡ some job)
      × (has_key job.id change.job_to_vm ≡ false → get_elem? t.stored.jobs i ≡ some job)
      × (has_key job.id change.job_to_vm ≡ true
          → (id : ℕ) × (get_elem? t.stored.jobs i
              ≡ some (record job { status = scheduled; vm_id = some id })))
commit_plan_change-jobs change plan_id s t i job e here =
    Committed-jobs change plan_id s t i job (commit_plan_change-Committed change plan_id s t e) here
