-- ===== src/Storage/Jobs/Cancel.antt =====
-- `cancelTask` and `cancelTimedOutJobs`: what a cancellation that succeeds has done to the jobs.
use vm_scheduler.Prelude.{
  ℕ, ◌≡◌, refl, ap, ◌∙◌, Bool, true, false, ◌&&◌, List, [], ◌∷◌, get_elem?, some, ◌==◌,
  if◌then◌else◌,
}
use vm_scheduler.Common.Result.{success}
use vm_scheduler.State.Job.{
  JobStatus, queued, scheduled, running, completed, cancelling, cancelled, error, internal_error,
}
use vm_scheduler.Storage.Rows.{update_where-at, JobRow, update_where}
use vm_scheduler.Storage.Transaction.{Session, ended, exec, open_transaction}
use vm_scheduler.Storage.Transaction.Laws.{
  bind-success, exec-Queried, open-seen, caught-success, committed-stored,
}
use vm_scheduler.Storage.Jobs.{
  release_vm_resources, released, cancelled_jobs, cancelled_ids, cancel, cancel_jobs, cancel_task,
  unfinished,
}

pub release-jobs :
    (ids : List ℕ) (s : Session) {a : Unit {0}} {t : Session}
    → release_vm_resources ids s ≡ ended (success a) t
    → t.seen.jobs ≡ s.seen.jobs
unfolding release_vm_resources
release-jobs [] s e = cc
release-jobs (id ∷ ids) s e =
    ap (λ db. db.jobs) (exec-Queried (λ now db. (tt, released (id ∷ ids) db)) s e).view

cancel_jobs-jobs :
    (condition : ℕ → JobRow → Bool) (s : Session) {a : Unit {0}} {t : Session}
    → cancel_jobs condition s ≡ ended (success a) t
    → t.stored.jobs ≡ update_where (condition s.now) cancel s.stored.jobs
unfolding cancel_jobs
cancel_jobs-jobs condition s e =
    let (_, s1, e1, r1) = bind-success (open_transaction s) _ (caught-success _ e) in
    let (jobs, s2, e2, r2) =
      bind-success (exec (λ now db. cancelled_jobs (condition now) db) s1) _ r1 in
    let (_, s3, e3, r3) = bind-success (release_vm_resources (cancelled_ids jobs) s2) _ r2 in
    let opened = open-seen s e1 in
    let q = exec-Queried (λ now db. cancelled_jobs (condition now) db) s1 e2 in
    ap (λ db. db.jobs) (committed-stored s3 r3)
    ∙ release-jobs (cancelled_ids jobs) s2 e3
    ∙ ap (λ db. db.jobs) q.view
    ∙ ap (λ now. update_where (condition now) cancel s1.seen.jobs) opened.2
    ∙ ap (λ db. update_where (condition s.now) cancel db.jobs) opened.0

-- What becomes of a job whose task is cancelled.
abbrev pub after_cancel : JobStatus → JobStatus
after_cancel queued = cancelled
after_cancel scheduled = cancelling
after_cancel running = cancelling
after_cancel status = status

cancelled_row :
    (mine : Bool) (job : JobRow) (status : JobStatus)
    → (if mine && unfinished (record job { status = status })
        then cancel (record job { status = status })
        else record job { status = status })
      ≡ (if mine
          then record job { status = after_cancel status }
          else record job { status = status })
cancelled_row false job status = refl
cancelled_row true job queued = refl
cancelled_row true job scheduled = refl
cancelled_row true job running = refl
cancelled_row true job completed = refl
cancelled_row true job cancelling = refl
cancelled_row true job cancelled = refl
cancelled_row true job error = refl
cancelled_row true job internal_error = refl

-- A cancellation of a task that succeeds has done this to each job: if it belongs to the task, a
-- queued one is cancelled, a scheduled or running one is being cancelled, and one with another
-- status keeps its row; a job of another task keeps its row as well.
pub cancel_task-jobs :
    (task_id i : ℕ) (job : JobRow) (s t : Session)
    → cancel_task task_id s ≡ ended (success tt) t
    → get_elem? s.stored.jobs i ≡ some job
    → get_elem? t.stored.jobs i
      ≡ some
          (if job.task_id == task_id then record job { status = after_cancel job.status } else job)
cancel_task-jobs task_id i job s t e here =
    ap (λ jobs. get_elem? jobs i)
      (cancel_jobs-jobs (λ now job. job.task_id == task_id && unfinished job) s e)
    ∙ update_where-at (λ job. job.task_id == task_id && unfinished job) cancel s.stored.jobs i job
        here
    ∙ ap some (cancelled_row (job.task_id == task_id) job job.status)
