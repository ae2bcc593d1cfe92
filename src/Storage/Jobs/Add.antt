-- ===== src/Storage/Jobs/Add.antt =====
-- `addTask`: what an addition that succeeds has stored.
use Prim.Native.String.{String}
use vm_scheduler.Prelude.{ℕ, suc, ◌≡◌, ap, sym, ◌∙◌, List, [], ◌∷◌, ◌++◌}
use vm_scheduler.Common.Result.{success}
use vm_scheduler.Storage.Rows.{Db}
use vm_scheduler.Storage.Transaction.{Session, Run, ended, exec, open_transaction, commit}
use vm_scheduler.Storage.Transaction.Laws.{
  bind-success, exec-Queried, open-seen, caught-success, committed-stored, Queried,
}
use vm_scheduler.Storage.Jobs.{
  TaskParameters, new_task, new_jobs, insert_jobs, insert_some, add_task,
}

insert_some-jobs :
    (p : TaskParameters) (task_id : ℕ) (options : List String) (s : Session) {ids : List ℕ}
    {t : Session}
    → insert_some p task_id options s ≡ ended (success ids) t
    → (t.seen.jobs ≡ s.seen.jobs ++ new_jobs p task_id s.now s.seen.next_job_id p.job_options)
insert_some-jobs p task_id [] s e = cc
insert_some-jobs p task_id (o ∷ options) s e =
    ap (λ db. db.jobs) (exec-Queried (insert_jobs p task_id) s e).view

abbrev insert_task : TaskParameters → Db → ℕ × Db
insert_task p db = (
  db.next_task_id,
  record db {
    tasks = db.tasks ++ new_task p db.next_task_id ∷ [];
    next_task_id = suc db.next_task_id;
  },
)

gives-success {ℓ} :
    {A : Type ℓ} {a b : A} {s t : Session}
    → ◌≡◌ {A = Run A} (ended (success a) s) (ended (success b) t)
    → (a ≡ b) × (s ≡ t)
gives-success e = (cc, cc)

added :
    (p : TaskParameters) (s : Session) {s1 s2 : Session} {task_id : ℕ}
    → Queried (λ now db. insert_task p db) s1 task_id s2
    → s1.seen ≡ s.stored
    → s1.now ≡ s.now
    → (task_id ≡ s.stored.next_task_id)
      × (s2.seen.jobs ++ new_jobs p task_id s2.now s2.seen.next_job_id p.job_options
          ≡ s.stored.jobs
            ++ new_jobs p s.stored.next_task_id s.now s.stored.next_job_id p.job_options)
added p s q seen clock =
    let view = q.view in let answer = q.answer in let kept = q.clock in (cc, cc)

-- The task has the next id, and one new job for each text of options, behind the other jobs.
pub add_task-jobs :
    (p : TaskParameters) (s : Session) {id : ℕ} {ids : List ℕ} {t : Session}
    → add_task p s ≡ ended (success (id, ids)) t
    → (id ≡ s.stored.next_task_id)
      × (t.stored.jobs
          ≡ s.stored.jobs
            ++ new_jobs p s.stored.next_task_id s.now s.stored.next_job_id p.job_options)
unfolding add_task
add_task-jobs p s e =
    let (_, s1, e1, r1) = bind-success (open_transaction s) _ (caught-success _ e) in
    let (task_id, s2, e2, r2) = bind-success (exec (λ now db. insert_task p db) s1) _ r1 in
    let (ids, s3, e3, r3) = bind-success (insert_some p task_id p.job_options s2) _ r2 in
    let (_, s4, e4, r4) = bind-success (commit s3) _ r3 in
    let opened = open-seen s e1 in
    let q = exec-Queried (λ now db. insert_task p db) s1 e2 in
    let inserted = insert_some-jobs p task_id p.job_options s2 e3 in
    let (named, same) = gives-success r4 in
    let view = added p s q opened.0 opened.2 in
    (
      sym (ap (λ (r : ℕ × List ℕ). r.0) named) ∙ view.0,
      ap (λ (u : Session). u.stored.jobs) (sym same)
          ∙ ap (λ db. db.jobs) (committed-stored s3 e4)
          ∙ inserted
          ∙ view.1,
    )
