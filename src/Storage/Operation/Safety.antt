-- ===== src/Storage/Operation/Safety.antt =====
-- What must be shown of a property of the tables for every operation to keep it.
use vm_scheduler.Prelude.{ℕ, suc, Bool, true, List, [], ◌∷◌, ◌++◌, ◌≡◌, ◌⊎◌}
use vm_scheduler.Common.Result.{success, failure}
use vm_scheduler.State.Job.{JobStatus, scheduled, running}
use vm_scheduler.State.Vm.{VmStatus, AllocatedVmInfo}
use vm_scheduler.Storage.Rows.{VmRow, JobRow, Db, update_where, set_vm_status}
use vm_scheduler.Storage.Transaction.{
  Session, Run, ended, crashed, exec, execute, open_transaction, commit,
}
use vm_scheduler.Storage.Transaction.Safety.{
  Safe, Keeps, Safe-bind, Safe-caught, exec-Safe, open-Safe, commit-Safe,
}
use vm_scheduler.Storage.Vms.{
  exec_writable_query, set_vm_statuses, set_allocated, retry, requeued, given_up, restart_jobs,
  moved, restart_and_commit, move_vms, with_vms,
}
use vm_scheduler.Storage.Agents.{seen_active}
use vm_scheduler.Storage.Jobs
use vm_scheduler.Storage.Jobs.{
  TaskParameters, JobState, insert_jobs, insert_some, cancelled_jobs, cancelled_ids,
  release_vm_resources, released, cancel_jobs, unfinished, statuses_of_job, answer_report, ignores,
  save_report, reported, is_final,
}
use vm_scheduler.Storage.Operation.{forget}

-- The changes of which the operations are made.
pub record Kept (Holds : Db → Type 0) : Type 1 where
  pub statuses :
      (p : VmRow → Bool) (now : ℕ) (status : VmStatus) (db : Db)
      → Holds db
      → Holds (with_vms db (update_where p (set_vm_status now status) db.vms))
  pub allocations :
      (p : VmRow → Bool) (now : ℕ) (info : AllocatedVmInfo) (db : Db)
      → Holds db
      → Holds (with_vms db (update_where p (set_allocated info now) db.vms))
  pub retries :
      (p : VmRow → Bool) (now : ℕ) (db : Db)
      → Holds db
      → Holds (with_vms db (update_where p (retry now) db.vms))
  pub activities :
      (p : VmRow → Bool) (now : ℕ) (db : Db)
      → Holds db
      → Holds (with_vms db (update_where p (seen_active now) db.vms))
  pub requeues :
      (vm_ids : List ℕ) (initial : JobStatus) (limit : ℕ) (db : Db)
      → (initial ≡ scheduled) ⊎ (initial ≡ running)
      → Holds db
      → Holds (record db { jobs = requeued vm_ids initial limit db.jobs })
        × Holds (record db { jobs = given_up vm_ids initial limit db.jobs })
  pub cancels :
      (p : JobRow → Bool) (db : Db)
      → ((job : JobRow) → p job ≡ true → unfinished job ≡ true)
      → Holds db
      → Holds (cancelled_jobs p db).1
  pub releases : (ids : List ℕ) (db : Db) → Holds db → Holds (released ids db)
  pub reports :
      (vm_id job_id : ℕ) (state : JobState) (now : ℕ) (db : Db)
      → Holds db
      → Holds (reported vm_id job_id state now db)
  pub tasks :
      (p : TaskParameters) (db : Db)
      → Holds db
      → Holds (record db {
        tasks = db.tasks ++ Jobs.new_task p db.next_task_id ∷ [];
        next_task_id = suc db.next_task_id;
      })
  pub inserts :
      (p : TaskParameters) (task_id now : ℕ) (db : Db)
      → Holds db
      → Holds (insert_jobs p task_id now db).1

module _ (Holds : Db → Type 0) (k : Kept Holds) where
  pub forget-Safe {ℓ} : {A : Type ℓ} → (run : Run A) → Safe Holds run → Safe Holds (forget run)
  forget-Safe (ended (success a) t) h = h
  forget-Safe (ended (failure e) t) h = h
  forget-Safe crashed h = tt

  pub exec_writable_query-Safe {ℓ} :
      {A : Type ℓ} (q : ℕ → Db → A × Db) (s : Session)
      → Keeps Holds q
      → Holds s.stored
      → Safe Holds (exec_writable_query q s)
  unfolding exec_writable_query
  exec_writable_query-Safe q s keeps h = Safe-caught Holds _ (
      Safe-bind Holds (open_transaction s) _ (open-Safe Holds s h) λ _ s h h'.
        Safe-bind Holds (exec q s) _ (exec-Safe Holds q s keeps h h')
          λ r s h h'. Safe-bind Holds (commit s) _ (commit-Safe Holds s h h') λ _ s h h'. (h, h'))

  pub release-Safe :
      (ids : List ℕ) (s : Session)
      → Holds s.stored
      → Holds s.seen
      → Safe {0} Holds (release_vm_resources ids s)
  unfolding release_vm_resources
  release-Safe [] s h h' = (h, h')
  release-Safe (id ∷ ids) s h h' = exec-Safe Holds _ s (λ now db. k.releases (id ∷ ids) db) h h'

  pub cancel_jobs-Safe :
      (condition : ℕ → JobRow → Bool) (s : Session)
      → ((now : ℕ) (job : JobRow) → condition now job ≡ true → unfinished job ≡ true)
      → Holds s.stored
      → Safe {0} Holds (cancel_jobs condition s)
  unfolding cancel_jobs
  cancel_jobs-Safe condition s only h = Safe-caught Holds _ (
      Safe-bind Holds (open_transaction s) _ (open-Safe Holds s h) λ _ s h h'.
        Safe-bind Holds (exec (λ now db. cancelled_jobs (condition now) db) s) _
          (exec-Safe Holds (λ now db. cancelled_jobs (condition now) db) s
            (λ now db. k.cancels (condition now) db (only now)) h h')
          λ jobs s h h'.
            Safe-bind Holds (release_vm_resources (cancelled_ids jobs) s) _
              (release-Safe (cancelled_ids jobs) s h h') λ _ s h h'. commit-Safe Holds s h h')

  restart_jobs-Safe :
      (ids : List ℕ) (initial : JobStatus) (limit : ℕ) (s : Session)
      → (initial ≡ scheduled) ⊎ (initial ≡ running)
      → Holds s.stored
      → Holds s.seen
      → Safe {0} Holds (restart_jobs ids initial limit s)
  unfolding restart_jobs
  restart_jobs-Safe ids initial limit s i h h' =
      Safe-bind Holds
        (execute (λ now db. record db { jobs = requeued ids initial limit db.jobs }) s) _
        (exec-Safe Holds _ s (λ now db g. (k.requeues ids initial limit db i g).0) h h')
        λ _ s h h'. exec-Safe Holds _ s (λ now db g. (k.requeues ids initial limit db i g).1) h h'

  restart_and_commit-Safe :
      (initial : JobStatus) (limit : ℕ) (ids : List ℕ) (s : Session)
      → (initial ≡ scheduled) ⊎ (initial ≡ running)
      → Holds s.stored
      → Holds s.seen
      → Safe {0} Holds (restart_and_commit initial limit ids s)
  restart_and_commit-Safe initial limit [] s i h h' = (h, h')
  restart_and_commit-Safe initial limit (id ∷ ids) s i h h' =
      Safe-bind Holds (restart_jobs (id ∷ ids) initial limit s) _
        (restart_jobs-Safe (id ∷ ids) initial limit s i h h') λ _ s h h'. commit-Safe Holds s h h'

  pub move_vms-Safe :
      (condition : ℕ → VmRow → Bool) (target : VmStatus) (initial : JobStatus) (limit : ℕ)
      (s : Session)
      → (initial ≡ scheduled) ⊎ (initial ≡ running)
      → Holds s.stored
      → Safe {0} Holds (move_vms condition target initial limit s)
  move_vms-Safe condition target initial limit s i h = Safe-caught Holds _ (
      Safe-bind Holds (open_transaction s) _ (open-Safe Holds s h) λ _ s h h'.
        Safe-bind Holds (exec (λ now db. moved (condition now) target now db) s) _
          (exec-Safe Holds (λ now db. moved (condition now) target now db) s
            (λ now db. k.statuses (condition now) now target db) h h')
          λ ids s h h'. restart_and_commit-Safe initial limit ids s i h h')

  pub set_vm_statuses-Safe :
      (ids : List ℕ) (status : VmStatus) (s : Session)
      → Holds s.stored
      → Safe {0} Holds (set_vm_statuses ids status s)
  unfolding set_vm_statuses
  set_vm_statuses-Safe [] status s h = h
  set_vm_statuses-Safe (id ∷ ids) status s h =
      exec_writable_query-Safe _ s (λ now db. k.statuses _ now status db) h
