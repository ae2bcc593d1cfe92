-- ===== src/Storage/Operation/Perform.antt =====
-- Every operation keeps a property that all the changes keep.
use Prim.Native.String.{String}
use native.Mathlib.Omega.{arith}
use mathlib.Core.Bool.{◌&&◌}
use vm_scheduler.Prelude.{
  Option, none, some, Bool-cases, ◌==◌, ltb, ℕ, ◌+◌, Bool, true, List, [], ◌∷◌, if◌then◌else◌, ◌≡◌,
  inl, inr, refl,
}
use vm_scheduler.State.Job.{JobStatus, scheduled, running}
use vm_scheduler.State.Vm.{VmStatus}
use vm_scheduler.Storage.Rows.{VmRow, Db}
use vm_scheduler.Storage.Transaction.{Session, execute, open_transaction, commit}
use vm_scheduler.Storage.Transaction.Safety.{
  Safe, Safe-bind, Safe-caught, exec-Safe, open-Safe, commit-Safe,
}
use vm_scheduler.Storage.Vms
use vm_scheduler.Storage.Agents
use vm_scheduler.State.Vm.{TerminationPendingVmInfo}
use vm_scheduler.Storage.Vms.{
  all_named, to_terminate, exec_writable_query, set_vm_statuses, set_allocated, retry, retriable,
  restart_allocating_vms, requeued, given_up, restart_jobs, moved, restart_and_commit, move_vms,
  terminate_vms_where, with_vms,
}
use vm_scheduler.Storage.Jobs
use vm_scheduler.Storage.Jobs.{
  TaskParameters, JobState, insert_jobs, insert_some, cancelled_jobs, cancelled_ids,
  release_vm_resources, released, cancel_jobs, unfinished, statuses_of_job, answer_report, ignores,
  save_report, reported, is_final,
}
use vm_scheduler.Storage.Operation.{Operation, perform}
use vm_scheduler.Storage.Operation.Safety.{
  Kept, forget-Safe, exec_writable_query-Safe, release-Safe, cancel_jobs-Safe, move_vms-Safe,
  set_vm_statuses-Safe,
}

both : (a b : Bool) → (a && b) ≡ true → b ≡ true
both a b h = ground arith

module _ (Holds : Db → Type 0) (k : Kept Holds) where
  save_report-Safe :
      (vm_id job_id : ℕ) (state : JobState) (s : Session)
      → Holds s.stored
      → Holds s.seen
      → Safe {0} Holds (save_report vm_id job_id state s)
  save_report-Safe vm_id job_id state s h h' =
      Safe-bind Holds (execute (reported vm_id job_id state) s) _
        (exec-Safe Holds _ s (λ now db. k.reports vm_id job_id state now db) h h')
        λ _ s h h'.
          Safe-bind Holds
            (release_vm_resources (if is_final state.status then job_id ∷ [] else []) s) _
            (release-Safe Holds k _ s h h') λ _ s h h'. commit-Safe Holds s h h'

  answer_report-Safe :
      (vm_id job_id : ℕ) (state : JobState) (statuses : List JobStatus) (s : Session)
      → Holds s.stored
      → Holds s.seen
      → Safe {0} Holds (answer_report vm_id job_id state statuses s)
  answer_report-Safe vm_id job_id state [] s h h' = h
  answer_report-Safe vm_id job_id state (status ∷ rest) s h h' =
      elim (Bool-cases (ignores status state)) [
        | inl dropped ↦ rw (dropped, answer_report) (h, h')
        | inr taken ↦
            rw (taken, answer_report)
              (Safe-caught Holds _ (save_report-Safe vm_id job_id state s h h'))
      ]

  update_job_state-Safe :
      (vm_id job_id : ℕ) (state : JobState) (s : Session)
      → Holds s.stored
      → Safe {0} Holds (Jobs.update_job_state vm_id job_id state s)
  unfolding Jobs.update_job_state
  update_job_state-Safe vm_id job_id state s h =
      Safe-bind Holds _ (answer_report vm_id job_id state)
        (Safe-caught Holds _ (
          Safe-bind Holds (open_transaction s) _ (open-Safe Holds s h) λ _ s h h'.
            exec-Safe Holds (λ now db. (statuses_of_job vm_id job_id db, db)) s (λ now db g. g) h
              h'))
        (answer_report-Safe vm_id job_id state)

  insert_some-Safe :
      (p : TaskParameters) (task_id : ℕ) (options : List String) (s : Session)
      → Holds s.stored
      → Holds s.seen
      → Safe Holds (insert_some p task_id options s)
  insert_some-Safe p task_id [] s h h' = h
  insert_some-Safe p task_id (o ∷ options) s h h' =
      exec-Safe Holds (insert_jobs p task_id) s (λ now db. k.inserts p task_id now db) h h'

  add_task-Safe :
      (p : TaskParameters) (s : Session) → Holds s.stored → Safe Holds (Jobs.add_task p s)
  unfolding Jobs.add_task
  add_task-Safe p s h = Safe-caught Holds _ (
      Safe-bind Holds (open_transaction s) _ (open-Safe Holds s h) λ _ s h h'.
        Safe-bind Holds _ _ (exec-Safe Holds _ s (λ now db. k.tasks p db) h h') λ task_id s h h'.
          Safe-bind Holds (insert_some p task_id p.job_options s) _
            (insert_some-Safe p task_id p.job_options s h h')
            λ ids s h h'.
              Safe-bind Holds (commit s) _ (commit-Safe Holds s h h') λ _ s h h'. (h, h'))

  restart-Safe :
      (condition : ℕ → VmRow → Bool) (limit : ℕ) (s : Session)
      → Holds s.stored
      → Safe {0} Holds (restart_allocating_vms condition limit s)
  unfolding restart_allocating_vms
  restart-Safe condition limit s h =
      exec_writable_query-Safe Holds k _ s (λ now db. k.retries _ now db) h

  terminate_where-Safe :
      (condition : ℕ → VmRow → Bool) (initial target : VmStatus) (vm_limit job_limit : ℕ)
      (s : Session)
      → Holds s.stored
      → Safe {0} Holds (terminate_vms_where condition initial target vm_limit job_limit s)
  unfolding terminate_vms_where
  terminate_where-Safe condition initial target vm_limit job_limit s h =
      move_vms-Safe Holds k _ target scheduled job_limit s (inl refl) h

  rollback-Safe :
      (ids : List ℕ) (vm_limit job_limit : ℕ) (s : Session)
      → Holds s.stored
      → Safe {0} Holds (Vms.rollback_unallocated_vms_state ids vm_limit job_limit s)
  unfolding Vms.rollback_unallocated_vms_state
  rollback-Safe [] vm_limit job_limit s h = h
  rollback-Safe (id ∷ ids) vm_limit job_limit s h =
      Safe-bind Holds (restart_allocating_vms _ vm_limit s) _ (restart-Safe _ vm_limit s h)
        λ _ s h h'. terminate_where-Safe _ _ _ vm_limit job_limit s h

  all_named-Safe :
      (found : Option (List TerminationPendingVmInfo)) (s : Session)
      → Holds s.stored
      → Holds s.seen
      → Safe Holds (all_named found s)
  all_named-Safe none s h h' = tt
  all_named-Safe (some vms) s h h' = (h, h')

  get_assigned_jobs-Safe :
      (id : ℕ) (s : Session) → Holds s.stored → Safe Holds (Agents.get_assigned_jobs id s)
  unfolding Agents.get_assigned_jobs
  get_assigned_jobs-Safe id s h = Safe-caught Holds _ (
      Safe-bind Holds (open_transaction s) _ (open-Safe Holds s h) λ _ s h h'.
        Safe-bind Holds _ _ (exec-Safe Holds _ s (λ now db. k.statuses _ now _ db) h h') λ _ s h h'.
          Safe-bind Holds _ _ (exec-Safe Holds _ s (λ now db. k.activities _ now db) h h')
            λ _ s h h'.
              Safe-bind Holds _ _ (exec-Safe Holds _ s (λ now db g. g) h h') λ jobs s h h'.
                Safe-bind Holds (commit s) _ (commit-Safe Holds s h h') λ _ s h h'. (h, h'))

  pub perform-Safe : (op : Operation) (s : Session) → Holds s.stored → Safe Holds (perform op s)
  unfolding perform Vms.get_vms_to_allocate Vms.get_vms_to_terminate Vms.save_vm_allocation_result
      Vms.terminate_vms_with_inactive_agents
  perform-Safe (Operation.add_task p) s h =
      forget-Safe Holds k (Jobs.add_task p s) (add_task-Safe p s h)
  perform-Safe (Operation.cancel_task id) s h =
      cancel_jobs-Safe Holds k _ s (λ now job. both (job.task_id == id) (unfinished job)) h
  perform-Safe Operation.cancel_timed_out_jobs s h =
      cancel_jobs-Safe Holds k _ s
        (λ now job. both (ltb (job.created + job.estimation) now) (unfinished job)) h
  perform-Safe (Operation.update_job_state v j state) s h = update_job_state-Safe v j state s h
  perform-Safe (Operation.get_assigned_jobs id) s h =
      forget-Safe Holds k (Agents.get_assigned_jobs id s) (get_assigned_jobs-Safe id s h)
  perform-Safe (Operation.get_vms_to_allocate n) s h =
      forget-Safe Holds k (Vms.get_vms_to_allocate n s) (
        Safe-bind Holds _ _
          (exec_writable_query-Safe Holds k _ s (λ now db. k.statuses _ now _ db) h)
          λ rows s h h'. (h, h'))
  perform-Safe (Operation.get_vms_to_terminate n) s h =
      forget-Safe Holds k (Vms.get_vms_to_terminate n s) (
        Safe-bind Holds _ _
          (exec_writable_query-Safe Holds k _ s (λ now db. k.statuses _ now _ db) h)
          λ rows. all_named-Safe (to_terminate rows))
  perform-Safe (Operation.return_unterminated_vms ids) s h = set_vm_statuses-Safe Holds k ids _ s h
  perform-Safe (Operation.save_vm_termination_result id) s h =
      set_vm_statuses-Safe Holds k (id ∷ []) _ s h
  perform-Safe (Operation.save_vm_allocation_result id info) s h =
      exec_writable_query-Safe Holds k _ s (λ now db. k.allocations _ now info db) h
  perform-Safe (Operation.restart_stale_allocating_vms time limit) s h = restart-Safe _ limit s h
  perform-Safe (Operation.terminate_stale_allocating_vms time limit jobs) s h =
      terminate_where-Safe _ _ _ limit jobs s h
  perform-Safe (Operation.rollback_unallocated_vms_state ids limit jobs) s h =
      rollback-Safe ids limit jobs s h
  perform-Safe (Operation.terminate_vms_with_inactive_agents time jobs) s h =
      move_vms-Safe Holds k _ _ running jobs s (inr refl) h
  perform-Safe (Operation.terminate_vms_without_agents time jobs) s h =
      terminate_where-Safe _ _ _ 0 jobs s h
