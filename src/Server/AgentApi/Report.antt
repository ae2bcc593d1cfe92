-- ===== src/Server/AgentApi/Report.antt =====
-- libs/server/impl/agent_api_service.cpp, updateJobState: which status the agent gets, and what its
-- report does to the jobs.
use vm_scheduler.Prelude.{ℕ, ◌≡◌, refl, ◌≢◌, ◌⊎◌, inl, inr, true, List, [], ◌∷◌, Bool-cases}
use vm_scheduler.Common.Result.{success, failure, job_not_found, pg_exception, holds_error_type}
use vm_scheduler.State.Job
use vm_scheduler.State.Job.{JobStatus}
use vm_scheduler.Server.Messages.{ProtoJobStatus, job_queued, ExecutionJobState}
use vm_scheduler.Server.Helpers
use vm_scheduler.Server.Helpers.{
  Reply, ok, invalid_argument, not_found, internal, replies_with, replies_ok,
}
use vm_scheduler.Server.AgentApi.{
  proto_job_status_to_job_status, proto_execution_job_state_to_job_state,
  allowed_agent_update_job_statuses, is_allowed, answer_updated, update_job_state,
}
use vm_scheduler.Storage.Transaction.{Run, Session, ended, crashed, caught, try_pg, bind, Txn}
use vm_scheduler.Storage.Jobs
use vm_scheduler.Storage.Jobs.{
  JobState, lock_status, answer_report, save_report, ignores, unfinished, this_job, is_final,
}

-- How the storage's function fails.
abbrev FailsAsKnown {ℓ} : {A : Type ℓ} → Run A → Type 0
FailsAsKnown (ended (success a) s) = Unit
FailsAsKnown (ended (failure e) s) = (e ≡ job_not_found) ⊎ (e ≡ pg_exception)
FailsAsKnown crashed = Unit

caught-FailsAsKnown {ℓ} : {A : Type ℓ} (run : Run A) → FailsAsKnown (caught run)
caught-FailsAsKnown (ended (success a) s) = tt
caught-FailsAsKnown (ended (failure e) s) = inr refl
caught-FailsAsKnown crashed = tt

bind-FailsAsKnown {ℓ} :
    {A : Type ℓ} {B : Type 0} (run : Run A) (f : A → Txn B)
    → FailsAsKnown run
    → ((a : A) (s : Session) → FailsAsKnown (f a s))
    → FailsAsKnown (bind run f)
bind-FailsAsKnown (ended (success a) s) f h k = k a s
bind-FailsAsKnown (ended (failure e) s) f h k = h
bind-FailsAsKnown crashed f h k = tt

answer_report-FailsAsKnown :
    (vm_id job_id : ℕ) (state : JobState) (statuses : List JobStatus) (s : Session)
    → FailsAsKnown (answer_report vm_id job_id state statuses s)
answer_report-FailsAsKnown vm_id job_id state [] s = inl refl
answer_report-FailsAsKnown vm_id job_id state (status ∷ rest) s =
    elim (Bool-cases (ignores status state)) [
      | inl t ↦ rw (t, answer_report) tt
      | inr n ↦ rw (n, answer_report) (caught-FailsAsKnown (save_report vm_id job_id state s))
    ]

stored_update-FailsAsKnown :
    (vm_id job_id : ℕ) (state : JobState) (s : Session)
    → FailsAsKnown (Jobs.update_job_state vm_id job_id state s)
unfolding Jobs.update_job_state
stored_update-FailsAsKnown vm_id job_id state s =
    bind-FailsAsKnown (try_pg (lock_status vm_id job_id) s) (answer_report vm_id job_id state)
      (caught-FailsAsKnown (lock_status vm_id job_id s))
      (answer_report-FailsAsKnown vm_id job_id state)

-- The reply to each end of the storage's function.
abbrev pub Follows : Run (Unit {0}) → Run (Reply (Unit {0})) → Type 0
Follows (ended (success a) t) run = run ≡ ended (success (replies_ok tt)) t
Follows (ended (failure e) t) run =
    ((e ≡ job_not_found) × (run ≡ ended (success (replies_with not_found)) t))
    ⊎ ((e ≡ pg_exception) × (run ≡ ended (success (replies_with internal)) t))
Follows crashed run = run ≡ crashed

handed_over-Follows :
    (run : Run (Unit {0}))
    → FailsAsKnown run
    → Follows run (bind (Helpers.handed_over run) (λ r s. ended (success (answer_updated r)) s))
unfolding holds_error_type
handed_over-Follows (ended (success a) s) h = refl
handed_over-Follows (ended (failure e) s) (inl h) = rw h (inl (refl, refl))
handed_over-Follows (ended (failure e) s) (inr h) = rw h (inr (refl, refl))
handed_over-Follows crashed h = refl

pub status-allowed :
    (p : ProtoJobStatus)
    → p ≢ job_queued
    → Job.contains_status (proto_job_status_to_job_status p) allowed_agent_update_job_statuses
      ≡ true
unfolding proto_job_status_to_job_status
status-allowed ProtoJobStatus.job_queued h = absurd (h refl)
status-allowed ProtoJobStatus.job_running h = refl
status-allowed ProtoJobStatus.job_completed h = refl
status-allowed ProtoJobStatus.job_cancelled h = refl
status-allowed ProtoJobStatus.job_failed h = refl

-- A report that says that the job is queued is refused with INVALID_ARGUMENT and changes nothing.
-- Any other is answered after the storage: with OK where the storage succeeded, with NOT_FOUND
-- where it knows no such job on the VM, and with INTERNAL in every other failure. So no agent is
-- ever answered CANCELLED.
pub update_job_state-Follows :
    (request : ExecutionJobState) (s : Session)
    → (request.status ≡ job_queued
        → update_job_state request s ≡ ended (success (replies_with invalid_argument)) s)
      × (request.status ≢ job_queued
          → Follows
              (Jobs.update_job_state request.vm_id request.job_id
                (proto_execution_job_state_to_job_state request)
                s)
              (update_job_state request s))
unfolding update_job_state proto_job_status_to_job_status
update_job_state-Follows request s = (
  λ h. rw h refl,
  λ h.
      let allowed : is_allowed (proto_execution_job_state_to_job_state request) ≡ true =
        status-allowed request.status h in
      rw allowed (
        handed_over-Follows _ (
          stored_update-FailsAsKnown request.vm_id request.job_id
            (proto_execution_job_state_to_job_state request) s)),
)
