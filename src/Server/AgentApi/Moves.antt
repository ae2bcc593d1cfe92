-- ===== src/Server/AgentApi/Moves.antt =====
-- libs/server/impl/agent_api_service.cpp, updateJobState: the jobs after a report that was taken.
use vm_scheduler.Prelude.{
  ℕ, ◌≡◌, refl, sym, ◌∙◌, ◌≢◌, ◌⊎◌, inl, inr, true, false, ◌&&◌, some, get_elem?, Bool-cases, arith,
}
use vm_scheduler.Common.Result.{success, failure}
use vm_scheduler.State.Job
use vm_scheduler.Server.Messages.{job_queued, ProtoJobStatus, ExecutionJobState}
use vm_scheduler.Server.Helpers.{Reply, replies_ok, replies_with, invalid_argument}
use vm_scheduler.Server.AgentApi.{
  proto_execution_job_state_to_job_state, allowed_agent_update_job_statuses, update_job_state,
}
use vm_scheduler.Server.AgentApi.Report.{Follows, status-allowed, update_job_state-Follows}
use vm_scheduler.Storage.Rows.{JobRow}
use vm_scheduler.Storage.Transaction.{Run, Session, ended, crashed}
use vm_scheduler.Storage.Jobs.{unfinished, this_job, is_final}
use vm_scheduler.Storage.Jobs.Update.{HasUniqueIds, after_report, update_job_state-jobs}

Follows-ok :
    (stored : Run (Unit {0})) (run : Run (Reply (Unit {0}))) (t : Session)
    → Follows stored run
    → run ≡ ended (success (replies_ok tt)) t
    → stored ≡ ended (success tt) t
Follows-ok (ended (success a) u) run t h e = cc
Follows-ok (ended (failure x) u) run t (inl h) e = cc
Follows-ok (ended (failure x) u) run t (inr h) e = cc
Follows-ok crashed run t h e = cc

not_ok {ℓ} :
    {A : Type ℓ} {s t : Session}
    → ◌≡◌ {A = Run (Reply (Unit {0}))}
        (ended (success (replies_with invalid_argument)) s)
        (ended (success (replies_ok tt)) t)
    → A
not_ok e = cc

is_queued : (p : ProtoJobStatus) → (p ≡ job_queued) ⊎ (p ≢ job_queued)
is_queued ProtoJobStatus.job_queued = inl refl
is_queued ProtoJobStatus.job_running = inr (λ e. cc)
is_queued ProtoJobStatus.job_completed = inr (λ e. cc)
is_queued ProtoJobStatus.job_cancelled = inr (λ e. cc)
is_queued ProtoJobStatus.job_failed = inr (λ e. cc)

-- A step of a job by a report of an agent.
pub record Moved (vm_id job_id : ℕ) (before after : JobRow) : Type 0 where
  pub job : before.id ≡ job_id
  pub vm : before.vm_id ≡ some vm_id
  pub unfinished : is_final before.status ≡ false
  pub status : Job.contains_status after.status allowed_agent_update_job_statuses ≡ true
  pub same : (after.id ≡ job_id) × (after.vm_id ≡ some vm_id)

module _ (request : ExecutionJobState) (now : ℕ) (job : JobRow) where
  abbrev after : JobRow
  after =
      after_report request.vm_id request.job_id (proto_execution_job_state_to_job_state request) now
        job

  after_report-moves :
      request.status ≢ job_queued → (after ≡ job) ⊎ Moved request.vm_id request.job_id job after
  after_report-moves h =
      elim (Bool-cases (this_job request.vm_id request.job_id job && unfinished job)) [
        | inr n ↦ inl (rw n refl)
        | inl t ↦
            let allowed = status-allowed request.status h in
            inr (
              rw t (record {
                job = ground arith;
                vm = ground arith;
                unfinished = ground arith;
                status = allowed;
                same = (ground arith, ground arith);
              }))
      ]

-- A report that is answered OK leaves every job as it was, but for the job that it names: on the VM
-- that it names, and with no status that the source calls final, that job may get one of the four
-- statuses that agents may set.
pub update_job_state-moves :
    (request : ExecutionJobState) (s t : Session)
    → HasUniqueIds s.stored.jobs
    → update_job_state request s ≡ ended (success (replies_ok tt)) t
    → (i : ℕ) (job : JobRow) → get_elem? s.stored.jobs i ≡ some job
    → (after : JobRow) × (get_elem? t.stored.jobs i ≡ some after)
      × ((after ≡ job) ⊎ Moved request.vm_id request.job_id job after)
update_job_state-moves request s t only e i job here = elim (is_queued request.status) [
  | inl q ↦ not_ok (sym ((update_job_state-Follows request s).0 q) ∙ e)
  | inr n ↦
      let state = proto_execution_job_state_to_job_state request in
      let stored = Follows-ok _ _ t ((update_job_state-Follows request s).1 n) e in
      (
        after_report request.vm_id request.job_id state s.now job,
        update_job_state-jobs request.vm_id request.job_id state s t only stored i job here,
        after_report-moves request s.now job n,
      )
]
