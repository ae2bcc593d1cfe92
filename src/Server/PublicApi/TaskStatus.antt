-- ===== src/Server/PublicApi/TaskStatus.antt =====
-- libs/server/impl/public_api_service.cpp, getTaskState and getTaskResult: the replies, against the
-- jobs that are stored.
use mathlib.Core.Path.{ap₂}
use vm_scheduler.Prelude.{
  ℕ, ◌≡◌, refl, ap, not, ◌↔◌, ◌≢◌, ◌⊎◌, inl, inr, Bool, true, false, ◌||◌, List, [], ◌∷◌, map, All,
  ◌==◌, if◌then◌else◌,
}
use vm_scheduler.Common.Result.{success, failure}
use vm_scheduler.State.Job
use vm_scheduler.State.Job.{JobStatus}
use vm_scheduler.Server.Messages.{
  job_running, job_queued, same_proto_status, ProtoTaskStatus, task_running, task_queued,
  task_completed,
}
use vm_scheduler.Server.Helpers
use vm_scheduler.Server.Helpers.{
  Reply, ok, not_found, internal, replies_with, replies_ok, job_status_to_proto,
}
use vm_scheduler.Server.Conversions.{
  some_status, job_states_to_task_status, proto_statuses, proto_task_state_from_job_states,
  job_result, proto_task_execution_result_from_job_states,
}
use vm_scheduler.Server.PublicApi.{answer_states, get_task_state, get_task_result}
use vm_scheduler.Storage.Rows.{JobRow, select_where}
use vm_scheduler.Storage.Transaction.{Run, Session, ended, crashed, bind, gives}
use vm_scheduler.Storage.Jobs.{JobState, is_final}
use vm_scheduler.Storage.Reads.{job_state, states_of_task, get_job_states}
use vm_scheduler.Storage.Transaction.Ends.{Reads, read-Reads}

abbrev runs : JobStatus → Bool
runs status = Job.same_status status Job.running

abbrev waits : JobStatus → Bool
waits status = Job.contains_status status (Job.queued ∷ Job.scheduled ∷ [])

proto-runs :
    (status : JobStatus) → same_proto_status (job_status_to_proto status) job_running ≡ runs status
unfolding job_status_to_proto
proto-runs Job.queued = refl
proto-runs Job.scheduled = refl
proto-runs Job.running = refl
proto-runs Job.completed = refl
proto-runs Job.cancelling = refl
proto-runs Job.cancelled = refl
proto-runs Job.error = refl
proto-runs Job.internal_error = refl

proto-waits :
    (status : JobStatus) → same_proto_status (job_status_to_proto status) job_queued ≡ waits status
unfolding job_status_to_proto
proto-waits Job.queued = refl
proto-waits Job.scheduled = refl
proto-waits Job.running = refl
proto-waits Job.completed = refl
proto-waits Job.cancelling = refl
proto-waits Job.cancelled = refl
proto-waits Job.error = refl
proto-waits Job.internal_error = refl

-- No status but the final ones is neither running nor waiting.
final-or : (status : JobStatus) → is_final status ≡ not (runs status || waits status)
final-or Job.queued = refl
final-or Job.scheduled = refl
final-or Job.running = refl
final-or Job.completed = refl
final-or Job.cancelling = refl
final-or Job.cancelled = refl
final-or Job.error = refl
final-or Job.internal_error = refl

abbrev some_state : (JobStatus → Bool) → List JobState → Bool
some_state test [] = false
some_state test (state ∷ states) = test state.status || some_state test states

some_status-running :
    (states : List JobState)
    → some_status job_running (proto_statuses states) ≡ some_state runs states
unfolding some_status proto_statuses
some_status-running [] = refl
some_status-running (state ∷ states) =
    ap₂ ◌||◌ (proto-runs state.status) (some_status-running states)

some_status-waiting :
    (states : List JobState)
    → some_status job_queued (proto_statuses states) ≡ some_state waits states
unfolding some_status proto_statuses
some_status-waiting [] = refl
some_status-waiting (state ∷ states) =
    ap₂ ◌||◌ (proto-waits state.status) (some_status-waiting states)

-- That all jobs have ended; that none runs.
abbrev pub AllEnded : List JobRow → Type 0
AllEnded jobs = All (λ (job : JobRow). is_final job.status ≡ true) jobs

abbrev pub NoneRuns : List JobRow → Type 0
NoneRuns jobs = All (λ (job : JobRow). Job.same_status job.status Job.running ≡ false) jobs

or-false : (a b : Bool) → ((a || b) ≡ false) ↔ ((a ≡ false) × (b ≡ false))
or-false true b = (λ h. cc, λ h. cc)
or-false false b = (λ h. (refl, h), λ h. h.1)

or-or-false :
    (a b c d : Bool) → (((a || b) || (c || d)) ≡ false) ↔ (((a || c) ≡ false) × ((b || d) ≡ false))
or-or-false true b c d = (λ h. cc, λ h. cc)
or-or-false false true c d = (λ h. cc, λ h. cc)
or-or-false false false true d = (λ h. cc, λ h. cc)
or-or-false false false false d = (λ h. (refl, h), λ h. h.1)

NoneRuns-test :
    (jobs : List JobRow) → NoneRuns jobs ↔ (some_state runs (map job_state jobs) ≡ false)
NoneRuns-test [] = (λ h. refl, λ h. tt)
NoneRuns-test (job ∷ jobs) =
    let ih = NoneRuns-test jobs in
    let both = or-false (runs job.status) (some_state runs (map job_state jobs)) in
    (λ h. both.1 (h.0, ih.0 h.1), λ h. ((both.0 h).0, ih.1 (both.0 h).1))

not-false : (b : Bool) {a : Bool} → a ≡ not b → (a ≡ true) ↔ (b ≡ false)
not-false true e = (λ h. cc, λ h. cc)
not-false false e = (λ h. refl, λ h. e)

AllEnded-test :
    (jobs : List JobRow)
    → AllEnded jobs
      ↔ ((some_state runs (map job_state jobs) || some_state waits (map job_state jobs)) ≡ false)
AllEnded-test [] = (λ h. refl, λ h. tt)
AllEnded-test (job ∷ jobs) =
    let ih = AllEnded-test jobs in
    let here = not-false (runs job.status || waits job.status) (final-or job.status) in
    let both =
      or-or-false (runs job.status) (some_state runs (map job_state jobs)) (waits job.status)
        (some_state waits (map job_state jobs)) in
    (λ h. both.1 (here.0 h.0, ih.0 h.1), λ h. (here.1 (both.0 h).0, ih.1 (both.0 h).1))

abbrev task_status : Bool → Bool → ProtoTaskStatus
task_status running waiting =
    if running then task_running else if waiting then task_queued else task_completed

task_status-completed : (a b : Bool) → (task_status a b ≡ task_completed) ↔ ((a || b) ≡ false)
task_status-completed true b = (λ h. cc, λ h. cc)
task_status-completed false true = (λ h. cc, λ h. cc)
task_status-completed false false = (λ h. refl, λ h. refl)

task_status-running : (a b : Bool) → (task_status a b ≡ task_running) ↔ (a ≡ true)
task_status-running true b = (λ h. refl, λ h. refl)
task_status-running false true = (λ h. cc, λ h. cc)
task_status-running false false = (λ h. cc, λ h. cc)

not_running : (b : Bool) {P : Type 0} → P ↔ (b ≡ false) → (b ≡ true) ↔ (¬ P)
not_running true h = (λ t p. let e = h.0 p in cc, λ n. refl)
not_running false h = (λ t. cc, λ n. absurd (n (h.1 refl)))

-- The status that is reported for a list of jobs.
abbrev pub Reports : List JobRow → ProtoTaskStatus → Type 0
Reports jobs status =
    ((status ≡ task_completed) ↔ AllEnded jobs) × ((status ≡ task_running) ↔ (¬ NoneRuns jobs))

status-Reports :
    (jobs : List JobRow)
    → Reports jobs (job_states_to_task_status (proto_statuses (map job_state jobs)))
unfolding job_states_to_task_status
status-Reports jobs =
    let states = map job_state jobs in
    let r = some_status-running states in
    let w = some_status-waiting states in
    let all = AllEnded-test jobs in
    let none = not_running (some_state runs states) (NoneRuns-test jobs) in
    let completed = task_status-completed (some_state runs states) (some_state waits states) in
    let running = task_status-running (some_state runs states) (some_state waits states) in
    rw (r, w)
      (
        (λ h. all.1 (completed.0 h), λ h. completed.1 (all.0 h)),
        (λ h. none.0 (running.0 h), λ h. running.1 (none.1 h)),
      )

result-statuses :
    (states : List JobState)
    → map (λ result. result.status) (map job_result states) ≡ proto_statuses states
unfolding proto_statuses
result-statuses [] = refl
result-statuses (state ∷ states) =
    ap (λ rest. job_status_to_proto state.status ∷ rest) (result-statuses states)

-- Both messages about a task give it the same status: it is completed exactly when each of its jobs
-- has a status that the source calls final, and running exactly when some job of it runs.
pub task_messages-Reports :
    (jobs : List JobRow)
    → Reports jobs (proto_task_state_from_job_states (map job_state jobs)).status
      × Reports jobs (proto_task_execution_result_from_job_states (map job_state jobs)).status
unfolding proto_task_state_from_job_states proto_task_execution_result_from_job_states
task_messages-Reports jobs =
    (status-Reports jobs, rw (result-statuses (map job_state jobs)) (status-Reports jobs))

-- What is replied to a question about a task with these jobs, if `f` makes the message: the handler
-- ends, with a reply.
abbrev pub RepliesOn : {A : Type 0} → (List JobState → A) → List JobRow → Run (Reply A) → Type 0
RepliesOn f jobs (ended (success reply) t) =
    ((reply ≡ replies_with not_found) × (◌≡◌ {A = List JobRow} jobs []))
    ⊎ ((reply ≡ replies_ok (f (map job_state jobs))) × (◌≢◌ {A = List JobRow} jobs []))
    ⊎ (reply ≡ replies_with internal)
RepliesOn f jobs _ = ⊥

answer_states-found :
    {A : Type 0} (f : List JobState → A) (jobs : List JobRow) (t : Session)
    → RepliesOn f jobs (ended (success (answer_states f (success (map job_state jobs)))) t)
answer_states-found f [] t = inl (refl, refl)
answer_states-found f (job ∷ jobs) t = inr (inl (refl, λ e. cc))

Reads-RepliesOn :
    {A : Type 0} (f : List JobState → A) (jobs : List JobRow) (run : Run (List JobState))
    → Reads (map job_state jobs) run
    → RepliesOn f jobs (bind (Helpers.handed_over run) (λ states. gives (answer_states f states)))
Reads-RepliesOn f jobs (ended (success states) t) h = rw h (answer_states-found f jobs t)
Reads-RepliesOn f jobs (ended (failure e) t) h = inr (inr refl)
Reads-RepliesOn f jobs crashed h = h

abbrev pub jobs_of : ℕ → Session → List JobRow
jobs_of task_id s = select_where (λ job. job.task_id == task_id) s.stored.jobs

pub task_questions-RepliesOn :
    (task_id : ℕ) (s : Session)
    → RepliesOn proto_task_state_from_job_states (jobs_of task_id s) (get_task_state task_id s)
      × RepliesOn proto_task_execution_result_from_job_states
          (jobs_of task_id s)
          (get_task_result task_id s)
unfolding get_task_state get_task_result get_job_states
task_questions-RepliesOn task_id s =
    let read = read-Reads (states_of_task task_id) s in
    (
      Reads-RepliesOn proto_task_state_from_job_states (jobs_of task_id s) _ read,
      Reads-RepliesOn proto_task_execution_result_from_job_states (jobs_of task_id s) _ read,
    )
