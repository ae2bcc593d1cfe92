-- ===== src/Server/PublicApi/NewTask.antt =====
-- libs/server/impl/public_api_service.cpp: a new task, as getTaskState reports it.
use Prim.Native.String.{String}
use mathlib.Core.Option.{some-injective}
use vm_scheduler.Prelude.{
  ℕ, zero, suc, ◌≡◌, ◌≢◌, refl, sym, ap, subst, ◌∙◌, inl, inr, Bool, true, false, List, [], ◌∷◌,
  ◌++◌, map, All, length, ◌==◌, ==_refl,
}
use vm_scheduler.Common.Result.{success, failure}
use vm_scheduler.Server.Messages.{
  ProtoJobStatus, job_queued, job_running, Task, TaskState, task_queued,
}
use vm_scheduler.Server.Helpers.{
  Reply, job_status_to_proto, invalid_argument, replies_with, replies_ok,
}
use vm_scheduler.Server.Conversions.{
  ParseJson, parameters_of, proto_task_state_from_job_states, some_status,
  job_states_to_task_status, proto_statuses,
}
use vm_scheduler.Server.PublicApi.{add_task, get_task_state}
use vm_scheduler.Server.PublicApi.AddTask.{Follows, add_task-Follows}
use vm_scheduler.Server.PublicApi.TaskStatus.{RepliesOn, jobs_of, task_questions-RepliesOn}
use vm_scheduler.Storage.Transaction.{Run, Session, ended, crashed}
use vm_scheduler.Storage.Jobs
use vm_scheduler.Storage.Jobs.{TaskParameters, JobState, new_job, new_jobs}
use vm_scheduler.Storage.Jobs.Add.{add_task-jobs}
use vm_scheduler.Storage.Reads.{job_state}
use vm_scheduler.Storage.Rows.{JobRow, select_where}

-- The tasks of the stored jobs are older than the next task.
abbrev pub IsFresh : Session → Type 0
IsFresh s = All (λ (job : JobRow). (job.task_id == s.stored.next_task_id) ≡ false) s.stored.jobs

abbrev pub queued_times : ℕ → List ProtoJobStatus
queued_times zero = []
queued_times (suc n) = job_queued ∷ queued_times n

select_where-append {ℓ} :
    {A : Type ℓ} (p : A → Bool) (xs ys : List A)
    → All (λ x. p x ≡ false) xs
    → select_where p (xs ++ ys) ≡ select_where p ys
unfolding select_where
select_where-append p [] ys h = refl
select_where-append p (x ∷ xs) ys h = rw h.0 (select_where-append p xs ys h.1)

select_where-new_jobs :
    (p : TaskParameters) (task_id now id : ℕ) (options : List String)
    → select_where (λ job. job.task_id == task_id) (new_jobs p task_id now id options)
      ≡ new_jobs p task_id now id options
unfolding select_where new_jobs
select_where-new_jobs p task_id now id [] = refl
select_where-new_jobs p task_id now id (o ∷ options) = rw (==_refl task_id) (
    ap (λ rest. new_job p task_id now id o ∷ rest)
      (select_where-new_jobs p task_id now (suc id) options))

new_jobs-queued :
    (p : TaskParameters) (task_id now id : ℕ) (options : List String)
    → proto_statuses (map job_state (new_jobs p task_id now id options))
      ≡ queued_times (length options)
unfolding proto_statuses new_jobs job_status_to_proto
new_jobs-queued p task_id now id [] = refl
new_jobs-queued p task_id now id (o ∷ options) =
    ap (λ rest. job_queued ∷ rest) (new_jobs-queued p task_id now (suc id) options)

some_queued :
    (n : ℕ)
    → (some_status job_running (queued_times n) ≡ false)
      × (some_status job_queued (queued_times (suc n)) ≡ true)
unfolding some_status
some_queued zero = (refl, refl)
some_queued (suc n) = ((some_queued n).0, refl)

queued_times-status : (n : ℕ) → job_states_to_task_status (queued_times (suc n)) ≡ task_queued
unfolding job_states_to_task_status
queued_times-status n = rw ((some_queued (suc n)).0, (some_queued n).1) refl

ok-injective : {A : Type 0} {a b : A} → ◌≡◌ {A = Reply A} (replies_ok a) (replies_ok b) → a ≡ b
ok-injective {A} {a} {b} e = some-injective a b (ap (λ (r : Reply A). r.response) e)

refused {ℓ} :
    {A : Type ℓ} {id : ℕ} {s t : Session}
    → ◌≡◌ {A = Run (Reply ℕ)}
        (ended (success (replies_with invalid_argument)) s)
        (ended (success (replies_ok id)) t)
    → A
refused e = cc

none_new :
    (p : TaskParameters) (id now first : ℕ)
    → ¬ ◌≢◌ {A = List JobRow} (new_jobs p id now first []) []
unfolding new_jobs
none_new p id now first h = h refl

state-ok :
    {A : Type 0} (f : List JobState → A) (jobs : List JobRow) (state : A) (u : Session)
    → RepliesOn f jobs (ended (success (replies_ok state)) u)
    → (state ≡ f (map job_state jobs)) × (◌≢◌ {A = List JobRow} jobs [])
state-ok f jobs state u (inl h) = let e = h.0 in cc
state-ok f jobs state u (inr (inl h)) = (ok-injective h.0, h.1)
state-ok f jobs state u (inr (inr e)) = cc

stored-ok :
    (run : Run (ℕ × List ℕ)) (reply : Run (Reply ℕ)) (id : ℕ) (t : Session)
    → Follows run reply
    → reply ≡ ended (success (replies_ok id)) t
    → (ids : List ℕ) × (run ≡ ended (success (id, ids)) t)
stored-ok (ended (success (x, ids)) u) reply id t h e = (ids, cc)
stored-ok (ended (failure e') u) reply id t h e = cc
stored-ok crashed reply id t h e = cc

-- The new task's jobs, after the addition.
jobs_of-new :
    (p : TaskParameters) (s t : Session) (id : ℕ) (ids : List ℕ)
    → IsFresh s
    → Jobs.add_task p s ≡ ended (success (id, ids)) t
    → jobs_of id t ≡ new_jobs p id s.now s.stored.next_job_id p.job_options
jobs_of-new p s t id ids fresh e =
    let (named, jobs) = add_task-jobs p s e in
    rw (jobs, named)
      (select_where-append (λ (job : JobRow). job.task_id == s.stored.next_task_id) s.stored.jobs _
          fresh
        ∙ select_where-new_jobs p s.stored.next_task_id s.now s.stored.next_job_id p.job_options)

-- The state of a task of which no job has been scheduled.
abbrev pub IsNew : ℕ → TaskState → Type 0
IsNew n state = (state.status ≡ task_queued) × (state.job_states ≡ queued_times n)

new_jobs-IsNew :
    (p : TaskParameters) (id now first : ℕ) (options : List String)
    → ◌≢◌ {A = List JobRow} (new_jobs p id now first options) []
    → IsNew
        (length options)
        (proto_task_state_from_job_states (map job_state (new_jobs p id now first options)))
unfolding proto_task_state_from_job_states
new_jobs-IsNew p id now first [] h = absurd (none_new p id now first h)
new_jobs-IsNew p id now first (o ∷ options) h =
    let all = new_jobs-queued p id now first (o ∷ options) in
    (rw all (queued_times-status (length options)), all)

-- Where adding a task was answered OK with an id, and a question about the state of that id right
-- after it too, the task is queued, with as many queued jobs as the request said; if the stored
-- jobs belong to no task with the next id.
pub get_task_state-add_task :
    (parse : ParseJson) (task : Task) (s t u : Session) (id : ℕ) (state : TaskState)
    → IsFresh s
    → add_task parse task s ≡ ended (success (replies_ok id)) t
    → get_task_state id t ≡ ended (success (replies_ok state)) u
    → IsNew task.job_count state
get_task_state-add_task parse task s t u id state fresh added asked =
    elim (add_task-Follows parse task s) [
      | inr (invalid, e) ↦ refused (sym e ∙ added)
      | inl (valid, follows) ↦
          let p = parameters_of task in
          let (ids, stored) = stored-ok (Jobs.add_task p s) _ id t follows added in
          let jobs = jobs_of-new p s t id ids fresh stored in
          let told =
            subst (RepliesOn proto_task_state_from_job_states (jobs_of id t)) asked
              (task_questions-RepliesOn id t).0 in
          let (same, some_job) =
            state-ok proto_task_state_from_job_states (jobs_of id t) state u told in
          let new =
            new_jobs-IsNew p id s.now s.stored.next_job_id p.job_options
              (λ e. some_job (jobs ∙ e)) in
          let whole =
            same ∙ ap (λ rows. proto_task_state_from_job_states (map job_state rows)) jobs in
          (
            ap (λ (x : TaskState). x.status) whole ∙ new.0,
            ap (λ (x : TaskState). x.job_states) whole ∙ new.1 ∙ ap queued_times valid.count,
          )
    ]
