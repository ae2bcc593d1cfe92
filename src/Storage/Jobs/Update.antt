-- ===== src/Storage/Jobs/Update.antt =====
-- `updateJobState`: what a report that succeeds has done to the jobs, and how a report fails.
use vm_scheduler.Prelude.{
  ℕ, suc, ◌≡◌, refl, ap, sym, subst, ◌∙◌, Bool, true, false, ◌&&◌, List, [], ◌∷◌, map, some,
  get_elem?, if◌then◌else◌, Bool-cases, inl, inr, arith,
}
use mathlib.Core.Option.{some-injective}
use vm_scheduler.Common.Result.{Result, success}
use vm_scheduler.State.Job.{JobStatus}
use vm_scheduler.Storage.Rows.{JobRow, select_where, update_where-at}
use vm_scheduler.Storage.Transaction.{Run, Session, ended, execute, open_transaction, try_pg}
use vm_scheduler.Storage.Transaction.Laws.{
  bind-success, exec-Queried, open-seen, caught-success, committed-stored,
}
use vm_scheduler.Storage.Jobs.{
  JobState, this_job, unfinished, report, reported, statuses_of_job, ignores, is_final,
  release_vm_resources, lock_status, save_report, answer_report, update_job_state,
}
use vm_scheduler.Storage.Jobs.Cancel.{release-jobs}

-- No two rows have the same id.
abbrev pub HasUniqueIds : List JobRow → Type 0
HasUniqueIds jobs =
    (i k : ℕ) (a b : JobRow)
    → get_elem? jobs i ≡ some a
    → get_elem? jobs k ≡ some b
    → a.id ≡ b.id
    → i ≡ k

select_where-head {ℓ} :
    {A : Type ℓ} {B : Type 0} (p : A → Bool) (f : A → B) (xs : List A) (b : B) (rest : List B)
    → map f (select_where p xs) ≡ b ∷ rest
    → (i : ℕ) × (x : A) × (get_elem? xs i ≡ some x) × (p x ≡ true) × (f x ≡ b)
unfolding select_where
select_where-head p f [] b rest e = cc
select_where-head p f (x ∷ xs) b rest e = elim (Bool-cases (p x)) [
  | inl t ↦ (0, x, refl, t, ground (arith, t))
  | inr n ↦
      let (i, y, at, t, same) = select_where-head p f xs b rest (ground (arith, n)) in
      (suc i, y, at, t, same)
]

-- A row after a report.
abbrev pub after_report : ℕ → ℕ → JobState → ℕ → JobRow → JobRow
after_report vm_id job_id state now job =
    if this_job vm_id job_id job && unfinished job then report state now job else job

save_report-jobs :
    (vm_id job_id : ℕ) (state : JobState) (s t : Session)
    → save_report vm_id job_id state s ≡ ended (success tt) t
    → t.stored.jobs ≡ (reported vm_id job_id state s.now s.seen).jobs
save_report-jobs vm_id job_id state s t e =
    let (_, s1, e1, r1) = bind-success (execute (reported vm_id job_id state) s) _ e in
    let ids = if is_final state.status then job_id ∷ [] else [] in
    let (_, s2, e2, r2) = bind-success (release_vm_resources ids s1) _ r1 in
    let q = exec-Queried (λ now db. (tt, reported vm_id job_id state now db)) s e1 in
    ap (λ db. db.jobs) (committed-stored s2 r2) ∙ release-jobs ids s1 e2 ∙ ap (λ db. db.jobs) q.view

-- What the reading of the statuses leaves behind.
record Read (vm_id job_id : ℕ) (s : Session) (statuses : List JobStatus) (t : Session)
    : Type 0 where
  found : statuses ≡ statuses_of_job vm_id job_id s.stored
  view : t.seen ≡ s.stored
  kept : t.stored ≡ s.stored
  clock : t.now ≡ s.now

lock_status-Read :
    (vm_id job_id : ℕ) (s : Session) {statuses : List JobStatus} {t : Session}
    → try_pg (lock_status vm_id job_id) s ≡ ended (success statuses) t
    → Read vm_id job_id s statuses t
lock_status-Read vm_id job_id s e =
    let (_, s1, e1, r1) = bind-success (open_transaction s) _ (caught-success _ e) in
    let q = exec-Queried (λ now db. (statuses_of_job vm_id job_id db, db)) s1 r1 in
    let opened = open-seen s e1 in
    record {
      found = sym q.answer ∙ ap (statuses_of_job vm_id job_id) opened.0;
      view = q.view ∙ opened.0;
      kept = q.kept ∙ opened.1;
      clock = q.clock ∙ opened.2;
    }

this_job-id : (vm_id job_id : ℕ) (job : JobRow) → this_job vm_id job_id job ≡ true → job.id ≡ job_id
this_job-id vm_id job_id job h = ground arith

ignores-unfinished :
    (state : JobState) (job : JobRow) → ignores job.status state ≡ true → unfinished job ≡ false
ignores-unfinished state job h = ground arith

ended-jobs :
    {r r' : Result (Unit {0})} {s t : Session}
    → ◌≡◌ {A = Run (Unit {0})} (ended r t) (ended r' s)
    → t.stored.jobs ≡ s.stored.jobs
ended-jobs e = cc

module _ (vm_id job_id : ℕ) (state : JobState) where
  -- A job that is being cancelled takes no report.
  ignored-unfinished :
      (jobs : List JobRow) (status : JobStatus) (rest : List JobStatus)
      → HasUniqueIds jobs
      → status ∷ rest ≡ map (λ job. job.status) (select_where (this_job vm_id job_id) jobs)
      → ignores status state ≡ true
      → (i : ℕ) (job : JobRow) → get_elem? jobs i ≡ some job
      → (this_job vm_id job_id job && unfinished job) ≡ false
  ignored-unfinished jobs status rest only e dropped i job here =
      let (k, other, at, mine, same) =
        select_where-head (this_job vm_id job_id) (λ (job : JobRow). job.status) jobs status rest
          (sym e) in
      elim (Bool-cases (this_job vm_id job_id job)) [
        | inr n ↦ rw n refl
        | inl t ↦
            let ids : job.id ≡ other.id =
              this_job-id vm_id job_id job t ∙ sym (this_job-id vm_id job_id other mine) in
            let places : i ≡ k = only i k job other here at ids in
            let rows : job ≡ other =
              some-injective job other (sym here ∙ ap (get_elem? jobs) places ∙ at) in
            let ended : unfinished job ≡ false = ignores-unfinished state job (
              subst (λ status. ignores status state ≡ true)
                (sym (ap (λ (job : JobRow). job.status) rows ∙ same)) dropped) in
            rw (t, ended) refl
      ]

  answer_report-dropped :
      (status : JobStatus) (rest : List JobStatus) (s : Session)
      → ignores status state ≡ true
      → answer_report vm_id job_id state (status ∷ rest) s ≡ ended (success tt) s
  answer_report-dropped status rest s h = rw (h, answer_report) refl

  answer_report-taken :
      (status : JobStatus) (rest : List JobStatus) (s : Session)
      → ignores status state ≡ false
      → answer_report vm_id job_id state (status ∷ rest) s
        ≡ try_pg (save_report vm_id job_id state) s
  answer_report-taken status rest s h = rw (h, answer_report) refl

  answer_report-jobs :
      (statuses : List JobStatus) (s s1 t : Session)
      → HasUniqueIds s.stored.jobs
      → Read vm_id job_id s statuses s1
      → answer_report vm_id job_id state statuses s1 ≡ ended (success tt) t
      → (i : ℕ) (job : JobRow) → get_elem? s.stored.jobs i ≡ some job
      → get_elem? t.stored.jobs i ≡ some (after_report vm_id job_id state s.now job)
  answer_report-jobs [] s s1 t only r e i job here = cc
  answer_report-jobs (status ∷ rest) s s1 t only r e i job here =
      elim (Bool-cases (ignores status state)) [
        | inl dropped ↦
            let stuck =
              ignored-unfinished s.stored.jobs status rest only r.found dropped i job here in
            let same : t.stored.jobs ≡ s.stored.jobs =
              ended-jobs (sym e ∙ answer_report-dropped status rest s1 dropped)
              ∙ ap (λ db. db.jobs) r.kept in
            rw (same, stuck) here
        | inr taken ↦
            let saved =
              save_report-jobs vm_id job_id state s1 t
                (caught-success _ (sym (answer_report-taken status rest s1 taken) ∙ e)) in
            ap (λ jobs. get_elem? jobs i)
              (saved
                ∙ ap (λ db. (reported vm_id job_id state s1.now db).jobs) r.view
                ∙ ap (λ now. (reported vm_id job_id state now s.stored).jobs) r.clock)
            ∙ update_where-at _ (report state s.now) s.stored.jobs i job here
      ]

  -- A report that succeeds has changed no job but the one it is about, and that one only if its
  -- status was not final.
  pub update_job_state-jobs :
      (s t : Session)
      → HasUniqueIds s.stored.jobs
      → update_job_state vm_id job_id state s ≡ ended (success tt) t
      → (i : ℕ) (job : JobRow) → get_elem? s.stored.jobs i ≡ some job
      → get_elem? t.stored.jobs i ≡ some (after_report vm_id job_id state s.now job)
  unfolding update_job_state
  update_job_state-jobs s t only e =
      let (statuses, s1, e1, r1) =
        bind-success (try_pg (lock_status vm_id job_id) s) (answer_report vm_id job_id state) e in
      answer_report-jobs statuses s s1 t only (lock_status-Read vm_id job_id s e1) r1
