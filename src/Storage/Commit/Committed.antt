-- ===== src/Storage/Commit/Committed.antt =====
-- What a successful `commitPlanChange` means for the tables of jobs and of VMs.
use vm_scheduler.Prelude.{
  ℕ, ◌≡◌, refl, ◌∙◌, sym, ap, Bool, false, Option, none, some, List, [], ◌∷◌, ◌++◌, map,
}
use vm_scheduler.Common.Result.{success}
use vm_scheduler.Std.Map.{lookup}
use vm_scheduler.State.Plan.{VmInfo, StateChange}
use vm_scheduler.Storage.Transaction.{Session, ended}
use vm_scheduler.Storage.Transaction.Laws.{bind-success, query-Queried, commit-stored}
use vm_scheduler.Storage.Plan.{
  acquire_lock, newest_plans, is_scheduling_relevant, refresh_plan_activity_ts,
}
use vm_scheduler.Storage.Commit.{
  keys, job_statuses_of, vm_statuses_of, some_final, some_inactive, check_conflicts, terminated_vms,
  terminate_vms, updated_vms, take_capacity, update_vm_capacities, allocate_new_vms, targets,
  schedule_job, scheduled_jobs, schedule_rows, apply_job_vm_assignments, refuse_unless,
  commit_plan_change,
}
use vm_scheduler.Storage.Commit.Wanted.{
  job_after, vm_after, wanted_vms, map-ext, old_vms, new_rows-wanted_vms,
}
use vm_scheduler.Storage.Commit.Placement.{schedule_job-placed, allocate_new_vms-lookup, slot_vm}
use vm_scheduler.Storage.Commit.Effect.{
  new_rows, acquire_lock-seen, is_scheduling_relevant-success, refuse_unless-success,
  check_conflicts-success, terminate_vms-success, update_vm_capacities-success,
  allocate_new_vms-success, map-same,
}

-- The rows of jobs and VMs after a commit, in terms of those before and of the change: the plan was
-- the newest, no assigned job had a final status, no VM with a changed capacity was inactive; each
-- assigned job is scheduled on its VM, VMs are terminated and have what they are to have idle, and
-- the new VMs come after them, one for each slot.
pub record Committed (change : StateChange) (plan_id : ℕ) (s t : Session) : Type 0 where
  pub newest : newest_plans s.stored ≡ plan_id ∷ []
  pub no_final : some_final (job_statuses_of (keys change.job_to_vm) s.stored) ≡ false
  pub no_inactive :
      some_inactive (vm_statuses_of (keys change.updated_idle_capacities) s.stored) ≡ false
  pub jobs : t.stored.jobs ≡ map (job_after change s.stored.next_vm_id) s.stored.jobs
  pub vms :
      t.stored.vms
      ≡ map (vm_after change s.now) s.stored.vms
        ++ wanted_vms s.now s.stored.next_vm_id change.desired_slot_map

record Assigned (assignments : List (ℕ × VmInfo)) (slots_to_vms : List (ℕ × ℕ)) (s t : Session)
    : Type 0 where
  rows : List (ℕ × ℕ)
  rows_are : targets slots_to_vms assignments ≡ some rows
  jobs : t.seen.jobs ≡ map (schedule_job rows) s.seen.jobs
  vms : t.seen.vms ≡ s.seen.vms

schedule_rows-success :
    (found : Option (List (ℕ × ℕ))) (s : Session) {a : Unit {0}} {t : Session}
    → schedule_rows found s ≡ ended (success a) t
    → (rows : List (ℕ × ℕ)) × (found ≡ some rows)
      × (t.seen.jobs ≡ map (schedule_job rows) s.seen.jobs)
      × (t.seen.vms ≡ s.seen.vms)
schedule_rows-success none s e = cc
schedule_rows-success (some rows) s e =
    let q = query-Queried (λ now db. (tt, scheduled_jobs rows db)) s e in
    (rows, refl, ap (λ db. db.jobs) q.view, ap (λ db. db.vms) q.view)

apply_job_vm_assignments-success :
    (assignments : List (ℕ × VmInfo)) (slots_to_vms : List (ℕ × ℕ)) (s : Session) {a : Unit {0}}
    {t : Session}
    → apply_job_vm_assignments assignments slots_to_vms s ≡ ended (success a) t
    → Assigned assignments slots_to_vms s t
unfolding apply_job_vm_assignments targets schedule_job lookup
apply_job_vm_assignments-success [] slots_to_vms s e = record {
  rows = [];
  rows_are = refl;
  jobs = rw (map-same (schedule_job []) (λ job. refl) s.seen.jobs) cc;
  vms = cc;
}
apply_job_vm_assignments-success (a ∷ rest) slots_to_vms s e =
    let (rows, r, j, v) = schedule_rows-success (targets slots_to_vms (a ∷ rest)) s e in
    record { rows = rows; rows_are = r; jobs = j; vms = v }

refresh-success :
    (plan_id : ℕ) (s : Session) {a : Unit {0}} {t : Session}
    → refresh_plan_activity_ts plan_id s ≡ ended (success a) t
    → (t.seen.jobs ≡ s.seen.jobs) × (t.seen.vms ≡ s.seen.vms)
unfolding refresh_plan_activity_ts
refresh-success plan_id s e =
    let q = query-Queried _ s e in (ap (λ db. db.jobs) q.view, ap (λ db. db.vms) q.view)

-- The calls of `commitPlanChange`, one after the other.
module _ (change : StateChange) (plan_id : ℕ) (s s1 s2 s3 s4 s5 s6 s7 s8 s9 t : Session)
    (relevant : Bool) (slots : List (ℕ × ℕ)) {a1 a3 a4 a5 a6 a8 a9 : Unit {0}}
    (e1 : acquire_lock false s ≡ ended (success a1) s1)
    (e2 : is_scheduling_relevant plan_id s1 ≡ ended (success relevant) s2)
    (e3 : refuse_unless relevant s2 ≡ ended (success a3) s3)
    (e4 : check_conflicts change s3 ≡ ended (success a4) s4)
    (e5 : terminate_vms change.vms_to_terminate s4 ≡ ended (success a5) s5)
    (e6 : update_vm_capacities change.updated_idle_capacities s5 ≡ ended (success a6) s6)
    (e7 : allocate_new_vms change.desired_slot_map [] s6 ≡ ended (success slots) s7)
    (e8 : apply_job_vm_assignments change.job_to_vm slots s7 ≡ ended (success a8) s8)
    (e9 : refresh_plan_activity_ts plan_id s8 ≡ ended (success a9) s9)
    (done : t.stored ≡ s9.seen) where
  pub in_sequence : Committed change plan_id s t
  in_sequence =
      let locked = acquire_lock-seen false s e1 in
      let (p2, newest) = is_scheduling_relevant-success plan_id s1 e2 in
      let (p3, agreed) = refuse_unless-success relevant s2 e3 in
      let (p4, no_final, no_inactive) = check_conflicts-success change s3 e4 in
      let p5 = terminate_vms-success change.vms_to_terminate s4 e5 in
      let p6 = update_vm_capacities-success change.updated_idle_capacities s5 e6 in
      let p7 = allocate_new_vms-success change.desired_slot_map [] s6 e7 in
      let p8 = apply_job_vm_assignments-success change.job_to_vm slots s7 e8 in
      let p9 = refresh-success plan_id s8 e9 in
      let start : s3.seen ≡ s.stored = ap (λ x. x.seen) p3 ∙ p2.view ∙ locked.0 in
      let before : s4.seen ≡ s.stored = p4.view ∙ start in
      let clock : s4.now ≡ s.now = p4.clock ∙ ap (λ x. x.now) p3 ∙ p2.clock ∙ locked.1 in
      let after : s6.seen
          ≡ updated_vms change.updated_idle_capacities
              (terminated_vms change.vms_to_terminate s.now s.stored) =
        p6.view ∙ ap (updated_vms change.updated_idle_capacities) (p5.view ∙ cc (before, clock)) in
      let clock6 : s6.now ≡ s.now = p6.clock ∙ p5.clock ∙ clock in
      record {
        newest = ap newest_plans (sym locked.0) ∙ newest agreed;
        no_final =
            ap (λ db. some_final (job_statuses_of (keys change.job_to_vm) db)) (sym start)
            ∙ no_final;
        no_inactive =
            ap (λ db. some_inactive (vm_statuses_of (keys change.updated_idle_capacities) db))
              (sym start)
            ∙ no_inactive;
        jobs =
            ap (λ db. db.jobs) done
            ∙ p9.0
            ∙ p8.jobs
            ∙ ap (map (schedule_job p8.rows)) (p7.jobs ∙ ap (λ db. db.jobs) after)
            ∙ map-ext (schedule_job p8.rows) (job_after change s.stored.next_vm_id) s.stored.jobs
                (λ job.
                  schedule_job-placed change.desired_slot_map slots change.job_to_vm p8.rows
                    s.stored.next_vm_id p8.rows_are
                    (λ k.
                      allocate_new_vms-lookup k change.desired_slot_map [] s6 e7
                      ∙ ap (λ db. slot_vm k change.desired_slot_map [] db.next_vm_id) after)
                    job);
        vms =
            ap (λ db. db.vms) done
            ∙ p9.1
            ∙ p8.vms
            ∙ p7.vms
            ∙ ap (λ db. db.vms ++ new_rows s6.now db.next_vm_id change.desired_slot_map) after
            ∙ ap
                (λ now.
                  map (take_capacity change.updated_idle_capacities)
                    (terminated_vms change.vms_to_terminate s.now s.stored).vms
                  ++ new_rows now s.stored.next_vm_id change.desired_slot_map)
                clock6
            ∙ ap (λ vms. vms ++ new_rows s.now s.stored.next_vm_id change.desired_slot_map)
                (old_vms change s.now s.stored.vms)
            ∙ ap (λ vms. map (vm_after change s.now) s.stored.vms ++ vms)
                (new_rows-wanted_vms s.now s.stored.next_vm_id change.desired_slot_map);
      }

-- Whichever calls of the database throw, a commit that reports success was made on the newest plan
-- without conflicts, and has done to the jobs and the VMs what the change asks for.
pub commit_plan_change-Committed :
    (change : StateChange) (plan_id : ℕ) (s t : Session)
    → commit_plan_change change plan_id s ≡ ended (success tt) t
    → Committed change plan_id s t
unfolding commit_plan_change
commit_plan_change-Committed change plan_id s t e =
    let (_, s1, e1, r1) = bind-success (acquire_lock false s) _ e in
    let (relevant, s2, e2, r2) = bind-success (is_scheduling_relevant plan_id s1) _ r1 in
    let (_, s3, e3, r3) = bind-success (refuse_unless relevant s2) _ r2 in
    let (_, s4, e4, r4) = bind-success (check_conflicts change s3) _ r3 in
    let (_, s5, e5, r5) = bind-success (terminate_vms change.vms_to_terminate s4) _ r4 in
    let (_, s6, e6, r6) =
      bind-success (update_vm_capacities change.updated_idle_capacities s5) _ r5 in
    let (slots, s7, e7, r7) = bind-success (allocate_new_vms change.desired_slot_map [] s6) _ r6 in
    let (_, s8, e8, r8) = bind-success (apply_job_vm_assignments change.job_to_vm slots s7) _ r7 in
    let (_, s9, e9, r9) = bind-success (refresh_plan_activity_ts plan_id s8) _ r8 in
    in_sequence change plan_id s s1 s2 s3 s4 s5 s6 s7 s8 s9 t relevant slots e1 e2 e3 e4 e5 e6 e7 e8
      e9 (commit-stored s9 r9)
