-- ===== src/Storage/Commit/Atomic.antt =====
-- `commitPlanChange` commits all of a change or nothing.
use vm_scheduler.Prelude.{
  ℕ, ◌⊎◌, ◌≡◌, subst, refl, Bool, true, false, Option, none, some, List, [], ◌∷◌,
}
use vm_scheduler.Common.Slot.{SlotCapacity}
use vm_scheduler.Common.Result.{Exception, success, failure}
use vm_scheduler.Std.Map.{emplace}
use vm_scheduler.State.Plan.{DesiredSlot, VmInfo, StateChange}
use vm_scheduler.Storage.Transaction.{Session, Run, ended, crashed, open_transaction}
use vm_scheduler.Storage.Transaction.Laws.{
  Kept, Whole, Kept-bind, Whole-bind, query-Kept, exec-Kept, no_handler-Kept, open-Kept,
  commit-Whole,
}
use vm_scheduler.Storage.Plan.{
  try_lock, acquire_lock, only_plan, is_scheduling_relevant, refresh_plan_activity_ts,
}
use vm_scheduler.Storage.Commit.Committed.{Committed, in_sequence}
use vm_scheduler.Storage.Commit.{
  keys, get_job_statuses_with_lock, get_vm_statuses_with_lock, some_final, some_inactive, refuse_if,
  check_conflicts, terminate_vms, update_vm_capacities, allocate_new_vms, targets, schedule_rows,
  apply_job_vm_assignments, refuse_unless, commit_plan_change,
}

try_lock-Kept : (s : Session) (run : Run (Unit {0})) → Kept s run → Kept s (try_lock run)
try_lock-Kept s (ended (failure e) t) h = h
try_lock-Kept s (ended (success a) t) h = h
try_lock-Kept s crashed h = tt

pub acquire_lock-Kept : (no_wait : Bool) (s : Session) → Kept {0} s (acquire_lock no_wait s)
unfolding acquire_lock
acquire_lock-Kept no_wait s =
    try_lock-Kept s _ (Kept-bind s (open_transaction s) _ (open-Kept s) (λ a t. exec-Kept _ t))

only_plan-Kept : (plan_id : ℕ) (ids : List ℕ) (s : Session) → Kept {0} s (only_plan plan_id ids s)
only_plan-Kept plan_id [] s = refl
only_plan-Kept plan_id (id ∷ []) s = refl
only_plan-Kept plan_id (id ∷ id' ∷ ids) s = refl

is_scheduling_relevant-Kept :
    (plan_id : ℕ) (s : Session) → Kept {0} s (is_scheduling_relevant plan_id s)
unfolding is_scheduling_relevant
is_scheduling_relevant-Kept plan_id s =
    Kept-bind s _ (only_plan plan_id) (no_handler-Kept _ s) (only_plan-Kept plan_id)

refuse_if-Kept : (b : Bool) (s : Session) → Kept {0} s (refuse_if b s)
refuse_if-Kept true s = refl
refuse_if-Kept false s = refl

refuse_unless-Kept : (b : Bool) (s : Session) → Kept {0} s (refuse_unless b s)
refuse_unless-Kept true s = refl
refuse_unless-Kept false s = refl

get_job_statuses-Kept : (ids : List ℕ) (s : Session) → Kept {0} s (get_job_statuses_with_lock ids s)
unfolding get_job_statuses_with_lock
get_job_statuses-Kept [] s = refl
get_job_statuses-Kept (id ∷ ids) s = query-Kept _ s

get_vm_statuses-Kept : (ids : List ℕ) (s : Session) → Kept {0} s (get_vm_statuses_with_lock ids s)
unfolding get_vm_statuses_with_lock
get_vm_statuses-Kept [] s = refl
get_vm_statuses-Kept (id ∷ ids) s = query-Kept _ s

check_conflicts-Kept : (change : StateChange) (s : Session) → Kept {0} s (check_conflicts change s)
unfolding check_conflicts
check_conflicts-Kept change s =
    Kept-bind s _ _ (get_job_statuses-Kept (keys change.job_to_vm) s) λ jobs t.
      Kept-bind t _ _ (get_vm_statuses-Kept (keys change.updated_idle_capacities) t) λ vms u.
        Kept-bind u _ _ (refuse_if-Kept (some_final jobs) u)
          λ _ v. refuse_if-Kept (some_inactive vms) v

terminate_vms-Kept : (ids : List ℕ) (s : Session) → Kept {0} s (terminate_vms ids s)
unfolding terminate_vms
terminate_vms-Kept [] s = refl
terminate_vms-Kept (id ∷ ids) s = query-Kept _ s

update_vm_capacities-Kept :
    (updated : List (ℕ × SlotCapacity)) (s : Session) → Kept {0} s (update_vm_capacities updated s)
unfolding update_vm_capacities
update_vm_capacities-Kept [] s = refl
update_vm_capacities-Kept (p ∷ ps) s = query-Kept _ s

allocate_new_vms-Kept :
    (slots : List (ℕ × DesiredSlot)) (allocated : List (ℕ × ℕ)) (s : Session)
    → Kept {0} s (allocate_new_vms slots allocated s)
unfolding allocate_new_vms
allocate_new_vms-Kept [] allocated s = refl
allocate_new_vms-Kept ((slot_id, slot) ∷ slots) allocated s =
    Kept-bind s _ _ (query-Kept _ s)
      λ id t. allocate_new_vms-Kept slots (emplace slot_id id allocated) t

schedule_rows-Kept :
    (rows : Option (List (ℕ × ℕ))) (s : Session) → Kept {0} s (schedule_rows rows s)
schedule_rows-Kept none s = tt
schedule_rows-Kept (some rows) s = query-Kept _ s

apply_job_vm_assignments-Kept :
    (assignments : List (ℕ × VmInfo)) (slots_to_vms : List (ℕ × ℕ)) (s : Session)
    → Kept {0} s (apply_job_vm_assignments assignments slots_to_vms s)
unfolding apply_job_vm_assignments
apply_job_vm_assignments-Kept [] slots_to_vms s = refl
apply_job_vm_assignments-Kept (a ∷ rest) slots_to_vms s =
    schedule_rows-Kept (targets slots_to_vms (a ∷ rest)) s

refresh-Kept : (plan_id : ℕ) (s : Session) → Kept {0} s (refresh_plan_activity_ts plan_id s)
unfolding refresh_plan_activity_ts
refresh-Kept plan_id s = query-Kept _ s

commit_plan_change-Whole :
    (change : StateChange) (plan_id : ℕ) (s : Session)
    → Whole {0} (Committed change plan_id s) s (commit_plan_change change plan_id s)
unfolding commit_plan_change
commit_plan_change-Whole change plan_id s =
    let P = Committed change plan_id s in
    Whole-bind P s s _ _ refl (acquire_lock-Kept false s) λ _ s1 e1 k1.
      Whole-bind P s s1 _ _ k1 (is_scheduling_relevant-Kept plan_id s1) λ relevant s2 e2 k2.
        Whole-bind P s s2 _ _ k2 (refuse_unless-Kept relevant s2) λ _ s3 e3 k3.
          Whole-bind P s s3 _ _ k3 (check_conflicts-Kept change s3) λ _ s4 e4 k4.
            Whole-bind P s s4 _ _ k4 (terminate_vms-Kept change.vms_to_terminate s4) λ _ s5 e5 k5.
              Whole-bind P s s5 _ _ k5 (update_vm_capacities-Kept change.updated_idle_capacities s5)
                λ _ s6 e6 k6.
                  Whole-bind P s s6 _ _ k6 (allocate_new_vms-Kept change.desired_slot_map [] s6)
                    λ slots s7 e7 k7.
                      Whole-bind P s s7 _ _ k7
                        (apply_job_vm_assignments-Kept change.job_to_vm slots s7)
                        λ _ s8 e8 k8.
                          Whole-bind P s s8 _ _ k8 (refresh-Kept plan_id s8) λ _ s9 e9 k9.
                            commit-Whole P s s9 k9 λ t done.
                              in_sequence change plan_id s s1 s2 s3 s4 s5 s6 s7 s8 s9 t relevant
                                slots e1 e2 e3 e4 e5 e6 e7 e8 e9 done

-- Whichever calls of the database throw: if `commitPlanChange` fails, the stored tables are as
-- they were, or, where a commit that throws has been made all the same, the whole change is stored.
pub commit_plan_change-atomic :
    (change : StateChange) (plan_id : ℕ) (s t : Session) (e : Exception)
    → commit_plan_change change plan_id s ≡ ended (failure e) t
    → (t.stored ≡ s.stored) ⊎ Committed change plan_id s t
commit_plan_change-atomic change plan_id s t e failed =
    subst (Whole {0} (Committed change plan_id s) s) failed
      (commit_plan_change-Whole change plan_id s)
