-- ===== src/Storage/Commit.antt =====
-- libs/db/impl/pg_task_storage.cpp: `commitPlanChange`.
pub mod Atomic
pub mod Effect
pub mod Wanted
pub mod Placement
pub mod Committed
pub mod Jobs
use vm_scheduler.Prelude.{
  ℕ, suc, ◌+◌, Bool, true, false, not, Option, none, some, List, [], ◌∷◌, ◌++◌, map, elem,
  if◌then◌else◌,
}
use vm_scheduler.Common.Slot.{SlotCapacity}
use vm_scheduler.Common.Result.{optimistic_locking_failure, scheduling_cancelled}
use vm_scheduler.Std.Map.{lookup, emplace}
use vm_scheduler.State.Job
use vm_scheduler.State.Job.{JobStatus, scheduled, final_job_statuses, contains_status}
use vm_scheduler.State.Vm
use vm_scheduler.State.Vm.{VmStatus, pending_allocation, pending_termination, active_vm_statuses}
use vm_scheduler.State.Plan.{DesiredSlot, VmInfo, existing, desired, StateChange}
use vm_scheduler.Storage.Rows.{VmRow, JobRow, Db, update_where, select_where, set_vm_status}
use vm_scheduler.Storage.Transaction.{
  crashed, Txn, ◌>>=◌, ◌>>◌, gives, fails, try_pg, commit, query,
}
use vm_scheduler.Storage.Plan.{acquire_lock, is_scheduling_relevant, refresh_plan_activity_ts}

abbrev pub keys {ℓ} : {V : Type ℓ} → List (ℕ × V) → List ℕ
keys m = map (λ p. p.0) m

-- `getStatusesWithLock` for jobs and for VMs: nothing is asked about no ids.
abbrev pub job_statuses_of : List ℕ → Db → List JobStatus
job_statuses_of ids db = map (λ job. job.status) (select_where (λ job. elem job.id ids) db.jobs)

abbrev pub vm_statuses_of : List ℕ → Db → List VmStatus
vm_statuses_of ids db = map (λ vm. vm.status) (select_where (λ vm. elem vm.id ids) db.vms)

unfoldable pub get_job_statuses_with_lock : List ℕ → Txn (List JobStatus)
get_job_statuses_with_lock [] = gives []
get_job_statuses_with_lock (id ∷ ids) = query (λ now db. (job_statuses_of (id ∷ ids) db, db))

unfoldable pub get_vm_statuses_with_lock : List ℕ → Txn (List VmStatus)
get_vm_statuses_with_lock [] = gives []
get_vm_statuses_with_lock (id ∷ ids) = query (λ now db. (vm_statuses_of (id ∷ ids) db, db))

unfoldable pub some_final : List JobStatus → Bool
some_final [] = false
some_final (status ∷ statuses) =
    if contains_status status final_job_statuses then true else some_final statuses

unfoldable pub some_inactive : List VmStatus → Bool
some_inactive [] = false
some_inactive (status ∷ statuses) =
    if Vm.contains_status status active_vm_statuses then some_inactive statuses else true

abbrev pub refuse_if : Bool → Txn (Unit {0})
refuse_if true = fails optimistic_locking_failure
refuse_if false = gives tt

unfoldable pub check_conflicts : StateChange → Txn (Unit {0})
check_conflicts change = do
  job_statuses ← get_job_statuses_with_lock (keys change.job_to_vm)
  vm_statuses ← get_vm_statuses_with_lock (keys change.updated_idle_capacities)
  refuse_if (some_final job_statuses)
  refuse_if (some_inactive vm_statuses)

abbrev pub terminated_vms : List ℕ → ℕ → Db → Db
terminated_vms ids now db = record db {
  vms = update_where (λ vm. elem vm.id ids) (set_vm_status now pending_termination) db.vms;
}

unfoldable pub terminate_vms : List ℕ → Txn (Unit {0})
terminate_vms [] = gives tt
terminate_vms (id ∷ ids) = query (λ now db. (tt, terminated_vms (id ∷ ids) now db))

-- `UPDATE … FROM (VALUES …)`: a row whose id is among the values takes them.
unfoldable pub take_capacity : List (ℕ × SlotCapacity) → VmRow → VmRow
take_capacity updated vm = elim (lookup vm.id updated) [
  | none ↦ vm
  | some c ↦ record vm { cpu_idle = c.cpu; ram_idle = c.ram }
]

abbrev pub updated_vms : List (ℕ × SlotCapacity) → Db → Db
updated_vms updated db = record db { vms = map (take_capacity updated) db.vms }

unfoldable pub update_vm_capacities : List (ℕ × SlotCapacity) → Txn (Unit {0})
update_vm_capacities [] = gives tt
update_vm_capacities (p ∷ ps) = query (λ now db. (tt, updated_vms (p ∷ ps) db))

abbrev pub new_vm : ℕ → ℕ → DesiredSlot → VmRow
new_vm now id slot = record {
  id = id;
  status = pending_allocation;
  cpu = slot.total.cpu;
  ram = slot.total.ram;
  cpu_idle = slot.idle.cpu;
  ram_idle = slot.idle.ram;
  cloud_vm_id = none;
  cloud_vm_type = none;
  last_status_update = now;
  agent_activity = none;
  restart_count = 0;
}

abbrev pub with_new_vm : DesiredSlot → ℕ → Db → Db
with_new_vm slot now db = record db {
  vms = db.vms ++ new_vm now db.next_vm_id slot ∷ [];
  next_vm_id = suc db.next_vm_id;
}

unfoldable pub allocate_new_vms : List (ℕ × DesiredSlot) → List (ℕ × ℕ) → Txn (List (ℕ × ℕ))
allocate_new_vms [] allocated = gives allocated
allocate_new_vms ((slot_id, slot) ∷ slots) allocated = do
  id ← query (λ now db. (db.next_vm_id, with_new_vm slot now db))
  allocate_new_vms slots (emplace slot_id id allocated)

-- The rows of the query's values. `slotsToVms.at` throws on a slot that is not there, and there is
-- no handler.
abbrev pub target : List (ℕ × ℕ) → VmInfo → Option ℕ
target slots_to_vms (existing id) = some id
target slots_to_vms (desired slot_id) = lookup slot_id slots_to_vms

unfoldable pub targets : List (ℕ × ℕ) → List (ℕ × VmInfo) → Option (List (ℕ × ℕ))
targets slots_to_vms [] = some []
targets slots_to_vms ((job_id, vm) ∷ rest) = elim (target slots_to_vms vm) [
  | none ↦ none
  | some id ↦ elim (targets slots_to_vms rest) [
    | none ↦ none
    | some rows ↦ some ((job_id, id) ∷ rows)
  ]
]

unfoldable pub schedule_job : List (ℕ × ℕ) → JobRow → JobRow
schedule_job rows job = elim (lookup job.id rows) [
  | none ↦ job
  | some id ↦ record job { status = scheduled; vm_id = some id }
]

abbrev pub scheduled_jobs : List (ℕ × ℕ) → Db → Db
scheduled_jobs rows db = record db { jobs = map (schedule_job rows) db.jobs }

abbrev pub schedule_rows : Option (List (ℕ × ℕ)) → Txn (Unit {0})
schedule_rows none s = crashed
schedule_rows (some rows) s = query (λ now db. (tt, scheduled_jobs rows db)) s

unfoldable pub apply_job_vm_assignments : List (ℕ × VmInfo) → List (ℕ × ℕ) → Txn (Unit {0})
apply_job_vm_assignments [] slots_to_vms = gives tt
apply_job_vm_assignments (a ∷ rest) slots_to_vms = schedule_rows (targets slots_to_vms (a ∷ rest))

abbrev pub refuse_unless : Bool → Txn (Unit {0})
refuse_unless true = gives tt
refuse_unless false = fails scheduling_cancelled

unfoldable pub commit_plan_change : StateChange → ℕ → Txn (Unit {0})
commit_plan_change change plan_id = do
  acquire_lock false
  relevant ← is_scheduling_relevant plan_id
  refuse_unless relevant
  check_conflicts change
  terminate_vms change.vms_to_terminate
  update_vm_capacities change.updated_idle_capacities
  slots_to_vms ← allocate_new_vms change.desired_slot_map []
  apply_job_vm_assignments change.job_to_vm slots_to_vms
  refresh_plan_activity_ts plan_id
  try_pg commit
