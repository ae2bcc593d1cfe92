-- ===== src/Storage/Vms.antt =====
-- libs/db/impl/pg_task_storage.cpp: the operations of the allocator and of the failure detector on
-- the table of VMs, and the restart of the jobs of a VM that is lost.
pub mod Rollback
use vm_scheduler.Prelude.{
  Option, ℕ, zero, suc, ◌+◌, Bool, false, ◌&&◌, none, some, List, [], ◌∷◌, map, elem, ◌==◌, ltb,
  leb,
}
use vm_scheduler.Common.Result.{pg_exception, success}
use vm_scheduler.State.Job
use vm_scheduler.State.Job.{JobStatus, queued, scheduled, running, internal_error}
use vm_scheduler.State.Vm
use vm_scheduler.State.Vm.{
  VmStatus, pending_allocation, allocating, allocated, agent_started, pending_termination,
  terminating, terminated, AllocatedVmInfo, AllocationPendingVmInfo, TerminationPendingVmInfo,
}
use vm_scheduler.Storage.Rows.{
  VmRow, JobRow, Db, seconds, update_where, select_where, set_vm_status,
}
use vm_scheduler.Storage.Transaction.{
  Txn, ended, crashed, ◌>>=◌, ◌>>◌, gives, fails, exec, execute, query, try_pg, open_transaction,
  commit,
}

unfoldable pub exec_writable_query {ℓ} : {A : Type ℓ} → (ℕ → Db → A × Db) → Txn A
exec_writable_query query = try_pg (do open_transaction; result ← exec query; commit; gives result)

abbrev pub with_vms : Db → List VmRow → Db
with_vms db vms = record db { vms = vms }

abbrev pub has_status : VmStatus → VmRow → Bool
has_status status vm = Vm.same_status vm.status status

-- `LIMIT`.
abbrev pub take_first : ℕ → List ℕ → List ℕ
take_first zero ids = []
take_first (suc n) [] = []
take_first (suc n) (id ∷ ids) = id ∷ take_first n ids

abbrev pub limited : ℕ → VmStatus → Db → List ℕ
limited count status db =
    take_first count (map (λ vm. vm.id) (select_where (has_status status) db.vms))

-- At most so many VMs of one status get another, and are answered.
abbrev pub advance : ℕ → VmStatus → VmStatus → ℕ → Db → List VmRow × Db
advance count from to now db =
    let ids = limited count from db in
    let vms = update_where (λ vm. elem vm.id ids) (set_vm_status now to) db.vms in
    (select_where (λ vm. elem vm.id ids) vms, with_vms db vms)

abbrev pub to_allocate : VmRow → AllocationPendingVmInfo
to_allocate vm = record { id = vm.id; capacity = record { cpu = vm.cpu; ram = vm.ram } }

unfoldable pub get_vms_to_allocate : ℕ → Txn (List AllocationPendingVmInfo)
get_vms_to_allocate max_count = do
  rows ← exec_writable_query (advance max_count pending_allocation allocating)
  gives (map to_allocate rows)

-- `row.at("cloud_vm_id").as<CloudVmId>()` throws where the column is NULL.
unfoldable pub to_terminate : List VmRow → Option (List TerminationPendingVmInfo)
to_terminate [] = some []
to_terminate (vm ∷ vms) = elim vm.cloud_vm_id [
  | none ↦ none
  | some cloud_id ↦ elim (to_terminate vms) [
    | none ↦ none
    | some rest ↦ some (record { id = vm.id; cloud_vm_id = cloud_id } ∷ rest)
  ]
]

-- The rows are read after the commit, with no handler in this `noexcept` function.
abbrev pub all_named : Option (List TerminationPendingVmInfo) → Txn (List TerminationPendingVmInfo)
all_named none s = crashed
all_named (some vms) s = ended (success vms) s

unfoldable pub get_vms_to_terminate : ℕ → Txn (List TerminationPendingVmInfo)
get_vms_to_terminate max_count = do
  rows ← exec_writable_query (advance max_count pending_termination terminating)
  all_named (to_terminate rows)

abbrev pub with_status : List ℕ → VmStatus → ℕ → Db → Db
with_status ids status now db =
    with_vms db (update_where (λ vm. elem vm.id ids) (set_vm_status now status) db.vms)

-- Whatever status the VMs have. `IN ()` is no SQL: without ids the query throws.
unfoldable pub set_vm_statuses : List ℕ → VmStatus → Txn (Unit {0})
set_vm_statuses [] status = fails pg_exception
set_vm_statuses (id ∷ ids) status =
    exec_writable_query (λ now db. (tt, with_status (id ∷ ids) status now db))

abbrev pub return_unterminated_vms : List ℕ → Txn (Unit {0})
return_unterminated_vms ids = set_vm_statuses ids pending_termination

abbrev pub save_vm_termination_result : ℕ → Txn (Unit {0})
save_vm_termination_result id = set_vm_statuses (id ∷ []) terminated

abbrev pub set_allocated : AllocatedVmInfo → ℕ → VmRow → VmRow
set_allocated info now vm = record (set_vm_status now allocated vm) {
  cloud_vm_id = some info.id;
  cloud_vm_type = some info.type;
}

unfoldable pub save_vm_allocation_result : ℕ → AllocatedVmInfo → Txn (Unit {0})
save_vm_allocation_result id info =
    exec_writable_query
      λ now db. (tt, with_vms db (update_where (λ vm. vm.id == id) (set_allocated info now) db.vms))

abbrev pub retry : ℕ → VmRow → VmRow
retry now vm = record (set_vm_status now pending_allocation vm) {
  restart_count = suc vm.restart_count;
}

abbrev pub retriable : (ℕ → VmRow → Bool) → ℕ → ℕ → VmRow → Bool
retriable condition limit now vm =
    has_status allocating vm && ltb vm.restart_count limit && condition now vm

unfoldable pub restart_allocating_vms : (ℕ → VmRow → Bool) → ℕ → Txn (Unit {0})
restart_allocating_vms condition limit =
    exec_writable_query
      λ now db. (tt, with_vms db (update_where (retriable condition limit now) (retry now) db.vms))

-- `NOW() > last_status_update + interval`.
abbrev pub stale : ℕ → ℕ → VmRow → Bool
stale time_limit now vm = ltb (vm.last_status_update + seconds time_limit) now

abbrev pub restart_stale_allocating_vms : ℕ → ℕ → Txn (Unit {0})
restart_stale_allocating_vms time_limit limit = restart_allocating_vms (stale time_limit) limit

-- The jobs of lost VMs: those with an attempt left are queued again, the others fail. The id of
-- the VM stays in the row.
abbrev pub of_vms : List ℕ → JobRow → Bool
of_vms vm_ids job = elim job.vm_id [ none ↦ false | some v ↦ elem v vm_ids ]

abbrev pub requeue : JobRow → JobRow
requeue job = record job { status = queued; restart_count = suc job.restart_count }

abbrev pub give_up : JobRow → JobRow
give_up job = record job { status = internal_error }

abbrev pub requeued : List ℕ → JobStatus → ℕ → List JobRow → List JobRow
requeued vm_ids initial limit jobs =
    update_where
      (λ job.
        Job.same_status job.status initial && ltb job.restart_count limit && of_vms vm_ids job)
      requeue jobs

abbrev pub given_up : List ℕ → JobStatus → ℕ → List JobRow → List JobRow
given_up vm_ids initial limit jobs =
    update_where
      (λ job.
        Job.same_status job.status initial && leb limit job.restart_count && of_vms vm_ids job)
      give_up jobs

unfoldable pub restart_jobs : List ℕ → JobStatus → ℕ → Txn (Unit {0})
restart_jobs vm_ids initial limit =
    execute (λ now db. record db { jobs = requeued vm_ids initial limit db.jobs })
    >> execute (λ now db. record db { jobs = given_up vm_ids initial limit db.jobs })

abbrev pub moved : (VmRow → Bool) → VmStatus → ℕ → Db → List ℕ × Db
moved condition target now db = (
  map (λ vm. vm.id) (select_where condition db.vms),
  with_vms db (update_where condition (set_vm_status now target) db.vms),
)

-- No VM moved: the transaction is dropped.
abbrev pub restart_and_commit : JobStatus → ℕ → List ℕ → Txn (Unit {0})
restart_and_commit initial limit [] = gives tt
restart_and_commit initial limit (id ∷ ids) = restart_jobs (id ∷ ids) initial limit >> commit

abbrev pub move_vms : (ℕ → VmRow → Bool) → VmStatus → JobStatus → ℕ → Txn (Unit {0})
move_vms condition target initial limit = try_pg (do
  open_transaction
  ids ← exec (λ now db. moved (condition now) target now db)
  restart_and_commit initial limit ids)

abbrev pub given_out : (ℕ → VmRow → Bool) → VmStatus → ℕ → ℕ → VmRow → Bool
given_out condition initial limit now vm =
    has_status initial vm && leb limit vm.restart_count && condition now vm

unfoldable pub terminate_vms_where :
    (ℕ → VmRow → Bool) → VmStatus → VmStatus → ℕ → ℕ → Txn (Unit {0})
terminate_vms_where condition initial target vm_limit job_limit =
    move_vms (given_out condition initial vm_limit) target scheduled job_limit

abbrev pub terminate_stale_allocating_vms : ℕ → ℕ → ℕ → Txn (Unit {0})
terminate_stale_allocating_vms time_limit vm_limit job_limit =
    terminate_vms_where (stale time_limit) allocating terminated vm_limit job_limit

abbrev pub among : List ℕ → ℕ → VmRow → Bool
among ids now vm = elem vm.id ids

-- Without ids the first query throws.
unfoldable pub rollback_unallocated_vms_state : List ℕ → ℕ → ℕ → Txn (Unit {0})
rollback_unallocated_vms_state [] vm_limit job_limit = fails pg_exception
rollback_unallocated_vms_state (id ∷ ids) vm_limit job_limit =
    restart_allocating_vms (among (id ∷ ids)) vm_limit
    >> terminate_vms_where (among (id ∷ ids)) allocating terminated vm_limit job_limit

-- A comparison with NULL does not hold.
abbrev pub inactive_agent : ℕ → ℕ → VmRow → Bool
inactive_agent time_limit now vm =
    has_status agent_started vm
    && elim vm.agent_activity [ none ↦ false | some seen ↦ ltb (seen + seconds time_limit) now ]

unfoldable pub terminate_vms_with_inactive_agents : ℕ → ℕ → Txn (Unit {0})
terminate_vms_with_inactive_agents time_limit job_limit =
    move_vms (inactive_agent time_limit) pending_termination running job_limit

abbrev pub terminate_vms_without_agents : ℕ → ℕ → Txn (Unit {0})
terminate_vms_without_agents time_limit job_limit =
    terminate_vms_where (stale time_limit) allocated pending_termination 0 job_limit
