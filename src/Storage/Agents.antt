-- ===== src/Storage/Agents.antt =====
-- libs/db/impl/pg_task_storage.cpp: what the agents on the VMs ask for, and the VMs that the storage
-- knows of in the cloud.
pub mod CloudIds
use vm_scheduler.Prelude.{Option, ℕ, Bool, false, ◌&&◌, none, some, List, [], ◌∷◌, map, ◌==◌}
use vm_scheduler.Common.Result.{pg_exception}
use vm_scheduler.State.Job
use vm_scheduler.State.Job.{JobStatus, assigned_job_statuses}
use vm_scheduler.State.Vm
use vm_scheduler.State.Vm.{allocated, agent_started, AllocatedVmInfo, active_vm_statuses}
use vm_scheduler.Storage.Rows.{VmRow, Db, update_where, select_where, set_vm_status}
use vm_scheduler.Storage.Transaction.{
  Txn, ◌>>=◌, ◌>>◌, gives, fails, exec, execute, try_pg, open_transaction, commit,
}
use vm_scheduler.Storage.Vms.{has_status, with_vms}

-- The agent of a VM asks for its jobs: that it started, and that it is there, is noted.
abbrev pub start_agent : ℕ → VmRow → Bool
start_agent vm_id vm = vm.id == vm_id && has_status allocated vm

abbrev pub seen_active : ℕ → VmRow → VmRow
seen_active now vm = record vm { agent_activity = some now }

abbrev pub assigned_to : ℕ → Db → List (ℕ × JobStatus)
assigned_to vm_id db =
    map (λ job. (job.id, job.status))
      (select_where
        (λ job.
          elim job.vm_id [ none ↦ false | some v ↦ v == vm_id ]
          && Job.contains_status job.status assigned_job_statuses)
        db.jobs)

unfoldable pub get_assigned_jobs : ℕ → Txn (List (ℕ × JobStatus))
get_assigned_jobs vm_id = try_pg (do
  open_transaction
  execute (λ now db.
      with_vms db (update_where (start_agent vm_id) (set_vm_status now agent_started) db.vms))
  execute (λ now db. with_vms db (update_where (λ vm. vm.id == vm_id) (seen_active now) db.vms))
  jobs ← exec (λ now db. (assigned_to vm_id db, db))
  commit
  gives jobs)

-- The VMs that the storage knows of in the cloud; a VM with no cloud id makes the reading throw.
unfoldable pub cloud_infos : List VmRow → Option (List AllocatedVmInfo)
cloud_infos [] = some []
cloud_infos (vm ∷ vms) = elim vm.cloud_vm_id [
  | none ↦ none
  | some id ↦ elim vm.cloud_vm_type [
    | none ↦ none
    | some type ↦ elim (cloud_infos vms) [
      | none ↦ none
      | some rest ↦ some (record { id = id; type = type } ∷ rest)
    ]
  ]
]

abbrev pub read_infos : Option (List AllocatedVmInfo) → Txn (List AllocatedVmInfo)
read_infos none = fails pg_exception
read_infos (some infos) = gives infos

abbrev pub is_active : VmRow → Bool
is_active vm = Vm.contains_status vm.status active_vm_statuses

unfoldable pub get_allocated_vms : Txn (List AllocatedVmInfo)
get_allocated_vms = do
  rows ← try_pg (open_transaction >> exec (λ now db. (select_where is_active db.vms, db)))
  read_infos (cloud_infos rows)
