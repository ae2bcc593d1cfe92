-- ===== src/Storage/Rows.antt =====
-- libs/db/data/db_schema.sql: the tables, as lists of rows, and what the queries do with them. The
-- enumerated columns hold statuses; times are microseconds; the logs of statuses are left out.
use Prim.Native.String.{String}
use mathlib.Core.Option.{some-injective}
use vm_scheduler.Prelude.{
  ℕ, zero, suc, ◌*◌, ◌≡◌, ap, Bool, Option, some, List, [], ◌∷◌, get_elem?, if◌then◌else◌,
}
use vm_scheduler.State.Job.{JobStatus}
use vm_scheduler.State.Vm
use vm_scheduler.State.Vm.{VmStatus}

pub record VmRow : Type 0 where
  pub id : ℕ
  pub status : VmStatus
  pub cpu : ℕ
  pub ram : ℕ
  pub cpu_idle : ℕ
  pub ram_idle : ℕ
  pub cloud_vm_id : Option String
  pub cloud_vm_type : Option String
  pub last_status_update : ℕ
  pub agent_activity : Option ℕ
  pub restart_count : ℕ

pub record JobRow : Type 0 where
  pub id : ℕ
  pub status : JobStatus
  pub task_id : ℕ
  pub cpu : ℕ
  pub ram : ℕ
  pub estimation : ℕ
  pub options : String
  pub result_url : Option String
  pub created : ℕ
  pub started : Option ℕ
  pub finished : Option ℕ
  pub vm_id : Option ℕ
  pub restart_count : ℕ

pub record TaskRow : Type 0 where
  pub id : ℕ
  pub job_count : ℕ
  pub settings : String
  pub image_version : String
  pub client_id : String

pub record PlanRow : Type 0 where
  pub id : ℕ
  pub created : ℕ
  pub updated : ℕ
  pub backend_id : String

-- The tables, and the next values of the `serial` columns.
pub record Db : Type 0 where
  pub vms : List VmRow
  pub jobs : List JobRow
  pub tasks : List TaskRow
  pub plans : List PlanRow
  pub locks : List ℕ
  pub next_vm_id : ℕ
  pub next_job_id : ℕ
  pub next_task_id : ℕ
  pub next_plan_id : ℕ

-- `interval '… seconds'`.
abbrev pub seconds : ℕ → ℕ
seconds n = n * 1000000

-- `UPDATE … SET … WHERE …`.
unfoldable pub update_where {ℓ} : {A : Type ℓ} → (A → Bool) → (A → A) → List A → List A
update_where p f [] = []
update_where p f (x ∷ xs) = (if p x then f x else x) ∷ update_where p f xs

-- `SELECT … WHERE …`.
unfoldable pub select_where {ℓ} : {A : Type ℓ} → (A → Bool) → List A → List A
select_where p [] = []
select_where p (x ∷ xs) = if p x then x ∷ select_where p xs else select_where p xs

-- A new status, with the trigger `update_last_status_update`.
unfoldable pub set_vm_status : ℕ → VmStatus → VmRow → VmRow
set_vm_status now status vm = record vm {
  status = status;
  last_status_update = if Vm.same_status vm.status status then vm.last_status_update else now;
}

-- The row at a position after an update.
pub update_where-at {ℓ} :
    {A : Type ℓ} (p : A → Bool) (f : A → A) (xs : List A) (i : ℕ) (x : A)
    → get_elem? xs i ≡ some x
    → get_elem? (update_where p f xs) i ≡ some (if p x then f x else x)
unfolding update_where
update_where-at p f [] i x e = cc
update_where-at p f (y ∷ ys) zero x e =
    ap (λ z. some (if p z then f z else z)) (some-injective y x e)
update_where-at p f (y ∷ ys) (suc i) x e = update_where-at p f ys i x e
