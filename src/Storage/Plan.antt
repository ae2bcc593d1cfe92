-- ===== src/Storage/Plan.antt =====
-- libs/db/impl/pg_task_storage.cpp: the start of a scheduling pass, and the table of plans.
pub mod Start
use Prim.Native.String.{String}
use vm_scheduler.Prelude.{
  ℕ, suc, ◌+◌, Bool, true, false, not, Option, none, some, List, [], ◌∷◌, ◌++◌, map, ◌==◌, ltb,
  if◌then◌else◌,
}
use vm_scheduler.Common.Result.{
  Exception, lock_unavailable, pg_exception, inconsistent_pg_result, scheduling_cancelled, success,
  failure,
}
use vm_scheduler.Storage.Rows.{PlanRow, Db, seconds, update_where, select_where}
use vm_scheduler.Storage.Transaction.{
  Run, ended, Txn, ◌>>=◌, ◌>>◌, gives, fails, exec, no_handler, try_pg, open_transaction, commit,
  query,
}

-- `COALESCE(MAX(…), 0)`.
unfoldable pub max_of : List ℕ → ℕ
max_of [] = 0
max_of (n ∷ ns) = let rest = max_of ns in if ltb rest n then n else rest

abbrev pub updated_times : Db → List ℕ
updated_times db = map (λ p. p.updated) db.plans

-- The handlers of `acquireLock_`.
abbrev lock_error : Exception → Exception
lock_error lock_unavailable = lock_unavailable
lock_error e = pg_exception

abbrev pub try_lock : Run (Unit {0}) → Run (Unit {0})
try_lock (ended (failure e) s) = ended (failure (lock_error e)) s
try_lock run = run

-- With `NOWAIT` the lock may be refused, which the answer of the library says.
unfoldable pub acquire_lock : Bool → Txn (Unit {0})
acquire_lock no_wait s = try_lock ((open_transaction >> exec (λ now db. (tt, db))) s)

-- Only a number above the greatest one is recorded, and none is refused.
abbrev pub record_leader : ℕ → ℕ → Txn (Unit {0})
record_leader lock_number max_id =
    if ltb max_id lock_number
    then query (λ now db. (tt, record db { locks = lock_number ∷ db.locks }))
    else gives tt

unfoldable pub check_leader : ℕ → Txn (Unit {0})
check_leader lock_number = query (λ now db. (max_of db.locks, db)) >>= record_leader lock_number

unfoldable pub plan_was_recently_updated : ℕ → Txn Bool
plan_was_recently_updated interval =
    query (λ now db. (ltb now (max_of (updated_times db) + seconds interval), db))

abbrev pub new_plan : ℕ → String → Db → PlanRow
new_plan now backend_id db = record {
  id = db.next_plan_id;
  created = now;
  updated = now;
  backend_id = backend_id;
}

unfoldable pub insert_new_plan_record : String → Txn ℕ
insert_new_plan_record backend_id = do
  id ← query (λ now db. (
    db.next_plan_id,
    record db {
      plans = db.plans ++ new_plan now backend_id db ∷ [];
      next_plan_id = suc db.next_plan_id;
    },
  ))
  try_pg commit
  gives id

-- The result of `checkLeader_` is not looked at.
abbrev pub ignored : Run (Unit {0}) → Run (Unit {0})
ignored (ended (failure e) s) = ended (success tt) s
ignored run = run

unfoldable pub check_leader_of : Option ℕ → Txn (Unit {0})
check_leader_of none = gives tt
check_leader_of (some lock_number) = λ s. ignored (check_leader lock_number s)

abbrev pub no_wait_for : Option ℕ → Bool
no_wait_for none = true
no_wait_for (some n) = false

-- `commit` has no handler here, in a `noexcept` function.
abbrev pub schedule_unless : String → Bool → Txn ℕ
schedule_unless backend_id true = no_handler commit >> fails scheduling_cancelled
schedule_unless backend_id false = insert_new_plan_record backend_id

unfoldable pub start_scheduling : String → ℕ → Option ℕ → Txn ℕ
start_scheduling backend_id interval lock_number = do
  acquire_lock (no_wait_for lock_number)
  check_leader_of lock_number
  recent ← plan_was_recently_updated interval
  schedule_unless backend_id recent

-- The ids of the plans updated last, and what `isSchedulingRelevant_` makes of them.
abbrev pub newest_plans : Db → List ℕ
newest_plans db =
    map (λ p. p.id) (select_where (λ p. p.updated == max_of (updated_times db)) db.plans)

abbrev pub only_plan : ℕ → List ℕ → Txn Bool
only_plan plan_id (id ∷ []) = gives (id == plan_id)
only_plan plan_id _ = fails inconsistent_pg_result

-- The query has no handler in this `noexcept` function.
unfoldable pub is_scheduling_relevant : ℕ → Txn Bool
is_scheduling_relevant plan_id =
    no_handler (exec (λ now db. (newest_plans db, db))) >>= only_plan plan_id

unfoldable pub refresh_plan_activity_ts : ℕ → Txn (Unit {0})
refresh_plan_activity_ts plan_id = query (λ now db. (
  tt,
  record db {
    plans = update_where (λ p. p.id == plan_id) (λ p. record p { updated = now }) db.plans;
  },
))
