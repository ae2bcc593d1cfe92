-- ===== src/Services/Scheduler/Final.antt =====
-- A pass of the scheduler leaves the jobs that have ended alone.
use Prim.Native.String.{String}
use vm_scheduler.Prelude.{
  ℕ, ◌≡◌, refl, ap, ◌∙◌, Bool, true, false, Option, none, some, List, [], ◌∷◌, get_elem?,
  Bool-cases, inl, inr, ltb,
}
use vm_scheduler.Common.Result.{Exception, success, failure}
use vm_scheduler.Std.Outcome.{Outcome, returns, undefined, out_of_fuel, ◌>>=◌}
use vm_scheduler.State.Plan.{State, StateChange}
use vm_scheduler.Storage.Rows.{JobRow, Db}
use vm_scheduler.Storage.Transaction.{
  Session, Run, ended, crashed, Txn, bind, caught, call_with, open_transaction, commit, try_pg,
  no_handler,
}
use vm_scheduler.Storage.Transaction.Safety.{
  Safe, Safe-bind, Safe-caught, Safe-uncaught, exec-Safe, query-Safe, open-Safe, commit-Safe,
}
use vm_scheduler.Storage.Plan.{
  try_lock, acquire_lock, record_leader, check_leader, ignored, check_leader_of,
  plan_was_recently_updated, insert_new_plan_record, no_wait_for, schedule_unless, start_scheduling,
  max_of,
}
use vm_scheduler.Storage.Commit.{commit_plan_change}
use vm_scheduler.Storage.Commit.Atomic.{commit_plan_change-atomic}
use vm_scheduler.Storage.Commit.Jobs.{Committed-jobs, commit_plan_change-jobs}
use vm_scheduler.Storage.Jobs.{is_final, get_current_state}
use vm_scheduler.Services.Allocator.{logged, logged_run}
use vm_scheduler.Services.Safety.{StoresAfter}
use vm_scheduler.Services.Scheduler.{Scheduler, with_state, with_plan, schedule}

-- It holds of the stored tables if the pass returns.
abbrev pub StoresIfReturns : (Db → Type 0) → Outcome (Run (Unit {0})) → Type 0
StoresIfReturns Holds (returns run) = StoresAfter Holds run
StoresIfReturns Holds undefined = Unit
StoresIfReturns Holds out_of_fuel = Unit

module _ (i : ℕ) (job : JobRow) where
  abbrev There : Db → Type 0
  There db = get_elem? db.jobs i ≡ some job

  try_lock-Safe : (run : Run (Unit {0})) → Safe There run → Safe There (try_lock run)
  try_lock-Safe (ended (success a) s) h = h
  try_lock-Safe (ended (failure e) s) h = h
  try_lock-Safe crashed h = tt

  acquire_lock-Safe :
      (no_wait : Bool) (s : Session) → There s.stored → Safe {0} There (acquire_lock no_wait s)
  unfolding acquire_lock
  acquire_lock-Safe no_wait s h = try_lock-Safe _ (
      Safe-bind There (open_transaction s) _ (open-Safe There s h)
        λ _ s h h'. exec-Safe There _ s (λ now db g. g) h h')

  -- However the call ends, the job is there in the stored tables and in the view.
  abbrev InBoth {ℓ} : {A : Type ℓ} → Run A → Type 0
  InBoth (ended r t) = There t.stored × There t.seen
  InBoth crashed = Unit

  InBoth-call {ℓ} :
      {A : Type ℓ} (answers : List (Option Exception)) (q : ℕ → Db → A × Db) (s : Session)
      → ((now : ℕ) (db : Db) → There db → There (q now db).1)
      → There s.stored
      → There s.seen
      → InBoth (
          caught (
            call_with answers
              (λ s. ((q s.now s.seen).0, record s { seen = (q s.now s.seen).1 }))
              s))
  InBoth-call [] q s k h h' = (h, k s.now s.seen h')
  InBoth-call (none ∷ rest) q s k h h' = (h, k s.now s.seen h')
  InBoth-call (some e ∷ rest) q s k h h' = (h, h')

  record_leader-InBoth :
      (n max_id : ℕ) (s : Session)
      → There s.stored
      → There s.seen
      → InBoth {0} (record_leader n max_id s)
  record_leader-InBoth n max_id s h h' = elim (Bool-cases (ltb max_id n)) [
    | inl higher ↦ rw (higher, record_leader) (InBoth-call s.thrown _ s (λ now db g. g) h h')
    | inr lower ↦ rw (lower, record_leader) (h, h')
  ]

  InBoth-bind {ℓ κ} :
      {A : Type ℓ} {B : Type κ} (m : Run A) (f : A → Txn B)
      → InBoth m
      → ((a : A) (t : Session) → There t.stored → There t.seen → InBoth (f a t))
      → InBoth (bind m f)
  InBoth-bind (ended (success a) t) f h k = k a t h.0 h.1
  InBoth-bind (ended (failure e) t) f h k = h
  InBoth-bind crashed f h k = tt

  -- A failure of `checkLeader_` is forgotten.
  ignored-Safe : (run : Run (Unit {0})) → InBoth run → Safe There (ignored run)
  ignored-Safe (ended (success a) s) h = h
  ignored-Safe (ended (failure e) s) h = h
  ignored-Safe crashed h = tt

  check_leader_of-Safe :
      (lock_number : Option ℕ) (s : Session)
      → There s.stored
      → There s.seen
      → Safe {0} There (check_leader_of lock_number s)
  unfolding check_leader_of check_leader
  check_leader_of-Safe none s h h' = (h, h')
  check_leader_of-Safe (some n) s h h' = ignored-Safe (check_leader n s) (
      InBoth-bind _ (record_leader n)
        (InBoth-call s.thrown (λ now db. (max_of db.locks, db)) s (λ now db g. g) h h')
        (record_leader-InBoth n))

  schedule_unless-Safe :
      (backend_id : String) (recent : Bool) (s : Session)
      → There s.stored
      → There s.seen
      → Safe There (schedule_unless backend_id recent s)
  unfolding insert_new_plan_record
  schedule_unless-Safe backend_id true s h h' =
      Safe-bind There (no_handler commit s) _
        (Safe-uncaught There (commit s) (commit-Safe There s h h')) λ _ t g g'. g
  schedule_unless-Safe backend_id false s h h' =
      Safe-bind There _ _ (query-Safe There _ s (λ now db g. g) h h') λ id s h h'.
        Safe-bind There (try_pg commit s) _
          (Safe-caught There (commit s) (commit-Safe There s h h')) λ _ s h h'. (h, h')

  start_scheduling-Safe :
      (backend_id : String) (interval : ℕ) (lock_number : Option ℕ) (s : Session)
      → There s.stored
      → Safe There (start_scheduling backend_id interval lock_number s)
  unfolding start_scheduling plan_was_recently_updated
  start_scheduling-Safe backend_id interval lock_number s h =
      Safe-bind There _ _ (acquire_lock-Safe (no_wait_for lock_number) s h) λ _ s h h'.
        Safe-bind There _ _ (check_leader_of-Safe lock_number s h h') λ _ s h h'.
          Safe-bind There _ _ (query-Safe There _ s (λ now db g. g) h h')
            λ recent s h h'. schedule_unless-Safe backend_id recent s h h'

  get_current_state-Safe : (s : Session) → There s.stored → Safe There (get_current_state s)
  unfolding get_current_state
  get_current_state-Safe s h =
      Safe-bind There (try_pg open_transaction s) _
        (Safe-caught There (open_transaction s) (open-Safe There s h))
        λ _ s h h'. Safe-bind There _ _ (query-Safe There _ s (λ now db g. g) h h') λ jobs s h h'.
          Safe-bind There _ _ (query-Safe There _ s (λ now db g. g) h h') λ vms s h h'. (h, h')

  module _ (final : is_final job.status ≡ true) where
    commit-StoresAfter :
        (change : StateChange) (plan_id : ℕ) (s : Session)
        → There s.stored
        → StoresAfter There (logged (commit_plan_change change plan_id) s)
    commit-StoresAfter change plan_id s h = go (commit_plan_change change plan_id s) refl
      where
        go :
            (run : Run (Unit {0}))
            → commit_plan_change change plan_id s ≡ run
            → StoresAfter There (logged_run run)
        go (ended (success tt) t) e = (commit_plan_change-jobs change plan_id s t i job e h).0 final
        go (ended (failure e') t) e = elim (commit_plan_change-atomic change plan_id s t e' e) [
          | inl kept ↦ ap (λ db. get_elem? db.jobs i) kept ∙ h
          | inr whole ↦ (Committed-jobs change plan_id s t i job whole h).0 final
        ]
        go crashed e = tt

    module _ (fuel : ℕ) (scheduler : Scheduler) where
      commit_change-Stores :
          (plan_id : ℕ) (change : Outcome StateChange) (s : Session)
          → There s.stored
          → StoresIfReturns There
              (change >>= λ change. returns (logged (commit_plan_change change plan_id) s))
      commit_change-Stores plan_id (returns change) s h = commit-StoresAfter change plan_id s h
      commit_change-Stores plan_id undefined s h = tt
      commit_change-Stores plan_id out_of_fuel s h = tt

      with_state-Stores :
          (plan_id : ℕ) (run : Run State)
          → Safe There run
          → StoresIfReturns There (with_state fuel scheduler plan_id run)
      with_state-Stores plan_id (ended (success state) s) h = commit_change-Stores plan_id _ s h.0
      with_state-Stores plan_id (ended (failure e) s) h = h
      with_state-Stores plan_id crashed h = tt

      with_plan-Stores :
          (run : Run ℕ) → Safe There run → StoresIfReturns There (with_plan fuel scheduler run)
      with_plan-Stores (ended (success plan_id) s) h =
          with_state-Stores plan_id (get_current_state s) (get_current_state-Safe s h.0)
      with_plan-Stores (ended (failure e) s) h = h
      with_plan-Stores crashed h = tt

      -- A pass of the scheduler that returns, by whichever assigner and with or without a lock,
      -- has not changed the row of a job with a status that the source calls final, whichever
      -- calls of the database throw.
      pub schedule-final :
          (lock : Option (Option ℕ)) (s : Session)
          → get_elem? s.stored.jobs i ≡ some job
          → StoresIfReturns (λ db. get_elem? db.jobs i ≡ some job) (schedule fuel scheduler lock s)
      unfolding schedule
      schedule-final none s h = with_plan-Stores _ (start_scheduling-Safe _ _ none s h)
      schedule-final (some none) s h = h
      schedule-final (some (some n)) s h =
          with_plan-Stores _ (start_scheduling-Safe _ _ (some n) s h)
