-- ===== src/Storage/Plan/Start.antt =====
-- `startScheduling`: when a new plan is started, and by whom.
use Prim.Native.String.{String}
use vm_scheduler.Prelude.{
  ℕ, ◌+◌, ◌≤◌, ◌≡◌, refl, false, Option, none, some, List, [], ◌∷◌, ◌++◌, arith, ltb, Bool-cases,
  inl, inr,
}
use vm_scheduler.Common.Result.{success, failure}
use vm_scheduler.Storage.Rows.{PlanRow, Db, seconds}
use vm_scheduler.Storage.Transaction.{Run, ended, crashed}
use vm_scheduler.Storage.Plan.{
  max_of, updated_times, acquire_lock, check_leader, check_leader_of, plan_was_recently_updated,
  new_plan, insert_new_plan_record, start_scheduling,
}

-- The call succeeds, with this answer and these stored plans.
abbrev pub Starts : ℕ → List PlanRow → Run ℕ → Type 0
Starts id plans (ended (success found) t) = (found ≡ id) × (t.stored.plans ≡ plans)
Starts id plans (ended (failure e) t) = ⊥
Starts id plans crashed = ⊥

-- With a database that does not throw, a pass is started whenever the last plan is older than
-- the interval, whatever the lock number: a leader whose number is below the greatest one
-- recorded is not refused.
pub start_scheduling-Starts :
    (backend_id : String) (interval : ℕ) (lock_number : Option ℕ) (stored seen : Db) (now : ℕ)
    → max_of (updated_times stored) + seconds interval ≤ now
    → Starts stored.next_plan_id (stored.plans ++ new_plan now backend_id stored ∷ []) (
        start_scheduling backend_id interval lock_number
          (record { stored = stored; seen = seen; now = now; thrown = [] }))
unfolding start_scheduling acquire_lock check_leader_of check_leader plan_was_recently_updated
    insert_new_plan_record
start_scheduling-Starts backend_id interval none stored seen now old =
    let quiet : ltb now (max_of (updated_times stored) + seconds interval) ≡ false = ground arith in
    rw quiet (refl, refl)
start_scheduling-Starts backend_id interval (some n) stored seen now old =
    let quiet : ltb now (max_of (updated_times stored) + seconds interval) ≡ false = ground arith in
    elim (Bool-cases (ltb (max_of stored.locks) n)) [
      | inl higher ↦ rw higher (rw quiet (refl, refl))
      | inr lower ↦ rw lower (rw quiet (refl, refl))
    ]
