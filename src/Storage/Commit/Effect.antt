-- ===== src/Storage/Commit/Effect.antt =====
-- What `commitPlanChange` has stored when it succeeds.
use vm_scheduler.Prelude.{
  ℕ, suc, ◌≡◌, refl, ◌∙◌, sym, ap, Bool, true, false, List, [], ◌∷◌, ◌++◌, map, arith,
}
use vm_scheduler.Common.Slot.{SlotCapacity}
use vm_scheduler.Common.Result.{success, failure}
use vm_scheduler.Std.Map.{lookup, emplace}
use mathlib.Core.List.{append-nil, append_assoc}
use vm_scheduler.State.Job.{JobStatus}
use vm_scheduler.State.Vm.{VmStatus, pending_termination}
use vm_scheduler.State.Plan.{DesiredSlot, StateChange}
use vm_scheduler.Storage.Rows.{VmRow, Db, update_where, select_where, set_vm_status}
use vm_scheduler.Storage.Transaction.{
  Session, Run, ended, crashed, exec, no_handler, open_transaction, query,
}
use vm_scheduler.Storage.Transaction.Laws.{
  bind-success, exec-Queried, query-Queried, no_handler-Queried, open-seen,
}
use vm_scheduler.Storage.Plan.{
  try_lock, acquire_lock, newest_plans, only_plan, is_scheduling_relevant,
}
use vm_scheduler.Storage.Commit.{
  keys, job_statuses_of, vm_statuses_of, get_job_statuses_with_lock, get_vm_statuses_with_lock,
  some_final, some_inactive, refuse_if, check_conflicts, terminated_vms, terminate_vms, updated_vms,
  take_capacity, update_vm_capacities, new_vm, with_new_vm, allocate_new_vms, refuse_unless,
}

-- From one point of a transaction to a later one, the view changed by a function.
pub record Stepped (f : Db → Db) (s t : Session) : Type 0 where
  pub view : t.seen ≡ f s.seen
  pub clock : t.now ≡ s.now

try_lock-success :
    (run : Run (Unit {0})) {a : Unit {0}} {t : Session}
    → try_lock run ≡ ended (success a) t
    → run ≡ ended (success a) t
try_lock-success (ended (success a) t) e = e
try_lock-success (ended (failure e') t) e = cc
try_lock-success crashed e = cc

pub acquire_lock-seen :
    (no_wait : Bool) (s : Session) {a : Unit {0}} {t : Session}
    → acquire_lock no_wait s ≡ ended (success a) t
    → (t.seen ≡ s.stored) × (t.now ≡ s.now)
unfolding acquire_lock
acquire_lock-seen no_wait s e =
    let (b, u, e', r) = bind-success (open_transaction s) _ (try_lock-success _ e) in
    let opened = open-seen s e' in
    let q = exec-Queried (λ now db. (tt, db)) u r in (q.view ∙ opened.0, q.clock ∙ opened.2)

only_plan-success :
    (plan_id : ℕ) (ids : List ℕ) (s : Session) {a : Bool} {t : Session}
    → only_plan plan_id ids s ≡ ended (success a) t
    → (t ≡ s) × (a ≡ true → ids ≡ plan_id ∷ [])
only_plan-success plan_id [] s e = (cc, cc)
only_plan-success plan_id (id ∷ []) s e = (ground arith, ground arith)
only_plan-success plan_id (id ∷ id' ∷ ids) s e = (cc, cc)

pub is_scheduling_relevant-success :
    (plan_id : ℕ) (s : Session) {a : Bool} {t : Session}
    → is_scheduling_relevant plan_id s ≡ ended (success a) t
    → Stepped (λ db. db) s t × (a ≡ true → newest_plans s.seen ≡ plan_id ∷ [])
unfolding is_scheduling_relevant
is_scheduling_relevant-success plan_id s e =
    let (ids, u, e', r) =
      bind-success (no_handler (exec λ now db. (newest_plans db, db)) s) (only_plan plan_id) e in
    let q = no_handler-Queried (λ now db. (newest_plans db, db)) s e' in
    let (same, only) = only_plan-success plan_id ids u r in
    (
      record { view = ap (λ x. x.seen) same ∙ q.view; clock = ap (λ x. x.now) same ∙ q.clock },
      λ agreed. q.answer ∙ only agreed,
    )

refuse_if-success :
    (b : Bool) (s : Session) {a : Unit {0}} {t : Session}
    → refuse_if b s ≡ ended (success a) t
    → (t ≡ s) × (b ≡ false)
refuse_if-success true s e = (cc, cc)
refuse_if-success false s e = (cc, refl)

pub refuse_unless-success :
    (b : Bool) (s : Session) {a : Unit {0}} {t : Session}
    → refuse_unless b s ≡ ended (success a) t
    → (t ≡ s) × (b ≡ true)
refuse_unless-success true s e = (cc, refl)
refuse_unless-success false s e = (cc, cc)

select_where-nothing {ℓ} : {A : Type ℓ} → (xs : List A) → select_where (λ _. false) xs ≡ []
unfolding select_where
select_where-nothing [] = refl
select_where-nothing (x ∷ xs) = select_where-nothing xs

update_where-nothing {ℓ} :
    {A : Type ℓ} → (f : A → A) (xs : List A) → update_where (λ _. false) f xs ≡ xs
unfolding update_where
update_where-nothing f [] = refl
update_where-nothing f (x ∷ xs) = ap (λ ys. x ∷ ys) (update_where-nothing f xs)

pub map-same {ℓ} : {A : Type ℓ} → (f : A → A) → ((a : A) → f a ≡ a) → (xs : List A) → map f xs ≡ xs
map-same f h [] = refl
map-same f h (x ∷ xs) = cc (h x, map-same f h xs)

get_job_statuses-success :
    (ids : List ℕ) (s : Session) {a : List JobStatus} {t : Session}
    → get_job_statuses_with_lock ids s ≡ ended (success a) t
    → Stepped (λ db. db) s t × (a ≡ job_statuses_of ids s.seen)
unfolding get_job_statuses_with_lock
get_job_statuses-success [] s e =
    (record { view = cc; clock = cc }, rw (select_where-nothing s.seen.jobs) cc)
get_job_statuses-success (id ∷ ids) s e =
    let q = query-Queried (λ now db. (job_statuses_of (id ∷ ids) db, db)) s e in
    (record { view = q.view; clock = q.clock }, sym q.answer)

get_vm_statuses-success :
    (ids : List ℕ) (s : Session) {a : List VmStatus} {t : Session}
    → get_vm_statuses_with_lock ids s ≡ ended (success a) t
    → Stepped (λ db. db) s t × (a ≡ vm_statuses_of ids s.seen)
unfolding get_vm_statuses_with_lock
get_vm_statuses-success [] s e =
    (record { view = cc; clock = cc }, rw (select_where-nothing s.seen.vms) cc)
get_vm_statuses-success (id ∷ ids) s e =
    let q = query-Queried (λ now db. (vm_statuses_of (id ∷ ids) db, db)) s e in
    (record { view = q.view; clock = q.clock }, sym q.answer)

pub check_conflicts-success :
    (change : StateChange) (s : Session) {a : Unit {0}} {t : Session}
    → check_conflicts change s ≡ ended (success a) t
    → Stepped (λ db. db) s t
      × (some_final (job_statuses_of (keys change.job_to_vm) s.seen) ≡ false)
      × (some_inactive (vm_statuses_of (keys change.updated_idle_capacities) s.seen) ≡ false)
unfolding check_conflicts
check_conflicts-success change s e =
    let (jobs, s1, e1, r1) =
      bind-success (get_job_statuses_with_lock (keys change.job_to_vm) s) _ e in
    let (vms, s2, e2, r2) =
      bind-success (get_vm_statuses_with_lock (keys change.updated_idle_capacities) s1) _ r1 in
    let (u, s3, e3, r3) = bind-success (refuse_if (some_final jobs) s2) _ r2 in
    let (p1, q1) = get_job_statuses-success (keys change.job_to_vm) s e1 in
    let (p2, q2) = get_vm_statuses-success (keys change.updated_idle_capacities) s1 e2 in
    let (p3, q3) = refuse_if-success (some_final jobs) s2 e3 in
    let (p4, q4) = refuse_if-success (some_inactive vms) s3 r3 in
    (
      record {
        view = ap (λ x. x.seen) (p4 ∙ p3) ∙ p2.view ∙ p1.view;
        clock = ap (λ x. x.now) (p4 ∙ p3) ∙ p2.clock ∙ p1.clock;
      },
      sym (ap some_final q1) ∙ q3,
      sym (
            ap (λ db. some_inactive (vm_statuses_of (keys change.updated_idle_capacities) db))
              p1.view)
          ∙ sym (ap some_inactive q2)
          ∙ q4,
    )

pub terminate_vms-success :
    (ids : List ℕ) (s : Session) {a : Unit {0}} {t : Session}
    → terminate_vms ids s ≡ ended (success a) t
    → Stepped (terminated_vms ids s.now) s t
unfolding terminate_vms
terminate_vms-success [] s e = record {
  view = rw (update_where-nothing (set_vm_status s.now pending_termination) s.seen.vms) cc;
  clock = cc;
}
terminate_vms-success (id ∷ ids) s e =
    let q = query-Queried (λ now db. (tt, terminated_vms (id ∷ ids) now db)) s e in
    record { view = q.view; clock = q.clock }

pub update_vm_capacities-success :
    (updated : List (ℕ × SlotCapacity)) (s : Session) {a : Unit {0}} {t : Session}
    → update_vm_capacities updated s ≡ ended (success a) t
    → Stepped (updated_vms updated) s t
unfolding update_vm_capacities take_capacity lookup
update_vm_capacities-success [] s e = record {
  view = rw (map-same (take_capacity []) (λ vm. refl) s.seen.vms) cc;
  clock = cc;
}
update_vm_capacities-success (p ∷ ps) s e =
    let q = query-Queried (λ now db. (tt, updated_vms (p ∷ ps) db)) s e in
    record { view = q.view; clock = q.clock }

-- The rows of the new VMs, one for each desired slot.
abbrev pub new_rows : ℕ → ℕ → List (ℕ × DesiredSlot) → List VmRow
new_rows now id [] = []
new_rows now id ((slot_id, slot) ∷ slots) = new_vm now id slot ∷ new_rows now (suc id) slots

pub record Allocated (slots : List (ℕ × DesiredSlot)) (s t : Session) : Type 0 where
  pub vms : t.seen.vms ≡ s.seen.vms ++ new_rows s.now s.seen.next_vm_id slots
  pub jobs : t.seen.jobs ≡ s.seen.jobs
  pub clock : t.now ≡ s.now

pub allocate_new_vms-success :
    (slots : List (ℕ × DesiredSlot)) (allocated : List (ℕ × ℕ)) (s : Session) {a : List (ℕ × ℕ)}
    {t : Session}
    → allocate_new_vms slots allocated s ≡ ended (success a) t
    → Allocated slots s t
unfolding allocate_new_vms
allocate_new_vms-success [] allocated s e = record {
  vms = cc (append-nil s.seen.vms);
  jobs = cc;
  clock = cc;
}
allocate_new_vms-success ((slot_id, slot) ∷ slots) allocated s e =
    let (id, u, e', r) =
      bind-success (query (λ now db. (db.next_vm_id, with_new_vm slot now db)) s) _ e in
    let q = query-Queried (λ now db. (db.next_vm_id, with_new_vm slot now db)) s e' in
    let rest = allocate_new_vms-success slots (emplace slot_id id allocated) u r in
    record {
      vms =
          rest.vms
          ∙ ap (λ db. db.vms ++ new_rows u.now db.next_vm_id slots) q.view
          ∙ ap
              (λ now.
                (s.seen.vms ++ new_vm s.now s.seen.next_vm_id slot ∷ [])
                ++ new_rows now (suc s.seen.next_vm_id) slots)
              q.clock
          ∙ append_assoc s.seen.vms (new_vm s.now s.seen.next_vm_id slot ∷ []) _;
      jobs = rest.jobs ∙ ap (λ db. db.jobs) q.view;
      clock = rest.clock ∙ q.clock;
    }
