-- ===== src/Storage/Vms/Rollback.antt =====
-- `rollbackUnallocatedVmsState`: what becomes of the VMs that the cloud did not give.
use vm_scheduler.Prelude.{
  ℕ, suc, ◌≡◌, refl, sym, ap, ◌∙◌, Bool, true, false, List, [], ◌∷◌, map, arith, get_elem?, some,
  elem, ltb, if◌then◌else◌, Bool-cases, inl, inr,
}
use vm_scheduler.Common.Result.{success}
use vm_scheduler.State.Job.{JobStatus, scheduled}
use vm_scheduler.State.Vm.{VmStatus, pending_allocation, allocating, terminated}
use vm_scheduler.Storage.Rows.{
  update_where-at, VmRow, Db, update_where, select_where, set_vm_status,
}
use vm_scheduler.Storage.Transaction.{
  Session, ended, gives, exec, execute, open_transaction, commit,
}
use vm_scheduler.Storage.Transaction.Laws.{
  bind-success, exec-Queried, open-seen, caught-success, committed-stored,
}
use vm_scheduler.Storage.Vms.{
  exec_writable_query, retry, retriable, restart_allocating_vms, requeued, given_up, restart_jobs,
  moved, restart_and_commit, move_vms, given_out, terminate_vms_where, among,
  rollback_unallocated_vms_state, has_status,
}

gives-session {ℓ} :
    {A : Type ℓ} (a : A) (s : Session) {b : A} {t : Session}
    → gives a s ≡ ended (success b) t
    → t ≡ s
gives-session a s e = cc

exec_writable_query-stored {ℓ} :
    {A : Type ℓ} (q : ℕ → Db → A × Db) (s : Session) {a : A} {t : Session}
    → exec_writable_query q s ≡ ended (success a) t
    → t.stored ≡ (q s.now s.stored).1
unfolding exec_writable_query
exec_writable_query-stored q s e =
    let (_, s1, e1, r1) = bind-success (open_transaction s) _ (caught-success _ e) in
    let (a, s2, e2, r2) = bind-success (exec q s1) _ r1 in
    let (_, s3, e3, r3) = bind-success (commit s2) _ r2 in
    let opened = open-seen s e1 in
    ap (λ x. x.stored) (gives-session a s3 r3)
    ∙ committed-stored s2 e3
    ∙ (exec-Queried q s1 e2).view
    ∙ ap (λ now. (q now s1.seen).1) opened.2
    ∙ ap (λ db. (q s.now db).1) opened.0

restart_jobs-vms :
    (ids : List ℕ) (initial : JobStatus) (limit : ℕ) (s : Session) {a : Unit {0}} {t : Session}
    → restart_jobs ids initial limit s ≡ ended (success a) t
    → t.seen.vms ≡ s.seen.vms
unfolding restart_jobs
restart_jobs-vms ids initial limit s e =
    let (_, u, e1, r) =
      bind-success (execute (λ now db. record db { jobs = requeued ids initial limit db.jobs }) s) _
        e in
    ap (λ db. db.vms)
      (exec-Queried (λ now db. (tt, record db { jobs = given_up ids initial limit db.jobs })) u
        r).view
    ∙ ap (λ db. db.vms)
        (exec-Queried (λ now db. (tt, record db { jobs = requeued ids initial limit db.jobs })) s
          e1).view

-- No row is selected where none changes.
update_where-none :
    (p : VmRow → Bool) (f : VmRow → VmRow) (vms : List VmRow)
    → map (λ vm. vm.id) (select_where p vms) ≡ []
    → update_where p f vms ≡ vms
unfolding update_where select_where
update_where-none p f [] e = refl
update_where-none p f (vm ∷ vms) e = elim (Bool-cases (p vm)) [
  | inl t ↦ cc (rw (t, select_where) at e)
  | inr n ↦ rw n (ap (λ rest. vm ∷ rest) (update_where-none p f vms (rw (n, select_where) at e)))
]

after_move :
    (condition : ℕ → VmRow → Bool) (target : VmStatus) (initial : JobStatus) (limit : ℕ)
    (s u : Session) (ids : List ℕ) {a : Unit {0}} {t : Session}
    → s.stored ≡ s.seen
    → map (λ vm. vm.id) (select_where (condition s.now) s.seen.vms) ≡ ids
    → u.seen.vms ≡ update_where (condition s.now) (set_vm_status s.now target) s.seen.vms
    → u.stored ≡ s.stored
    → restart_and_commit initial limit ids u ≡ ended (success a) t
    → t.stored.vms ≡ update_where (condition s.now) (set_vm_status s.now target) s.seen.vms
after_move condition target initial limit s u [] same none_moved view kept e =
    ap (λ x. x.stored.vms) (gives-session tt u e)
    ∙ ap (λ db. db.vms) (kept ∙ same)
    ∙ sym (update_where-none (condition s.now) (set_vm_status s.now target) s.seen.vms none_moved)
after_move condition target initial limit s u (id ∷ ids) same some_moved view kept e =
    let (_, v, e1, r) = bind-success (restart_jobs (id ∷ ids) initial limit u) _ e in
    ap (λ db. db.vms) (committed-stored v r) ∙ restart_jobs-vms (id ∷ ids) initial limit u e1 ∙ view

move_vms-vms :
    (condition : ℕ → VmRow → Bool) (target : VmStatus) (initial : JobStatus) (limit : ℕ)
    (s : Session) {a : Unit {0}} {t : Session}
    → move_vms condition target initial limit s ≡ ended (success a) t
    → t.stored.vms ≡ update_where (condition s.now) (set_vm_status s.now target) s.stored.vms
move_vms-vms condition target initial limit s e =
    let (_, s1, e1, r1) = bind-success (open_transaction s) _ (caught-success _ e) in
    let (ids, s2, e2, r2) =
      bind-success (exec (λ now db. moved (condition now) target now db) s1) _ r1 in
    let opened = open-seen s e1 in
    let q = exec-Queried (λ now db. moved (condition now) target now db) s1 e2 in
    after_move condition target initial limit s1 s2 ids (opened.1 ∙ sym opened.0) q.answer
      (ap (λ db. db.vms) q.view) q.kept r2
    ∙ ap (λ now. update_where (condition now) (set_vm_status now target) s1.seen.vms) opened.2
    ∙ ap (λ db. update_where (condition s.now) (set_vm_status s.now target) db.vms) opened.0

-- The row of a VM after the two transactions.
abbrev pub rolled_back : List ℕ → ℕ → ℕ → ℕ → VmRow → VmRow
rolled_back ids limit now later vm =
    let once = if retriable (among ids) limit now vm then retry now vm else vm in
    if given_out (among ids) allocating limit later once
    then set_vm_status later terminated once
    else once

rollback-rows :
    (ids : List ℕ) (vm_limit job_limit i : ℕ) (vm : VmRow) (s t : Session)
    → rollback_unallocated_vms_state ids vm_limit job_limit s ≡ ended (success tt) t
    → get_elem? s.stored.vms i ≡ some vm
    → (later : ℕ) × (get_elem? t.stored.vms i ≡ some (rolled_back ids vm_limit s.now later vm))
unfolding rollback_unallocated_vms_state restart_allocating_vms terminate_vms_where
rollback-rows [] vm_limit job_limit i vm s t e here = cc
rollback-rows (id ∷ ids) vm_limit job_limit i vm s t e here =
    let (_, u, e1, r) = bind-success (restart_allocating_vms (among (id ∷ ids)) vm_limit s) _ e in
    let first = exec_writable_query-stored _ s e1 in
    let second =
      move_vms-vms (given_out (among (id ∷ ids)) allocating vm_limit) terminated scheduled job_limit
        u r in
    (
      u.now,
      ap (λ vms. get_elem? vms i) second
          ∙ update_where-at _ _ u.stored.vms i _
              (ap (λ db. get_elem? db.vms i) first ∙ update_where-at _ _ s.stored.vms i vm here),
    )

-- If the roll-back succeeds, a VM that was being allocated and is among those given back has
-- been queued for allocation again, one attempt further, if it had attempts left, and has been
-- terminated otherwise. No VM given back is left in the status of being allocated.
pub rollback-vms :
    (ids : List ℕ) (vm_limit job_limit i : ℕ) (vm : VmRow) (s t : Session)
    → rollback_unallocated_vms_state ids vm_limit job_limit s ≡ ended (success tt) t
    → get_elem? s.stored.vms i ≡ some vm
    → vm.status ≡ allocating
    → elem vm.id ids ≡ true
    → (after : VmRow) × (get_elem? t.stored.vms i ≡ some after)
      × (after.id ≡ vm.id)
      × (ltb vm.restart_count vm_limit ≡ true
          → (after.status ≡ pending_allocation) × (after.restart_count ≡ suc vm.restart_count))
      × (ltb vm.restart_count vm_limit ≡ false → after.status ≡ terminated)
unfolding set_vm_status
rollback-vms ids vm_limit job_limit i vm s t e here waits mine =
    let (later, row) = rollback-rows ids vm_limit job_limit i vm s t e here in
    let is_waiting : has_status allocating vm ≡ true = rw waits refl in
    (
      rolled_back ids vm_limit s.now later vm,
      row,
      ground arith,
      λ left. (ground arith, ground arith),
      λ out. ground arith,
    )
