-- ===== src/Storage/Agents/CloudIds.antt =====
-- VMs that have no cloud id yet: what reading their rows leads to.
use vm_scheduler.Prelude.{
  ℕ, zero, suc, ◌≡◌, refl, ap, ◌∙◌, Bool, true, false, none, some, List, [], ◌∷◌, ◌++◌, All,
  if◌then◌else◌, arith, get_elem?, Bool-cases, inl, inr, elem, ==_refl,
}
use mathlib.Core.Option.{some-injective}
use vm_scheduler.Common.Result.{Result, pg_exception}
use vm_scheduler.State.Vm
use vm_scheduler.State.Vm.{VmStatus, pending_termination, terminating}
use vm_scheduler.Storage.Rows.{VmRow, Db, update_where, select_where, set_vm_status}
use vm_scheduler.Storage.Transaction.{Run, ended, crashed}
use vm_scheduler.Storage.Vms.{
  exec_writable_query, to_terminate, get_vms_to_terminate, with_vms, limited, has_status,
}
use vm_scheduler.Storage.Agents.{is_active, cloud_infos, get_allocated_vms}

cloud_infos-none :
    (vms : List VmRow) (i : ℕ) (vm : VmRow)
    → get_elem? vms i ≡ some vm
    → is_active vm ≡ true
    → vm.cloud_vm_id ≡ none
    → cloud_infos (select_where is_active vms) ≡ none
unfolding cloud_infos select_where
cloud_infos-none [] i vm e active unnamed = cc
cloud_infos-none (other ∷ vms) zero vm e active unnamed =
    let same : other ≡ vm = some-injective other vm e in
    let active' : is_active other ≡ true = ap is_active same ∙ active in
    let unnamed' : other.cloud_vm_id ≡ none = ap (λ x. x.cloud_vm_id) same ∙ unnamed in
    rw active' (rw (unnamed', cloud_infos) refl)
cloud_infos-none (other ∷ vms) (suc i) vm e active unnamed =
    let rest = cloud_infos-none vms i vm e active unnamed in
    elim (Bool-cases (is_active other)) [
      | inr out ↦ rw out rest
      | inl within ↦ rw within (ground (arith, rest))
    ]

-- The failure that a call ends with.
abbrev pub FailsWithPg {ℓ} : {A : Type ℓ} → Run A → Type 0
FailsWithPg (ended (Result.failure pg_exception) s) = Unit
FailsWithPg _ = ⊥

-- With a database that does not throw, `getAllocatedVms` fails as long as one active VM has no
-- cloud id, as it is before its allocation: the VMs that the storage does not track are not
-- terminated then.
pub get_allocated_vms-unnamed :
    (stored seen : Db) (now : ℕ) (i : ℕ) (vm : VmRow)
    → get_elem? stored.vms i ≡ some vm
    → is_active vm ≡ true
    → vm.cloud_vm_id ≡ none
    → FailsWithPg
        (get_allocated_vms (record { stored = stored; seen = seen; now = now; thrown = [] }))
unfolding get_allocated_vms
get_allocated_vms-unnamed stored seen now i vm e active unnamed =
    rw (cloud_infos-none stored.vms i vm e active unnamed) tt

select_where-skip :
    (p : VmRow → Bool) (others : List VmRow) (vm : VmRow) (rest : List VmRow)
    → All (λ other. p other ≡ false) others
    → p vm ≡ true
    → select_where p (others ++ vm ∷ rest) ≡ vm ∷ select_where p rest
unfolding select_where
select_where-skip p [] vm rest h here = rw here refl
select_where-skip p (other ∷ others) vm rest h here =
    rw (h.0, select_where-skip p others vm rest h.1 here) refl

update_where-append :
    (p : VmRow → Bool) (f : VmRow → VmRow) (others : List VmRow) (vm : VmRow) (rest : List VmRow)
    → p vm ≡ true
    → update_where p f (others ++ vm ∷ rest)
      ≡ update_where p f others ++ f vm ∷ update_where p f rest
unfolding update_where
update_where-append p f [] vm rest here = rw here refl
update_where-append p f (other ∷ others) vm rest here =
    ap (λ l. (if p other then f other else other) ∷ l) (update_where-append p f others vm rest here)

to_terminate-none :
    (p : VmRow → Bool) (others : List VmRow) (vm : VmRow) (rest : List VmRow)
    → p vm ≡ true
    → vm.cloud_vm_id ≡ none
    → to_terminate (select_where p (others ++ vm ∷ rest)) ≡ none
unfolding to_terminate select_where
to_terminate-none p [] vm rest here unnamed = rw here (rw (unnamed, to_terminate) refl)
to_terminate-none p (other ∷ others) vm rest here unnamed =
    let ih = to_terminate-none p others vm rest here unnamed in
    elim (Bool-cases (p other)) [
      | inr out ↦ rw out ih
      | inl within ↦ rw within (ground (arith, ih))
    ]

-- With a database that does not throw and a positive bound on their number, `getVmsToTerminate` ends
-- the process if the first of the VMs to be terminated has no cloud id, as one that was given up
-- before its allocation; whichever VMs with other statuses stand before it.
pub get_vms_to_terminate-unnamed :
    (stored seen : Db) (now max_count : ℕ) (others : List VmRow) (vm : VmRow) (rest : List VmRow)
    → All (λ other. Vm.same_status other.status pending_termination ≡ false) others
    → vm.status ≡ pending_termination
    → vm.cloud_vm_id ≡ none
    → get_vms_to_terminate (suc max_count) (record {
      stored = with_vms stored (others ++ vm ∷ rest);
      seen = seen;
      now = now;
      thrown = [];
    })
      ≡ crashed
unfolding get_vms_to_terminate exec_writable_query set_vm_status
get_vms_to_terminate-unnamed stored seen now max_count others vm rest ended_others waits unnamed =
    let first : Vm.same_status vm.status pending_termination ≡ true = rw waits refl in
    let ids = limited (suc max_count) pending_termination (with_vms stored (others ++ vm ∷ rest)) in
    let within : elem vm.id ids ≡ true =
      rw (select_where-skip (has_status pending_termination) others vm rest ended_others first)
        (ground (arith, ==_refl vm.id)) in
    rw
      (
        update_where-append (λ row. elem row.id ids) (set_vm_status now terminating) others vm rest
            within,
        to_terminate-none (λ row. elem row.id ids)
            (update_where (λ row. elem row.id ids) (set_vm_status now terminating) others)
            (set_vm_status now terminating vm)
            (update_where (λ row. elem row.id ids) (set_vm_status now terminating) rest) within
            unnamed,
      )
      refl
