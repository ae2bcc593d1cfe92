-- ===== src/Storage/Commit/Placement.antt =====
-- The VMs that `commitPlanChange` schedules jobs on: those that their assignments ask for.
use mathlib.Core.Option.{some-injective}
use vm_scheduler.Prelude.{
  ℕ, suc, ◌+◌, ◌==◌, inl, inr, Option-cases, Bool-cases, arith, if◌then◌else◌, ◌≡◌, refl, ◌∙◌, sym,
  ap, subst, Option, none, some, List, [], ◌∷◌,
}
use vm_scheduler.Common.Result.{success}
use vm_scheduler.Std.Map.{lookup, has_key, emplace, lookup-emplace, has_key-emplace, lookup-has_key}
use vm_scheduler.State.Job.{scheduled}
use vm_scheduler.State.Plan.{DesiredSlot, VmInfo, existing, desired}
use vm_scheduler.Storage.Rows.{JobRow}
use vm_scheduler.Storage.Transaction.{Session, ended, query}
use vm_scheduler.Storage.Transaction.Laws.{bind-success, query-Queried}
use vm_scheduler.Storage.Commit.{allocate_new_vms, target, targets, schedule_job, with_new_vm}
use vm_scheduler.Storage.Commit.Wanted.{position_of, placed}

abbrev resolved : List (ℕ × ℕ) → Option VmInfo → Option ℕ
resolved slots none = none
resolved slots (some vm) = target slots vm

-- What the answer of `targets` has been made of.
targets-cons :
    (slots : List (ℕ × ℕ)) (job_id : ℕ) (vm : VmInfo) (rest : List (ℕ × VmInfo))
    (rows : List (ℕ × ℕ))
    → targets slots ((job_id, vm) ∷ rest) ≡ some rows
    → (v : ℕ) × (others : List (ℕ × ℕ)) × (target slots vm ≡ some v)
      × (targets slots rest ≡ some others)
      × ((job_id, v) ∷ others ≡ rows)
unfolding targets
targets-cons slots job_id vm rest rows e = elim (Option-cases (target slots vm)) [
  | inl n ↦ let bad : none ≡ some rows = rw (n, targets) at e in cc
  | inr (v, t) ↦ elim (Option-cases (targets slots rest)) [
    | inl n ↦ let bad : none ≡ some rows = rw (t, n, targets) at e in cc
    | inr (others, r) ↦ (v, others, t, r, some-injective _ _ (rw (t, r, targets) at e))
  ]
]

-- The targets of the assignments, key by key: each is there, and stands in the rows.
targets-lookup :
    (slots : List (ℕ × ℕ)) (assignments : List (ℕ × VmInfo)) (rows : List (ℕ × ℕ)) (id : ℕ)
    → targets slots assignments ≡ some rows
    → lookup id rows ≡ resolved slots (lookup id assignments)
unfolding targets lookup
targets-lookup slots [] rows id e = cc
targets-lookup slots ((job_id, vm) ∷ rest) rows id e =
    let (v, others, t, r, whole) = targets-cons slots job_id vm rest rows e in
    subst (λ rows. lookup id rows ≡ resolved slots (lookup id ((job_id, vm) ∷ rest))) whole
      (elim (Bool-cases (job_id == id)) [
        | inl b ↦ rw b (sym t)
        | inr b ↦ rw b (targets-lookup slots rest others id r)
      ])

targets-there :
    (slots : List (ℕ × ℕ)) (assignments : List (ℕ × VmInfo)) (rows : List (ℕ × ℕ)) (id : ℕ)
    (vm : VmInfo)
    → targets slots assignments ≡ some rows
    → lookup id assignments ≡ some vm
    → (v : ℕ) × (target slots vm ≡ some v)
unfolding targets lookup
targets-there slots [] rows id vm e h = cc
targets-there slots ((job_id, first) ∷ rest) rows id vm e h =
    let (v, others, t, r, whole) = targets-cons slots job_id first rest rows e in
    elim (Bool-cases (job_id == id)) [
      | inl b ↦ (v, ap (target slots) (sym (some-injective first vm (rw b at h))) ∙ t)
      | inr b ↦ targets-there slots rest others id vm r (rw b at h)
    ]

-- The VM that is recorded for a slot.
abbrev pub slot_vm : ℕ → List (ℕ × DesiredSlot) → List (ℕ × ℕ) → ℕ → Option ℕ
slot_vm k slots allocated next =
    if has_key k allocated
    then lookup k allocated
    else if has_key k slots
    then some (next + position_of k slots)
    else none

slot_vm-nil :
    (k : ℕ) (allocated : List (ℕ × ℕ)) (next : ℕ) → slot_vm k [] allocated next ≡ lookup k allocated
unfolding has_key
slot_vm-nil k allocated next = by_lookup (lookup k allocated) refl
  where
    by_lookup :
        (found : Option ℕ)
        → lookup k allocated ≡ found
        → slot_vm k [] allocated next ≡ lookup k allocated
    by_lookup none e = rw (lookup-has_key k allocated, e) refl
    by_lookup (some v) e = rw (lookup-has_key k allocated, e) refl

slot_vm-cons :
    (k slot_id : ℕ) (slot : DesiredSlot) (slots : List (ℕ × DesiredSlot)) (allocated : List (ℕ × ℕ))
    (next : ℕ)
    → slot_vm k slots (emplace slot_id next allocated) (suc next)
      ≡ slot_vm k ((slot_id, slot) ∷ slots) allocated next
unfolding has_key
slot_vm-cons k slot_id slot slots allocated next =
    ground
      (arith, lookup-emplace slot_id k next allocated, has_key-emplace slot_id k next allocated)

slot_vm-some :
    (k : ℕ) (slots : List (ℕ × DesiredSlot)) (next v : ℕ)
    → slot_vm k slots [] next ≡ some v
    → slot_vm k slots [] next ≡ some (next + position_of k slots)
unfolding has_key
slot_vm-some k slots next v e = elim (Bool-cases (has_key k slots)) [
  | inl t ↦ rw t refl
  | inr f ↦ let bad : none ≡ some v = rw f at e in cc
]

pub allocate_new_vms-lookup :
    (k : ℕ) (slots : List (ℕ × DesiredSlot)) (allocated : List (ℕ × ℕ)) (s : Session)
    {a : List (ℕ × ℕ)} {t : Session}
    → allocate_new_vms slots allocated s ≡ ended (success a) t
    → lookup k a ≡ slot_vm k slots allocated s.seen.next_vm_id
unfolding allocate_new_vms
allocate_new_vms-lookup k [] allocated s {a = a} e =
    let same : allocated ≡ a = cc in
    ap (lookup k) (sym same) ∙ sym (slot_vm-nil k allocated s.seen.next_vm_id)
allocate_new_vms-lookup k ((slot_id, slot) ∷ slots) allocated s e =
    let (id, u, e', r) =
      bind-success (query (λ now db. (db.next_vm_id, with_new_vm slot now db)) s) _ e in
    let q = query-Queried (λ now db. (db.next_vm_id, with_new_vm slot now db)) s e' in
    let ih = allocate_new_vms-lookup k slots (emplace slot_id id allocated) u r in
    let next : u.seen.next_vm_id ≡ suc s.seen.next_vm_id = ap (λ db. db.next_vm_id) q.view in
    ih
    ∙ ap (λ i. slot_vm k slots (emplace slot_id i allocated) u.seen.next_vm_id) (sym q.answer)
    ∙ ap (slot_vm k slots (emplace slot_id s.seen.next_vm_id allocated)) next
    ∙ slot_vm-cons k slot_id slot slots allocated s.seen.next_vm_id

schedule_found :
    (rows : List (ℕ × ℕ)) (job : JobRow) (found : Option ℕ)
    → lookup job.id rows ≡ found
    → schedule_job rows job
      ≡ (elim found [ none ↦ job | some id ↦ record job { status = scheduled; vm_id = some id } ])
unfolding schedule_job
schedule_found rows job found e = rw (e, schedule_job) refl

-- Each job is scheduled on the VM that it is assigned to.
pub schedule_job-placed :
    (desired_slots : List (ℕ × DesiredSlot)) (slots : List (ℕ × ℕ))
    (assignments : List (ℕ × VmInfo)) (rows : List (ℕ × ℕ)) (next : ℕ)
    → targets slots assignments ≡ some rows
    → ((k : ℕ) → lookup k slots ≡ slot_vm k desired_slots [] next)
    → (job : JobRow)
    → schedule_job rows job ≡ placed next desired_slots (lookup job.id assignments) job
schedule_job-placed desired_slots slots assignments rows next e new job =
    by_assignment (lookup job.id assignments) refl
  where
    by_assignment :
        (vm : Option VmInfo)
        → lookup job.id assignments ≡ vm
        → schedule_job rows job ≡ placed next desired_slots vm job
    by_assignment none at =
        schedule_found rows job none
          (targets-lookup slots assignments rows job.id e ∙ ap (resolved slots) at)
    by_assignment (some (existing id)) at =
        schedule_found rows job (some id)
          (targets-lookup slots assignments rows job.id e ∙ ap (resolved slots) at)
    by_assignment (some (desired k)) at =
        let (v, t) = targets-there slots assignments rows job.id (desired k) e at in
        schedule_found rows job (some (next + position_of k desired_slots)) (
          targets-lookup slots assignments rows job.id e
          ∙ ap (resolved slots) at
          ∙ new k
          ∙ slot_vm-some k desired_slots next v (sym (new k) ∙ t))
