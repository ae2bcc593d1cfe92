-- ===== src/Scheduler/Strategies/Placement.antt =====
-- What a successful allocation does to the VMs, whichever strategy chose.
use mathlib.Core.List.Perm
use vm_scheduler.Prelude.{
  ℕ, ◌≡◌, refl, inl, inr, true, Option, none, some, List, [], ◌∷◌, Perm, get_elem?, erase_idx,
  erase_idx-Perm, Bool-cases,
}
use vm_scheduler.Common.Slot.{SlotCapacity, fits}
use vm_scheduler.Std.Ordered.{insert_ordered-perm}
use vm_scheduler.State.Vm.{ActiveVm}
use vm_scheduler.Scheduler.Strategies.{
  VmPool, occupy, less_idle, first_fit_from, first_fit_allocate, allocate_here, allocate_at,
  worst_fit_allocate, best_fit_allocate,
}

-- One VM with enough to give has the requirement taken off; all others are as they were.
pub record Placement (required : SlotCapacity) (before : VmPool) (id : ℕ) (after : VmPool)
    : Type 0 where
  pub vm : ActiveVm
  pub others : List ActiveVm
  pub named : vm.id ≡ id
  pub enough : fits required vm.idle_capacity ≡ true
  pub found : Perm before.vms (vm ∷ others)
  pub left : Perm after.vms (occupy required vm ∷ others)
  pub noted : after.updated_vm_ids ≡ id ∷ before.updated_vm_ids

-- Nothing happens to the VMs, or one of them has the job placed on it.
abbrev pub Allocates : SlotCapacity → VmPool → Option ℕ → VmPool → Type 0
Allocates required before none after = after ≡ before
Allocates required before (some id) after = Placement required before id after

module _ (required : SlotCapacity) where
  -- The VM that the loop of `FirstFit` stops at.
  record Found (vms : List ActiveVm) (id : ℕ) (after : List ActiveVm) : Type 0 where
    vm : ActiveVm
    others : List ActiveVm
    named : vm.id ≡ id
    enough : fits required vm.idle_capacity ≡ true
    found : Perm vms (vm ∷ others)
    left : Perm after (occupy required vm ∷ others)

  abbrev Stops : List ActiveVm → Option (ℕ × List ActiveVm) → Type 0
  Stops vms none = Unit
  Stops vms (some (id, after)) = Found vms id after

  abbrev keep : ActiveVm → Option (ℕ × List ActiveVm) → Option (ℕ × List ActiveVm)
  keep x r = elim r [ none ↦ none | some (id, after) ↦ some (id, x ∷ after) ]

  Stops-keep :
      (x : ActiveVm) (vms : List ActiveVm) (r : Option (ℕ × List ActiveVm))
      → Stops vms r
      → Stops (x ∷ vms) (keep x r)
  Stops-keep x vms none h = tt
  Stops-keep x vms (some (id, after)) h = record {
    vm = h.vm;
    others = x ∷ h.others;
    named = h.named;
    enough = h.enough;
    found = Perm.trans (Perm.cons x h.found) (Perm.swap h.vm x h.others);
    left = Perm.trans (Perm.cons x h.left) (Perm.swap (occupy required h.vm) x h.others);
  }

  first_fit_from-Stops : (vms : List ActiveVm) → Stops vms (first_fit_from required vms)
  unfolding first_fit_from
  first_fit_from-Stops [] = tt
  first_fit_from-Stops (vm ∷ vms) = elim (Bool-cases (fits required vm.idle_capacity)) [
    | inl enough ↦ rw enough (record {
      vm = vm;
      others = vms;
      named = refl;
      enough = enough;
      found = Perm.rfl;
      left = Perm.rfl;
    })
    | inr short ↦ rw short (Stops-keep vm vms _ (first_fit_from-Stops vms))
  ]

  -- `FirstFit` places a job as one would wish, or leaves everything alone.
  pub first_fit_allocate-Allocates :
      (pool : VmPool)
      → Allocates required pool
          (first_fit_allocate required pool).0
          (first_fit_allocate required pool).1
  unfolding first_fit_allocate
  first_fit_allocate-Allocates pool =
      go (first_fit_from required pool.vms) (first_fit_from-Stops pool.vms)
    where
      go :
          (r : Option (ℕ × List ActiveVm))
          → Stops pool.vms r
          → let out : Option ℕ × VmPool = elim r [
            | none ↦ (none, pool)
            | some (id, after) ↦
                (some id, record { vms = after; updated_vm_ids = id ∷ pool.updated_vm_ids })
          ] in
            Allocates required pool out.0 out.1
      go none h = refl
      go (some (id, after)) h = record {
        vm = h.vm;
        others = h.others;
        named = h.named;
        enough = h.enough;
        found = h.found;
        left = h.left;
        noted = refl;
      }

  allocate_here-Allocates :
      (i : ℕ) (pool : VmPool) (here : Option ActiveVm)
      → get_elem? pool.vms i ≡ here
      → Allocates required pool
          (allocate_here required i pool here).0
          (allocate_here required i pool here).1
  unfolding allocate_here
  allocate_here-Allocates i pool none e = refl
  allocate_here-Allocates i pool (some vm) e = elim (Bool-cases (fits required vm.idle_capacity)) [
    | inr short ↦ rw short refl
    | inl enough ↦ rw enough (record {
      vm = vm;
      others = erase_idx pool.vms i;
      named = refl;
      enough = enough;
      found = erase_idx-Perm pool.vms i vm e;
      left = insert_ordered-perm less_idle (occupy required vm) (erase_idx pool.vms i);
      noted = refl;
    })
  ]

  pub allocate_at-Allocates :
      (i : ℕ) (pool : VmPool)
      → Allocates required pool (allocate_at required i pool).0 (allocate_at required i pool).1
  unfolding allocate_at
  allocate_at-Allocates i pool = allocate_here-Allocates i pool (get_elem? pool.vms i) refl

  pub worst_fit_allocate-Allocates :
      (pool : VmPool)
      → Allocates required pool
          (worst_fit_allocate required pool).0
          (worst_fit_allocate required pool).1
  unfolding worst_fit_allocate
  worst_fit_allocate-Allocates pool = allocate_at-Allocates _ pool

  pub best_fit_allocate-Allocates :
      (pool : VmPool)
      → Allocates required pool
          (best_fit_allocate required pool).0
          (best_fit_allocate required pool).1
  unfolding best_fit_allocate
  best_fit_allocate-Allocates pool = allocate_at-Allocates _ pool
