-- ===== src/Scheduler/Strategies/Fit.antt =====
-- Which jobs each strategy accepts: completeness, and where a strategy refuses what would fit.
use vm_scheduler.Prelude.{
  ℕ, ◌-◌, ◌≡◌, refl, Bool, true, false, not, Option, none, some, List, [], ◌∷◌, arith, length,
  get_elem?, All, All-mono, ◌↔◌,
}
use vm_scheduler.Common.Slot.{SlotCapacity, fits}
use vm_scheduler.Std.LowerBound.{
  lower_bound, IsPartitioned, lower_bound-first_stop, first_stop-none, first_stop-some,
  first_stop-least,
}
use vm_scheduler.Std.Ordered.{IsSorted}
use vm_scheduler.State.Vm.{ActiveVm}
use vm_scheduler.Scheduler.Strategies.{
  VmPool, less_idle, first_fit_from, first_fit_allocate, allocate_here, allocate_at,
  worst_fit_allocate, best_fit_allocate,
}

module _ (required : SlotCapacity) where
  abbrev pub Lacks : ActiveVm → Type 0
  Lacks vm = fits required vm.idle_capacity ≡ false

  first_fit_from-none : (vms : List ActiveVm) → (first_fit_from required vms ≡ none) ↔ All Lacks vms
  unfolding first_fit_from
  first_fit_from-none [] = (λ e. tt, λ h. refl)
  first_fit_from-none (vm ∷ vms) = ground (arith, first_fit_from-none vms)

  -- `FirstFit` refuses a job exactly when no VM has enough for it.
  first_fit_allocate-none :
      (pool : VmPool) → ((first_fit_allocate required pool).0 ≡ none) ↔ All Lacks pool.vms
  unfolding first_fit_allocate
  first_fit_allocate-none pool = ground (arith, first_fit_from-none pool.vms)

  -- The comparison that `BestFit` hands to `std::lower_bound`.
  abbrev pub too_small : ActiveVm → Bool
  too_small vm = not (fits required vm.idle_capacity)

  allocate_here-none :
      (i : ℕ) (pool : VmPool) (here : Option ActiveVm)
      → ((vm : ActiveVm) → here ≡ some vm → too_small vm ≡ false)
      → (allocate_here required i pool here).0 ≡ none
      → here ≡ none
  unfolding allocate_here
  allocate_here-none i pool none stop h = refl
  allocate_here-none i pool (some vm) stop h =
      let large : too_small vm ≡ false = stop vm refl in ground arith

  allocate_here-some :
      (i : ℕ) (pool : VmPool) (here : Option ActiveVm) {id : ℕ}
      → (allocate_here required i pool here).0 ≡ some id
      → (vm : ActiveVm) × (here ≡ some vm) × (vm.id ≡ id) × (fits required vm.idle_capacity ≡ true)
  unfolding allocate_here
  allocate_here-some i pool none h = cc
  allocate_here-some i pool (some vm) h = (vm, refl, ground arith, ground arith)

  -- If no VM that is too small stands behind one that is not, in the order of the multiset, then
  -- `BestFit` refuses a job only when no VM has enough for it.
  best_fit_allocate-none :
      (pool : VmPool)
      → IsPartitioned too_small pool.vms
      → (best_fit_allocate required pool).0 ≡ none
      → All Lacks pool.vms
  unfolding best_fit_allocate allocate_at
  best_fit_allocate-none pool p h =
      All-mono _ _ (λ vm k. ground arith) pool.vms
        (first_stop-none too_small pool.vms (
          allocate_here-none _ pool _ (first_stop-some too_small pool.vms)
            (rw (lower_bound-first_stop too_small pool.vms p) at h)))

  -- The VM chosen is then one of the pool with enough for the job, and the best fit: no VM of the
  -- pool with enough has less to give.
  pub best_fit_allocate-least :
      (pool : VmPool) (id : ℕ)
      → IsPartitioned too_small pool.vms
      → IsSorted less_idle pool.vms
      → (best_fit_allocate required pool).0 ≡ some id
      → (i : ℕ) × (vm : ActiveVm) × (get_elem? pool.vms i ≡ some vm)
        × (vm.id ≡ id)
        × (fits required vm.idle_capacity ≡ true)
        × All (λ w. fits required w.idle_capacity ≡ true → less_idle w vm ≡ false) pool.vms
  unfolding best_fit_allocate allocate_at
  best_fit_allocate-least pool id p s h =
      let (vm, here, named, enough) =
        allocate_here-some _ pool _ (rw (lower_bound-first_stop too_small pool.vms p) at h) in
      (
        _,
        vm,
        here,
        named,
        enough,
        All-mono _ _ (λ w k f. k (ground arith)) pool.vms
            (first_stop-least too_small less_idle pool.vms vm (λ a. ground arith) s here),
      )

  -- `BestFit` searches by halving, and misses a VM that fits when a larger one, in the order of
  -- the multiset, does not: it refuses the job.
  pub best_fit_allocate_misses :
      (v w : ActiveVm) (ids : List ℕ)
      → fits required v.idle_capacity ≡ true
      → Lacks w
      → (best_fit_allocate required (record { vms = v ∷ w ∷ []; updated_vm_ids = ids })).0 ≡ none
  unfolding best_fit_allocate lower_bound allocate_at allocate_here
  best_fit_allocate_misses v w ids enough lacks = ground arith

  -- `WorstFit` asks the last VM of the multiset alone: it refuses whenever that one lacks.
  worst_fit_allocate-none :
      (pool : VmPool) (vm : ActiveVm)
      → get_elem? pool.vms (length pool.vms - 1) ≡ some vm
      → ((worst_fit_allocate required pool).0 ≡ none) ↔ Lacks vm
  unfolding worst_fit_allocate allocate_at allocate_here
  worst_fit_allocate-none pool vm e = ground arith
