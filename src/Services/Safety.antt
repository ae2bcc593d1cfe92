-- ===== src/Services/Safety.antt =====
-- What the services keep, whatever the cloud and the database answer.
use vm_scheduler.Prelude.{ℕ, ◌≡◌, true, Option, none, some, List, [], ◌∷◌, ◌++◌, get_elem?}
use vm_scheduler.Common.Result.{Result, success, failure}
use vm_scheduler.State.Vm.{AllocatedVmInfo, AllocationPendingVmInfo, TerminationPendingVmInfo}
use vm_scheduler.Storage.Rows.{JobRow, Db, select_where}
use vm_scheduler.Storage.Transaction.{Session, Run, ended, crashed, Txn, bind, open_transaction}
use vm_scheduler.Storage.Transaction.Safety.{Safe, Safe-bind, Safe-caught, open-Safe, exec-Safe}
use vm_scheduler.Storage.Vms.{
  get_vms_to_allocate, save_vm_allocation_result, get_vms_to_terminate, save_vm_termination_result,
}
use vm_scheduler.Storage.Agents.{get_allocated_vms, is_active, cloud_infos, read_infos}
use vm_scheduler.Storage.Jobs.{is_final}
use vm_scheduler.Storage.Operation.{Operation, forget, perform}
use vm_scheduler.Storage.Operation.Safety.{Kept}
use vm_scheduler.Storage.Operation.Perform.{perform-Safe}
use vm_scheduler.Storage.Operation.Finished.{stays}
use vm_scheduler.Services.Allocator.{
  CloudClient, AllocatorConfig, logged, logged_run, or_return, after_allocation, allocate_each,
  after_termination, terminate_each, roll_back, allocate, return_them, terminate,
  terminate_untracked_vms, untracked_or_none,
}
use vm_scheduler.Services.FailureDetector.{
  FailureDetectorConfig, handle_stale_allocating_vms, handle_inactive_agents,
  handle_vms_without_agents, monitor,
}

-- It holds of the stored tables however the service ends.
abbrev pub StoresAfter {ℓ} : {A : Type ℓ} → (Db → Type 0) → Run A → Type 0
StoresAfter Holds (ended r t) = Holds t.stored
StoresAfter Holds crashed = Unit

module _ (Holds : Db → Type 0) where
  StoresAfter-bind {ℓ κ} :
      {A : Type ℓ} {B : Type κ} (m : Run A) (f : A → Txn B)
      → StoresAfter Holds m
      → ((a : A) (t : Session) → Holds t.stored → StoresAfter Holds (f a t))
      → StoresAfter Holds (bind m f)
  StoresAfter-bind (ended (success a) t) f h k = k a t h
  StoresAfter-bind (ended (failure e) t) f h k = h
  StoresAfter-bind crashed f h k = tt

  StoresAfter-logged_run :
      (run : Run (Unit {0})) → StoresAfter Holds run → StoresAfter Holds (logged_run run)
  StoresAfter-logged_run (ended (success a) s) h = h
  StoresAfter-logged_run (ended (failure e) s) h = h
  StoresAfter-logged_run crashed h = tt

  StoresAfter-or_return :
      {A : Type 0} (run : Run A) (f : A → Txn (Unit {0}))
      → StoresAfter Holds run
      → ((a : A) (t : Session) → Holds t.stored → StoresAfter Holds (f a t))
      → StoresAfter Holds (or_return run f)
  StoresAfter-or_return (ended (success a) s) f h k = k a s h
  StoresAfter-or_return (ended (failure e) s) f h k = h
  StoresAfter-or_return crashed f h k = tt

  Safe-StoresAfter {ℓ} : {A : Type ℓ} → (run : Run A) → Safe Holds run → StoresAfter Holds run
  Safe-StoresAfter (ended (success a) t) h = h.0
  Safe-StoresAfter (ended (failure e) t) h = h
  Safe-StoresAfter crashed h = tt

  forget-StoresAfter {ℓ} :
      {A : Type ℓ} → (run : Run A) → StoresAfter Holds (forget run) → StoresAfter Holds run
  forget-StoresAfter (ended (success a) t) h = h
  forget-StoresAfter (ended (failure e) t) h = h
  forget-StoresAfter crashed h = tt

  module _ (k : Kept Holds) where
    performed : (op : Operation) (s : Session) → Holds s.stored → StoresAfter Holds (perform op s)
    performed op s h = Safe-StoresAfter (perform op s) (perform-Safe Holds k op s h)

    logged-StoresAfter :
        (op : Operation) (s : Session) → Holds s.stored → StoresAfter Holds (logged (perform op) s)
    logged-StoresAfter op s h = StoresAfter-logged_run (perform op s) (performed op s h)

    module _ (cloud : CloudClient) where
      after_allocation-StoresAfter :
          (rest : List ℕ → Txn (List ℕ)) (ids : List ℕ) (id : ℕ) (r : Result AllocatedVmInfo)
          (s : Session)
          → ((ids : List ℕ) (t : Session) → Holds t.stored → StoresAfter Holds (rest ids t))
          → Holds s.stored
          → StoresAfter Holds (after_allocation rest ids id r s)
      unfolding perform
      after_allocation-StoresAfter rest ids id (success info) s f h =
          StoresAfter-bind (logged (save_vm_allocation_result id info) s) _
            (logged-StoresAfter (Operation.save_vm_allocation_result id info) s h)
            λ _ t g. f ids t g
      after_allocation-StoresAfter rest ids id (failure e) s f h = f (ids ++ id ∷ []) s h

      allocate_each-StoresAfter :
          (vms : List AllocationPendingVmInfo) (ids : List ℕ) (s : Session)
          → Holds s.stored
          → StoresAfter Holds (allocate_each cloud vms ids s)
      unfolding allocate_each
      allocate_each-StoresAfter [] ids s h = h
      allocate_each-StoresAfter (vm ∷ vms) ids s h =
          after_allocation-StoresAfter (allocate_each cloud vms) ids vm.id
            (cloud.allocate vm.id vm.capacity) s (allocate_each-StoresAfter vms) h

      after_termination-StoresAfter :
          (rest : List ℕ → Txn (List ℕ)) (ids : List ℕ) (id : ℕ) (r : Result (Unit {0}))
          (s : Session)
          → ((ids : List ℕ) (t : Session) → Holds t.stored → StoresAfter Holds (rest ids t))
          → Holds s.stored
          → StoresAfter Holds (after_termination rest ids id r s)
      unfolding perform
      after_termination-StoresAfter rest ids id (success _) s f h =
          StoresAfter-bind (logged (save_vm_termination_result id) s) _
            (logged-StoresAfter (Operation.save_vm_termination_result id) s h) λ _ t g. f ids t g
      after_termination-StoresAfter rest ids id (failure e) s f h = f (ids ++ id ∷ []) s h

      terminate_each-StoresAfter :
          (vms : List TerminationPendingVmInfo) (ids : List ℕ) (s : Session)
          → Holds s.stored
          → StoresAfter Holds (terminate_each cloud vms ids s)
      unfolding terminate_each
      terminate_each-StoresAfter [] ids s h = h
      terminate_each-StoresAfter (vm ∷ vms) ids s h =
          after_termination-StoresAfter (terminate_each cloud vms) ids vm.id
            (cloud.terminate vm.cloud_vm_id) s (terminate_each-StoresAfter vms) h

      module _ (config : AllocatorConfig) where
        roll_back-StoresAfter :
            (ids : List ℕ) (s : Session)
            → Holds s.stored
            → StoresAfter Holds (roll_back config ids s)
        unfolding perform
        roll_back-StoresAfter [] s h = h
        roll_back-StoresAfter (id ∷ ids) s h =
            logged-StoresAfter
              (Operation.rollback_unallocated_vms_state (id ∷ ids) config.vm_restart_attempt_count
                config.job_restart_attempt_count)
              s h

        return_them-StoresAfter :
            (ids : List ℕ) (s : Session) → Holds s.stored → StoresAfter Holds (return_them ids s)
        unfolding perform
        return_them-StoresAfter [] s h = h
        return_them-StoresAfter (id ∷ ids) s h =
            logged-StoresAfter (Operation.return_unterminated_vms (id ∷ ids)) s h

        -- Every property of the tables that the changes of the storage keep is kept by the
        -- allocator's two passes, whatever the cloud answers and whichever database calls throw.
        pub allocate-terminate-StoresAfter :
            (s : Session)
            → Holds s.stored
            → StoresAfter Holds (allocate cloud config s)
              × StoresAfter Holds (terminate cloud config s)
        unfolding allocate terminate perform
        allocate-terminate-StoresAfter s h = (
          StoresAfter-or_return (get_vms_to_allocate config.max_vm_allocation_count s) _
              (forget-StoresAfter _
                (performed (Operation.get_vms_to_allocate config.max_vm_allocation_count) s h))
              λ vms t g.
                StoresAfter-bind (allocate_each cloud vms [] t) (roll_back config)
                  (allocate_each-StoresAfter vms [] t g) roll_back-StoresAfter,
          StoresAfter-or_return (get_vms_to_terminate config.max_vm_termination_count s) _
              (forget-StoresAfter _
                (performed (Operation.get_vms_to_terminate config.max_vm_termination_count) s h))
              λ vms t g.
                StoresAfter-bind (terminate_each cloud vms [] t) (return_them)
                  (terminate_each-StoresAfter vms [] t g) return_them-StoresAfter,
        )

    read_infos-StoresAfter :
        (found : Option (List AllocatedVmInfo)) (s : Session)
        → Holds s.stored
        → StoresAfter Holds (read_infos found s)
    read_infos-StoresAfter none s h = h
    read_infos-StoresAfter (some infos) s h = h

    get_allocated_vms-StoresAfter :
        (s : Session) → Holds s.stored → StoresAfter Holds (get_allocated_vms s)
    unfolding get_allocated_vms
    get_allocated_vms-StoresAfter s h =
        StoresAfter-bind _ (λ rows. read_infos (cloud_infos rows))
          (Safe-StoresAfter _ (
            Safe-caught Holds _ (
              Safe-bind Holds (open_transaction s) _ (open-Safe Holds s h) λ _ s h h'.
                exec-Safe Holds (λ now db. (select_where is_active db.vms, db)) s (λ now db g. g) h
                  h')))
          λ rows t g. read_infos-StoresAfter (cloud_infos rows) t g

    untracked-StoresAfter :
        (cloud : CloudClient) (run : Run (List AllocatedVmInfo))
        → StoresAfter Holds run
        → StoresAfter Holds (untracked_or_none cloud run)
    untracked-StoresAfter cloud (ended (success tracked) s) h = h
    untracked-StoresAfter cloud (ended (failure e) s) h = h
    untracked-StoresAfter cloud crashed h = tt

    -- So does an iteration of the failure detector: every property of the tables that the changes
    -- of the storage keep is kept, whatever the cloud answers and whichever database calls throw.
    pub monitor-StoresAfter :
        (config : FailureDetectorConfig) (cloud : CloudClient) (s : Session)
        → Holds s.stored
        → StoresAfter Holds (monitor config cloud s)
    unfolding monitor handle_stale_allocating_vms perform terminate_untracked_vms
    monitor-StoresAfter config cloud s h =
        StoresAfter-bind (handle_stale_allocating_vms config s) _
          (StoresAfter-bind (logged (perform (Operation.restart_stale_allocating_vms _ _)) s) _
            (logged-StoresAfter (Operation.restart_stale_allocating_vms _ _) s h)
            λ _ t g. logged-StoresAfter (Operation.terminate_stale_allocating_vms _ _ _) t g)
          λ _ s h.
            StoresAfter-bind (handle_inactive_agents config s) _
              (logged-StoresAfter (Operation.terminate_vms_with_inactive_agents _ _) s h)
              λ _ s h.
                StoresAfter-bind (handle_vms_without_agents config s) _
                  (logged-StoresAfter (Operation.terminate_vms_without_agents _ _) s h)
                  λ _ s h.
                    StoresAfter-bind (terminate_untracked_vms cloud s) _
                      (untracked-StoresAfter cloud (get_allocated_vms s)
                        (get_allocated_vms-StoresAfter s h))
                      λ ids s h.
                        StoresAfter-bind (logged (perform Operation.cancel_timed_out_jobs) s) _
                          (logged-StoresAfter Operation.cancel_timed_out_jobs s h) λ _ s h. h

-- Neither pass of the allocator nor an iteration of the failure detector changes the row of a job
-- with a status that the source calls final, whatever the cloud answers and whichever calls of
-- the database throw.
pub services-final :
    (i : ℕ) (job : JobRow) (cloud : CloudClient) (allocator : AllocatorConfig)
    (detector : FailureDetectorConfig) (s : Session)
    → is_final job.status ≡ true
    → get_elem? s.stored.jobs i ≡ some job
    → StoresAfter (λ db. get_elem? db.jobs i ≡ some job) (allocate cloud allocator s)
      × StoresAfter (λ db. get_elem? db.jobs i ≡ some job) (terminate cloud allocator s)
      × StoresAfter (λ db. get_elem? db.jobs i ≡ some job) (monitor detector cloud s)
services-final i job cloud allocator detector s final h =
    let (a, t) = allocate-terminate-StoresAfter _ (stays i job final) cloud allocator s h in
    (a, t, monitor-StoresAfter _ (stays i job final) detector cloud s h)
