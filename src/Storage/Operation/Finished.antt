-- ===== src/Storage/Operation/Finished.antt =====
-- What no operation of the type `Operation` changes: a job that has ended; and what each keeps:
-- that a VM has no more idle than it has.
use vm_scheduler.Prelude.{
  ℕ, zero, suc, ◌≤◌, ◌≡◌, refl, ap, ◌∙◌, Bool, true, false, some, List, [], ◌∷◌, ◌++◌, arith,
  get_elem?, All, Bool-cases, inl, inr, ◌⊎◌,
}
use mathlib.Core.Option.{some-injective}
use vm_scheduler.Common.Result.{Result}
use vm_scheduler.State.Job
use vm_scheduler.State.Job.{JobStatus, scheduled, running, final_job_statuses}
use vm_scheduler.Storage.Rows.{VmRow, JobRow, Db, update_where, set_vm_status}
use vm_scheduler.Storage.Transaction.{Session, Run, ended, crashed}
use vm_scheduler.Storage.Transaction.Safety.{Safe}
use vm_scheduler.Storage.Jobs.{is_final, release}
use vm_scheduler.Storage.Operation.{Operation, perform}
use vm_scheduler.Storage.Operation.Safety.{Kept}
use vm_scheduler.Storage.Operation.Perform.{perform-Safe}

-- What holds of the tables that are stored when an operation has ended, with success or not.
abbrev pub Stores : (Db → Type 0) → Run (Unit {0}) → Type 0
Stores Holds (ended r t) = Holds t.stored
Stores Holds crashed = Unit

Safe-Stores : (Holds : Db → Type 0) (run : Run (Unit {0})) → Safe Holds run → Stores Holds run
Safe-Stores Holds (ended (Result.success a) t) h = h.0
Safe-Stores Holds (ended (Result.failure e) t) h = h
Safe-Stores Holds crashed h = tt

module _ {ℓ} {A : Type ℓ} where
  get_elem?-update_where :
      (p : A → Bool) (f : A → A) (xs : List A) (i : ℕ) (x : A)
      → p x ≡ false
      → get_elem? xs i ≡ some x
      → get_elem? (update_where p f xs) i ≡ some x
  unfolding update_where
  get_elem?-update_where p f [] i x h e = cc
  get_elem?-update_where p f (y ∷ ys) zero x h e =
      let same : y ≡ x = some-injective y x e in let out : p y ≡ false = ap p same ∙ h in rw out e
  get_elem?-update_where p f (y ∷ ys) (suc i) x h e = get_elem?-update_where p f ys i x h e

  get_elem?-append :
      (xs ys : List A) (i : ℕ) (x : A) → get_elem? xs i ≡ some x → get_elem? (xs ++ ys) i ≡ some x
  get_elem?-append [] ys i x e = cc
  get_elem?-append (y ∷ xs) ys zero x e = e
  get_elem?-append (y ∷ xs) ys (suc i) x e = get_elem?-append xs ys i x e

  All-update_where :
      (P : A → Type 0) (p : A → Bool) (f : A → A)
      → ((a : A) → P a → P (f a))
      → (xs : List A) → All P xs
      → All P (update_where p f xs)
  unfolding update_where
  All-update_where P p f k [] h = tt
  All-update_where P p f k (x ∷ xs) h = elim (Bool-cases (p x)) [
    | inl t ↦ rw t (k x h.0, All-update_where P p f k xs h.1)
    | inr n ↦ rw n (h.0, All-update_where P p f k xs h.1)
  ]

final-assigned :
    (status : JobStatus)
    → is_final status ≡ true
    → (Job.same_status status scheduled ≡ false) × (Job.same_status status running ≡ false)
final-assigned Job.scheduled h = cc
final-assigned Job.running h = cc
final-assigned _ h = (refl, refl)

module _ (i : ℕ) (job : JobRow) (final : is_final job.status ≡ true) where
  abbrev Stays : Db → Type 0
  Stays db = get_elem? db.jobs i ≡ some job

  not_restarted :
      (initial : JobStatus)
      → (initial ≡ scheduled) ⊎ (initial ≡ running)
      → Job.same_status job.status initial ≡ false
  not_restarted initial (inl e) = rw e (final-assigned job.status final).0
  not_restarted initial (inr e) = rw e (final-assigned job.status final).1

  pub stays : Kept Stays
  stays = record {
    statuses = λ p now status db h. h;
    allocations = λ p now info db h. h;
    retries = λ p now db h. h;
    activities = λ p now db h. h;
    requeues = λ vm_ids initial limit db which h. (
      get_elem?-update_where _ _ db.jobs i job (ground (arith, not_restarted initial which)) h,
      get_elem?-update_where _ _ db.jobs i job (ground (arith, not_restarted initial which)) h,
    );
    cancels = λ p db only h. get_elem?-update_where p _ db.jobs i job (ground (arith, only job)) h;
    releases = λ ids db h. h;
    reports =
        λ vm_id job_id state now db h. get_elem?-update_where _ _ db.jobs i job (ground arith) h;
    tasks = λ p db h. h;
    inserts = λ p task_id now db h. get_elem?-append db.jobs _ i job h;
  }

  -- Once a job has one of the statuses that the source calls final, no writing operation of the
  -- storage but `startScheduling` and `commitPlanChange`, which are not in the type, changes its
  -- row, whichever calls of the database throw.
  pub perform-final :
      (op : Operation) (s : Session)
      → get_elem? s.stored.jobs i ≡ some job
      → Stores (λ db. get_elem? db.jobs i ≡ some job) (perform op s)
  perform-final op s h = Safe-Stores Stays (perform op s) (perform-Safe Stays stays op s h)

abbrev pub IsBounded : VmRow → Type 0
IsBounded vm = (vm.cpu_idle ≤ vm.cpu) × (vm.ram_idle ≤ vm.ram)

abbrev pub AllBounded : Db → Type 0
AllBounded db = All IsBounded db.vms

pub bounded : Kept AllBounded
unfolding set_vm_status
bounded = record {
  statuses = λ p now status db h. All-update_where IsBounded p _ (λ vm b. b) db.vms h;
  allocations = λ p now info db h. All-update_where IsBounded p _ (λ vm b. b) db.vms h;
  activities = λ p now db h. All-update_where IsBounded p _ (λ vm b. b) db.vms h;
  retries = λ p now db h. All-update_where IsBounded p _ (λ vm b. b) db.vms h;
  requeues = λ vm_ids initial limit db which h. (h, h);
  cancels = λ p db only h. h;
  releases = λ ids db h.
      All-update_where IsBounded _ (release ids db.jobs) (λ vm b. (ground arith, ground arith))
        db.vms h;
  reports = λ vm_id job_id state now db h. h;
  tasks = λ p db h. h;
  inserts = λ p task_id now db h. h;
}

-- If no VM has more idle than it has, that is so after every writing operation of the storage but
-- `startScheduling` and `commitPlanChange`, whichever calls of the database throw: also where the
-- resources of a job are released twice.
pub perform-AllBounded :
    (op : Operation) (s : Session) → AllBounded s.stored → Stores AllBounded (perform op s)
perform-AllBounded op s h =
    Safe-Stores AllBounded (perform op s) (perform-Safe AllBounded bounded op s h)
