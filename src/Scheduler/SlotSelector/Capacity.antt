-- ===== src/Scheduler/SlotSelector/Capacity.antt =====
-- No new VM is given more than it has: what is idle and what its jobs require make up its total.
use native.Mathlib.Nat.{zero-add}
use vm_scheduler.Prelude.{
  ℕ, ◌+◌, ◌-◌, ◌≡◌, subst, inl, inr, true, Bool-cases, some, List, [], ◌∷◌, arith, All, All-mono,
  length, get_elem?, sum_of, sum_of-append,
}
use vm_scheduler.Common.Slot.{
  SlotCapacity, fits, IsInt, sub_assign_lem, minus, add_assign, mul_assign, times, equal,
}
use vm_scheduler.Std.Outcome.{Returns, Returns-mono}
use vm_scheduler.State.Job.{QueuedJobInfo}
use vm_scheduler.Scheduler.SlotSelector.{
  Entry, take_job, joined, opened, find_slot, min_fit_slot, place_all, no_slots,
}
use vm_scheduler.Scheduler.SlotSelector.Index.{equal→eq}
use vm_scheduler.Scheduler.SlotSelector.MinFit.{min_fit_slot-fits}
use vm_scheduler.Scheduler.SlotSelector.Steps.{Kept, Accepts, Good, place_all-Good, no_slots-Good}

module _ (required_by : ℕ → SlotCapacity) where
  abbrev pub cpu_load : List ℕ → ℕ
  cpu_load ids = sum_of (λ id. (required_by id).cpu) ids

  abbrev pub ram_load : List ℕ → ℕ
  ram_load ids = sum_of (λ id. (required_by id).ram) ids

  pub record Balanced (e : Entry) : Type 0 where
    pub int : IsInt e.slot.total
    pub cpu : e.slot.idle.cpu + cpu_load e.job_ids ≡ e.slot.total.cpu
    pub ram : e.slot.idle.ram + ram_load e.job_ids ≡ e.slot.total.ram

  take_job-Balanced :
      (job : QueuedJobInfo) (e : Entry)
      → required_by job.id ≡ job.required_capacity
      → fits job.required_capacity e.slot.idle ≡ true
      → Balanced e
      → Balanced (take_job job e)
  take_job-Balanced job e same enough b = ground (
    arith,
    sub_assign_lem e.slot.idle job.required_capacity,
    sum_of-append (λ id. (required_by id).cpu) e.job_ids (job.id ∷ []),
    sum_of-append (λ id. (required_by id).ram) e.job_ids (job.id ∷ []),
  )

  opened-Balanced :
      (job : QueuedJobInfo) (slot : SlotCapacity) (key : ℕ)
      → required_by job.id ≡ job.required_capacity
      → fits job.required_capacity slot ≡ true
      → IsInt slot
      → Balanced (opened slot job key)
  unfolding minus
  opened-Balanced job slot key same enough int =
      ground (arith, sub_assign_lem slot job.required_capacity)

  joined-Balanced :
      (start : SlotCapacity) (key : ℕ) (a b : Entry)
      → IsInt (times start 2)
      → a.slot.total ≡ start
      → b.slot.total ≡ start
      → Balanced a
      → Balanced b
      → Balanced (joined key a b)
  unfolding mul_assign add_assign times
  joined-Balanced start key a b int ta tb x y = ground (
    arith,
    sum_of-append (λ id. (required_by id).cpu) a.job_ids b.job_ids,
    sum_of-append (λ id. (required_by id).ram) a.job_ids b.job_ids,
  )

  find_slot-All :
      (Q : SlotCapacity → Type 0) (c d : SlotCapacity) (slots : List SlotCapacity)
      → All Q slots
      → find_slot c slots ≡ some d
      → Q c
  unfolding find_slot
  find_slot-All Q c d [] h f = cc
  find_slot-All Q c d (x ∷ slots) h f = elim (Bool-cases (equal x c)) [
    | inl t ↦ subst Q (equal→eq x c t) h.0
    | inr t ↦ find_slot-All Q c d slots h.1 (rw t at f)
  ]

  module _ (possible_slots : List SlotCapacity) (ints : All IsInt possible_slots) (g : ℕ → ℕ) where
    abbrev pub weight : Entry → ℕ
    weight e = sum_of g e.job_ids

    pub Balanced-Kept : Kept possible_slots Balanced weight
    Balanced-Kept = record {
      joins = λ start twice key a b found ta tb x y. (
        joined-Balanced start key a b (find_slot-All IsInt _ twice possible_slots ints found) ta tb
            x y,
        sum_of-append g a.job_ids b.job_ids,
      );
    }

    module _ (last : SlotCapacity)
        (is_last : get_elem? possible_slots (length possible_slots - 1) ≡ some last) where
      -- The requirement of the job is the one looked up for its id, and the last slot has room.
      abbrev pub IsServable : QueuedJobInfo → Type 0
      IsServable job =
          (required_by job.id ≡ job.required_capacity) × (fits job.required_capacity last ≡ true)

      IsServable-Accepts :
          (job : QueuedJobInfo)
          → IsServable job
          → Accepts possible_slots Balanced-Kept (g job.id) job
      IsServable-Accepts job h = record {
        takes = λ e enough b. take_job-Balanced job e h.0 enough b;
        counts = λ e. omega (arith, sum_of-append g e.job_ids (job.id ∷ []));
        opens =
            Returns-mono _ _
              (λ found k key. (opened-Balanced job found key h.0 k.0 k.1, omega arith))
              (min_fit_slot possible_slots job.required_capacity)
              (min_fit_slot-fits possible_slots job.required_capacity IsInt last is_last h.1 ints);
      }

      pub place_all-Balanced :
          (jobs : List QueuedJobInfo)
          → All IsServable jobs
          → Returns
              (Good possible_slots Balanced-Kept (sum_of (λ job. g job.id) jobs))
              (place_all possible_slots jobs no_slots)
      place_all-Balanced jobs h = rw zero-add at (
          place_all-Good possible_slots Balanced-Kept (λ job. g job.id) 0 jobs no_slots
            (All-mono _ _ IsServable-Accepts jobs h) (no_slots-Good possible_slots Balanced-Kept))
