-- ===== src/Scheduler/SlotSelector/Correct.antt =====
-- What `VmSlotSelector::select` promises.
use vm_scheduler.Prelude.{
  All-zip, ℕ, ◌+◌, ◌-◌, ◌≤◌, ◌≡◌, refl, sym, ap, ◌∙◌, Bool, true, false, Option, some, List, [],
  ◌∷◌, arith, All, All-mono, All-get_elem?, sum_of, elem, ◌==◌, if◌then◌else◌, length, get_elem?,
  map, inl, inr, Option-cases,
}
use vm_scheduler.Common.Slot.{SlotCapacity, IsInt, fits}
use vm_scheduler.Std.Map.{lookup, has_key, lookup-has_key}
use vm_scheduler.Std.Ordered.{sort, sum_of-sort, All-sort}
use vm_scheduler.Std.Outcome.{returns, Returns, Returns-eq}
use vm_scheduler.State.Job.{QueuedJobInfo}
use vm_scheduler.State.Plan.{DesiredSlot, VmInfo, desired, existing}
use vm_scheduler.Scheduler.OrderedJobs.{larger_job}
use vm_scheduler.Scheduler.SlotSelector.{Entry, Slots, place_all, no_slots, publish, select}
use vm_scheduler.Scheduler.SlotSelector.Distinct.{
  jobs_with, jobs_with-elem, required_in, required_in-All,
}
use vm_scheduler.Scheduler.SlotSelector.Capacity.{Balanced-Kept, place_all-Balanced}
use vm_scheduler.Scheduler.SlotSelector.Steps.{Good}
use vm_scheduler.Scheduler.SlotSelector.Jobs.{
  owner, owns, held, lookup-publish, publish-slots, owner-Owned, owner-none, owner-some,
  owner-numbered, share_of, share_of-entry, All-numbered,
}

abbrev pub goes_to : ℕ → Option VmInfo → Bool
goes_to k (some (desired i)) = i == k
goes_to k _ = false

abbrev pub stays_on : ℕ → Option VmInfo → Bool
stays_on v (some (existing i)) = i == v
stays_on v _ = false

-- What the jobs that a map sends to the new VM `k` require in all.
abbrev pub cpu_on : ℕ → List QueuedJobInfo → List (ℕ × VmInfo) → ℕ
cpu_on k jobs m =
    sum_of (λ job. if goes_to k (lookup job.id m) then job.required_capacity.cpu else 0) jobs

abbrev pub ram_on : ℕ → List QueuedJobInfo → List (ℕ × VmInfo) → ℕ
ram_on k jobs m =
    sum_of (λ job. if goes_to k (lookup job.id m) then job.required_capacity.ram else 0) jobs

-- That the new VM a job is assigned to, if it is, is among the new VMs.
abbrev pub is_listed : List (ℕ × DesiredSlot) → Option VmInfo → Bool
is_listed slots (some (desired i)) = has_key i slots
is_listed slots _ = true

-- Every job has an assignment, to a new VM that is listed, and nothing else has; of each new VM,
-- what is idle and what the jobs assigned to it require make up its total.
pub record IsSelection (jobs : List QueuedJobInfo) (r : List (ℕ × VmInfo) × List (ℕ × DesiredSlot))
    : Type 0 where
  pub all_assigned : (j : ℕ) → has_key j r.0 ≡ elem j (map (λ job. job.id) jobs)
  pub all_new : (v j : ℕ) → stays_on v (lookup j r.0) ≡ false
  pub all_listed : (j : ℕ) → is_listed r.1 (lookup j r.0) ≡ true
  pub cpu_exact : All (λ p. p.1.idle.cpu + cpu_on p.0 jobs r.0 ≡ p.1.total.cpu) r.1
  pub ram_exact : All (λ p. p.1.idle.ram + ram_on p.0 jobs r.0 ≡ p.1.total.ram) r.1

sum_of-All :
    (f g : QueuedJobInfo → ℕ) (jobs : List QueuedJobInfo)
    → All (λ job. f job ≡ g job) jobs
    → sum_of f jobs ≡ sum_of g jobs
sum_of-All f g [] h = refl
sum_of-All f g (job ∷ jobs) h = omega (arith, h.0, sum_of-All f g jobs h.1)

module _ (possible_slots : List SlotCapacity) (ints : All IsInt possible_slots)
    (last : SlotCapacity)
    (is_last : get_elem? possible_slots (length possible_slots - 1) ≡ some last)
    (jobs : List QueuedJobInfo)
    (servable : All (λ job. fits job.required_capacity last ≡ true) jobs)
    (once : (j : ℕ) → jobs_with j jobs ≤ 1) where
  abbrev required_by : ℕ → SlotCapacity
  required_by j = required_in j jobs

  known : All (λ job. required_by job.id ≡ job.required_capacity) jobs
  known = required_in-All jobs once

  module _ (s : Slots)
      (at_s : place_all possible_slots (sort larger_job jobs) no_slots ≡ returns s) where
    good :
        (g : ℕ → ℕ)
        → Good possible_slots
            (Balanced-Kept required_by possible_slots ints g)
            (sum_of (λ job. g job.id) (sort larger_job jobs))
            s
    good g = rw at_s at (
        place_all-Balanced required_by possible_slots ints g last is_last (sort larger_job jobs)
          (All-sort larger_job _ jobs (All-zip _ _ _ (λ job a b. (a, b)) jobs known servable)))

    -- Any measure of ids comes to the same over the entries and over the jobs.
    measured :
        (g : ℕ → ℕ) → sum_of (λ e. sum_of g e.job_ids) s.entries ≡ sum_of (λ job. g job.id) jobs
    measured g = (good g).measured ∙ sum_of-sort larger_job (λ job. g job.id) jobs

    abbrev result : List (ℕ × VmInfo) × List (ℕ × DesiredSlot)
    result = publish 0 s.entries [] []

    held_once : (j : ℕ) → held j s.entries ≤ 1
    held_once j = omega (arith, measured (λ i. if i == j then 1 else 0), once j)

    goes_to-owner : (k j : ℕ) → goes_to k (lookup j result.0) ≡ owns k (owner 0 s.entries j)
    unfolding lookup
    goes_to-owner k j = ground (arith, lookup-publish j 0 s.entries [] [])

    result-all_assigned : (j : ℕ) → has_key j result.0 ≡ elem j (map (λ job. job.id) jobs)
    unfolding lookup
    result-all_assigned j = ground (
      arith,
      lookup-has_key j result.0,
      lookup-publish j 0 s.entries [] [],
      jobs_with-elem j jobs,
      measured (λ i. if i == j then 1 else 0),
      owner-none 0 s.entries j,
      owner-some 0 s.entries j,
    )

    -- A requirement that goes by the ids, summed over the jobs of one new VM.
    load_on :
        (k : ℕ) (g : ℕ → ℕ) (f : QueuedJobInfo → ℕ)
        → All (λ job. g job.id ≡ f job) jobs
        → sum_of (λ job. if goes_to k (lookup job.id result.0) then f job else 0) jobs
          ≡ sum_of (λ e. sum_of (share_of (owner 0 s.entries) g k) e.job_ids) s.entries
    load_on k g f same =
        sum_of-All _ (λ job. share_of (owner 0 s.entries) g k job.id) jobs
          (All-mono _ _ (λ job e. ground (arith, goes_to-owner k job.id)) jobs same)
        ∙ sym (measured (share_of (owner 0 s.entries) g k))

    exact :
        (g : ℕ → ℕ) (f : QueuedJobInfo → ℕ) (idle total : DesiredSlot → ℕ)
        → All (λ job. g job.id ≡ f job) jobs
        → ((i : ℕ) (e : Entry)
            → get_elem? s.entries i ≡ some e
            → idle e.slot + sum_of g e.job_ids ≡ total e.slot)
        → All
            (λ p.
              idle p.1
                + sum_of (λ job. if goes_to p.0 (lookup job.id result.0) then f job else 0) jobs
              ≡ total p.1)
            result.1
    exact g f idle total same balanced = rw (publish-slots 0 s.entries [] [] tt) (
        All-numbered _ 0 s.entries λ i e at_i. omega (
          arith,
          load_on (0 + i) g f same,
          share_of-entry (owner 0 s.entries) g 0 i s.entries e (owner-Owned 0 s.entries held_once)
              at_i,
          balanced i e at_i,
        ))

    result-all_new : (v j : ℕ) → stays_on v (lookup j result.0) ≡ false
    unfolding lookup
    result-all_new v j = ground (arith, lookup-publish j 0 s.entries [] [])

    result-all_listed : (j : ℕ) → is_listed result.1 (lookup j result.0) ≡ true
    unfolding lookup
    result-all_listed j =
        rw (lookup-publish j 0 s.entries [] [], publish-slots 0 s.entries [] [] tt)
          (elim (Option-cases (owner 0 s.entries j)) [
            | inl n ↦ rw n refl
            | inr (k, o) ↦ rw o (owner-numbered 0 s.entries j k o)
          ])

    result-IsSelection : IsSelection jobs result
    result-IsSelection = record {
      all_assigned = result-all_assigned;
      all_new = result-all_new;
      all_listed = result-all_listed;
      cpu_exact =
          exact (λ j. (required_by j).cpu) (λ job. job.required_capacity.cpu) (λ d. d.idle.cpu)
            (λ d. d.total.cpu) (All-mono _ _ (λ job h. ap (λ c. c.cpu) h) jobs known)
            (λ i e at_i. (All-get_elem? _ s.entries i e (good (λ _. 0)).each at_i).cpu);
      ram_exact =
          exact (λ j. (required_by j).ram) (λ job. job.required_capacity.ram) (λ d. d.idle.ram)
            (λ d. d.total.ram) (All-mono _ _ (λ job h. ap (λ c. c.ram) h) jobs known)
            (λ i e at_i. (All-get_elem? _ s.entries i e (good (λ _. 0)).each at_i).ram);
    }

  -- The selection of new VMs returns, whatever merges it makes on the way. If the possible slots
  -- hold amounts of an `int`, the jobs have distinct ids and each would fit the last possible slot,
  -- then exactly the given jobs are assigned, each to one of the new VMs, and of every new VM the idle capacity and the
  -- requirements of the jobs assigned to it make up the total, in cores and in memory: none is
  -- given more than it has, and no capacity is lost.
  pub select-IsSelection : Returns (IsSelection jobs) (select possible_slots jobs)
  unfolding select
  select-IsSelection =
      let (s, at_s, _) = Returns-eq _ (place_all possible_slots (sort larger_job jobs) no_slots) (
        place_all-Balanced required_by possible_slots ints (λ _. 0) last is_last
          (sort larger_job jobs)
          (All-sort larger_job _ jobs (All-zip _ _ _ (λ job a b. (a, b)) jobs known servable))) in
      rw at_s (result-IsSelection s at_s)
