-- ===== src/Scheduler/SlotSelector/Steps.antt =====
-- Every step of the selection returns, and keeps what is wanted of the entries: of each, and of
-- the sum of a measure over all.
use mathlib.Core.Option.{some-injective}
use native.Mathlib.Nat.{add-zero, add_assoc}
use vm_scheduler.Prelude.{
  ℕ, zero, suc, ◌+◌, ◌≤◌, ◌<◌, ◌≡◌, refl, sym, ap, ◌∙◌, inl, inr, Option, none, some, List, [], ◌∷◌,
  arith, All, All-mono, All-append, length, length-append, sum_of, sum_of-append, Bool-cases,
  Option-cases, ◌==◌, true,
}
use vm_scheduler.Common.Slot.{SlotCapacity, times, mul_assign-times, fits}
use vm_scheduler.Std.Outcome.{Returns, Returns-bind}
use vm_scheduler.State.Job.{QueuedJobInfo}
use vm_scheduler.Scheduler.SlotSelector.{
  Entry, Slots, find_entry, count_index, find_slot, joined, extract, append_entry, merge_once,
  merge, take_job, give_job, min_fit_slot, opened, go_on, place_on, place, place_all, no_slots,
}
use vm_scheduler.Scheduler.SlotSelector.Links.{
  find_entry-All, All-erase_entry, sum_of-erase_entry, total_at-give_job, All-give_job,
  DistinctKeys-give_job, sum_of-give_job,
}
use vm_scheduler.Scheduler.SlotSelector.Best.{DistinctKeys-Here, best_entry-Found, Found}
use vm_scheduler.Scheduler.SlotSelector.Index.{count_index-append, count_index-erase}
use vm_scheduler.Scheduler.SlotSelector.Good.{
  Linked, Extracted, extract-Extracted, append_entry-Linked,
}

-- A property of the entries, a measure of them, and the capacities that may be chosen.
pub record Kept (possible_slots : List SlotCapacity) (P : Entry → Type 0) (f : Entry → ℕ)
    : Type 0 where
  pub joins :
      (start twice : SlotCapacity) (key : ℕ) (a b : Entry)
      → find_slot (times start 2) possible_slots ≡ some twice
      → a.slot.total ≡ start
      → b.slot.total ≡ start
      → P a
      → P b
      → P (joined key a b) × (f (joined key a b) ≡ f a + f b)

module _ {P : Entry → Type 0} {f : Entry → ℕ} (possible_slots : List SlotCapacity)
    (kept : Kept possible_slots P f) where
  pub record Good (n : ℕ) (s : Slots) : Type 0 where
    pub linked : Linked s
    pub each : All P s.entries
    pub measured : sum_of f s.entries ≡ n

  -- What a level of `merge_` hands to the next one.
  abbrev Merged : ℕ → Slots → Option (SlotCapacity × Slots) → Type 0
  Merged n s none = Unit
  Merged n s (some (twice, s')) =
      Good n s' × (0 < count_index twice s'.index) × (length s'.index + 1 ≡ length s.index)

  find_slot-total :
      (c d : SlotCapacity) (slots : List SlotCapacity) → find_slot c slots ≡ some d → d ≡ c
  unfolding find_slot
  find_slot-total c d [] h = cc
  find_slot-total c d (x ∷ slots) h = ground (arith, find_slot-total c d slots)

  join-Good :
      (n : ℕ) (start twice : SlotCapacity) (s s' s'' : Slots) (a b : Entry)
      → Good n s
      → find_slot (times start 2) possible_slots ≡ some twice
      → Extracted start s (a, s')
      → Extracted start s' (b, s'')
      → Good n (append_entry twice (joined s''.next_key a b) s'')
  join-Good n start twice s s' s'' a b g found x y =
      let twice_is : twice ≡ times start 2 = find_slot-total _ twice possible_slots found in
      let each' : All P s'.entries = rw x.rest (All-erase_entry P a.key s.entries g.each) in
      let each'' : All P s''.entries = rw y.rest (All-erase_entry P b.key s'.entries each') in
      let both =
        kept.joins start twice s''.next_key a b found x.total y.total
          (find_entry-All P a.key s.entries a g.each x.found)
          (find_entry-All P b.key s'.entries b each' y.found) in
      record {
        linked =
            append_entry-Linked twice (joined s''.next_key a b) s'' refl
              (rw (x.total, twice_is) (mul_assign-times start 2)) y.linked;
        each = All-append P s''.entries _ each'' (both.0, tt);
        measured = omega (
          arith,
          sum_of-append f s''.entries (joined s''.next_key a b ∷ []),
          both.1,
          sum_of-erase_entry f a.key s.entries a x.found,
          sum_of-erase_entry f b.key s'.entries b y.found,
          ap (sum_of f) x.rest,
          ap (sum_of f) y.rest,
          g.measured,
        );
      }

  merge_once-Merged :
      (n : ℕ) (start : SlotCapacity) (s : Slots)
      → Good n s
      → 0 < count_index start s.index
      → Returns (Merged n s) (merge_once possible_slots start s)
  unfolding merge_once
  merge_once-Merged n start s g there = elim (Bool-cases (count_index start s.index == 1)) [
    | inl one ↦ rw one tt
    | inr more ↦ elim (Option-cases (find_slot (times start 2) possible_slots)) [
      | inl out ↦ rw (more, out) tt
      | inr (twice, found) ↦
          rw (more, found)
            (Returns-bind (Extracted start s) (Merged n s) (extract start s) _
              (extract-Extracted start s g.linked there)
              λ (a, s') x.
                Returns-bind (Extracted start s') (Merged n s) (extract start s') _
                  (extract-Extracted start s' x.linked (ground (arith, x.counted)))
                  λ (b, s'') y. (
                    join-Good n start twice s s' s'' a b g found x y,
                    count_index-append twice s''.index _,
                    omega (
                      arith,
                      x.shorter,
                      y.shorter,
                      length-append s''.index ((twice, s''.next_key) ∷ []),
                    ),
                  ))
    ]
  ]

  merge_rest :
      (n fuel : ℕ) (s : Slots)
      → ((start : SlotCapacity) (s' : Slots)
          → Good n s'
          → 0 < count_index start s'.index
          → length s'.index ≤ fuel
          → Returns (Good n) (merge possible_slots fuel start s'))
      → Good n s
      → length s.index ≤ suc fuel
      → (r : Option (SlotCapacity × Slots)) → Merged n s r
      → Returns (Good n) (go_on (merge possible_slots fuel) s r)
  merge_rest n fuel s again g enough none m = g
  merge_rest n fuel s again g enough (some (twice, s')) m = again twice s' m.0 m.1 (omega arith)

  merge-Good :
      (n fuel : ℕ) (start : SlotCapacity) (s : Slots)
      → Good n s
      → 0 < count_index start s.index
      → length s.index ≤ fuel
      → Returns (Good n) (merge possible_slots fuel start s)
  unfolding merge
  merge-Good n zero start s g there enough =
      absurd (omega (arith, count_index-erase start s.index there))
  merge-Good n (suc fuel) start s g there enough =
      Returns-bind (Merged n s) (Good n) (merge_once possible_slots start s) _
        (merge_once-Merged n start s g there) (merge_rest n fuel s (merge-Good n fuel) g enough)

  -- What a job asks for: an entry with enough may take it, and so may a new entry of the slot
  -- that is chosen for it; the measure grows by the job's share.
  pub record Accepts (share : ℕ) (job : QueuedJobInfo) : Type 0 where
    pub takes :
        (e : Entry) → fits job.required_capacity e.slot.idle ≡ true → P e → P (take_job job e)
    pub counts : (e : Entry) → f (take_job job e) ≡ f e + share
    pub opens :
        Returns
          (λ slot. (key : ℕ) → P (opened slot job key) × (f (opened slot job key) ≡ share))
          (min_fit_slot possible_slots job.required_capacity)

  give-Good :
      (n share : ℕ) (job : QueuedJobInfo) (s : Slots) (e : Entry)
      → Accepts share job
      → Good n s
      → fits job.required_capacity e.slot.idle ≡ true
      → find_entry e.key s.entries ≡ some e
      → Good (n + share) (record s { entries = give_job e.key job s.entries })
  give-Good n share job s e a g enough here = record {
    linked = record {
      keys = DistinctKeys-give_job job e.key s.entries g.linked.keys;
      fresh = All-give_job _ job e.key s.entries (λ d _ h. h) g.linked.fresh;
      points =
          All-mono _ _ (λ p h. total_at-give_job job p.1 e.key s.entries ∙ h) s.index
            g.linked.points;
      index_keys = g.linked.index_keys;
      fresh_index = g.linked.fresh_index;
    };
    each =
        All-give_job P job e.key s.entries
          (λ d found h. a.takes d (rw (some-injective d e (sym found ∙ here)) enough) h) g.each;
    measured =
        sum_of-give_job f share job e.key s.entries e a.counts here
        ∙ ap (λ t. t + share) g.measured;
  }

  open-Good :
      (n share : ℕ) (job : QueuedJobInfo) (s : Slots) (slot : SlotCapacity)
      → P (opened slot job s.next_key)
      → f (opened slot job s.next_key) ≡ share
      → Good n s
      → Good (n + share) (append_entry slot (opened slot job s.next_key) s)
  open-Good n share job s slot p m g = record {
    linked = append_entry-Linked slot (opened slot job s.next_key) s refl refl g.linked;
    each = All-append P s.entries _ g.each (p, tt);
    measured =
        omega (arith, sum_of-append f s.entries (opened slot job s.next_key ∷ []), g.measured);
  }

  place_on-Good :
      (n share : ℕ) (job : QueuedJobInfo) (s : Slots) (best : Option Entry)
      → Accepts share job
      → Good n s
      → Found job.required_capacity s.entries best
      → Returns (Good (n + share)) (place_on possible_slots job s best)
  unfolding place_on
  place_on-Good n share job s (some e) a g ok = give-Good n share job s e a g ok.0 ok.1
  place_on-Good n share job s none a g ok =
      Returns-bind _ (Good (n + share)) (min_fit_slot possible_slots job.required_capacity) _
        a.opens
        λ slot h.
          let new = h s.next_key in
          let s' = append_entry slot (opened slot job s.next_key) s in
          merge-Good (n + share) (length s'.index) slot s'
            (open-Good n share job s slot new.0 new.1 g)
            (count_index-append slot s.index s.next_key) (omega arith)

  place-Good :
      (n share : ℕ) (job : QueuedJobInfo) (s : Slots)
      → Accepts share job
      → Good n s
      → Returns (Good (n + share)) (place possible_slots job s)
  unfolding place
  place-Good n share job s a g = place_on-Good n share job s _ a g (
      best_entry-Found job.required_capacity s.entries s.entries none
        (DistinctKeys-Here s.entries g.linked.keys) tt)

  -- The loop over the jobs returns, and keeps all of this.
  pub place_all-Good :
      (share : QueuedJobInfo → ℕ) (n : ℕ) (jobs : List QueuedJobInfo) (s : Slots)
      → All (λ job. Accepts (share job) job) jobs
      → Good n s
      → Returns (Good (n + sum_of share jobs)) (place_all possible_slots jobs s)
  unfolding place_all
  place_all-Good share n [] s a g = rw add-zero g
  place_all-Good share n (job ∷ jobs) s a g =
      Returns-bind (Good (n + share job)) _ (place possible_slots job s) _
        (place-Good n (share job) job s a.0 g)
        λ s' g'. rw (← add_assoc) (place_all-Good share (n + share job) jobs s' a.1 g')

  pub no_slots-Good : Good 0 no_slots
  unfolding no_slots
  no_slots-Good = record {
    linked = record { keys = tt; fresh = tt; points = tt; index_keys = tt; fresh_index = tt };
    each = tt;
    measured = refl;
  }
