-- ===== src/Scheduler/SlotSelector/Good.antt =====
-- The invariant of the slot selector: the multimap points to the entries of its capacities, and
-- what is wanted of each entry, and of all together, survives the steps of the selection.
use mathlib.Core.Option.{some-injective}
use vm_scheduler.Prelude.{
  ℕ, ◌+◌, ◌<◌, ◌≡◌, ◌≢◌, refl, sym, ap, inl, inr, none, some, List, ◌++◌, arith, All, All-mono,
  All-append, All-zip, length, Option-cases,
}
use vm_scheduler.Common.Slot.{SlotCapacity}
use vm_scheduler.Std.Outcome.{Returns}
use vm_scheduler.Scheduler.SlotSelector.{
  Entry, Slots, find_entry, erase_entry, count_index, erase_index, extract, append_entry,
}
use vm_scheduler.Scheduler.SlotSelector.Links.{
  DistinctKeys, find_entry-key, find_entry-append, find_entry-append_new, find_entry-erase,
  All-erase_entry, DistinctKeys-erase, DistinctKeys-append, total_at,
}
use vm_scheduler.Scheduler.SlotSelector.Index.{
  DistinctIndex, find_index-total, count_index-erase, All-find_index, All-erase_index,
  DistinctIndex-erase, erase_index-ne, DistinctIndex-append,
}

pub record Linked (s : Slots) : Type 0 where
  pub keys : DistinctKeys s.entries
  pub fresh : All (λ e. e.key < s.next_key) s.entries
  pub points : All (λ p. total_at p.1 s.entries ≡ some p.0) s.index
  pub index_keys : DistinctIndex s.index
  pub fresh_index : All (λ p. p.1 < s.next_key) s.index

-- What taking an entry of a capacity out leaves.
pub record Extracted (start : SlotCapacity) (s : Slots) (r : Entry × Slots) : Type 0 where
  pub linked : Linked r.1
  pub found : find_entry r.0.key s.entries ≡ some r.0
  pub total : r.0.slot.total ≡ start
  pub rest : r.1.entries ≡ erase_entry r.0.key s.entries
  pub counted : count_index start r.1.index + 1 ≡ count_index start s.index
  pub shorter : length r.1.index + 1 ≡ length s.index

pub none-ne {ℓ} : {A : Type ℓ} (a : A) → none ≢ some a
none-ne a e = cc

pub total_at-some :
    (k : ℕ) (es : List Entry) (c : SlotCapacity)
    → total_at k es ≡ some c
    → (e : Entry) × (find_entry k es ≡ some e) × (e.slot.total ≡ c)
total_at-some k es c h = elim (Option-cases (find_entry k es)) [
  | inl out ↦ absurd (none-ne c (rw out at h))
  | inr (e, found) ↦ (e, found, some-injective _ c (rw found at h))
]

total_at-erase :
    (k j : ℕ) (es : List Entry) (c : SlotCapacity)
    → j ≢ k
    → total_at k es ≡ some c
    → total_at k (erase_entry j es) ≡ some c
total_at-erase k j es c other h = rw (find_entry-erase k j es (λ e. other (sym e))) h

total_at-append :
    (k : ℕ) (es ds : List Entry) (c : SlotCapacity)
    → total_at k es ≡ some c
    → total_at k (es ++ ds) ≡ some c
total_at-append k es ds c h =
    let (e, found, same) = total_at-some k es c h in
    rw (find_entry-append k es ds e found) (ap some same)

pub extract-Extracted :
    (start : SlotCapacity) (s : Slots)
    → Linked s
    → 0 < count_index start s.index
    → Returns (Extracted start s) (extract start s)
extract-Extracted start s l some_there =
    let (key, at_key) = find_index-total start s.index some_there in
    let (e, found, total) =
      total_at-some key s.entries start (
        All-find_index (λ p. total_at p.1 s.entries ≡ some p.0) start s.index key l.points
          at_key) in
    let same : e.key ≡ key = find_entry-key key s.entries e found in
    let counts = count_index-erase start s.index some_there in
    rw at_key (
      rw found (record {
        linked = record {
          keys = DistinctKeys-erase key s.entries l.keys;
          fresh = All-erase_entry _ key s.entries l.fresh;
          points =
              All-zip (λ q. key ≢ q.1) (λ q. total_at q.1 s.entries ≡ some q.0) _
                (λ q other h. total_at-erase q.1 key s.entries q.0 other h)
                (erase_index start s.index) (erase_index-ne start s.index key l.index_keys at_key)
                (All-erase_index _ start s.index l.points);
          index_keys = DistinctIndex-erase start s.index l.index_keys;
          fresh_index = All-erase_index _ start s.index l.fresh_index;
        };
        found = rw same found;
        total = total;
        rest = rw same refl;
        counted = counts.0;
        shorter = counts.1;
      }))

pub append_entry-Linked :
    (c : SlotCapacity) (e : Entry) (s : Slots)
    → e.key ≡ s.next_key
    → e.slot.total ≡ c
    → Linked s
    → Linked (append_entry c e s)
append_entry-Linked c e s same total l = record {
  keys = DistinctKeys-append s.entries e l.keys (rw same l.fresh);
  fresh =
      All-append _ s.entries _ (All-mono _ _ (λ d h. omega arith) s.entries l.fresh) (omega arith);
  points =
      All-append _ s.index _
        (All-mono _ _ (λ p h. total_at-append p.1 s.entries _ p.0 h) s.index l.points)
        (rw (find_entry-append_new e.key s.entries e (rw same l.fresh) refl) (ap some total), tt);
  index_keys = DistinctIndex-append s.index c e.key l.index_keys (rw same l.fresh_index);
  fresh_index =
      All-append _ s.index _ (All-mono _ _ (λ p h. omega arith) s.index l.fresh_index)
        (omega arith);
}
