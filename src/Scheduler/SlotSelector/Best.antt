-- ===== src/Scheduler/SlotSelector/Best.antt =====
-- The search for the entry that a job goes to.
use vm_scheduler.Prelude.{
  ◌≡◌, ◌≢◌, inl, inr, true, false, Option, none, some, List, [], ◌∷◌, arith, All, All-zip,
  Bool-cases, if◌then◌else◌,
}
use vm_scheduler.Common.Slot.{SlotCapacity, fits}
use vm_scheduler.Scheduler.SlotSelector.{Entry, find_entry, better, best_entry}
use vm_scheduler.Scheduler.SlotSelector.Links.{DistinctKeys}

-- With distinct numbers every entry is the one that its number finds.
abbrev pub Here : List Entry → Entry → Type 0
Here es e = find_entry e.key es ≡ some e

pub DistinctKeys-Here : (es : List Entry) → DistinctKeys es → All (Here es) es
unfolding find_entry
DistinctKeys-Here [] h = tt
DistinctKeys-Here (e ∷ es) h = (
  ground arith,
  All-zip (λ d. e.key ≢ d.key) (Here es) (Here (e ∷ es)) (λ d other here. ground arith) es h.0
      (DistinctKeys-Here es h.1),
)

module _ (required : SlotCapacity) where
  abbrev pub Lacks : Entry → Type 0
  Lacks e = fits required e.slot.idle ≡ false

  -- An entry of the list, with enough for the job.
  abbrev pub Found : List Entry → Option Entry → Type 0
  Found es none = Unit
  Found es (some e) = (fits required e.slot.idle ≡ true) × Here es e

  better-Found :
      (all : List Entry) (e : Entry) (best : Option Entry)
      → Here all e
      → Found all best
      → Found all (if better required e best then some e else best)
  unfolding better
  better-Found all e none h f = ground arith
  better-Found all e (some b) h f = ground arith

  pub best_entry-Found :
      (all es : List Entry) (best : Option Entry)
      → All (Here all) es
      → Found all best
      → Found all (best_entry required best es)
  unfolding best_entry
  best_entry-Found all [] best h f = f
  best_entry-Found all (e ∷ es) best h f =
      best_entry-Found all es _ h.1 (better-Found all e best h.0 f)

  best_entry-some : (es : List Entry) (b : Entry) → best_entry required (some b) es ≢ none
  unfolding best_entry
  best_entry-some [] b = λ e. cc
  best_entry-some (e ∷ es) b = elim (Bool-cases (better required e (some b))) [
    | inl t ↦ rw t (best_entry-some es e)
    | inr f ↦ rw f (best_entry-some es b)
  ]

  -- A new entry is made only if no entry has enough.
  pub best_entry-none : (es : List Entry) → best_entry required none es ≡ none → All Lacks es
  unfolding best_entry better
  best_entry-none [] h = tt
  best_entry-none (e ∷ es) h = elim (Bool-cases (fits required e.slot.idle)) [
    | inl t ↦ absurd (best_entry-some es e (rw t at h))
    | inr f ↦ (f, best_entry-none es (rw f at h))
  ]
