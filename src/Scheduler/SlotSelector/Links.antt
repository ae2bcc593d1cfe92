-- ===== src/Scheduler/SlotSelector/Links.antt =====
-- Looking up, taking out and changing the entries of the list by their numbers.
use mathlib.Core.Option
use mathlib.Core.Option.{some-injective}
use vm_scheduler.Prelude.{
  ℕ, ◌+◌, ◌<◌, ◌≡◌, ◌≢◌, refl, ap, sym, subst, inl, inr, Option, some, List, [], ◌∷◌, ◌++◌, arith,
  All, All-append, sum_of, ◌==◌, Bool-cases,
}
use vm_scheduler.Common.Slot.{SlotCapacity}
use vm_scheduler.State.Job.{QueuedJobInfo}
use vm_scheduler.Scheduler.SlotSelector.{Entry, find_entry, erase_entry, give_job, take_job}

lt_ne : {a b : ℕ} → a < b → b ≢ a
lt_ne h = omega arith

-- No two entries have one number.
abbrev pub DistinctKeys : List Entry → Type 0
DistinctKeys [] = Unit
DistinctKeys (e ∷ es) = All (λ d. e.key ≢ d.key) es × DistinctKeys es

pub find_entry-key : (k : ℕ) (es : List Entry) (e : Entry) → find_entry k es ≡ some e → e.key ≡ k
unfolding find_entry
find_entry-key k [] e h = cc
find_entry-key k (d ∷ es) e h = ground (arith, find_entry-key k es e)

pub find_entry-All {κ} :
    (P : Entry → Type κ) (k : ℕ) (es : List Entry) (e : Entry)
    → All P es
    → find_entry k es ≡ some e
    → P e
unfolding find_entry
find_entry-All P k [] e h f = cc
find_entry-All P k (d ∷ es) e h f = elim (Bool-cases (d.key == k)) [
  | inl t ↦ subst P (some-injective d e (rw t at f)) h.0
  | inr t ↦ find_entry-All P k es e h.1 (rw t at f)
]

pub find_entry-append :
    (k : ℕ) (es ds : List Entry) (e : Entry)
    → find_entry k es ≡ some e
    → find_entry k (es ++ ds) ≡ some e
unfolding find_entry
find_entry-append k [] ds e h = cc
find_entry-append k (d ∷ es) ds e h = ground (arith, find_entry-append k es ds e)

pub find_entry-append_new :
    (k : ℕ) (es : List Entry) (e : Entry)
    → All (λ d. d.key < k) es
    → e.key ≡ k
    → find_entry k (es ++ e ∷ []) ≡ some e
unfolding find_entry
find_entry-append_new k [] e h same = ground arith
find_entry-append_new k (d ∷ es) e h same = ground (arith, find_entry-append_new k es e h.1)

pub find_entry-erase :
    (k j : ℕ) (es : List Entry) → k ≢ j → find_entry k (erase_entry j es) ≡ find_entry k es
unfolding find_entry erase_entry
find_entry-erase k j [] h = refl
find_entry-erase k j (d ∷ es) h = ground (arith, find_entry-erase k j es)

pub All-erase_entry {κ} :
    (P : Entry → Type κ) (k : ℕ) (es : List Entry) → All P es → All P (erase_entry k es)
unfolding erase_entry
All-erase_entry P k [] h = tt
All-erase_entry P k (d ∷ es) h = elim (Bool-cases (d.key == k)) [
  | inl t ↦ rw t h.1
  | inr t ↦ rw t (h.0, All-erase_entry P k es h.1)
]

pub DistinctKeys-erase :
    (k : ℕ) (es : List Entry) → DistinctKeys es → DistinctKeys (erase_entry k es)
unfolding erase_entry
DistinctKeys-erase k [] h = tt
DistinctKeys-erase k (d ∷ es) h = elim (Bool-cases (d.key == k)) [
  | inl t ↦ rw t h.1
  | inr t ↦ rw t (All-erase_entry (λ c. d.key ≢ c.key) k es h.0, DistinctKeys-erase k es h.1)
]

pub DistinctKeys-append :
    (es : List Entry) (e : Entry)
    → DistinctKeys es
    → All (λ d. d.key < e.key) es
    → DistinctKeys (es ++ e ∷ [])
DistinctKeys-append [] e h fresh = (tt, tt)
DistinctKeys-append (d ∷ es) e h fresh = (
  All-append _ es (e ∷ []) h.0 ((λ p. lt_ne fresh.0 (sym p)), tt),
  DistinctKeys-append es e h.1 fresh.1,
)

pub sum_of-erase_entry :
    (f : Entry → ℕ) (k : ℕ) (es : List Entry) (e : Entry)
    → find_entry k es ≡ some e
    → sum_of f es ≡ f e + sum_of f (erase_entry k es)
unfolding find_entry erase_entry
sum_of-erase_entry f k [] e h = cc
sum_of-erase_entry f k (d ∷ es) e h = elim (Bool-cases (d.key == k)) [
  | inl t ↦ rw t (omega (arith, ap f (some-injective d e (rw t at h))))
  | inr t ↦ rw t (omega (arith, sum_of-erase_entry f k es e (rw t at h)))
]

-- The capacity of the entry that has a number.
abbrev pub total_at : ℕ → List Entry → Option SlotCapacity
total_at k es = Option.map (λ e. e.slot.total) (find_entry k es)

pub total_at-give_job :
    (job : QueuedJobInfo) (k j : ℕ) (es : List Entry)
    → total_at k (give_job j job es) ≡ total_at k es
unfolding find_entry give_job
total_at-give_job job k j [] = refl
total_at-give_job job k j (c ∷ es) = ground (arith, total_at-give_job job k j es)

pub All-give_job {κ} :
    (P : Entry → Type κ) (job : QueuedJobInfo) (k : ℕ) (es : List Entry)
    → ((e : Entry) → find_entry k es ≡ some e → P e → P (take_job job e))
    → All P es
    → All P (give_job k job es)
unfolding find_entry give_job
All-give_job P job k [] f h = tt
All-give_job P job k (c ∷ es) f h = elim (Bool-cases (c.key == k)) [
  | inl t ↦ rw t (f c (rw t refl) h.0, h.1)
  | inr t ↦ rw t (h.0, All-give_job P job k es (λ e g. f e (rw t g)) h.1)
]

pub DistinctKeys-give_job :
    (job : QueuedJobInfo) (k : ℕ) (es : List Entry)
    → DistinctKeys es
    → DistinctKeys (give_job k job es)
unfolding find_entry give_job
DistinctKeys-give_job job k [] h = tt
DistinctKeys-give_job job k (c ∷ es) h = elim (Bool-cases (c.key == k)) [
  | inl t ↦ rw t h
  | inr t ↦ rw t (
    All-give_job (λ d. c.key ≢ d.key) job k es (λ e _ p. p) h.0,
    DistinctKeys-give_job job k es h.1,
  )
]

pub sum_of-give_job :
    (f : Entry → ℕ) (n : ℕ) (job : QueuedJobInfo) (k : ℕ) (es : List Entry) (e : Entry)
    → ((d : Entry) → f (take_job job d) ≡ f d + n)
    → find_entry k es ≡ some e
    → sum_of f (give_job k job es) ≡ sum_of f es + n
unfolding find_entry give_job
sum_of-give_job f n job k [] e g h = cc
sum_of-give_job f n job k (c ∷ es) e g h = ground (arith, g c, sum_of-give_job f n job k es e g)
