-- ===== src/Scheduler/SlotSelector/Index.antt =====
-- The multimap from capacities to entries.
use vm_scheduler.Prelude.{
  ℕ, ◌+◌, ◌<◌, ◌≡◌, ◌≢◌, refl, sym, subst, inl, inr, true, some, List, [], ◌∷◌, ◌++◌, arith, All,
  All-append, length, Bool-cases,
}
use mathlib.Core.Path.{subst₂}
use mathlib.Core.Option.{some-injective}
use vm_scheduler.Common.Slot.{SlotCapacity, equal}
use vm_scheduler.Scheduler.SlotSelector.{count_index, find_index, erase_index}

abbrev pub Index : Type 0
Index = List (SlotCapacity × ℕ)

pub equal→eq : (c d : SlotCapacity) → equal c d ≡ true → c ≡ d
equal→eq c d h = ground arith

lt→ne : {a b : ℕ} → a < b → a ≢ b
lt→ne h = omega arith

-- No entry of the list is in the multimap twice.
abbrev pub DistinctIndex : Index → Type 0
DistinctIndex [] = Unit
DistinctIndex (p ∷ index) = All (λ q. p.1 ≢ q.1) index × DistinctIndex index

pub find_index-total :
    (c : SlotCapacity) (index : Index)
    → 0 < count_index c index
    → (key : ℕ) × (find_index c index ≡ some key)
unfolding count_index find_index
find_index-total c [] h = elim h [ ]
find_index-total c ((d, key) ∷ index) h = elim (Bool-cases (equal c d)) [
  | inl t ↦ (key, rw t refl)
  | inr f ↦ rw f (find_index-total c index (rw f at h))
]

pub count_index-erase :
    (c : SlotCapacity) (index : Index)
    → 0 < count_index c index
    → (count_index c (erase_index c index) + 1 ≡ count_index c index)
      × (length (erase_index c index) + 1 ≡ length index)
unfolding count_index erase_index
count_index-erase c [] h = elim h [ ]
count_index-erase c ((d, key) ∷ index) h = elim (Bool-cases (equal c d)) [
  | inl t ↦ rw t (omega arith, omega arith)
  | inr f ↦ let ih = count_index-erase c index (rw f at h) in rw (f, f) (ground arith)
]

pub All-find_index :
    (P : SlotCapacity × ℕ → Type 0) (c : SlotCapacity) (index : Index) (key : ℕ)
    → All P index
    → find_index c index ≡ some key
    → P (c, key)
unfolding find_index
All-find_index P c [] key h f = cc
All-find_index P c ((d, k) ∷ index) key h f = elim (Bool-cases (equal c d)) [
  | inl t ↦ subst₂ (λ x y. P (x, y)) (sym (equal→eq c d t)) (some-injective k key (rw t at f)) h.0
  | inr t ↦ All-find_index P c index key h.1 (rw t at f)
]

pub All-erase_index {κ} :
    (P : SlotCapacity × ℕ → Type κ) (c : SlotCapacity) (index : Index)
    → All P index
    → All P (erase_index c index)
unfolding erase_index
All-erase_index P c [] h = tt
All-erase_index P c ((d, k) ∷ index) h = elim (Bool-cases (equal c d)) [
  | inl t ↦ rw t h.1
  | inr t ↦ rw t (h.0, All-erase_index P c index h.1)
]

pub DistinctIndex-erase :
    (c : SlotCapacity) (index : Index) → DistinctIndex index → DistinctIndex (erase_index c index)
unfolding erase_index
DistinctIndex-erase c [] h = tt
DistinctIndex-erase c ((d, k) ∷ index) h = elim (Bool-cases (equal c d)) [
  | inl t ↦ rw t h.1
  | inr t ↦ rw t (All-erase_index (λ q. k ≢ q.1) c index h.0, DistinctIndex-erase c index h.1)
]

-- The number that was found is not in what is left.
pub erase_index-ne :
    (c : SlotCapacity) (index : Index) (key : ℕ)
    → DistinctIndex index
    → find_index c index ≡ some key
    → All (λ q. key ≢ q.1) (erase_index c index)
unfolding find_index erase_index
erase_index-ne c [] key h f = tt
erase_index-ne c ((d, k) ∷ index) key h f = elim (Bool-cases (equal c d)) [
  | inl t ↦ rw t (subst (λ x. All (λ q. x ≢ q.1) index) (some-injective k key (rw t at f)) h.0)
  | inr t ↦ rw t (
    (λ e. All-find_index (λ q. k ≢ q.1) c index key h.0 (rw t at f) (sym e)),
    erase_index-ne c index key h.1 (rw t at f),
  )
]

pub DistinctIndex-append :
    (index : Index) (c : SlotCapacity) (key : ℕ)
    → DistinctIndex index
    → All (λ q. q.1 < key) index
    → DistinctIndex (index ++ (c, key) ∷ [])
DistinctIndex-append [] c key h fresh = (tt, tt)
DistinctIndex-append (p ∷ index) c key h fresh = (
  All-append (λ q. p.1 ≢ q.1) index ((c, key) ∷ []) h.0 (lt→ne fresh.0, tt),
  DistinctIndex-append index c key h.1 fresh.1,
)

pub count_index-append :
    (c : SlotCapacity) (index : Index) (key : ℕ) → 0 < count_index c (index ++ (c, key) ∷ [])
unfolding count_index
count_index-append c [] key = ground arith
count_index-append c ((d, k) ∷ index) key = ground (arith, count_index-append c index key)
