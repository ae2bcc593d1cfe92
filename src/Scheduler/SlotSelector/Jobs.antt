-- ===== src/Scheduler/SlotSelector/Jobs.antt =====
-- The last loop of `select`: which job goes to which id, and what is recorded of each new VM.
use mathlib.Core.Option.{some-injective}
use mathlib.Core.List.{append-nil, append_assoc}
use native.Mathlib.Nat.{add-zero}
use vm_scheduler.Prelude.{
  ℕ, zero, suc, ◌+◌, ◌≤◌, ◌<◌, ◌≡◌, refl, sym, subst, ap, ◌∙◌, inl, inr, Bool, true, false,
  Bool-cases, Option, none, some, List, [], ◌∷◌, ◌++◌, arith, All, All-mono, All-append, get_elem?,
  Option-cases, sum_of, elem, ◌==◌, if◌then◌else◌,
}
use vm_scheduler.Std.Map.{lookup, has_key, assign, emplace, lookup-assign}
use vm_scheduler.State.Plan.{DesiredSlot, VmInfo, desired}
use vm_scheduler.Scheduler.SlotSelector.{Entry, assign_all, publish}

-- The id of the last entry, counted from `n`, that holds a job.
abbrev pub owner : ℕ → List Entry → ℕ → Option ℕ
owner n [] j = none
owner n (e ∷ es) j = elim (owner (n + 1) es j) [
  | some k ↦ some k
  | none ↦ if elem j e.job_ids then some n else none
]

-- The entries' slots under the ids from `n` on.
abbrev pub numbered : ℕ → List Entry → List (ℕ × DesiredSlot)
numbered n [] = []
numbered n (e ∷ es) = (n, e.slot) ∷ numbered (n + 1) es

abbrev assigned : Option ℕ → Option VmInfo → Option VmInfo
assigned (some k) old = some (desired k)
assigned none old = old

lookup-assign_all :
    (j n : ℕ) (ids : List ℕ) (m : List (ℕ × VmInfo))
    → lookup j (assign_all n ids m) ≡ (if elem j ids then some (desired n) else lookup j m)
unfolding assign_all
lookup-assign_all j n [] m = refl
lookup-assign_all j n (i ∷ ids) m =
    ground
      (arith, lookup-assign_all j n ids (assign i (desired n) m), lookup-assign i j (desired n) m)

emplace_fresh :
    {V : Type 0} (k : ℕ) (v : V) (m : List (ℕ × V))
    → All (λ p. p.0 < k) m
    → emplace k v m ≡ m ++ (k, v) ∷ []
unfolding emplace
emplace_fresh k v [] h = refl
emplace_fresh k v ((j, w) ∷ m) h =
    let other : (j == k) ≡ false = ground arith in
    rw other (ap (◌∷◌ (j, w)) (emplace_fresh k v m h.1))

pub lookup-publish :
    (j n : ℕ) (es : List Entry) (m : List (ℕ × VmInfo)) (ds : List (ℕ × DesiredSlot))
    → lookup j (publish n es m ds).0 ≡ assigned (owner n es j) (lookup j m)
unfolding publish
lookup-publish j n [] m ds = refl
lookup-publish j n (e ∷ es) m ds = ground (
  arith,
  lookup-publish j (n + 1) es (assign_all n e.job_ids m) (emplace n e.slot ds),
  lookup-assign_all j n e.job_ids m,
)

pub publish-slots :
    (n : ℕ) (es : List Entry) (m : List (ℕ × VmInfo)) (ds : List (ℕ × DesiredSlot))
    → All (λ p. p.0 < n) ds
    → (publish n es m ds).1 ≡ ds ++ numbered n es
unfolding publish
publish-slots n [] m ds h = sym (append-nil ds)
publish-slots n (e ∷ es) m ds h =
    publish-slots (n + 1) es (assign_all n e.job_ids m) (emplace n e.slot ds) (
      rw (emplace_fresh n e.slot ds h)
        (All-append _ ds _ (All-mono _ _ (λ p lt. omega arith) ds h) (omega arith)))
    ∙ rw (emplace_fresh n e.slot ds h) (append_assoc ds ((n, e.slot) ∷ []) (numbered (n + 1) es))

-- How often a job stands in an entry.
abbrev pub times_in : ℕ → List ℕ → ℕ
times_in j ids = sum_of (λ i. if i == j then 1 else 0) ids

elem-times_in : (j : ℕ) (ids : List ℕ) → elem j ids ≡ false → times_in j ids ≡ 0
elem-times_in j [] h = refl
elem-times_in j (i ∷ ids) h = ground (arith, elem-times_in j ids)

times_in-elem : (j : ℕ) (ids : List ℕ) → times_in j ids ≡ 0 → elem j ids ≡ false
times_in-elem j [] h = refl
times_in-elem j (i ∷ ids) h = ground (arith, times_in-elem j ids)

abbrev pub held : ℕ → List Entry → ℕ
held j es = sum_of (λ e. times_in j e.job_ids) es

pub owner-none : (n : ℕ) (es : List Entry) (j : ℕ) → held j es ≡ 0 → owner n es j ≡ none
owner-none n [] j h = refl
owner-none n (e ∷ es) j h = ground (arith, owner-none (n + 1) es j, times_in-elem j e.job_ids)

pub owner-some :
    (n : ℕ) (es : List Entry) (j : ℕ) → 0 < held j es → (k : ℕ) × (owner n es j ≡ some k)
owner-some n [] j h = elim h [ ]
owner-some n (e ∷ es) j h = elim (Option-cases (owner (n + 1) es j)) [
  | inr (k, later) ↦ (k, rw later refl)
  | inl none_later ↦ elim (Bool-cases (elem j e.job_ids)) [
    | inl t ↦ (n, rw (none_later, t) refl)
    | inr t ↦ absurd (later_held (owner-some (n + 1) es j) none_later (elem-times_in j e.job_ids t))
  ]
]
  where
    later_held :
        (0 < held j es → (k : ℕ) × (owner (n + 1) es j ≡ some k))
        → owner (n + 1) es j ≡ none
        → times_in j e.job_ids ≡ 0
        → ⊥
    later_held f out z = let (k, at_k) = f (omega arith) in cc

-- The id of an owner is among the new VMs.
pub owner-numbered :
    (n : ℕ) (es : List Entry) (j k : ℕ) → owner n es j ≡ some k → has_key k (numbered n es) ≡ true
unfolding has_key
owner-numbered n [] j k h = cc
owner-numbered n (e ∷ es) j k h = ground (arith, owner-numbered (n + 1) es j k)

-- Every job of an entry has that entry for its owner.
abbrev pub Owned : (ℕ → Option ℕ) → ℕ → List Entry → Type 0
Owned own n [] = Unit
Owned own n (e ∷ es) = All (λ j. own j ≡ some n) e.job_ids × Owned own (n + 1) es

Owned-mono :
    (own own' : ℕ → Option ℕ) (n : ℕ) (es : List Entry)
    → ((j k : ℕ) → own j ≡ some k → own' j ≡ some k)
    → Owned own n es
    → Owned own' n es
Owned-mono own own' n [] f h = tt
Owned-mono own own' n (e ∷ es) f h =
    (All-mono _ _ (λ j k. f j n k) e.job_ids h.0, Owned-mono own own' (n + 1) es f h.1)

all_elem : (ids : List ℕ) → All (λ j. 0 < times_in j ids) ids
all_elem [] = tt
all_elem (i ∷ ids) = (ground arith, All-mono _ _ (λ j h. omega arith) ids (all_elem ids))

pub owner-Owned : (n : ℕ) (es : List Entry) → ((j : ℕ) → held j es ≤ 1) → Owned (owner n es) n es
owner-Owned n [] once = tt
owner-Owned n (e ∷ es) once = (
  All-mono _ _ (λ j h. ground (arith, once j, owner-none (n + 1) es j, elem-times_in j e.job_ids))
      e.job_ids (all_elem e.job_ids),
  Owned-mono (owner (n + 1) es) (owner n (e ∷ es)) (n + 1) es (λ j k h. rw h refl)
      (owner-Owned (n + 1) es (λ j. omega (arith, once j))),
)

abbrev pub owns : ℕ → Option ℕ → Bool
owns k none = false
owns k (some i) = i == k

module _ (own : ℕ → Option ℕ) (w : ℕ → ℕ) where
  abbrev pub share_of : ℕ → ℕ → ℕ
  share_of k j = if owns k (own j) then w j else 0

  share_of-ids :
      (k n : ℕ) (ids : List ℕ)
      → All (λ j. own j ≡ some n) ids
      → sum_of (share_of k) ids ≡ (if n == k then sum_of w ids else 0)
  share_of-ids k n [] h = ground arith
  share_of-ids k n (j ∷ ids) h = ground (arith, h.0, share_of-ids k n ids h.1)

  share_of-before :
      (k n : ℕ) (es : List Entry)
      → Owned own n es
      → k < n
      → sum_of (λ e. sum_of (share_of k) e.job_ids) es ≡ 0
  share_of-before k n [] h lt = refl
  share_of-before k n (e ∷ es) h lt =
      ground (arith, share_of-ids k n e.job_ids h.0, share_of-before k (n + 1) es h.1)

  -- The jobs that the entry at a place owns are those that it holds.
  pub share_of-entry :
      (n i : ℕ) (es : List Entry) (e : Entry)
      → Owned own n es
      → get_elem? es i ≡ some e
      → sum_of (λ d. sum_of (share_of (n + i)) d.job_ids) es ≡ sum_of w e.job_ids
  share_of-entry n i [] e h at_i = cc
  share_of-entry n zero (d ∷ es) e h at_i =
      let same : d ≡ e = some-injective d e at_i in
      subst (λ x. sum_of (λ d. sum_of (share_of (n + 0)) d.job_ids) (d ∷ es) ≡ sum_of w x.job_ids)
        same
        (ground
          (arith, share_of-ids (n + 0) n d.job_ids h.0, share_of-before (n + 0) (n + 1) es h.1))
  share_of-entry n (suc i) (d ∷ es) e h at_i =
      let shift : n + suc i ≡ n + 1 + i = omega arith in
      subst (λ m. sum_of (λ x. sum_of (share_of m) x.job_ids) (d ∷ es) ≡ sum_of w e.job_ids)
        (sym shift)
        (ground
          (arith, share_of-ids (n + 1 + i) n d.job_ids h.0, share_of-entry (n + 1) i es e h.1 at_i))

pub All-numbered :
    (R : ℕ → DesiredSlot → Type 0) (n : ℕ) (es : List Entry)
    → ((i : ℕ) (e : Entry) → get_elem? es i ≡ some e → R (n + i) e.slot)
    → All (λ p. R p.0 p.1) (numbered n es)
All-numbered R n [] h = tt
All-numbered R n (e ∷ es) h = (
  subst (λ m. R m e.slot) (add-zero n) (h 0 e refl),
  All-numbered R (n + 1) es (λ i d at_i. subst (λ m. R m d.slot) (regroup n i) (h (suc i) d at_i)),
)
  where
    regroup : (a b : ℕ) → a + suc b ≡ a + 1 + b
    regroup a b = omega arith
