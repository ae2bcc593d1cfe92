-- ===== src/Zookeeper/DistLock/First.antt =====
-- libs/zookeeper/impl/dist_lock.cpp, checkLockAcquired: when it takes the lock.
use mathlib.Core.Option.{some-injective}
use vm_scheduler.Prelude.{
  ◌⊎◌, ℕ, zero, suc, ◌≤◌, ◌≡◌, refl, sym, subst, ◌∙◌, true, false, Option, none, some, List, [],
  ◌∷◌, get_elem?, All, All-mono, arith, Bool-cases, inl, inr,
}
use vm_scheduler.Std.Ordered.{sort, sort-head, All-sort, Respects}
use vm_scheduler.Zookeeper.Names.{
  Name, drop, get_zxid, starts_with, less_pair, same_pair, same_name,
}
use vm_scheduler.Zookeeper.DistLock.{
  DistributedLock, slash, acquired, children_with_seq, find_behind, find_own, compare_with,
  check_lock_acquired,
}

-- A child of the lock, at a place in the list that ZooKeeper gave.
pub record Child (path : Name) (children : List Name) (number : ℕ) (name : Name) : Type 0 where
  pub place : ℕ
  pub child : Name
  pub found : get_elem? children place ≡ some child
  pub ours : starts_with (drop 1 path) child ≡ true
  pub numbered : get_zxid child ≡ some number
  pub named : name ≡ slash ∷ child

same_name-eq : (a b : Name) → same_name a b ≡ true → a ≡ b
same_name-eq [] [] h = refl
same_name-eq [] (d ∷ b) h = cc
same_name-eq (c ∷ a) [] h = cc
same_name-eq (c ∷ a) (d ∷ b) h = ground (arith, same_name-eq a b)

pub less_pair-Respects : Respects less_pair (λ (p : ℕ × Name). p.0)
less_pair-Respects = record { less = λ a b h. ground arith; not_less = λ a b h. ground arith }

module _ (path : Name) where
  later :
      {children : List Name} (child : Name) {number : ℕ} {name : Name}
      → Child path children number name
      → Child path (child ∷ children) number name
  later child c = record {
    place = suc c.place;
    child = c.child;
    found = c.found;
    ours = c.ours;
    numbered = c.numbered;
    named = c.named;
  }

  -- The pairs are children of the lock, and every child of the lock is no less than what all pairs
  -- are no less than.
  abbrev pub Collected : List Name → Option (List (ℕ × Name)) → Type 0
  Collected children none = Unit
  Collected children (some pairs) =
      All (λ (p : ℕ × Name). Child path children p.0 p.1) pairs
      × ((least : ℕ)
          → All (λ (p : ℕ × Name). least ≤ p.0) pairs
          → (number : ℕ) (name : Name) → Child path children number name
          → least ≤ number)

  -- A child of the longer list is the first one or a child of the rest.
  first_or_later :
      {children : List Name} (child : Name) {number : ℕ} {name : Name}
      → Child path (child ∷ children) number name
      → ((starts_with (drop 1 path) child ≡ true) × (get_zxid child ≡ some number))
        ⊎ Child path children number name
  first_or_later {children} child {number} {name} c =
      go c.place c.child c.found c.ours c.numbered c.named
    where
      go :
          (place : ℕ) (other : Name)
          → get_elem? (child ∷ children) place ≡ some other
          → starts_with (drop 1 path) other ≡ true
          → get_zxid other ≡ some number
          → name ≡ slash ∷ other
          → ((starts_with (drop 1 path) child ≡ true) × (get_zxid child ≡ some number))
            ⊎ Child path children number name
      go zero other found ours numbered named =
          let same : child ≡ other = some-injective child other found in
          inl (rw same ours, rw same numbered)
      go (suc place) other found ours numbered named = inr (record {
        place = place;
        child = other;
        found = found;
        ours = ours;
        numbered = numbered;
        named = named;
      })

  skip-Collected :
      (child : Name) (children : List Name) (rest : Option (List (ℕ × Name)))
      → starts_with (drop 1 path) child ≡ false
      → Collected children rest
      → Collected (child ∷ children) rest
  skip-Collected child children none other h = tt
  skip-Collected child children (some pairs) other h = (
    All-mono _ _ (λ (p : ℕ × Name) (c : Child path children p.0 p.1). later child c) pairs h.0,
    λ least below number name c. elim (first_or_later child c) [
      | inl (ours, numbered) ↦ cc
      | inr c ↦ h.1 least below number name c
    ],
  )

  abbrev with_number : Name → Option ℕ → Option (List (ℕ × Name)) → Option (List (ℕ × Name))
  with_number child number pairs = elim number [
    | none ↦ none
    | some number ↦ elim pairs [ none ↦ none | some rest ↦ some ((number, slash ∷ child) ∷ rest) ]
  ]

  add-Collected :
      (child : Name) (children : List Name) (number : Option ℕ) (rest : Option (List (ℕ × Name)))
      → starts_with (drop 1 path) child ≡ true
      → get_zxid child ≡ number
      → Collected children rest
      → Collected (child ∷ children) (with_number child number rest)
  add-Collected child children none rest ours numbered h = tt
  add-Collected child children (some number) none ours numbered h = tt
  add-Collected child children (some number) (some pairs) ours numbered h = (
    (
      record {
        place = 0;
        child = child;
        found = refl;
        ours = ours;
        numbered = numbered;
        named = refl;
      },
      All-mono _ _ (λ (p : ℕ × Name) (c : Child path children p.0 p.1). later child c) pairs h.0,
    ),
    λ least below other name c. elim (first_or_later child c) [
      | inl (ours, also) ↦
          let same : number ≡ other = some-injective number other (sym numbered ∙ also) in
          subst (λ n. least ≤ n) same below.0
      | inr c ↦ h.1 least below.1 other name c
    ],
  )

  pub children_with_seq-Collected :
      (children : List Name) → Collected children (children_with_seq path children)
  unfolding children_with_seq
  children_with_seq-Collected [] = (tt, λ least h number name c. let e = c.found in cc)
  children_with_seq-Collected (child ∷ children) =
      let ih = children_with_seq-Collected children in
      elim (Bool-cases (starts_with (drop 1 path) child)) [
        | inr other ↦ rw other (skip-Collected child children _ other ih)
        | inl ours ↦ rw ours (add-Collected child children (get_zxid child) _ ours refl ih)
      ]

-- A search behind the first place never takes the lock.
find_behind-waits :
    (own previous : ℕ × Name) (children : List (ℕ × Name)) (number : ℕ)
    → ¬ (find_behind own previous children ≡ acquired number)
unfolding find_behind
find_behind-waits own previous [] number e = cc
find_behind-waits own previous (child ∷ children) number e =
    elim (Bool-cases (same_pair child own)) [
      | inl t ↦ ground (arith, t)
      | inr n ↦ find_behind-waits own child children number (ground (arith, n))
    ]

find_own-first :
    (own : ℕ × Name) (children : List (ℕ × Name)) (number : ℕ)
    → find_own own children ≡ acquired number
    → (first : ℕ × Name) × (rest : List (ℕ × Name)) × (children ≡ first ∷ rest)
      × (same_pair first own ≡ true)
      × (own.0 ≡ number)
unfolding find_own
find_own-first own [] number e = cc
find_own-first own (child ∷ children) number e = elim (Bool-cases (same_pair child own)) [
  | inl t ↦ (child, children, refl, t, ground (arith, t))
  | inr n ↦ absurd (find_behind-waits own child children number (ground (arith, n)))
]

-- The own node is a child of the lock, and no child has a lower number.
pub record IsFirst (path : Name) (created : Name) (children : List Name) (number : ℕ) : Type 0 where
  pub own : Child path children number created
  pub least : (other : ℕ) (name : Name) → Child path children other name → number ≤ other

compare_with-IsFirst :
    (path created : Name) (children : List Name) (own : Option ℕ) (pairs : Option (List (ℕ × Name)))
    (number : ℕ)
    → Collected path children pairs
    → compare_with created own pairs ≡ acquired number
    → IsFirst path created children number
compare_with-IsFirst path created children own none number h e = cc
compare_with-IsFirst path created children none (some pairs) number h e = cc
compare_with-IsFirst path created children (some own) (some pairs) number h e =
    let (first, rest, sorted, same, own_number) =
      find_own-first (own, created) (sort less_pair pairs) number e in
    let least =
      sort-head less_pair (λ (p : ℕ × Name). p.0) less_pair-Respects pairs first rest sorted in
    let all = All-sort less_pair (λ (p : ℕ × Name). Child path children p.0 p.1) pairs h.0 in
    let child = (subst (All (λ (p : ℕ × Name). Child path children p.0 p.1)) sorted all).0 in
    let name : first.1 ≡ created = same_name-eq first.1 created (ground (arith, same)) in
    let at : first.0 ≡ number = ground (arith, same, own_number) in
    record {
      own =
          subst (λ n. Child path children n created) at
            (subst (Child path children first.0) name child);
      least = λ other name c. subst (λ n. n ≤ other) at (h.1 first.0 least other name c);
    }

-- Where the check takes the lock with a number, the own node is among the children, the number is
-- that of its name, and no child of the lock has a lower number.
pub check_lock_acquired-IsFirst :
    (path : Name) (lock : DistributedLock) (children : List Name) (number : ℕ)
    → check_lock_acquired path lock children ≡ acquired number
    → IsFirst path lock.created_node_name children number
unfolding check_lock_acquired
check_lock_acquired-IsFirst path lock children number e =
    compare_with-IsFirst path lock.created_node_name children (get_zxid lock.created_node_name)
      (children_with_seq path children) number (children_with_seq-Collected path children) e
