-- ===== src/Zookeeper/Election/Waits.antt =====
-- libs/zookeeper/impl/dist_lock.cpp: an instance whose node is not the least watches the node before
-- its own.
use mathlib.Core.Option.{some-injective}
use vm_scheduler.Prelude.{
  ℕ, zero, suc, ◌≤◌, ◌<◌, ◌≡◌, refl, sym, ap, subst, ◌∙◌, true, false, Option, none, some, List, [],
  ◌∷◌, All, All-mono, arith, Bool-cases, inl, inr, ◌==◌, ==_iff, ==_refl, get_elem?,
}
use vm_scheduler.Std.Ordered.{sort, sort-Grows, All-sort, Any, Any-sort, Grows}
use vm_scheduler.Zookeeper.Names.{Name, drop, get_zxid, starts_with, less_pair, same_pair}
use vm_scheduler.Zookeeper.DistLock.{
  DistributedLock, slash, waits_for, children_with_seq, find_own, find_behind, check_lock_acquired,
}
use vm_scheduler.Zookeeper.DistLock.First.{less_pair-Respects}
use vm_scheduler.Zookeeper.Election.{In, path, Lists}
use vm_scheduler.Zookeeper.Election.Takes.{limit, Numbers, child-zxid, child-starts}
use vm_scheduler.Zookeeper.Election.Progress.{
  same_name_refl, Node, Child-Node, numbered_children, created-zxid,
}

abbrev Numbered : ℕ → List (ℕ × Name) → Type 0
Numbered number pairs = Any (λ (p : ℕ × Name). p.0 ≡ number) pairs

abbrev Listed : ℕ → Option (List (ℕ × Name)) → Type 0
Listed number none = Unit
Listed number (some pairs) = Numbered number pairs

abbrev with_pair : ℕ × Name → Option (List (ℕ × Name)) → Option (List (ℕ × Name))
with_pair pair pairs = elim pairs [ none ↦ none | some rest ↦ some (pair ∷ rest) ]

Listed-first :
    (number : ℕ) (name : Name) (pairs : Option (List (ℕ × Name)))
    → Listed number (with_pair (number, name) pairs)
Listed-first number name none = tt
Listed-first number name (some pairs) = inl refl

Listed-later :
    (number : ℕ) (name : Name) (other : Option ℕ) (pairs : Option (List (ℕ × Name)))
    → Listed number pairs
    → Listed number (elim other [ none ↦ none | some found ↦ with_pair (found, name) pairs ])
Listed-later number name none pairs h = tt
Listed-later number name (some found) none h = tt
Listed-later number name (some found) (some pairs) h = inr h

-- The number of a child of the lock is among those that are collected.
children_with_seq-Listed :
    (root : Name) (children : List Name) (i : ℕ) (child : Name) (number : ℕ)
    → get_elem? children i ≡ some child
    → starts_with (drop 1 root) child ≡ true
    → get_zxid child ≡ some number
    → Listed number (children_with_seq root children)
unfolding children_with_seq
children_with_seq-Listed root [] i child number found ours numbered = cc
children_with_seq-Listed root (other ∷ children) zero child number found ours numbered =
    let same : child ≡ other = sym (some-injective other child found) in
    rw
      (
        subst (λ c. starts_with (drop 1 root) c ≡ true) same ours,
        subst (λ c. get_zxid c ≡ some number) same numbered,
      )
      (Listed-first number (slash ∷ other) (children_with_seq root children))
children_with_seq-Listed root (other ∷ children) (suc i) child number found ours numbered =
    let ih = children_with_seq-Listed root children i child number found ours numbered in
    elim (Bool-cases (starts_with (drop 1 root) other)) [
      | inr n ↦ rw n ih
      | inl t ↦ rw t (Listed-later number (slash ∷ other) (get_zxid other) _ ih)
    ]

Numbered-le :
    (low number : ℕ) (pairs : List (ℕ × Name))
    → All (λ (p : ℕ × Name). low ≤ p.0) pairs
    → Numbered number pairs
    → low ≤ number
Numbered-le low number [] h m = absurd m
Numbered-le low number (p ∷ pairs) h (inl e) = subst (λ k. low ≤ k) e h.0
Numbered-le low number (p ∷ pairs) h (inr m) = Numbered-le low number pairs h.1 m

module _ (prefix : Name) (child_of : ℕ → Name) (numbers : Numbers prefix child_of) (nodes : List ℕ)
    (small : (n : ℕ) → In nodes n → n < limit) (children : List Name)
    (listed : Lists prefix child_of nodes children) (n m : ℕ) (here : In nodes n)
    (there : In nodes m) (before : m < n) (greatest : (k : ℕ) → In nodes k → k < n → k ≤ m) where
  abbrev own : ℕ × Name
  own = (n, slash ∷ child_of n)

  abbrev Is : ℕ × Name → Type 0
  Is p = Node prefix child_of numbers nodes small children listed p

  own-same : (p : ℕ × Name) → Is p → p.0 ≡ n → same_pair p own ≡ true
  own-same p is e = rw (is.1, e) (rw (==_refl n, same_name_refl (slash ∷ child_of n)) refl)

  Node-name : (p : ℕ × Name) → Is p → p.0 ≡ m → p.1 ≡ slash ∷ child_of m
  Node-name p is e = ap (λ (q : ℕ × Name). q.1) is.1 ∙ ap (λ (k : ℕ). slash ∷ child_of k) e

  not_first :
      (child : ℕ × Name) (pairs : List (ℕ × Name))
      → Numbered n (child ∷ pairs)
      → (child.0 == n) ≡ false
      → Numbered n pairs
  not_first child pairs (inl e) f = absurd (ground arith)
  not_first child pairs (inr k) f = k

  behind_own :
      (child : ℕ × Name) (pairs : List (ℕ × Name))
      → All (λ (p : ℕ × Name). child.0 ≤ p.0) pairs
      → Numbered n (child ∷ pairs)
      → (child.0 == n) ≡ false
      → child.0 < n
  behind_own child pairs grows own_in f =
      let low = Numbered-le child.0 n pairs grows (not_first child pairs own_in f) in ground arith

  before_own :
      (previous child : ℕ × Name) (pairs : List (ℕ × Name))
      → All (λ (p : ℕ × Name). child.0 ≤ p.0) pairs
      → Numbered m (previous ∷ child ∷ pairs)
      → child.0 ≡ n
      → previous.0 ≡ m
  before_own previous child pairs grows (inl e) at = e
  before_own previous child pairs grows (inr k) at =
      let low = Numbered-le child.0 m (child ∷ pairs) (omega arith, grows) k in
      absurd (omega (arith, before))

  moves_on :
      (previous child : ℕ × Name) (pairs : List (ℕ × Name))
      → previous.0 ≤ child.0
      → Numbered m (previous ∷ child ∷ pairs)
      → child.0 ≤ m
      → Numbered m (child ∷ pairs)
  moves_on previous child pairs grows (inl e) high = inl (omega arith)
  moves_on previous child pairs grows (inr k) high = k

  find_behind-waits :
      (previous : ℕ × Name) (pairs : List (ℕ × Name))
      → All Is (previous ∷ pairs)
      → Grows less_pair (λ (p : ℕ × Name). p.0) (previous ∷ pairs)
      → previous.0 < n
      → Numbered n pairs
      → Numbered m (previous ∷ pairs)
      → find_behind own previous pairs ≡ waits_for (slash ∷ child_of m)
  unfolding find_behind
  find_behind-waits previous [] all grows low own_in m_in = absurd own_in
  find_behind-waits previous (child ∷ pairs) all grows low own_in m_in =
      elim (Bool-cases (child.0 == n)) [
        | inl t ↦
            let e : child.0 ≡ n = (==_iff child.0 n).0 t in
            rw (own-same child all.1.0 e) (
              ap waits_for
                (Node-name previous all.0 (before_own previous child pairs grows.1.0 m_in e)))
        | inr f ↦
            let below = behind_own child pairs grows.1.0 own_in f in
            let not_own : same_pair child own ≡ false = rw f refl in
            rw not_own (
              find_behind-waits child pairs all.1 grows.1 below (not_first child pairs own_in f)
                (moves_on previous child pairs grows.0.0 m_in (greatest child.0 all.1.0.0 below)))
      ]

  find_own-waits :
      (pairs : List (ℕ × Name))
      → All Is pairs
      → Grows less_pair (λ (p : ℕ × Name). p.0) pairs
      → Numbered n pairs
      → Numbered m pairs
      → find_own own pairs ≡ waits_for (slash ∷ child_of m)
  unfolding find_own
  find_own-waits [] all grows own_in m_in = absurd own_in
  find_own-waits (first ∷ pairs) all grows own_in m_in =
      let low = Numbered-le first.0 m (first ∷ pairs) (omega arith, grows.0) m_in in
      let not_own : (first.0 == n) ≡ false = ground (arith, before, low) in
      rw not_own (
        find_behind-waits first pairs all grows (omega (arith, before, low))
          (not_first first pairs own_in not_own) m_in)

  Numbered-node :
      (k : ℕ)
      → In nodes k
      → (pairs : List (ℕ × Name)) → children_with_seq (slash ∷ prefix) children ≡ some pairs
      → Numbered k pairs
  Numbered-node k at pairs e =
      let (i, found) = listed.all k at in
      subst (Listed k) e (
        children_with_seq-Listed (slash ∷ prefix) children i (child_of k) k found
          (child-starts prefix child_of numbers k (small k at))
          (child-zxid prefix child_of numbers k (small k at)))

  -- On any list of the children, an instance whose node is there, but not as the first, watches the
  -- node with the next lower number; while the numbers have nine digits.
  pub check_lock_acquired-waits_for :
      (lock : DistributedLock)
      → lock.created_node_name ≡ slash ∷ child_of n
      → check_lock_acquired (path prefix child_of) lock children ≡ waits_for (slash ∷ child_of m)
  unfolding check_lock_acquired
  check_lock_acquired-waits_for lock named =
      let (pairs, e, collected) =
        numbered_children prefix child_of numbers nodes small children listed in
      let zxid = created-zxid prefix child_of numbers nodes small children listed n here in
      rw (named, zxid, e)
        (find_own-waits (sort less_pair pairs)
          (All-sort less_pair Is pairs (
            All-mono _ _ (Child-Node prefix child_of numbers nodes small children listed) pairs
              collected.0))
          (sort-Grows less_pair (λ (p : ℕ × Name). p.0) less_pair-Respects pairs)
          (Any-sort (λ (p : ℕ × Name). p.0 ≡ n) less_pair pairs (Numbered-node n here pairs e))
          (Any-sort (λ (p : ℕ × Name). p.0 ≡ m) less_pair pairs (Numbered-node m there pairs e)))
