-- ===== src/Zookeeper/Election/Progress.antt =====
-- libs/zookeeper/impl/dist_lock.cpp: the instance whose node is the least takes the lock.
use mathlib.Core.Option.{some-injective}
use native.Mathlib.Bridge.{le_prop}
use vm_scheduler.Prelude.{
  ℕ, suc, ◌≤◌, ◌<◌, ◌≡◌, refl, sym, ap, subst, ◌∙◌, true, some, List, [], ◌∷◌, Perm, All, All-Perm,
  arith, Bool-cases, inl, inr, ==_refl,
}
use vm_scheduler.Std.Ordered.{sort, sort-head, sort-perm, All-sort}
use vm_scheduler.Zookeeper.Names.{Name, drop, get_zxid, starts_with, less_pair, same_name}
use vm_scheduler.Zookeeper.DistLock.{
  DistributedLock, slash, acquired, children_with_seq, find_own, check_lock_acquired,
}
use vm_scheduler.Zookeeper.DistLock.First.{
  Child, Collected, children_with_seq-Collected, less_pair-Respects,
}
use vm_scheduler.Zookeeper.Election.{In, path, Lists}
use vm_scheduler.Zookeeper.Election.Takes.{limit, Numbers, child-zxid, child-starts, get_zxid-after}

-- Where every child of the lock has a number, the numbers are collected.
parsed :
    (path : Name) (children : List Name)
    → ((child : Name)
        → In children child
        → starts_with (drop 1 path) child ≡ true
        → (number : ℕ) × (get_zxid child ≡ some number))
    → (pairs : List (ℕ × Name)) × (children_with_seq path children ≡ some pairs)
unfolding children_with_seq
parsed path [] h = ([], refl)
parsed path (child ∷ children) h =
    let (pairs, rest) = parsed path children (λ other m. h other (suc m.0, m.1)) in
    elim (Bool-cases (starts_with (drop 1 path) child)) [
      | inr n ↦ (pairs, rw n rest)
      | inl t ↦
          let (number, e) = h child (0, refl) t in
          ((number, slash ∷ child) ∷ pairs, rw (t, e, rest) refl)
    ]

pub same_name_refl : (name : Name) → same_name name name ≡ true
same_name_refl [] = refl
same_name_refl (c ∷ name) = ground (arith, same_name_refl name)

find_own-acquired :
    (own : ℕ × Name) (rest : List (ℕ × Name)) → find_own own (own ∷ rest) ≡ acquired own.0
unfolding find_own
find_own-acquired (number, name) rest = rw (==_refl number, same_name_refl name) refl

module _ (prefix : Name) (child_of : ℕ → Name) (numbers : Numbers prefix child_of) (nodes : List ℕ)
    (small : (n : ℕ) → In nodes n → n < limit) (children : List Name)
    (listed : Lists prefix child_of nodes children) where
  -- A pair is a node with its number.
  abbrev pub Node : ℕ × Name → Type 0
  Node p = In nodes p.0 × (p ≡ (p.0, slash ∷ child_of p.0))

  pub Child-Node : (p : ℕ × Name) → Child (slash ∷ prefix) children p.0 p.1 → Node p
  Child-Node (number, name) c =
      let (m, there, e) = listed.only c.child (c.place, c.found) c.ours in
      let same : m ≡ number = some-injective m number (
        sym (child-zxid prefix child_of numbers m (small m there))
        ∙ ap get_zxid (sym e)
        ∙ c.numbered) in
      (
        subst (In nodes) same there,
        ap (λ (other : Name). (number, other))
            (c.named ∙ ap (λ (child : Name). slash ∷ child) (e ∙ ap child_of same)),
      )

  pub numbered_children :
      (pairs : List (ℕ × Name)) × (children_with_seq (slash ∷ prefix) children ≡ some pairs)
      × Collected (slash ∷ prefix) children (some pairs)
  numbered_children =
      let (pairs, e) = parsed (slash ∷ prefix) children λ child m ours.
        let (k, there, same) = listed.only child m ours in
        (k, ap get_zxid same ∙ child-zxid prefix child_of numbers k (small k there)) in
      (
        pairs,
        e,
        subst (Collected (slash ∷ prefix) children) e
            (children_with_seq-Collected (slash ∷ prefix) children),
      )

  module _ (n : ℕ) (here : In nodes n) where
    pub created-zxid : get_zxid (slash ∷ child_of n) ≡ some n
    created-zxid =
        ap (λ (c : Name). get_zxid (slash ∷ c)) (numbers n (small n here))
        ∙ get_zxid-after prefix child_of numbers (slash ∷ prefix) n (small n here)

    own-Child : Child (slash ∷ prefix) children n (slash ∷ child_of n)
    own-Child =
        let (place, found) = listed.all n here in
        record {
          place = place;
          child = child_of n;
          found = found;
          ours = child-starts prefix child_of numbers n (small n here);
          numbered = child-zxid prefix child_of numbers n (small n here);
          named = refl;
        }

    module _ (least : (m : ℕ) → In nodes m → n ≤ m) where
      first-own :
          (pairs sorted : List (ℕ × Name))
          → Collected (slash ∷ prefix) children (some pairs)
          → sort less_pair pairs ≡ sorted
          → find_own (n, slash ∷ child_of n) sorted ≡ acquired n
      first-own pairs [] collected e =
          let all =
            All-Perm (λ (p : ℕ × Name). suc n ≤ p.0) (λ p. le_prop)
              (subst (λ l. Perm l pairs) e (sort-perm less_pair pairs)) tt in
          absurd (let bad = collected.1 (suc n) all n (slash ∷ child_of n) own-Child in omega arith)
      first-own pairs (first ∷ rest) collected e =
          let low =
            sort-head less_pair (λ (p : ℕ × Name). p.0) less_pair-Respects pairs first rest e in
          let below = collected.1 first.0 low n (slash ∷ child_of n) own-Child in
          let all = subst (All (λ (p : ℕ × Name). Child (slash ∷ prefix) children p.0 p.1)) e (
            All-sort less_pair (λ (p : ℕ × Name). Child (slash ∷ prefix) children p.0 p.1) pairs
              collected.0) in
          let (there, whole) = Child-Node first all.0 in
          let same : first.0 ≡ n = omega (arith, least first.0 there) in
          let it : first ≡ (n, slash ∷ child_of n) =
            whole ∙ ap (λ (k : ℕ). (k, slash ∷ child_of k)) same in
          rw it (find_own-acquired (n, slash ∷ child_of n) rest)

      -- On any list of the children, an instance takes the lock, with the number of its node, if
      -- that node is there and no other node has a lower number; while the numbers have nine
      -- digits.
      pub check_lock_acquired-acquired :
          (lock : DistributedLock)
          → lock.created_node_name ≡ slash ∷ child_of n
          → check_lock_acquired (path prefix child_of) lock children ≡ acquired n
      unfolding check_lock_acquired
      check_lock_acquired-acquired lock named =
          let (pairs, e, collected) = numbered_children in
          rw (named, created-zxid, e) (first-own pairs (sort less_pair pairs) collected refl)
