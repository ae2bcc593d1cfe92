-- ===== src/Zookeeper/Election/Takes.antt =====
-- The step by which an instance takes the lock keeps the invariant, and so do all.
use mathlib.Core.Option.{some-injective}
use vm_scheduler.Prelude.{
  ℕ, ◌≤◌, ◌<◌, ◌≡◌, refl, sym, ap, subst, ◌∙◌, inl, inr, true, some, [], ◌∷◌, ◌++◌, arith,
}
use vm_scheduler.Zookeeper.Names.{Name, get_zxid, starts_with}
use vm_scheduler.Zookeeper.Names.Decimal.{decimal, get_zxid-decimal}
use vm_scheduler.Zookeeper.DistLock.{slash, acquired, checked, node_created, stop}
use vm_scheduler.Zookeeper.DistLock.First.{IsFirst, check_lock_acquired-IsFirst}
use vm_scheduler.Zookeeper.Election.{
  In, Answer, World, update, path, Step, begins, stops, creates, hears, removes, lists, takes,
  Reach, start, later,
}
use vm_scheduler.Zookeeper.Election.Invariant.{
  In-cons, In-later, Seen, Past, Inv, Inv-initial, lock-Inv, begins-Inv, creates-Inv, removes-Inv,
  answer-Inv,
}

starts_with-append : (prefix rest : Name) → starts_with prefix (prefix ++ rest) ≡ true
starts_with-append [] rest = refl
starts_with-append (c ∷ prefix) rest = ground (arith, starts_with-append prefix rest)

no_name {ℓ} : {A : Type ℓ} {c : ℕ} {name : Name} → ◌≡◌ {A = Name} [] (c ∷ name) → A
no_name e = cc

same_child : {a b : Name} → ◌≡◌ {A = Name} (slash ∷ a) (slash ∷ b) → a ≡ b
same_child e = cc

-- The numbers up to this one have nine digits.
abbrev pub limit : ℕ
limit = 1000000000

-- ZooKeeper puts the sequence number, in ten digits, behind the prefix.
abbrev pub Numbers : Name → (ℕ → Name) → Type 0
Numbers prefix child_of = (n : ℕ) → n < limit → child_of n ≡ prefix ++ decimal 10 n

module _ (prefix : Name) (child_of : ℕ → Name) (numbers : Numbers prefix child_of) where
  pub get_zxid-after :
      (front : Name) (n : ℕ) → n < limit → get_zxid (front ++ decimal 10 n) ≡ some n
  get_zxid-after front n h = get_zxid-decimal front n ∙ ap some (omega arith)

  pub child-zxid : (n : ℕ) → n < limit → get_zxid (child_of n) ≡ some n
  child-zxid n h = ap get_zxid (numbers n h) ∙ get_zxid-after prefix n h

  pub child-starts : (n : ℕ) → n < limit → starts_with prefix (child_of n) ≡ true
  child-starts n h =
      ap (starts_with prefix) (numbers n h) ∙ starts_with-append prefix (decimal 10 n)

  module _ (w : World) (small : w.next ≤ limit) (inv : Inv prefix child_of w) (a : Answer)
      (here : In w.answers a) (number : ℕ)
      (first : IsFirst
        (path prefix child_of)
        (w.locks a.instance_id).created_node_name
        a.children
        number) where
    abbrev seen : Seen prefix child_of w.nodes w.next a
    seen = inv.seen a here

    -- The number is the own node's sequence number, which the answer knew.
    number-known : (number < a.next) × (first.own.child ≡ child_of number)
    number-known =
        let (n, old, e) =
          seen.only first.own.child (first.own.place, first.own.found) first.own.ours in
        let small_n : n < limit = omega (arith, seen.past) in
        let same : number ≡ n =
          some-injective number n (sym first.own.numbered ∙ ap get_zxid e ∙ child-zxid n small_n) in
        (omega (arith, same), e ∙ ap child_of (sym same))

    number-asked : w.asked_by number ≡ a.instance_id
    number-asked = elim (inv.named a.instance_id) [
      | inl e ↦ no_name (sym e ∙ first.own.named)
      | inr (n, old, asked, e) ↦
          let child : child_of n ≡ child_of number =
            same_child (sym e ∙ first.own.named) ∙ number-known.1 in
          let same : n ≡ number = some-injective n number (
            sym (child-zxid n (omega arith))
            ∙ ap get_zxid child
            ∙ child-zxid number (omega (arith, number-known.0, seen.past))) in
          ap w.asked_by (sym same) ∙ asked
    ]

    number-least : (n : ℕ) → In w.nodes n → number ≤ n
    number-least n m = elim (seen.all n m) [
      | inr new ↦ omega (arith, number-known.0)
      | inl (place, found) ↦
          let small_n : n < limit = omega (arith, inv.below n m) in
          first.least n (slash ∷ child_of n) (record {
            place = place;
            child = child_of n;
            found = found;
            ours = child-starts n small_n;
            numbered = child-zxid n small_n;
            named = refl;
          })
    ]

    granted-Inv : Inv prefix child_of (record w { granted = number ∷ w.granted })
    granted-Inv = record {
      below = inv.below;
      seen = inv.seen;
      named = inv.named;
      held = λ i k e.
          let (m, asked, old) = inv.held i k e in (In-later number w.granted m, asked, old);
      past = λ g m. elim (In-cons number w.granted g m) [
        | inr m ↦ inv.past g m
        | inl e ↦
            subst (Past prefix child_of w.nodes w.next) e
              (omega (arith, number-known.0, seen.past), number-least)
      ];
    }

    takes-Inv : Inv prefix child_of (record w {
      locks = update w.locks a.instance_id (checked (acquired number) (w.locks a.instance_id));
      granted = number ∷ w.granted;
    })
    takes-Inv =
        lock-Inv prefix child_of (record w { granted = number ∷ w.granted }) a.instance_id
          (checked (acquired number) (w.locks a.instance_id)) granted-Inv (inv.named a.instance_id)
          λ k e.
            subst (λ k. In (number ∷ w.granted) k × (w.asked_by k ≡ a.instance_id) × (k < w.next))
              (some-injective number k e)
              ((0, refl), number-asked, omega (arith, number-known.0, seen.past))

  Step-Inv :
      {w v : World}
      → Step prefix child_of w v
      → w.next ≤ limit
      → Inv prefix child_of w
      → Inv prefix child_of v
  Step-Inv {w} (begins i) small inv = begins-Inv prefix child_of w i inv
  Step-Inv {w} (stops i) small inv =
      lock-Inv prefix child_of w i (stop (w.locks i)) inv (inv.named i) (inv.held i)
  Step-Inv {w} (creates i) small inv = creates-Inv prefix child_of w i inv
  Step-Inv {w} (hears i n asked old) small inv =
      lock-Inv prefix child_of w i (node_created (slash ∷ child_of n) (w.locks i)) inv
        (inr (n, omega arith, asked, refl)) (inv.held i)
  Step-Inv {w} (removes k) small inv = removes-Inv prefix child_of w k inv
  Step-Inv {w} (lists i children l) small inv = answer-Inv prefix child_of w i children l inv
  Step-Inv {w} (takes a number here e) small inv = takes-Inv w small inv a here number (
      check_lock_acquired-IsFirst (path prefix child_of) (w.locks a.instance_id) a.children number
        e)

  Step-next : {w v : World} → Step prefix child_of w v → w.next ≤ v.next
  Step-next (begins i) = omega arith
  Step-next (stops i) = omega arith
  Step-next (creates i) = omega arith
  Step-next (hears i n asked old) = omega arith
  Step-next (removes k) = omega arith
  Step-next (lists i children l) = omega arith
  Step-next (takes a number here e) = omega arith

  pub Reach-Inv : {w : World} → Reach prefix child_of w → w.next ≤ limit → Inv prefix child_of w
  Reach-Inv start small = Inv-initial prefix child_of
  Reach-Inv (later {w} r st) small =
      let before : w.next ≤ limit = omega (arith, Step-next st) in
      Step-Inv st before (Reach-Inv r before)
