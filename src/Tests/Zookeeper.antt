-- ===== src/Tests/Zookeeper.antt =====
-- libs/zookeeper: an instance that takes the lock.
use mathlib.Core.Option.{some-injective}
use vm_scheduler.Prelude.{
  ◌⊎◌, inl, inr, subst, List, true, ℕ, zero, suc, ap, sym, get_elem?, ◌≤◌, ◌<◌, ◌≡◌, refl, some, [],
  ◌∷◌, ◌++◌, arith,
}
use vm_scheduler.Std.Ordered.{sort, insert_all, insert_ordered}
use vm_scheduler.Zookeeper.Names.{Name, get_zxid, atoi_from, starts_with}
use vm_scheduler.Zookeeper.Names.Decimal.{decimal, get_zxid-decimal}
use vm_scheduler.Zookeeper.DistLock.{
  check_lock_acquired, children_with_seq, find_own, find_behind, waits_for, acquired, checked,
  node_created, new_lock, slash,
}
use vm_scheduler.Zookeeper.Election.{
  In, Answer, World, initial, update, Lists, Reach, Holds, start, later, creates, hears, lists,
  takes,
}
use vm_scheduler.Zookeeper.Election.Exclusion.{Holds-alone}
use vm_scheduler.Zookeeper.Election.Takes.{limit}
use vm_scheduler.Zookeeper.Election.Progress.{check_lock_acquired-acquired}
use vm_scheduler.Zookeeper.Election.Waits.{check_lock_acquired-waits_for}

-- "lock-".
abbrev prefix : Name
prefix = 108 ∷ 111 ∷ 99 ∷ 107 ∷ 45 ∷ []

abbrev child_of : ℕ → Name
child_of n = prefix ++ decimal 10 n

get_zxid-decimal_example : get_zxid (prefix ++ decimal 10 1000000007) ≡ some 7
get_zxid-decimal_example = get_zxid-decimal prefix 1000000007

-- An instance with the second node waits for the first one.
waits_test :
    check_lock_acquired
      (slash ∷ prefix)
      (record new_lock { created_node_name = slash ∷ child_of 1 })
      (child_of 1 ∷ child_of 0 ∷ [])
    ≡ waits_for (slash ∷ child_of 0)
unfolding check_lock_acquired children_with_seq get_zxid atoi_from sort insert_all insert_ordered
    find_own find_behind
waits_test = refl

-- One instance asks for a node, hears of it, lists the children and takes the lock.
abbrev made : World
made = record {
  nodes = 0 ∷ [];
  next = 1;
  asked_by = update initial.asked_by 0 0;
  locks = initial.locks;
  answers = [];
  granted = [];
}

abbrev heard : World
heard = record made {
  locks = update made.locks 0 (node_created (slash ∷ child_of 0) (made.locks 0));
}

abbrev answer : Answer
answer = record { instance_id = 0; children = child_of 0 ∷ []; next = 1 }

abbrev listed : World
listed = record heard { answers = answer ∷ [] }

abbrev taken : World
taken = record listed {
  locks = update listed.locks 0 (checked (acquired 0) (listed.locks 0));
  granted = 0 ∷ [];
}

one_child : Lists prefix child_of (0 ∷ []) (child_of 0 ∷ [])
one_child = record {
  all = λ n m. (m.0, the_node m);
  only = λ child m ours. (0, (0, refl), the_child m);
}
  where
    the_node : {n : ℕ} (m : In (0 ∷ []) n) → get_elem? (child_of 0 ∷ []) m.0 ≡ some (child_of n)
    the_node (zero, e) = ap (λ n. some (child_of n)) (some-injective _ _ e)
    the_node (suc i, e) = cc

    the_child : {child : Name} → In (child_of 0 ∷ []) child → child ≡ child_of 0
    the_child (zero, e) = sym (some-injective _ _ e)
    the_child (suc i, e) = cc

takes_lock : check_lock_acquired (slash ∷ prefix) (listed.locks 0) answer.children ≡ acquired 0
unfolding check_lock_acquired children_with_seq get_zxid atoi_from sort insert_all insert_ordered
    find_own
takes_lock = refl

reached : Reach prefix child_of taken
reached =
    later
      (later (later (later start (creates 0)) (hears 0 0 refl (omega arith)))
        (lists 0 (child_of 0 ∷ []) one_child))
      (takes answer 0 (0, refl) takes_lock)

Holds-alone_example :
    ((granted : ℕ) → In taken.granted granted → granted ≤ 0)
    × ((k other : ℕ) → Holds prefix child_of taken k other → (k ≡ 0) × (other ≡ 0))
Holds-alone_example =
    Holds-alone prefix child_of taken 0 0 (λ n h. refl) reached (omega arith) (refl, (0, refl))

one_small : (n : ℕ) → In (0 ∷ []) n → n < limit
one_small n (zero, e) = let zero_is : 0 ≡ n = some-injective _ _ e in omega arith
one_small n (suc i, e) = cc

one_least : (n : ℕ) → In (0 ∷ []) n → 0 ≤ n
one_least n m = omega arith

check_lock_acquired-acquired_example :
    check_lock_acquired (slash ∷ prefix) (heard.locks 0) (child_of 0 ∷ []) ≡ acquired 0
check_lock_acquired-acquired_example =
    check_lock_acquired-acquired prefix child_of (λ n h. refl) (0 ∷ []) one_small (child_of 0 ∷ [])
      one_child 0 (0, refl) one_least (heard.locks 0) refl

-- Two nodes, between which one was removed, and a child of another lock.
abbrev some_nodes : List ℕ
some_nodes = 2 ∷ 0 ∷ []

abbrev some_children : List Name
some_children = child_of 2 ∷ (120 ∷ []) ∷ child_of 0 ∷ []

some_node : {n : ℕ} → In some_nodes n → (n ≡ 2) ⊎ (n ≡ 0)
some_node (zero, e) = inl (sym (some-injective _ _ e))
some_node (suc zero, e) = inr (sym (some-injective _ _ e))
some_node (suc (suc i), e) = cc

some_child :
    (child : Name)
    → In some_children child
    → starts_with prefix child ≡ true
    → (n : ℕ) × In some_nodes n × (child ≡ child_of n)
some_child child (zero, e) ours = (2, (0, refl), sym (some-injective _ _ e))
some_child child (suc zero, e) ours =
    let other : (120 ∷ []) ≡ child = some-injective _ _ e in
    absurd (let bad = subst (λ c. starts_with prefix c ≡ true) (sym other) ours in cc)
some_child child (suc (suc zero), e) ours = (0, (1, refl), sym (some-injective _ _ e))
some_child child (suc (suc (suc i)), e) ours = cc

some_listed : Lists prefix child_of some_nodes some_children
some_listed = record {
  all = λ n m. elim (some_node m) [ inl e ↦ (0, rw e refl) | inr e ↦ (2, rw e refl) ];
  only = some_child;
}

some_small : (n : ℕ) → In some_nodes n → n < limit
some_small n m = elim (some_node m) [ inl e ↦ omega arith | inr e ↦ omega arith ]

some_greatest : (n : ℕ) → In some_nodes n → n < 2 → n ≤ 0
some_greatest n m h = elim (some_node m) [ inl e ↦ omega arith | inr e ↦ omega arith ]

check_lock_acquired-waits_for_example :
    check_lock_acquired
      (slash ∷ prefix)
      (record new_lock { created_node_name = slash ∷ child_of 2 })
      some_children
    ≡ waits_for (slash ∷ child_of 0)
check_lock_acquired-waits_for_example =
    check_lock_acquired-waits_for prefix child_of (λ n h. refl) some_nodes some_small some_children
      some_listed 2 0 (0, refl) (1, refl) (omega arith) some_greatest
      (record new_lock { created_node_name = slash ∷ child_of 2 }) refl
