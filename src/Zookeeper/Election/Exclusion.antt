-- ===== src/Zookeeper/Election/Exclusion.antt =====
-- What the election promises.
use vm_scheduler.Prelude.{ℕ, ◌≤◌, ◌≡◌, sym, ap, ◌∙◌, arith}
use vm_scheduler.Zookeeper.Names.{Name}
use vm_scheduler.Zookeeper.Election.{In, World, Reach, Holds}
use vm_scheduler.Zookeeper.Election.Takes.{limit, Numbers, Reach-Inv}

-- If ZooKeeper numbers the nodes as it documents, then in every state that calls, lost or late
-- answers and removed nodes can lead to, up to a thousand million nodes, of an instance that holds
-- the lock with a node that is there: no number with which any instance ever took the lock is
-- greater than its number, and any other instance that holds the lock so is the same instance with
-- the same number.
pub Holds-alone :
    (prefix : Name) (child_of : ℕ → Name) (w : World) (i number : ℕ)
    → Numbers prefix child_of
    → Reach prefix child_of w
    → w.next ≤ limit
    → Holds prefix child_of w i number
    → ((granted : ℕ) → In w.granted granted → granted ≤ number)
      × ((k other : ℕ) → Holds prefix child_of w k other → (k ≡ i) × (other ≡ number))
Holds-alone prefix child_of w i number numbers r small (set, there) =
    let inv = Reach-Inv prefix child_of numbers r small in
    (
      λ granted m. (inv.past granted m).1 number there,
      λ k other (set', there').
          let (mine, asked, old) = inv.held i number set in
          let (its, asked', old') = inv.held k other set' in
          let a = (inv.past number mine).1 other there' in
          let b = (inv.past other its).1 number there in
          let same : other ≡ number = omega arith in
          (sym asked' ∙ ap w.asked_by same ∙ asked, same),
    )
