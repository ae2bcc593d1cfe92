-- ===== src/Zookeeper/DistLock.antt =====
-- libs/zookeeper/impl/dist_lock.cpp: the lock's fields, and what each call does with them.
pub mod First
use vm_scheduler.Prelude.{ℕ, Bool, true, Option, none, some, List, [], ◌∷◌, if◌then◌else◌}
use vm_scheduler.Std.Ordered.{sort}
use vm_scheduler.Zookeeper.Names.{Name, drop, get_zxid, starts_with, less_pair, same_pair}

pub record DistributedLock : Type 0 where
  pub created_node_name : Name
  pub lock_number : Option ℕ
  pub is_stopped : Bool

abbrev pub new_lock : DistributedLock
new_lock = record { created_node_name = []; lock_number = none; is_stopped = Bool.false }

-- `"/"`.
abbrev pub slash : ℕ
slash = 47

-- What `checkLockAcquired` does: the number is set, or the node before the own one is watched, or a
-- new node is asked for, or the search is made again after an exception. Where no child has the
-- prefix, it reads behind the end of an empty vector.
pub data Check : Type 0 where
  acquired : ℕ → Check
  waits_for : Name → Check
  asks_again failed undefined : Check

-- The children with the prefix of the lock's path, which starts with a slash, and their numbers.
unfoldable pub children_with_seq : Name → List Name → Option (List (ℕ × Name))
children_with_seq path [] = some []
children_with_seq path (child ∷ children) =
    if starts_with (drop 1 path) child
    then elim (get_zxid child) [
      | none ↦ none
      | some number ↦ elim (children_with_seq path children) [
        | none ↦ none
        | some rest ↦ some ((number, slash ∷ child) ∷ rest)
      ]
    ]
    else children_with_seq path children

-- `std::find` behind the first element, with the element before the place that it looks at.
unfoldable pub find_behind : ℕ × Name → ℕ × Name → List (ℕ × Name) → Check
find_behind own previous [] = asks_again
find_behind own previous (child ∷ children) =
    let rest = find_behind own child children in
    if same_pair child own then waits_for previous.1 else rest

unfoldable pub find_own : ℕ × Name → List (ℕ × Name) → Check
find_own own [] = undefined
find_own own (child ∷ children) =
    if same_pair child own then acquired own.0 else find_behind own child children

-- The number of the own node is read once the children are sorted.
abbrev pub compare_with : Name → Option ℕ → Option (List (ℕ × Name)) → Check
compare_with created number none = failed
compare_with created none (some children) = failed
compare_with created (some number) (some children) =
    find_own (number, created) (sort less_pair children)

unfoldable pub check_lock_acquired : Name → DistributedLock → List Name → Check
check_lock_acquired path lock children =
    compare_with lock.created_node_name (get_zxid lock.created_node_name)
      (children_with_seq path children)

-- What the check leaves in the fields.
abbrev pub checked : Check → DistributedLock → DistributedLock
checked (acquired number) lock = record lock { lock_number = some number }
checked _ lock = lock

-- `lock()` up to its call of ZooKeeper, and after that call; `stop()`.
abbrev pub begin_lock : DistributedLock → DistributedLock
begin_lock lock = if lock.is_stopped then lock else record lock { lock_number = none }

abbrev pub node_created : Name → DistributedLock → DistributedLock
node_created name lock = record lock { created_node_name = name }

abbrev pub stop : DistributedLock → DistributedLock
stop lock = record lock { is_stopped = true }
