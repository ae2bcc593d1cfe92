-- ===== src/Zookeeper/Election.antt =====
-- libs/zookeeper/impl/dist_lock.cpp: several instances of the lock on one ZooKeeper, with their calls
-- and ZooKeeper's answers in any order. An answer may be late, get lost or be seen more than once.
pub mod Invariant
pub mod Takes
pub mod Exclusion
pub mod Progress
pub mod Waits
use vm_scheduler.Prelude.{
  ℕ, suc, ◌≤◌, ◌≡◌, true, some, List, [], ◌∷◌, get_elem?, erase_idx, ◌==◌, if◌then◌else◌,
}
use vm_scheduler.Zookeeper.Names.{Name, starts_with}
use vm_scheduler.Zookeeper.DistLock.{
  DistributedLock, new_lock, slash, acquired, check_lock_acquired, checked, begin_lock,
  node_created, stop,
}

abbrev pub In {ℓ} : {A : Type ℓ} → List A → A → Type ℓ
In xs x = (i : ℕ) × (get_elem? xs i ≡ some x)

-- The children that ZooKeeper gave an instance, and the next sequence number at that time.
pub record Answer : Type 0 where
  pub instance_id : ℕ
  pub children : List Name
  pub next : ℕ

-- The lock's nodes by their sequence numbers, the next one, which instance asked for which node,
-- the instances, the answers, and all numbers with which the lock was taken.
pub record World : Type 0 where
  pub nodes : List ℕ
  pub next : ℕ
  pub asked_by : ℕ → ℕ
  pub locks : ℕ → DistributedLock
  pub answers : List Answer
  pub granted : List ℕ

abbrev pub update {ℓ} : {A : Type ℓ} → (ℕ → A) → ℕ → A → ℕ → A
update f i a k = if i == k then a else f k

abbrev pub initial : World
initial = record {
  nodes = [];
  next = 0;
  asked_by = λ n. 0;
  locks = λ i. new_lock;
  answers = [];
  granted = [];
}

-- Below, ZooKeeper is `child_of`, the name that it gives the node with a sequence number.
module _ (prefix : Name) (child_of : ℕ → Name) where
  -- The configured path.
  abbrev pub path : Name
  path = slash ∷ prefix

  -- The children of the root with the prefix are the lock's nodes, in any order.
  pub record Lists (nodes : List ℕ) (children : List Name) : Type 0 where
    pub all : (n : ℕ) → In nodes n → In children (child_of n)
    pub only :
        (child : Name)
        → In children child
        → starts_with prefix child ≡ true
        → (n : ℕ) × In nodes n × (child ≡ child_of n)

  pub data Step (w : World) : World → Type 0 where
    -- An instance calls `lock()`, or `stop()`.
    begins : (i : ℕ) → Step w (record w { locks = update w.locks i (begin_lock (w.locks i)) })
    stops : (i : ℕ) → Step w (record w { locks = update w.locks i (stop (w.locks i)) })
    -- ZooKeeper makes the node that an instance asks for.
    creates :
        (i : ℕ)
        → Step w (record w {
          nodes = w.next ∷ w.nodes;
          next = suc w.next;
          asked_by = update w.asked_by w.next i;
        })
    -- The instance hears the name of a node that it asked for.
    hears :
        (i n : ℕ)
        → w.asked_by n ≡ i
        → suc n ≤ w.next
        → Step w
            (record w { locks = update w.locks i (node_created (slash ∷ child_of n) (w.locks i)) })
    -- A node goes: its session has ended, or somebody has erased it.
    removes : (k : ℕ) → Step w (record w { nodes = erase_idx w.nodes k })
    -- ZooKeeper lists the children for an instance.
    lists :
        (i : ℕ) (children : List Name)
        → Lists w.nodes children
        → Step w (record w {
          answers = record { instance_id = i; children = children; next = w.next } ∷ w.answers;
        })
    -- An instance works on such an answer, and takes the lock; or does not.
    takes :
        (a : Answer) (number : ℕ)
        → In w.answers a
        → check_lock_acquired path (w.locks a.instance_id) a.children ≡ acquired number
        → Step w (record w {
          locks = update w.locks a.instance_id (checked (acquired number) (w.locks a.instance_id));
          granted = number ∷ w.granted;
        })

  pub data Reach : World → Type 0 where
    start : Reach initial
    later : {w v : World} → Reach w → Step w v → Reach v

  -- An instance holds the lock with the number of a node that is there.
  abbrev pub Holds : World → ℕ → ℕ → Type 0
  Holds w i number = ((w.locks i).lock_number ≡ some number) × In w.nodes number
