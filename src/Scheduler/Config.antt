-- ===== src/Scheduler/Config.antt =====
-- libs/scheduler/impl/complex_vm_assigner_config.{h,cpp} and create_vm_assigner.cpp: the names of
-- the orderings, of the placement strategies and of the assigners in the configuration.
use Prim.Native.String.{String}
use vm_scheduler.Prelude.{Option, List, [], ◌∷◌}
use vm_scheduler.Std.Names.{at_name}

pub data JobOrdering : Type 0 where
  fifo ascending descending : JobOrdering

pub data AllocationStrategy : Type 0 where
  first_fit next_fit worst_fit best_fit : AllocationStrategy

pub data VmAssignerType : Type 0 where
  simple complex : VmAssignerType

pub record ComplexVmAssignerConfig : Type 0 where
  pub job_ordering : JobOrdering
  pub allocation_strategy : AllocationStrategy

abbrev orderings : List (String × JobOrdering)
orderings = ("fifo", fifo) ∷ ("minmin", ascending) ∷ ("maxmin", descending) ∷ []

unfoldable pub job_ordering_from_string : String → Option JobOrdering
unfolding at_name
job_ordering_from_string s = at_name s orderings

abbrev strategies : List (String × AllocationStrategy)
strategies =
    ("firstfit", first_fit)
    ∷ ("nextfit", next_fit)
    ∷ ("bestfit", best_fit)
    ∷ ("worstfit", worst_fit)
    ∷ []

unfoldable pub allocation_strategy_from_string : String → Option AllocationStrategy
unfolding at_name
allocation_strategy_from_string s = at_name s strategies

unfoldable pub assigner_name : VmAssignerType → String
assigner_name simple = "simple"
assigner_name complex = "complex"

abbrev assigners : List (String × VmAssignerType)
assigners = ("simple", simple) ∷ ("complex", complex) ∷ []

unfoldable pub vm_assigner_type_from_string : String → Option VmAssignerType
unfolding at_name
vm_assigner_type_from_string s = at_name s assigners
