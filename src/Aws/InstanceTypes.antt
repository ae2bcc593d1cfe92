-- ===== src/Aws/InstanceTypes.antt =====
-- libs/aws/allocator/impl/describe_instance_types.cpp, and the choice of an instance type in
-- cloud_client.cpp. A type of the SDK is its name.
pub mod Choice
use Prim.Native.String.{String}
use vm_scheduler.Prelude.{ℕ, ◌-◌, Bool, Option, none, some, List, [], ◌++◌, map, length, get_elem?}
use vm_scheduler.Common.Slot.{SlotCapacity, less}
use vm_scheduler.Common.Result.{Result}
use vm_scheduler.Std.LowerBound.{lower_bound}
use vm_scheduler.Std.Ordered.{sort}
use vm_scheduler.Aws.Paging.{Answers, collect}

pub record InstanceTypeInfo : Type 0 where
  pub type : String
  pub capacity : SlotCapacity

-- What EC2 says of a type.
pub record AwsInstanceTypeInfo : Type 0 where
  pub instance_type : String
  pub default_cores : ℕ
  pub size_in_mib : ℕ

abbrev pub type_info : AwsInstanceTypeInfo → InstanceTypeInfo
type_info info = record {
  type = info.instance_type;
  capacity = record { cpu = info.default_cores; ram = info.size_in_mib };
}

abbrev pub add_types : List InstanceTypeInfo → List AwsInstanceTypeInfo → List InstanceTypeInfo
add_types infos page = infos ++ map type_info page

-- The answers are those to requests with the filter on the instance class.
unfoldable pub describe_instance_types :
    Answers AwsInstanceTypeInfo → ℕ → Option (Result (List InstanceTypeInfo))
describe_instance_types answers fuel = collect answers add_types fuel "" []

-- `InstanceTypeInfo::operator<`, by which the types are sorted.
abbrev pub less_type : InstanceTypeInfo → InstanceTypeInfo → Bool
less_type a b = less a.capacity b.capacity

unfoldable pub sorted_types : List InstanceTypeInfo → List InstanceTypeInfo
sorted_types infos = sort less_type infos

-- The end of the range stands for the last type; with no type at all it is dereferenced: `none`.
abbrev pub type_at : List InstanceTypeInfo → Option InstanceTypeInfo → Option String
type_at infos (some info) = some info.type
type_at infos none = elim (get_elem? infos (length infos - 1)) [
  | none ↦ none
  | some info ↦ some info.type
]

unfoldable pub get_instance_type_for_slot : List InstanceTypeInfo → SlotCapacity → Option String
get_instance_type_for_slot infos slot =
    type_at infos (get_elem? infos (lower_bound (λ info. less info.capacity slot) infos))

unfoldable pub get_possible_slots : List InstanceTypeInfo → List SlotCapacity
get_possible_slots infos = map (λ info. info.capacity) infos
