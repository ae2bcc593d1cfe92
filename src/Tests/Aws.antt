-- ===== src/Tests/Aws.antt =====
-- libs/aws/allocator at a small EC2, whose state is the number of its instances.
use Prim.Native.String.{String}
use text.Mathlib.Text.{◌==◌ as str_eq}
use vm_scheduler.Prelude.{
  ℕ, ◌≡◌, refl, Bool, true, false, none, some, List, [], ◌∷◌, get_elem?, arith, if◌then◌else◌,
}
use vm_scheduler.Common.Slot.{SlotCapacity}
use vm_scheduler.Common.Result.{success}
use vm_scheduler.State.Vm.{AllocatedVmInfo}
use vm_scheduler.Services.Allocator.{has_info}
use vm_scheduler.Std.LowerBound.{lower_bound, lower_bound_from}
use vm_scheduler.Std.Ordered.{sort, insert_all, insert_ordered}
use vm_scheduler.Aws.Paging.{Page, Answers, last, more}
use vm_scheduler.Aws.InstanceTypes.{
  InstanceTypeInfo, sorted_types, get_possible_slots, get_instance_type_for_slot,
}
use vm_scheduler.Aws.InstanceTypes.Choice.{get_instance_type_for_slot-own}
use vm_scheduler.Aws.Instances.{AwsVmInfo, describe_instances}
use vm_scheduler.Aws.Instances.Complete.{reported, describe_instances_complete}
use vm_scheduler.Aws.Config.{AwsInstancesConfig}
use vm_scheduler.Aws.CloudClient.{Texts, Ec2}

abbrev capacity : ℕ → ℕ → SlotCapacity
capacity cpu ram = record { cpu = cpu; ram = ram }

abbrev infos : List InstanceTypeInfo
infos =
    record { type = "c6g.xlarge"; capacity = capacity 4 8 }
    ∷ record { type = "c6g.large"; capacity = capacity 2 4 }
    ∷ []

get_instance_type_for_slot-own_example :
    (k : ℕ) × (found : InstanceTypeInfo) × (get_elem? (sorted_types infos) k ≡ some found)
    × (found.capacity ≡ capacity 4 8)
    × (get_instance_type_for_slot (sorted_types infos) (capacity 4 8) ≡ some found.type)
unfolding get_possible_slots sorted_types sort insert_all insert_ordered
get_instance_type_for_slot-own_example = get_instance_type_for_slot-own infos 1 (capacity 4 8) refl

-- A slot that was not offered can get a type that lacks its memory.
type_lacks : get_instance_type_for_slot (sorted_types infos) (capacity 1 6) ≡ some "c6g.large"
unfolding get_instance_type_for_slot lower_bound lower_bound_from sorted_types sort insert_all
    insert_ordered
type_lacks = refl

-- Two pages of one instance each.
abbrev first_page : Page (List AwsVmInfo)
first_page = record {
  items = (record { type = "c6g.large"; id = "i-1" } ∷ []) ∷ [];
  next_token = "next";
}

abbrev second_page : Page (List AwsVmInfo)
second_page = record {
  items = (record { type = "c6g.large"; id = "i-2" } ∷ []) ∷ [];
  next_token = "";
}

abbrev answers : Answers (List AwsVmInfo)
answers token = if str_eq token "" then some first_page else some second_page

describe_instances_complete_example :
    (found : List AllocatedVmInfo) × (describe_instances answers 2 ≡ some (success found))
    × ((vm : AllocatedVmInfo)
        → has_info vm found ≡ has_info vm (reported (first_page ∷ second_page ∷ [])))
describe_instances_complete_example =
    describe_instances_complete answers (first_page ∷ second_page ∷ []) 2
      (more first_page refl refl (last second_page refl refl)) (omega arith)

abbrev texts : Texts
texts = record { print = λ n. "7"; bytes = λ text. 7 ∷ 7 ∷ [] }

-- The instances that are alive, and the tokens that were used.
abbrev Instances : Type 0
Instances = List String × List String

abbrev token_used : String → List String → Bool
token_used token [] = false
token_used token (other ∷ tokens) = if str_eq token other then true else token_used token tokens

abbrev end_first : Instances → Bool × Instances
end_first ([], tokens) = (false, ([], tokens))
end_first (id ∷ others, tokens) = (true, (others, tokens))

-- An EC2 that runs what it is asked for, one instance for each token, but starts nothing.
abbrev ec2 : Ec2 Instances
ec2 = record {
  run_instances = λ request s.
      if token_used request.client_token s.1
      then (some ("i-1" ∷ []), s)
      else (some ("i-1" ∷ []), ("i-1" ∷ s.0, request.client_token ∷ s.1));
  start_instances = λ id s. (false, s);
  terminate_instances = λ id s. end_first s;
  describe = λ s token. none;
}

abbrev config : AwsInstancesConfig
config = record {
  ami_id = "ami";
  vm_types =
      record { type = "c6g.large"; capacity = capacity 2 4 }
      ∷ record { type = "c6g.xlarge"; capacity = capacity 4 8 }
      ∷ [];
  vm_tags = [];
  token_prefix = "vms";
  agent_docker_image_version = "latest";
  vms_address = "address";
  creds = record { access_key_id = "id"; secret_key = "key" };
  use_spot = false;
}
