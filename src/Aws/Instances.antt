-- ===== src/Aws/Instances.antt =====
-- libs/aws/allocator/impl/describe_instances.cpp and helpers.cpp: the VMs of the cloud. An unordered
-- set is a list without doubles.
pub mod Complete
use Prim.Native.String.{String, ◌++◌ as text_append}
use vm_scheduler.Prelude.{ℕ, Option, List, [], ◌∷◌, ◌++◌, if◌then◌else◌}
use vm_scheduler.Common.Result.{Result}
use vm_scheduler.State.Vm.{AllocatedVmInfo}
use vm_scheduler.Services.Allocator.{has_info}
use vm_scheduler.Aws.Paging.{Answers, collect}

pub record AwsVmInfo : Type 0 where
  pub type : String
  pub id : String

abbrev pub convert_aws_vm_info_to_vm_info : AwsVmInfo → AllocatedVmInfo
convert_aws_vm_info_to_vm_info info = record { id = info.id; type = info.type }

abbrev pub insert_info : AllocatedVmInfo → List AllocatedVmInfo → List AllocatedVmInfo
insert_info vm infos = if has_info vm infos then infos else infos ++ vm ∷ []

unfoldable pub insert_instances : List AllocatedVmInfo → List AwsVmInfo → List AllocatedVmInfo
insert_instances infos [] = infos
insert_instances infos (info ∷ instances) =
    insert_instances (insert_info (convert_aws_vm_info_to_vm_info info) infos) instances

-- A page holds reservations, and each of them instances.
unfoldable pub insert_reservations :
    List AllocatedVmInfo → List (List AwsVmInfo) → List AllocatedVmInfo
insert_reservations infos [] = infos
insert_reservations infos (instances ∷ reservations) =
    insert_reservations (insert_instances infos instances) reservations

-- The answers are those to requests with the filters on the tags and on the states `pending` and
-- `running`.
unfoldable pub describe_instances :
    Answers (List AwsVmInfo) → ℕ → Option (Result (List AllocatedVmInfo))
describe_instances answers fuel = collect answers insert_reservations fuel "" []

abbrev pub request_filters : List (String × String) → List (String × List String)
request_filters [] = ("instance-state-name", "pending" ∷ "running" ∷ []) ∷ []
request_filters ((key, value) ∷ tags) = (text_append "tag:" key, value ∷ []) ∷ request_filters tags
