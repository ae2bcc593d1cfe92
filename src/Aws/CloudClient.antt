-- ===== src/Aws/CloudClient.antt =====
-- libs/aws/allocator/impl/cloud_client.cpp: the calls of EC2, one after the other. EC2 is an argument,
-- with whatever state it has.
pub mod Balance
use Prim.Native.String.{String, ◌++◌}
use vm_scheduler.Prelude.{ℕ, Bool, true, false, Option, none, some, List, [], ◌∷◌}
use vm_scheduler.Common.Base64.{base64_encode}
use vm_scheduler.Common.Slot.{SlotCapacity}
use vm_scheduler.Common.Result.{Result, success, failure, allocation_failed}
use vm_scheduler.State.Vm.{AllocatedVmInfo}
use vm_scheduler.Aws.Config.{Credentials, AwsInstancesConfig}
use vm_scheduler.Aws.Instances.{AwsVmInfo, convert_aws_vm_info_to_vm_info, describe_instances}
use vm_scheduler.Aws.InstanceTypes
use vm_scheduler.Aws.InstanceTypes.{get_instance_type_for_slot}
use vm_scheduler.Aws.Paging.{Answers}

-- How a number is printed, and the bytes of a text.
pub record Texts : Type 0 where
  pub print : ℕ → String
  pub bytes : String → List ℕ

abbrev pub user_script : Texts → String → String → Credentials → ℕ → String
user_script texts agent_docker_image_version vms_address creds vm_id =
    "#!/bin/bash\nset -e -x\naws configure set aws_access_key_id "
    ++ creds.access_key_id
    ++ "\naws configure set aws_secret_access_key {"
    ++ creds.secret_key
    ++ "\naws configure set default.region us-east-2\n"
    ++ "aws configure set default.output json\n"
    ++ "sudo aws ecr get-login-password --region us-east-2 | "
    ++ "sudo docker login --username AWS --password-stdin "
    ++ "545868914688.dkr.ecr.us-east-2.amazonaws.com\n"
    ++ "sudo docker run -e VMS_AGENT_SERVER_ADDRESS="
    ++ vms_address
    ++ "-e VMS_AGENT_VM_ID="
    ++ texts.print vm_id
    ++ "-e VMS_AGENT_AWS_ACCESS_KEY_ID="
    ++ creds.access_key_id
    ++ "-e VMS_AGENT_AWS_SECRET_ACCESS_KEY="
    ++ creds.secret_key
    ++ "-e VMS_AGENT_AWS_REGION=us-east-2-e VMS_AGENT_AWS_BUCKET=vms-job-results"
    ++ " --network host 545868914688.dkr.ecr.us-east-2.amazonaws.com/vm-agent:"
    ++ agent_docker_image_version
    ++ "\n"

unfoldable pub get_user_data : Texts → String → String → Credentials → ℕ → Option (List ℕ)
get_user_data texts agent_docker_image_version vms_address creds vm_id =
    base64_encode
      (texts.bytes (user_script texts agent_docker_image_version vms_address creds vm_id))

pub record RunInstancesRequest : Type 0 where
  pub instance_type : String
  pub availability_zone : String
  pub image_id : String
  pub tags : List (String × String)
  pub client_token : String
  pub user_data : Option (List ℕ)
  pub iam_instance_profile : String
  pub key_name : String
  pub min_count : ℕ
  pub max_count : ℕ
  pub on_spot_market : Bool

unfoldable pub create_run_request :
    Texts → String → AwsInstancesConfig → String → ℕ → Bool → RunInstancesRequest
create_run_request texts vm_token config vm_type vm_id use_spot = record {
  instance_type = vm_type;
  availability_zone = "us-east-2a";
  image_id = config.ami_id;
  tags = config.vm_tags;
  client_token = vm_token;
  user_data =
      get_user_data texts config.agent_docker_image_version config.vms_address config.creds vm_id;
  iam_instance_profile = "vmsAgentExecutorRole";
  key_name = "vms_instance";
  min_count = 1;
  max_count = 1;
  on_spot_market = use_spot;
}

-- The calls of EC2: the ids of the new instances where it is a success, and whether it is one.
pub record Ec2 (S : Type 0) : Type 0 where
  pub run_instances : RunInstancesRequest → S → Option (List String) × S
  pub start_instances : String → S → Bool × S
  pub terminate_instances : String → S → Bool × S
  pub describe : S → Answers (List AwsVmInfo)

module _ {S : Type 0} (texts : Texts) (ec2 : Ec2 S) (config : AwsInstancesConfig) where
  abbrev pub created : String → Option (List String) × S → Result AwsVmInfo × S
  created vm_type (none, s) = (failure allocation_failed, s)
  created vm_type (some [], s) = (failure allocation_failed, s)
  created vm_type (some (id ∷ ids), s) = (success (record { type = vm_type; id = id }), s)

  unfoldable pub create_instance : String → String → ℕ → S → Result AwsVmInfo × S
  create_instance vm_token vm_type vm_id s =
      created vm_type (
        ec2.run_instances (create_run_request texts vm_token config vm_type vm_id config.use_spot)
          s)

  abbrev pub if_done : Bool × S → Result (Unit {0}) × S
  if_done (true, s) = (success tt, s)
  if_done (false, s) = (failure allocation_failed, s)

  abbrev pub start_instance : AwsVmInfo → S → Result (Unit {0}) × S
  start_instance info s = if_done (ec2.start_instances info.id s)

  abbrev pub terminate : String → S → Result (Unit {0}) × S
  terminate id s = if_done (ec2.terminate_instances id s)

  -- A VM that does not start is terminated; the error is the same class either way.
  abbrev pub gave_up : Result (Unit {0}) × S → Result AwsVmInfo × S
  gave_up (result, s) = (failure allocation_failed, s)

  abbrev pub started : AwsVmInfo → Result (Unit {0}) × S → Result AwsVmInfo × S
  started info (success _, s) = (success info, s)
  started info (failure e, s) = gave_up (terminate info.id s)

  abbrev pub start_created : Result AwsVmInfo × S → Result AwsVmInfo × S
  start_created (failure e, s) = (failure e, s)
  start_created (success info, s) = started info (start_instance info s)

  unfoldable pub allocate_type : ℕ → String → S → Result AwsVmInfo × S
  allocate_type vm_id vm_type s =
      start_created
        (create_instance (config.token_prefix ++ "-" ++ texts.print vm_id) vm_type vm_id s)

  abbrev pub converted : Result AwsVmInfo × S → Result AllocatedVmInfo × S
  converted (success info, s) = (success (convert_aws_vm_info_to_vm_info info), s)
  converted (failure e, s) = (failure e, s)

  -- `none` is the undefined behaviour of a client that knows no instance type.
  abbrev pub allocate_with : ℕ → Option String → S → Option (Result AllocatedVmInfo × S)
  allocate_with vm_id none s = none
  allocate_with vm_id (some vm_type) s = some (converted (allocate_type vm_id vm_type s))

  unfoldable pub allocate : ℕ → SlotCapacity → S → Option (Result AllocatedVmInfo × S)
  allocate vm_id slot s = allocate_with vm_id (get_instance_type_for_slot config.vm_types slot) s

  unfoldable pub get_all_allocated_vms : ℕ → S → Option (Result (List AllocatedVmInfo))
  get_all_allocated_vms fuel s = describe_instances (ec2.describe s) fuel

  unfoldable pub get_possible_slots : List SlotCapacity
  get_possible_slots = InstanceTypes.get_possible_slots config.vm_types
