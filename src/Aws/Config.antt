-- ===== src/Aws/Config.antt =====
-- libs/aws/allocator/impl/config.cpp and libs/common/impl/env.cpp: what the client is set up with.
use Prim.Native.String.{String}
use vm_scheduler.Prelude.{ℕ, Bool, not, Option, none, some, List, [], ◌∷◌, ◌==◌}
use vm_scheduler.Common.Result.{Result, success, failure, runtime_exception, ◌>>=◌}
use vm_scheduler.Aws.Paging.{Answers}
use vm_scheduler.Aws.InstanceTypes.{
  InstanceTypeInfo, AwsInstanceTypeInfo, describe_instance_types, sorted_types,
}

-- `std::getenv`, and `std::atoi` on what it gives.
pub record Environment : Type 0 where
  pub text : String → Option String
  pub number : String → Option ℕ

abbrev pub or_default {ℓ} : {A : Type ℓ} → Option A → A → A
or_default none value = value
or_default (some value) other = value

abbrev pub get_from_env_or_default : Environment → String → String → String
get_from_env_or_default env name value = or_default (env.text name) value

abbrev pub get_number_from_env_or_default : Environment → String → ℕ → ℕ
get_number_from_env_or_default env name value = or_default (env.number name) value

-- The class is `std::runtime_error` there; nobody asks for it.
abbrev pub or_throw : Option String → Result String
or_throw none = failure runtime_exception
or_throw (some value) = success value

abbrev pub get_from_env_or_throw : Environment → String → Result String
get_from_env_or_throw env name = or_throw (env.text name)

pub record Credentials : Type 0 where
  pub access_key_id : String
  pub secret_key : String

unfoldable pub create_aws_client_config : Environment → Result Credentials
create_aws_client_config env = do
  access_key_id ← get_from_env_or_throw env "AWS_EC2_ACCESS_KEY_ID"
  secret_key ← get_from_env_or_throw env "AWS_EC2_SECRET_KEY"
  success (record { access_key_id = access_key_id; secret_key = secret_key })

pub record AwsInstancesConfig : Type 0 where
  pub ami_id : String
  pub vm_types : List InstanceTypeInfo
  pub vm_tags : List (String × String)
  pub token_prefix : String
  pub agent_docker_image_version : String
  pub vms_address : String
  pub creds : Credentials
  pub use_spot : Bool

abbrev pub get_vm_tags : List (String × String)
get_vm_tags = ("owner", "vms-prod") ∷ []

abbrev pub config_with : Environment → Result (List InstanceTypeInfo) → Result AwsInstancesConfig
config_with env infos = do
  types ← infos
  vms_address ← get_from_env_or_throw env "VMS_ADDRESS"
  access_key_id ← get_from_env_or_throw env "VMS_AGENT_ECR_ACCESS_KEY_ID"
  secret_key ← get_from_env_or_throw env "VMS_AGENT_ECR_SECRET_KEY"
  success (record {
    ami_id = get_from_env_or_default env "AWS_EC2_AMI_ID" "ami-0aaa7d236c8b7d9b9";
    vm_types = sorted_types types;
    vm_tags = get_vm_tags;
    token_prefix = get_from_env_or_default env "VMS_AWS_VM_TOKEN_PREFIX" "vms-prod";
    agent_docker_image_version =
        get_from_env_or_default env "VMS_AGENT_DOCKER_IMAGE_VERSION" "latest";
    vms_address = vms_address;
    creds = record { access_key_id = access_key_id; secret_key = secret_key };
    use_spot = not (get_number_from_env_or_default env "VMS_USE_SPOT" 0 == 0);
  })

abbrev pub with_types :
    Environment → Option (Result (List InstanceTypeInfo)) → Option (Result AwsInstancesConfig)
with_types env none = none
with_types env (some infos) = some (config_with env infos)

-- The answers are those about the types of the class that `VMS_AWS_INSTANCE_CLASS` or the default
-- names; too little fuel for the pages gives `none`.
unfoldable pub create_aws_instances_config :
    Environment → (String → Answers AwsInstanceTypeInfo) → ℕ → Option (Result AwsInstancesConfig)
create_aws_instances_config env answers fuel =
    let instance_class = get_from_env_or_default env "VMS_AWS_INSTANCE_CLASS" "c6g." in
    with_types env (describe_instance_types (answers instance_class) fuel)
