-- ===== src/Aws/CloudClient/Balance.antt =====
-- libs/aws/allocator/impl/cloud_client.cpp, allocate: which instances it leaves behind.
use Prim.Native.String.{String}
use vm_scheduler.Prelude.{◌≡◌, ◌⊎◌, Bool, true, false, Option, none, some, List, [], ◌∷◌}
use vm_scheduler.Common.Result.{Result, success, failure}
use vm_scheduler.State.Vm.{AllocatedVmInfo}
use vm_scheduler.Aws.Config.{AwsInstancesConfig}
use vm_scheduler.Aws.Instances.{AwsVmInfo}
use vm_scheduler.Aws.CloudClient.{Texts, Ec2, RunInstancesRequest}

-- What is alive after a call that runs at most one instance, the newest first. Where the call fails
-- with an error the instance may have been made all the same.
abbrev Ran : Option (List String) → List String → List String → Type 0
Ran (some (id ∷ ids)) before after = after ≡ id ∷ before
Ran (some []) before after = after ≡ before
Ran none before after = (after ≡ before) ⊎ ((id : String) × (after ≡ id ∷ before))

-- What is alive after a call that terminates the newest instance.
abbrev pub Ended : Bool → String → List String → List String → Type 0
Ended true id others after = after ≡ others
Ended false id others after = (after ≡ others) ⊎ (after ≡ id ∷ others)

-- EC2, as it is documented: a request with a client token that was not used before makes the one
-- instance that it asks for; starting makes none; terminating an instance that is alive ends it. What
-- a request with a used token does, and a termination of another instance, is left open.
pub record Counts {S : Type 0} (ec2 : Ec2 S) (living : S → List String) (used : String → S → Bool)
    : Type 0 where
  pub runs :
      (request : RunInstancesRequest) (s : S)
      → used request.client_token s ≡ false
      → Ran (ec2.run_instances request s).0 (living s) (living (ec2.run_instances request s).1)
  pub starts : (id : String) (s : S) → living (ec2.start_instances id s).1 ≡ living s
  pub ends :
      (id : String) (others : List String) (s : S)
      → living s ≡ id ∷ others
      → Ended (ec2.terminate_instances id s).0 id others (living (ec2.terminate_instances id s).1)

module _ {S : Type 0} (texts : Texts) (ec2 : Ec2 S) (config : AwsInstancesConfig)
    (living : S → List String) (used : String → S → Bool) (counts : Counts ec2 living used) where
  -- A call of EC2 that failed.
  abbrev CallFailed : Type 0
  CallFailed =
      ((request : RunInstancesRequest) × (u : S) × ((ec2.run_instances request u).0 ≡ none))
      ⊎ ((id : String) × (u : S) × ((ec2.terminate_instances id u).0 ≡ false))

  abbrev Unallocated : List String → S → Type 0
  Unallocated before t =
      (living t ≡ before) ⊎ ((id : String) × (living t ≡ id ∷ before) × CallFailed)

  -- The given VM more; without one nothing more, or one instance after a call that failed.
  abbrev Balanced : List String → Result AwsVmInfo × S → Type 0
  Balanced before (success info, t) = living t ≡ info.id ∷ before
  Balanced before (failure e, t) = Unallocated before t

  abbrev pub AllocatedBy : List String → Result AllocatedVmInfo × S → Type 0
  AllocatedBy before (success info, t) = living t ≡ info.id ∷ before
  AllocatedBy before (failure e, t) = Unallocated before t

  -- What `allocate` does to the instances that are alive, if it does anything.
  abbrev pub Allocated : S → Option (Result AllocatedVmInfo × S) → Type 0
  Allocated s none = ⊥
  Allocated s (some r) = AllocatedBy (living s) r
