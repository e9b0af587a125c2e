-- ===== src/CloudProvider.antt =====
-- pkg/cloudprovider: karpenter's CloudProvider over the instances and the instance types.
pub mod Operations
pub mod Verdicts
pub mod Drift
use Prim.Native.String.{◌++◌}
use karpenter_provider_ssh.Common.{
  ℕ, String, Bool, true, false, not, ◌&&◌, ◌||◌, Option, none, some, List, [], ◌∷◌, Dict, insert,
  keep, map, lookup, or_empty, ◌==◌, if◌then◌else◌,
}
use karpenter_provider_ssh.Exec.{
  Result, ok, err, Exec, pure, raise, attempt, map_error, ◌>>=◌, ◌>>◌,
}
use karpenter_provider_ssh.Api.Errors.{Error, text, wrapped, is_not_found}
use karpenter_provider_ssh.Api.Meta.{
  ObjectMeta, Condition, ConditionStatus, is_true, is_false, is_unknown, ResourceList,
}
use karpenter_provider_ssh.Api.NodeClass.{NodeClass}
use karpenter_provider_ssh.Api.NodeClaim.{NodeClaim, NodeClassReference}
use karpenter_provider_ssh.Api.JoinHash.{join_hash}
use karpenter_provider_ssh.Kube.{Client}
use karpenter_provider_ssh.Profile.{installed_marker}
use karpenter_provider_ssh.Sshexec.Wire.{Bytes}
use karpenter_provider_ssh.Instance.{
  Deps, Instance, InstanceType, Requirements, CloudError, plain, insufficient_capacity,
  create_failed, node_claim_not_found, node_class_not_ready,
}
use karpenter_provider_ssh.Instance.Lifecycle
use karpenter_provider_ssh.Instance.Create
use karpenter_provider_ssh.InstanceTypes.{
  instance_type_label, zone_label, capacity_type_label, pool_zone, on_demand,
}
use karpenter_provider_ssh.Gate.{node_class_group, node_class_kind}

abbrev pub hash_annotation : String
hash_annotation = "karpenter.dklesev.github.io/nodeclass-hash"

abbrev pub hash_version_annotation : String
hash_version_annotation = "karpenter.dklesev.github.io/nodeclass-hash-version"

abbrev pub hash_version : String
hash_version = "v1"

-- `instance.Provider`, and `instancetype.Provider`
pub record InstanceProvider (W : Type 0) : Type 0 where
  pub create : NodeClass → NodeClaim → List InstanceType → Exec W CloudError Instance
  pub delete : NodeClaim → Exec W CloudError (Unit {0})
  pub reboot : NodeClaim → Exec W CloudError (Unit {0})
  pub get : String → Exec W CloudError Instance
  pub list : Exec W CloudError (List Instance)

pub record InstanceTypeProvider (W : Type 0) : Type 0 where
  pub list : NodeClass → Exec W Error (List InstanceType)

-- The provider of pkg/providers/instance
abbrev pub instance_provider : {W : Type 0} → Deps W → InstanceProvider W
instance_provider deps = record {
  create = Create.create deps;
  delete = Lifecycle.delete deps;
  reboot = Lifecycle.reboot deps;
  get = Lifecycle.get_instance deps;
  list = Lifecycle.list deps;
}

-- An event about a NodeClaim.
pub record ClaimEvent : Type 0 where
  pub involved : String
  pub reason : String
  pub detail : String
  pub dedupe_values : List String

-- What karpenter core gives: the conditions of a node class, the scheduling requirements of a
-- NodeClaim, and the arithmetic of resources.
pub record Core (W : Type 0) : Type 0 where
  -- `StatusConditions().Get(status.ConditionReady)`
  pub ready_condition : NodeClass → Option Condition
  -- `reqs.Has(corev1.LabelInstanceTypeStable)`, and whether that requirement has a value
  pub has_type_requirement : NodeClaim → Bool
  pub allows_type : NodeClaim → String → Bool
  -- `reqs.Compatible` with the well-known labels that the pool does not define allowed
  pub compatible : NodeClaim → Requirements → Bool
  -- `InstanceType.Allocatable`, and `resources.Fits` of the requests of a NodeClaim
  pub allocatable : InstanceType → ResourceList
  pub fits : NodeClaim → ResourceList → Bool
  -- `err.Error()`, and `Recorder.Publish`
  pub message : CloudError → String
  pub publish : ClaimEvent → W → W

-- `createFailedEvent`
abbrev pub event_reason : CloudError → String
event_reason (create_failed e reason detail) = reason
event_reason _ = "CreateFailed"

abbrev pub unknown_readiness : CloudError
unknown_readiness =
    create_failed (text "resolving node class readiness, NodeClass is in Ready=Unknown")
      "NodeClassReadinessUnknown" "NodeClass is in Ready=Unknown"

-- The labels that the requirements of one value give, over the labels that are there.
unfoldable pub add_single_values : Requirements → Dict String → Dict String
add_single_values [] labels = labels
add_single_values ((key, v ∷ []) ∷ reqs) labels = add_single_values reqs (insert key v labels)
add_single_values ((key, vs) ∷ reqs) labels = add_single_values reqs labels

abbrev pub instance_meta : Instance → ObjectMeta
instance_meta i = record {
  namespace = "";
  name = i.node_name;
  uid = "";
  resource_version = "";
  generation = 0;
  creation_timestamp = i.creation_time;
  labels =
      (instance_type_label, i.class)
      ∷ (zone_label, pool_zone)
      ∷ (capacity_type_label, on_demand)
      ∷ [];
  annotations = [];
}

abbrev pub claim_of : Instance → NodeClaim
claim_of i = record {
  meta = instance_meta i;
  taints = [];
  startup_taints = [];
  node_class_ref = none;
  provider_id = i.provider_id;
  node_name = "";
  capacity = i.capacity;
  allocatable = [];
}

-- `ownsNodeClassRef`
unfoldable pub owns_node_class_ref : Option NodeClassReference → Bool
owns_node_class_ref none = false
owns_node_class_ref (some ref) = ref.group == node_class_group && ref.kind == node_class_kind

abbrev pub DriftReason : Type 0
DriftReason = String

abbrev pub no_drift : DriftReason
no_drift = ""

abbrev pub profile_drift : DriftReason
profile_drift = "ProfileDrift"

abbrev pub node_class_drift : DriftReason
node_class_drift = "NodeClassDrift"

pub data RepairAction : Type 0 where
  reboot_node replace_node : RepairAction

pub record RepairPolicy : Type 0 where
  pub condition_type : String
  pub condition_status : ConditionStatus
  pub reason_regex : String
  -- In nanoseconds; a termination grace period of zero, not of nil.
  pub toleration_duration : ℕ
  pub termination_grace_period : Option ℕ
  pub action : RepairAction

-- `RepairPolicies`, by whether core runs its legacy node repair
unfoldable pub repair_policies : Bool → List RepairPolicy
repair_policies legacy =
    record {
      condition_type = "Ready";
      condition_status = is_false;
      reason_regex = ".*";
      toleration_duration = 600_000_000_000;
      termination_grace_period = some 0;
      action = if legacy then replace_node else reboot_node;
    }
    ∷ record {
      condition_type = "Ready";
      condition_status = is_unknown;
      reason_regex = "";
      toleration_duration = 600_000_000_000;
      termination_grace_period = some 0;
      action = replace_node;
    }
    ∷ []

module _ {W : Type 0} (core : Core W) where
  -- The view of a NodeClaim of an instance of a known type.
  abbrev pub typed : InstanceType → NodeClaim → NodeClaim
  typed it nc = record nc {
    meta = record nc.meta { labels = add_single_values it.requirements nc.meta.labels };
    capacity = it.capacity;
    allocatable = core.allocatable it;
  }

  -- `instanceToNodeClaim`
  unfoldable pub instance_to_node_claim : Instance → List InstanceType → NodeClaim
  unfolding add_single_values
  instance_to_node_claim i [] = claim_of i
  instance_to_node_claim i (it ∷ its) =
      let rest = instance_to_node_claim i its in
      if it.name == i.class then typed it (claim_of i) else rest

  abbrev pub passes : NodeClaim → InstanceType → Bool
  passes nc it =
      not (core.has_type_requirement nc && not (core.allows_type nc it.name))
      && core.compatible nc it.requirements
      && core.fits nc (core.allocatable it)

  abbrev create_failed_event : NodeClaim → CloudError → ClaimEvent
  create_failed_event nc e = record {
    involved = nc.meta.name;
    reason = event_reason e;
    detail = core.message e;
    dedupe_values = nc.meta.name ∷ event_reason e ∷ [];
  }

  abbrev pub published : NodeClaim → Result CloudError Instance → Exec W CloudError Instance
  published nc (ok i) w = (ok i, w)
  published nc (err e) w = (err e, core.publish (create_failed_event nc e) w)
