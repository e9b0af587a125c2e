-- ===== src/Api/NodeClass.antt =====
-- pkg/apis/v1beta1/sshnodeclass_types.go
use karpenter_provider_ssh.Common.{
  ℕ, String, Bool, true, false, Option, none, some, List, Dict, ◌==◌, if◌then◌else◌,
}
use karpenter_provider_ssh.Common.Int.{ℤ, pos, less}
use karpenter_provider_ssh.Api.Meta.{ObjectMeta, Condition, LabelSelector, ResourceList}

pub data ProviderIdSource : Type 0 where
  static adopt : ProviderIdSource

abbrev pub is_adopt : ProviderIdSource → Bool
is_adopt static = false
is_adopt adopt = true

pub record PodsReadyCondition : Type 0 where
  pub namespace : String
  pub selector : LabelSelector
  pub min_ready : Option ℤ

pub record NodeConditionCondition : Type 0 where
  pub kind : String
  pub status : String

pub record StartupTaintCondition : Type 0 where
  pub pods_ready : Option PodsReadyCondition
  pub node_condition : Option NodeConditionCondition

pub record StartupTaintGate : Type 0 where
  pub taint_key : String
  pub remove_when : StartupTaintCondition

pub record ClusterAccess : Type 0 where
  pub endpoint : String
  pub ca_bundle : List ℕ

pub record NodeClassSpec : Type 0 where
  pub host_selector : Option LabelSelector
  pub join_profile : String
  pub vars : Dict String
  pub join_secret : Option String
  pub provider_id_source : ProviderIdSource
  pub price_per_cpu_hour : String
  pub kube_reserved : ResourceList
  pub max_pods : Option ℤ
  pub cluster : Option ClusterAccess
  pub startup_taint_gates : List StartupTaintGate

pub record NodeClass : Type 0 where
  pub meta : ObjectMeta
  pub spec : NodeClassSpec
  pub conditions : List Condition

-- `MinReadyOrDefault`
unfoldable pub min_ready_or_default : PodsReadyCondition → ℤ
min_ready_or_default p = elim p.min_ready [
  | none ↦ pos 1
  | some n ↦ if less n (pos 1) then pos 1 else n
]

-- `StatusOrDefault`
unfoldable pub status_or_default : NodeConditionCondition → String
status_or_default n = if n.status == "" then "True" else n.status
