-- ===== src/Api/Meta.antt =====
-- The parts of Kubernetes objects that the program reads: metadata, conditions, quantities, taints.
use karpenter_provider_ssh.Common.{ℕ, String, Dict}
use karpenter_provider_ssh.Common.Int.{ℤ}

pub record ObjectMeta : Type 0 where
  pub namespace : String
  pub name : String
  pub uid : String
  pub resource_version : String
  pub generation : ℕ
  pub creation_timestamp : ℕ
  pub labels : Dict String
  pub annotations : Dict String

pub data ConditionStatus : Type 0 where
  is_true is_false is_unknown : ConditionStatus

pub record Condition : Type 0 where
  pub kind : String
  pub status : ConditionStatus
  pub observed_generation : ℕ
  pub last_transition_time : ℕ
  pub reason : String
  pub detail : String

-- A quantity is its exact value in nano units, which are the finest that Kubernetes keeps.
abbrev pub ResourceList : Type 0
ResourceList = Dict ℤ

-- Only the API client reads a label selector.
abbrev pub LabelSelector : Type 0
LabelSelector = String

pub record Taint : Type 0 where
  pub key : String
  pub value : String
  pub effect : String

pub record Node : Type 0 where
  pub meta : ObjectMeta
  pub open meta use *
  pub provider_id : String
  pub addresses : Dict String
