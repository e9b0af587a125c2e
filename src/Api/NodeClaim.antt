-- ===== src/Api/NodeClaim.antt =====
-- The fields of karpenter's NodeClaim that the program reads.
use karpenter_provider_ssh.Common.{String, List, Option}
use karpenter_provider_ssh.Api.Meta.{ObjectMeta, Taint, ResourceList}

pub record NodeClassReference : Type 0 where
  pub group : String
  pub kind : String
  pub name : String

pub record NodeClaim : Type 0 where
  pub meta : ObjectMeta
  pub taints : List Taint
  pub startup_taints : List Taint
  pub node_class_ref : Option NodeClassReference
  pub provider_id : String
  pub node_name : String
  pub capacity : ResourceList
  pub allocatable : ResourceList
