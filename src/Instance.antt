-- ===== src/Instance.antt =====
-- pkg/providers/instance: NodeClaims become joined pool hosts, and back.
pub mod Phases
pub mod Join
pub mod Labels
pub mod Lifecycle
pub mod Create
use karpenter_provider_ssh.Common.{ℕ, String, Bool, Option, List, Dict}
use karpenter_provider_ssh.Common.Int.{ℤ}
use karpenter_provider_ssh.Exec.{Exec, Result, ok, err}
use karpenter_provider_ssh.Api.Errors.{Error}
use karpenter_provider_ssh.Api.Meta.{ResourceList}
use karpenter_provider_ssh.Api.NodeClass.{NodeClass}
use karpenter_provider_ssh.Kube.{Client}
use karpenter_provider_ssh.Pool.Interface.{HostProvider}
use karpenter_provider_ssh.Profile.{Templates}
use karpenter_provider_ssh.Sshexec.Signature.{Crypto}
use karpenter_provider_ssh.Sshexec.Runner.{Runners}

-- `ClusterInfo` and `Provider` of pkg/providers/bootstrap/bootstrap.go
pub record ClusterInfo : Type 0 where
  pub endpoint : String
  pub ca_cert_b64 : String

pub record BootstrapProvider (W : Type 0) : Type 0 where
  pub create_token : ℤ → String → Exec W Error String
  pub delete_token : String → Exec W Error (Unit {0})
  pub delete_token_by_id : String → Exec W Error (Unit {0})
  pub cluster_info : NodeClass → Exec W Error ClusterInfo

-- `DefaultProvider`, with what it takes from outside the repository.
pub record Deps (W : Type 0) : Type 0 where
  pub client : Client W
  pub pool : HostProvider W
  pub bootstrap : BootstrapProvider W
  pub runners : Runners W
  pub templates : Templates
  pub crypto : Crypto
  -- How many polls `wait.PollUntilContextTimeout` makes before its timeout, after the first one.
  pub adopt_polls : ℕ

pub record Instance : Type 0 where
  pub provider_id : String
  pub host_name : String
  pub node_name : String
  pub class : String
  pub capacity : ResourceList
  pub creation_time : ℕ
  pub installed_profile : String

-- The errors of karpenter's cloudprovider package; any other error is plain.
pub data CloudError : Type 0 where
  plain : Error → CloudError
  insufficient_capacity : Error → CloudError
  create_failed : Error → String → String → CloudError
  node_claim_not_found : Error → CloudError
  node_class_not_ready : Error → CloudError
  node_reboot_failed : Error → CloudError

-- Requirements that a label has one of some values.
abbrev pub Requirements : Type 0
Requirements = Dict (List String)

-- A price, in the smallest unit of the currency that the prices are written in.
pub record Offering : Type 0 where
  pub price : ℕ
  pub available : Bool
  pub requirements : Requirements

pub record InstanceType : Type 0 where
  pub name : String
  pub requirements : Requirements
  pub offerings : List Offering
  pub capacity : ResourceList
  pub kube_reserved : ResourceList
