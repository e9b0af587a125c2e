-- ===== src/Api/Host.antt =====
-- pkg/apis/v1beta1/sshhost_types.go
use karpenter_provider_ssh.Common.{
  ℕ, String, Bool, true, false, Option, List, [], ◌∷◌, Dict, lookup, or_empty, ◌==◌, if◌then◌else◌,
}
use karpenter_provider_ssh.Api.Meta.{ObjectMeta, Condition, ResourceList, Node}

-- `unset` is the empty string of a host that no controller has written yet.
pub data HostState : Type 0 where
  unset pending available claimed in_use unhealthy leaving maintenance : HostState

abbrev pub maintenance_annotation : String
maintenance_annotation = "karpenter.dklesev.github.io/maintenance"

abbrev pub host_class_label : String
host_class_label = "karpenter.dklesev.github.io/host-class"

abbrev pub default_host_class : String
default_host_class = "default"

abbrev pub provider_prefix : String
provider_prefix = "kpssh://"

pub data ExecMode : Type 0 where
  raw verified : ExecMode

abbrev pub is_verified : ExecMode → Bool
is_verified raw = false
is_verified verified = true

pub record HostSpec : Type 0 where
  pub address : String
  pub port : ℕ
  pub user : String
  pub ssh_key_secret : String
  pub node_address : String
  pub capacity : ResourceList
  pub exec_mode : ExecMode
  pub trusted_signers : List String
  pub shim_command : String

pub record ClaimReference : Type 0 where
  pub name : String
  pub uid : String

pub record HostStatus : Type 0 where
  pub state : HostState
  pub conditions : List Condition
  pub claim_ref : Option ClaimReference
  pub installed_profile : String
  pub bootstrap_token_id : String
  pub provider_id : String
  pub host_key_fingerprint : String
  pub observed_capacity : ResourceList
  pub observed_arch : String
  pub observed_generation : ℕ
  pub last_probe_time : Option ℕ
  pub last_probe_error : String

pub record Host : Type 0 where
  pub meta : ObjectMeta
  pub spec : HostSpec
  pub status : HostStatus

unfoldable pub host_class : Host → String
host_class h =
    let c = or_empty (lookup host_class_label h.meta.labels) in
    if c == "" then default_host_class else c

unfoldable pub node_ip : HostSpec → String
node_ip s = if s.node_address == "" then s.address else s.node_address

-- The InternalIPs of a node, which the index of nodes by address holds.
unfoldable pub internal_ips : Dict String → List String
internal_ips [] = []
internal_ips ((kind, address) ∷ rest) =
    let ips = internal_ips rest in if kind == "InternalIP" then address ∷ ips else ips

unfoldable pub node_internal_ips : Node → List String
node_internal_ips n = internal_ips n.addresses
