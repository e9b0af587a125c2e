-- ===== src/Example.antt =====
-- Concrete data for the witnesses: one host, one NodeClaim, and the services around them.
pub mod Cluster
pub mod Services
pub mod Ledger
use karpenter_provider_ssh.Common.{String, Option, none, some, List, [], ◌∷◌}
use karpenter_provider_ssh.Common.Int.{ℤ, pos}
use karpenter_provider_ssh.Api.Meta.{ObjectMeta, Node, Taint}
use karpenter_provider_ssh.Api.Host.{
  Host, HostSpec, HostStatus, HostState, ClaimReference, available, in_use, ExecMode, raw, verified,
}
use karpenter_provider_ssh.Api.NodeClaim.{NodeClaim}
use karpenter_provider_ssh.Api.NodeClass.{NodeClass, static}
use karpenter_provider_ssh.Api.JoinProfile.{JoinProfile}

abbrev named : String → ObjectMeta
named name = record {
  namespace = "pool";
  name = name;
  uid = "";
  resource_version = "1";
  generation = 1;
  creation_timestamp = 1000;
  labels = [];
  annotations = [];
}

abbrev pub machine : ExecMode → HostSpec
machine mode = record {
  address = "10.0.0.5";
  port = 22;
  user = "";
  ssh_key_secret = "ssh-key";
  node_address = "";
  capacity = [];
  exec_mode = mode;
  trusted_signers = [];
  shim_command = "kpssh-shim";
}

abbrev status : HostState → Option ClaimReference → String → HostStatus
status state ref id = record {
  state = state;
  conditions = [];
  claim_ref = ref;
  installed_profile = "";
  bootstrap_token_id = "";
  provider_id = id;
  host_key_fingerprint = "";
  observed_capacity = [];
  observed_arch = "";
  observed_generation = 1;
  last_probe_time = some 1000;
  last_probe_error = "";
}

-- A host that waits for work, and one that backs the node of the claim.
abbrev pub free_host : Host
free_host = record { meta = named "alpha"; spec = machine raw; status = status available none "" }

abbrev pub claim_ref : ClaimReference
claim_ref = record { name = "web-1"; uid = "" }

abbrev pub busy_host : Host
busy_host = record {
  meta = named "alpha";
  spec = machine raw;
  status = status in_use (some claim_ref) "kpssh://pool/alpha";
}

abbrev pub signed_host : Host
signed_host = record {
  meta = named "alpha";
  spec = machine verified;
  status = status available none "";
}

abbrev pub web_claim : NodeClaim
web_claim = record {
  meta = named "web-1";
  taints = [];
  startup_taints = [];
  node_class_ref = none;
  provider_id = "kpssh://pool/alpha";
  node_name = "web-1";
  capacity = [];
  allocatable = [];
}

abbrev pub other_claim : NodeClaim
other_claim = record {
  meta = named "web-2";
  taints = [];
  startup_taints = [];
  node_class_ref = none;
  provider_id = "kpssh://pool/alpha";
  node_name = "web-2";
  capacity = [];
  allocatable = [];
}

abbrev pub web_class : NodeClass
web_class = record {
  meta = named "default";
  spec = record {
    host_selector = none;
    join_profile = "kubeadm";
    vars = [];
    join_secret = none;
    provider_id_source = static;
    price_per_cpu_hour = "0.01";
    kube_reserved = [];
    max_pods = none;
    cluster = none;
    startup_taint_gates = [];
  };
  conditions = [];
}

abbrev pub kubeadm : JoinProfile
kubeadm = record {
  name = "kubeadm";
  version = "1";
  scripts = record {
    install = "apt-get install -y kubelet";
    join = "kubeadm join";
    leave = "kubeadm reset";
    uninstall = "";
    reboot = "";
  };
  timeouts = none;
  signatures =
      some (record { install = "sig"; join = "sig"; leave = "sig"; uninstall = ""; reboot = "" });
}

abbrev pub alpha_node : Node
alpha_node = record {
  meta = named "alpha";
  provider_id = "aws:///i-1";
  addresses = ("InternalIP", "10.0.0.5") ∷ [];
}

abbrev pub adopted_host : Host
adopted_host = record {
  meta = named "alpha";
  spec = machine raw;
  status = status in_use (some claim_ref) "aws:///i-1";
}
