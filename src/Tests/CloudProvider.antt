-- ===== src/Tests/CloudProvider.antt =====
-- The theorems on the cloud provider adapter at one NodeClaim.
use karpenter_provider_ssh.Common.{
  ◌≡◌, ◌⊎◌, refl, Bool, keep, true, false, some, [], ◌∷◌, bytes, length,
}
use karpenter_provider_ssh.Exec.{ok, err}
use karpenter_provider_ssh.Api.Errors.{api, wrapped, not_found, is_not_found}
use karpenter_provider_ssh.Api.Meta.{is_true}
use karpenter_provider_ssh.Api.NodeClaim.{NodeClaim, NodeClassReference}
use karpenter_provider_ssh.Kube.{Client}
use karpenter_provider_ssh.Profile.{installed_marker}
use karpenter_provider_ssh.Sshexec.Wire.{Bytes}
use karpenter_provider_ssh.Instance.{Instance, InstanceType}
use karpenter_provider_ssh.CloudProvider.{Core, InstanceProvider, InstanceTypeProvider}
use karpenter_provider_ssh.CloudProvider.Operations.{
  resolve_instance_types, create_claim, is_drifted, stamps, node_class_by_ref,
}
use karpenter_provider_ssh.CloudProvider.Verdicts.{
  ClassMissing, NothingOffered, NoHost, create_claim-insufficient,
}
use karpenter_provider_ssh.CloudProvider.Drift.{verdict, created-is_drifted}
use karpenter_provider_ssh.Example.{free_host, web_claim, web_class, kubeadm}
use karpenter_provider_ssh.Example.Cluster.{client}

abbrev core : Core Bool
core = record {
  ready_condition = λ class. some (record {
    kind = "Ready";
    status = is_true;
    observed_generation = 1;
    last_transition_time = 0;
    reason = "";
    detail = "";
  });
  has_type_requirement = λ nc. false;
  allows_type = λ nc name. true;
  compatible = λ nc reqs. true;
  allocatable = λ it. it.capacity;
  fits = λ nc resources. true;
  message = λ e. "";
  publish = λ event w. w;
}

abbrev class_reference : NodeClassReference
class_reference = record {
  group = "karpenter.dklesev.github.io";
  kind = "SSHNodeClass";
  name = "default";
}

abbrev pending_claim : NodeClaim
pending_claim = record web_claim { node_class_ref = some class_reference }

abbrev small_type : InstanceType
small_type = record {
  name = "default";
  requirements = [];
  offerings = [];
  capacity = [];
  kube_reserved = [];
}

abbrev instance : Instance
instance = record {
  provider_id = "kpssh://pool/alpha";
  host_name = "alpha";
  node_name = "web-1";
  class = "default";
  capacity = [];
  creation_time = 1000;
  installed_profile = installed_marker kubeadm;
}

abbrev instances : InstanceProvider Bool
instances = record {
  create = λ class nc its w. (ok instance, w);
  delete = λ nc w. (ok tt, w);
  reboot = λ nc w. (ok tt, w);
  get = λ id w. (ok instance, w);
  list = λ w. (ok (instance ∷ []), w);
}

abbrev types : InstanceTypeProvider Bool
types = record { list = λ class w. (ok (small_type ∷ []), w) }

abbrev digest : Bytes → Bytes
digest b = bytes "0123456789abcdef0123456789abcdef"

digest-length : (b : Bytes) → length (digest b) ≡ 32
unfolding bytes
digest-length b = refl

abbrev server : Client Bool
server = client free_host

-- An API server without the node class.
abbrev bereft : Client Bool
bereft = record server { get_node_class = λ name w. (err (api not_found name), w) }

create_claim-insufficient_example :
    ClassMissing core bereft instances types digest pending_claim false
    ⊎ NothingOffered core bereft instances types digest pending_claim false
    ⊎ NoHost core bereft instances types digest pending_claim false
        (wrapped "resolving node class, " (api not_found "default"))
unfolding create_claim node_class_by_ref is_not_found
create_claim-insufficient_example =
    create_claim-insufficient core bereft instances types digest pending_claim false false
      (wrapped "resolving node class, " (api not_found "default")) refl

-- The NodeClaim with what `Create` has put on it.
abbrev created : NodeClaim
created = record pending_claim {
  meta = record pending_claim.meta {
    annotations = stamps core server instances types digest web_class;
  };
}

created-is_drifted_example : is_drifted core server instances types digest created false ≡ (
  ok (
      verdict digest digest-length web_class
        (installed_marker kubeadm)
        web_class
        (installed_marker kubeadm)),
  false,
)
unfolding create_claim node_class_by_ref resolve_instance_types keep
created-is_drifted_example =
    created-is_drifted digest digest-length core server instances types pending_claim created _
      web_class web_class instance kubeadm false false false false false false false refl refl refl
      refl refl refl refl
