-- ===== src/Kube.antt =====
-- What the program asks of the Kubernetes API, through the cached client and the plain clientset.
-- The API server is not part of the repository: the operations are a parameter, over a world `W`
-- that holds the cluster and whatever else acts on it between two calls.
pub mod Lock
use karpenter_provider_ssh.Common.{ℕ, String, Bool, Option, none, some, List, Dict}
use karpenter_provider_ssh.Exec.{Result, ok, err, Exec}
use karpenter_provider_ssh.Api.Errors.{Error}
use karpenter_provider_ssh.Api.Meta.{Condition, LabelSelector, Node}
use karpenter_provider_ssh.Api.Host.{Host, HostStatus}
use karpenter_provider_ssh.Api.JoinProfile.{JoinProfile}
use karpenter_provider_ssh.Api.NodeClass.{NodeClass}
use karpenter_provider_ssh.Api.NodeClaim.{NodeClaim}

pub record Client (W : Type 0) : Type 0 where
  -- By namespace and name.
  pub get_host : String → String → Exec W Error Host
  pub list_hosts : String → Option LabelSelector → Exec W Error (List Host)
  -- Writes of the status, under the resourceVersion of the host that is handed over, and of the
  -- original; they give the stored object back.
  pub update_host_status : Host → Exec W Error Host
  pub patch_host_status : Host → Host → Exec W Error Host
  pub get_profile : String → Exec W Error JoinProfile
  pub get_node_class : String → Exec W Error NodeClass
  pub get_node_claim : String → Exec W Error NodeClaim
  pub nodes_by_ip : String → Exec W Error (List Node)
  pub delete_node : Node → Exec W Error (Unit {0})
  -- The data of a secret, by namespace and name.
  pub get_secret : String → String → Exec W Error (Dict String)
  -- `metav1.LabelSelectorAsSelector`
  pub selector_error : LabelSelector → Option Error
  -- `meta.SetStatusCondition`
  pub set_status_condition : List Condition → Condition → List Condition
  -- `equality.Semantic.DeepEqual` on statuses
  pub status_equal : HostStatus → HostStatus → Bool
  -- How often `retry.RetryOnConflict` calls again, under `retry.DefaultBackoff`.
  pub conflict_retries : ℕ

-- A function with a `*SSHHost` argument changes the host in place: it acts on the host and the world.
pub record Session (W : Type 0) : Type 0 where
  pub host : Host
  pub world : W

abbrev pub HostExec : Type 0 → Type 0 → Type 0
HostExec W A = Exec (Session W) Error A

module _ {W A : Type 0} where
  -- A call that leaves the host in hand alone.
  abbrev pub call : Exec W Error A → HostExec W A
  call m s = let (r, w) = m s.world in (r, record { host = s.host; world = w })

module _ {W : Type 0} where
  abbrev pub the_host : HostExec W Host
  the_host s = (ok s.host, s)

  abbrev pub replace_host : Host → HostExec W (Unit {0})
  replace_host h s = (ok tt, record { host = h; world = s.world })

  abbrev pub modify_status : (HostStatus → HostStatus) → HostExec W (Unit {0})
  modify_status f s =
      (ok tt, record { host = record s.host { status = f s.host.status }; world = s.world })

  abbrev pub stored : Result Error Host → Session W → Result Error (Unit {0}) × Session W
  stored (ok h) s = (ok tt, record { host = h; world = s.world })
  stored (err e) s = (err e, s)

  -- A write gives the stored object back, which takes the place of the host in hand.
  abbrev pub write : Exec W Error Host → HostExec W (Unit {0})
  write m s = let (r, w) = m s.world in stored r (record { host = s.host; world = w })
