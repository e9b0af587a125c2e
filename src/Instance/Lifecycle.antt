-- ===== src/Instance/Lifecycle.antt =====
-- `Delete`, `Reboot`, `Get` and `List` of pkg/providers/instance/instance.go, and how a host shows as
-- an instance.
pub mod Delete
use Prim.Native.String.{◌++◌}
use karpenter_provider_ssh.Common.{
  ℕ, zero, suc, String, Bool, true, false, not, ◌&&◌, ◌||◌, Option, none, some, List, [], ◌∷◌,
  sort_by, leb, ltb, map, ◌==◌, if◌then◌else◌,
}
use karpenter_provider_ssh.Common.Int.{ℤ, pos}
use karpenter_provider_ssh.Exec.{
  Result, ok, err, Exec, pure, raise, lift, attempt, map_error, map_error_result, ◌>>=◌, ◌>>◌,
}
use karpenter_provider_ssh.Api.Errors.{Error, text, wrapped, message, is_config_error, is_not_found}
use karpenter_provider_ssh.Api.Meta.{Node}
use karpenter_provider_ssh.Api.Host.{Host, ClaimReference, host_class, node_ip, is_verified}
use karpenter_provider_ssh.Api.NodeClass.{NodeClass, is_adopt}
use karpenter_provider_ssh.Api.NodeClaim.{NodeClaim}
use karpenter_provider_ssh.Kube.{Session, HostExec, call, the_host}
use karpenter_provider_ssh.Pool.{provider_id, claim_held_by}
use karpenter_provider_ssh.Profile.{phase_reboot}
use karpenter_provider_ssh.Sshexec.Envelope.{is_unknown_phase}
use karpenter_provider_ssh.Instance.{
  Deps, Instance, InstanceType, Offering, CloudError, plain, insufficient_capacity, create_failed,
  node_claim_not_found, node_reboot_failed,
}
use karpenter_provider_ssh.Instance.Phases.{run_installed_phase, leave_host, host_reboot_timeout}
use karpenter_provider_ssh.Instance.Join.{join, release_failed, delete_bootstrap_token}

-- `toInstance`
unfoldable pub to_instance : Host → String → Instance
to_instance h node_name = record {
  provider_id = if h.status.provider_id == "" then provider_id h else h.status.provider_id;
  host_name = h.meta.name;
  node_name = node_name;
  class = host_class h;
  capacity = h.spec.capacity;
  creation_time = h.meta.creation_timestamp;
  installed_profile = h.status.installed_profile;
}

unfoldable pub list_instances : List Host → List Instance
unfolding to_instance
list_instances [] = []
list_instances (h ∷ hs) = elim h.status.claim_ref [
  | none ↦ list_instances hs
  | some ref ↦ to_instance h ref.name ∷ list_instances hs
]

-- The error of `Delete` and `Get` on a host without a claim.
abbrev not_claimed : Host → Error
not_claimed h = text ("host " ++ (h.meta.name ++ " is not claimed"))

-- Why `Delete` refuses a host.
abbrev claim_refusal : Host → NodeClaim → Option ClaimReference → Error
claim_refusal h nc none = not_claimed h
claim_refusal h nc (some ref) = text (
    "host "
    ++ (h.meta.name ++ (" is claimed by NodeClaim " ++ (ref.name ++ (", not " ++ nc.meta.name)))))

abbrev reboot_refusal : Host → NodeClaim → Error
reboot_refusal h nc =
    text ("host " ++ (h.meta.name ++ (" is not claimed by NodeClaim " ++ nc.meta.name)))

module _ {W : Type 0} where
  abbrev pub on_host : {A : Type 0} → Host → Exec (Session W) CloudError A → Exec W CloudError A
  on_host h m w = let (r, s) = m (record { host = h; world = w }) in (r, s.world)

module _ {W : Type 0} (deps : Deps W) where
  abbrev pub lookup_error : Error → CloudError
  lookup_error e = if is_not_found e then node_claim_not_found e else plain e

  abbrev pub find_host : String → Exec W CloudError Host
  find_host id = map_error lookup_error (deps.pool.by_provider_id id)

  abbrev pub left : Result Error (Unit {0}) → Bool
  left (ok a) = true
  left (err e) = false

  abbrev pub leaves : Host → HostExec W Bool
  leaves h = do r ← attempt (call (leave_host deps h)); pure (left r)

  -- Whether the leave phase of `Delete` ran and succeeded.
  unfoldable pub leave_ok : HostExec W Bool
  leave_ok = do
    h ← the_host
    if not (h.status.installed_profile == "") then leaves h else pure false

  -- `Delete` behind its fence.
  unfoldable pub teardown : HostExec W (Unit {0})
  unfolding leave_ok delete_bootstrap_token
  teardown = do
    clean ← leave_ok
    delete_bootstrap_token deps
    deps.pool.release clean "leave phase did not complete cleanly"

  unfoldable pub teardown_on : Host → Exec W CloudError (Unit {0})
  unfolding teardown
  teardown_on h = on_host h (map_error plain teardown)

  -- `Delete` of a host that it has found, by the host's claim.
  unfoldable pub delete_found :
      NodeClaim → Host → Option ClaimReference → Exec W CloudError (Unit {0})
  unfolding teardown_on
  delete_found nc h none = raise (node_claim_not_found (claim_refusal h nc none))
  delete_found nc h (some ref) =
      if not (claim_held_by h nc)
      then raise (node_claim_not_found (claim_refusal h nc (some ref)))
      else teardown_on h

  -- `Delete`
  unfoldable pub delete : NodeClaim → Exec W CloudError (Unit {0})
  unfolding delete_found
  delete nc = do h ← find_host nc.provider_id; delete_found nc h h.status.claim_ref

  -- What `Reboot` makes of an error of the phase.
  unfoldable pub reboot_error : Host → Error → CloudError
  reboot_error h e =
      if is_config_error e || is_verified h.spec.exec_mode && is_unknown_phase e
      then node_reboot_failed e
      else plain e

  -- `Reboot`
  unfoldable pub reboot : NodeClaim → Exec W CloudError (Unit {0})
  unfolding reboot_error
  reboot nc = do
    h ← find_host nc.provider_id
    if not (claim_held_by h nc)
        then raise (node_claim_not_found (reboot_refusal h nc))
        else map_error (reboot_error h)
            (run_installed_phase deps h phase_reboot host_reboot_timeout)

  -- `Get`
  unfoldable pub get_instance : String → Exec W CloudError Instance
  unfolding to_instance
  get_instance id = do
    h ← find_host id
    elim h.status.claim_ref [
      | none ↦ raise (node_claim_not_found (not_claimed h))
      | some ref ↦ pure (to_instance h ref.name)
    ]

  -- `List`
  unfoldable pub list : Exec W CloudError (List Instance)
  unfolding list_instances
  list = do hosts ← map_error plain deps.pool.claimed; pure (list_instances hosts)
