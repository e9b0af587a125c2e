-- ===== src/CloudProvider/Operations.antt =====
-- The operations of pkg/cloudprovider, over the instance provider and the instance types.
use Prim.Native.String.{◌++◌}
use karpenter_provider_ssh.Common.{
  String, not, ◌&&◌, Option, none, some, List, [], ◌∷◌, Dict, keep, map, lookup, or_empty, ◌==◌,
  if◌then◌else◌,
}
use karpenter_provider_ssh.Exec.{
  Result, ok, err, Exec, pure, raise, attempt, map_error, ◌>>=◌, ◌>>◌,
}
use karpenter_provider_ssh.Api.Errors.{Error, text, wrapped, is_not_found}
use karpenter_provider_ssh.Api.Meta.{Condition, is_true, is_false, is_unknown}
use karpenter_provider_ssh.Api.NodeClass.{NodeClass}
use karpenter_provider_ssh.Api.NodeClaim.{NodeClaim, NodeClassReference}
use karpenter_provider_ssh.Api.JoinHash.{join_hash}
use karpenter_provider_ssh.Kube.{Client}
use karpenter_provider_ssh.Profile.{installed_marker}
use karpenter_provider_ssh.Sshexec.Wire.{Bytes}
use karpenter_provider_ssh.Instance.{
  Instance, InstanceType, CloudError, plain, insufficient_capacity, node_claim_not_found,
  node_class_not_ready,
}
use karpenter_provider_ssh.CloudProvider.{
  InstanceProvider, InstanceTypeProvider, Core, DriftReason, no_drift, profile_drift,
  node_class_drift, hash_annotation, hash_version_annotation, hash_version, owns_node_class_ref,
  instance_to_node_claim, passes, published, unknown_readiness,
}

module _ {W : Type 0} (core : Core W) (client : Client W) (instances : InstanceProvider W)
    (types : InstanceTypeProvider W) (sha256 : Bytes → Bytes) where
  -- `nodeClassByRef`
  unfoldable pub node_class_by_ref : Option NodeClassReference → Exec W Error NodeClass
  node_class_by_ref none = raise (text "no nodeClassRef")
  node_class_by_ref (some ref) = client.get_node_class ref.name

  -- `resolveInstanceTypes`
  unfoldable pub resolve_instance_types : NodeClaim → NodeClass → Exec W Error (List InstanceType)
  resolve_instance_types nc class = do all ← types.list class; pure (keep (passes core nc) all)

  abbrev pub unresolved : Error → CloudError
  unresolved e =
      if is_not_found e
      then insufficient_capacity (wrapped "resolving node class, " e)
      else plain (wrapped "resolving node class, " e)

  -- What `Create` makes of the readiness of the node class.
  abbrev pub require_ready : Option Condition → Exec W CloudError (Unit {0})
  require_ready none = raise unknown_readiness
  require_ready (some ready) = elim ready.status [
    | is_true ↦ pure tt
    | is_false ↦ raise (node_class_not_ready (text ready.detail))
    | is_unknown ↦ raise unknown_readiness
  ]

  abbrev pub require_types : NodeClaim → List InstanceType → Exec W CloudError (Unit {0})
  require_types nc (it ∷ its) = pure tt
  require_types nc [] =
      raise (
        insufficient_capacity
          (text ("no compatible instance types for NodeClaim " ++ nc.meta.name)))

  abbrev pub stamps : NodeClass → Dict String
  stamps class =
      (hash_annotation, join_hash sha256 class) ∷ (hash_version_annotation, hash_version) ∷ []

  abbrev pub stamped : NodeClass → NodeClaim → NodeClaim
  stamped class nc = record nc { meta = record nc.meta { annotations = stamps class } }

  abbrev pub create_of : NodeClaim → NodeClass → List InstanceType → Exec W CloudError NodeClaim
  create_of nc class its = do
    r ← attempt (instances.create class nc its)
    i ← published core nc r
    pure (stamped class (instance_to_node_claim core i its))

  abbrev pub create_with : NodeClaim → NodeClass → List InstanceType → Exec W CloudError NodeClaim
  create_with nc class its = do require_types nc its; create_of nc class its

  abbrev pub create_in : NodeClaim → NodeClass → Exec W CloudError NodeClaim
  create_in nc class = do
    require_ready (core.ready_condition class)
    its ← map_error plain (resolve_instance_types nc class)
    create_with nc class its

  -- `Create`
  unfoldable pub create_claim : NodeClaim → Exec W CloudError NodeClaim
  unfolding node_class_by_ref resolve_instance_types instance_to_node_claim
  create_claim nc = do
    class ← map_error unresolved (node_class_by_ref nc.node_class_ref)
    create_in nc class

  abbrev no_provider_id : String → NodeClaim → CloudError
  no_provider_id kind nc =
      node_claim_not_found (text (kind ++ (nc.meta.name ++ " has no providerID")))

  -- `Delete`
  unfoldable pub delete_claim : NodeClaim → Exec W CloudError (Unit {0})
  delete_claim nc =
      if nc.provider_id == "" then raise (no_provider_id "nodeClaim " nc) else instances.delete nc

  -- `Reboot`
  unfoldable pub reboot_claim : NodeClaim → Exec W CloudError (Unit {0})
  reboot_claim nc =
      if nc.provider_id == "" then raise (no_provider_id "nodeclaim " nc) else instances.reboot nc

  -- `Get`
  unfoldable pub get_claim : String → Exec W CloudError NodeClaim
  unfolding instance_to_node_claim
  get_claim id =
      if id == ""
      then raise (plain (text "empty providerID"))
      else do i ← instances.get id; pure (instance_to_node_claim core i [])

  -- `List`
  unfoldable pub list_claims : Exec W CloudError (List NodeClaim)
  unfolding instance_to_node_claim
  list_claims = do is ← instances.list; pure (map (λ i. instance_to_node_claim core i []) is)

  -- `GetInstanceTypes`, of a node pool by the reference of its template
  unfoldable pub get_instance_types :
      Option (Option NodeClassReference) → Exec W Error (List InstanceType)
  unfolding owns_node_class_ref node_class_by_ref
  get_instance_types none = pure []
  get_instance_types (some ref) = if not (owns_node_class_ref ref) then pure [] else do
    class ← map_error (wrapped "resolving node class, ") (node_class_by_ref ref)
    types.list class

  -- What `IsDrifted` makes of the instance, the node class and its profile.
  unfoldable pub drift_of : NodeClaim → String → NodeClass → String → DriftReason
  unfolding lookup join_hash
  drift_of nc installed class marker =
      let stamp = or_empty (lookup hash_annotation nc.meta.annotations) in
      let version = or_empty (lookup hash_version_annotation nc.meta.annotations) in
      if not (installed == "") && not (installed == marker)
      then profile_drift
      else if not (stamp == "") && version == hash_version && not (stamp == join_hash sha256 class)
      then node_class_drift
      else no_drift

  abbrev drift_at : NodeClaim → Instance → Exec W CloudError DriftReason
  drift_at nc i = do
    class ←
        map_error (λ e. plain (wrapped "resolving node class, " e))
          (node_class_by_ref nc.node_class_ref)
    prof ←
        map_error (λ e. plain (wrapped "resolving join profile, " e))
          (client.get_profile class.spec.join_profile)
    pure (drift_of nc i.installed_profile class (installed_marker prof))

  abbrev drift_found : NodeClaim → Result CloudError Instance → Exec W CloudError DriftReason
  drift_found nc (ok i) = drift_at nc i
  drift_found nc (err (node_claim_not_found e)) = pure no_drift
  drift_found nc (err e) = raise e

  -- `IsDrifted`
  unfoldable pub is_drifted : NodeClaim → Exec W CloudError DriftReason
  unfolding node_class_by_ref drift_of
  is_drifted nc =
      if nc.provider_id == ""
      then pure no_drift
      else do r ← attempt (instances.get nc.provider_id); drift_found nc r
