-- ===== src/Class.antt =====
-- pkg/controllers/nodeclass.go: the Ready condition and the finalizer of a node class.
pub mod Ready
pub mod Finalizer
pub mod Watch
use Prim.Native.String.{◌++◌}
use karpenter_provider_ssh.Common.{
  String, Bool, not, Option, none, some, List, [], ◌∷◌, if◌then◌else◌,
}
use karpenter_provider_ssh.Exec.{Result, ok, err, Exec, pure, raise, attempt, ◌>>=◌, ◌>>◌}
use karpenter_provider_ssh.Api.Errors.{Error, message, is_not_found}
use karpenter_provider_ssh.Api.Meta.{LabelSelector, Condition}
use karpenter_provider_ssh.Api.Host.{Host}
use karpenter_provider_ssh.Api.JoinProfile.{JoinProfile}
use karpenter_provider_ssh.Api.NodeClass.{NodeClass}
use karpenter_provider_ssh.Api.NodeClaim.{NodeClaim}
use karpenter_provider_ssh.Pool.Interface.{HostProvider}
use karpenter_provider_ssh.Profile.{Templates}
use karpenter_provider_ssh.Profile.Render.{validate}

abbrev pub termination_finalizer : String
termination_finalizer = "karpenter.dklesev.github.io/termination"

-- A node class with the metadata that only this reconciler reads.
pub record StoredClass : Type 0 where
  pub class : NodeClass
  pub deleting : Bool
  pub finalizers : List String

-- The calls of the API server and of the libraries around it.
pub record ClassClient (W : Type 0) : Type 0 where
  pub get_class : String → Exec W Error StoredClass
  -- A write of the object; it gives the stored object back.
  pub update_class : StoredClass → Exec W Error StoredClass
  -- The patch of the status against the original.
  pub patch_status : StoredClass → StoredClass → Exec W Error StoredClass
  pub get_profile : String → Exec W Error JoinProfile
  -- The NodeClaims that name the class, by the index of karpenter core.
  pub claims_of_class : StoredClass → Exec W Error (List NodeClaim)
  -- `controllerutil`: the finalizers after an addition that changes them, and after a removal.
  pub contains_finalizer : List String → String → Bool
  pub add_finalizer : List String → String → Option (List String)
  pub remove_finalizer : List String → String → List String
  -- `metav1.LabelSelectorAsSelector`
  pub selector_error : Option LabelSelector → Option Error
  -- `SetTrue` and `SetFalse` of the Ready condition
  pub set_true : NodeClass → List Condition
  pub set_false : NodeClass → String → String → List Condition
  -- `equality.Semantic.DeepEqual` on statuses
  pub status_equal : List Condition → List Condition → Bool

-- What a reconcile says of a class that is not deleted, with reason and message.
pub data Readiness : Type 0 where
  ready : Readiness
  not_ready : String → String → Readiness

abbrev pub some_host : List Host → Readiness
some_host [] = not_ready "NoHosts" "no SSHHosts match the selector"
some_host (h ∷ hs) = ready

module _ {W : Type 0} (c : ClassClient W) where
  -- `patchStatusIfChanged`
  unfoldable pub patch_status_if_changed : StoredClass → StoredClass → Exec W Error (Unit {0})
  patch_status_if_changed nc orig =
      if c.status_equal orig.class.conditions nc.class.conditions
      then pure tt
      else do c.patch_status nc orig; pure tt

  abbrev pub release_finalizer : StoredClass → List NodeClaim → Exec W Error (Unit {0})
  release_finalizer nc (claim ∷ claims) = pure tt
  release_finalizer nc [] = do
    c.update_class
        (record nc { finalizers = c.remove_finalizer nc.finalizers termination_finalizer })
    pure tt

  -- `finalize`
  unfoldable pub finalize : StoredClass → Exec W Error (Unit {0})
  finalize nc =
      if not (c.contains_finalizer nc.finalizers termination_finalizer)
      then pure tt
      else do claims ← c.claims_of_class nc; release_finalizer nc claims

  abbrev added : StoredClass → Option (List String) → Exec W Error StoredClass
  added nc none = pure nc
  added nc (some finalizers) = c.update_class (record nc { finalizers = finalizers })

  -- The finalizer of a class that is not deleted.
  unfoldable pub ensure_finalizer : StoredClass → Exec W Error StoredClass
  ensure_finalizer nc = added nc (c.add_finalizer nc.finalizers termination_finalizer)

  abbrev pub verdict : NodeClass → Readiness → List Condition
  verdict class ready = c.set_true class
  verdict class (not_ready reason why) = c.set_false class reason why

  -- The write of the Ready condition.
  unfoldable pub report : StoredClass → Readiness → Exec W Error (Unit {0})
  unfolding patch_status_if_changed
  report nc r =
      patch_status_if_changed
        (record nc { class = record nc.class { conditions = verdict nc.class r } }) nc

  module _ (hosts : HostProvider W) (templates : Templates) where
    abbrev pub with_selector : NodeClass → Option Error → Exec W Error Readiness
    with_selector class (some e) = pure (not_ready "SelectorError" (message e))
    with_selector class none = do found ← hosts.all class.spec.host_selector; pure (some_host found)

    abbrev pub with_validity : NodeClass → Option Error → Exec W Error Readiness
    with_validity class (some e) = pure (not_ready "ProfileInvalid" (message e))
    with_validity class none = with_selector class (c.selector_error class.spec.host_selector)

    abbrev pub with_profile : NodeClass → Result Error JoinProfile → Exec W Error Readiness
    with_profile class (ok p) = with_validity class (validate templates p)
    with_profile class (err e) =
        if is_not_found e
        then pure (
            not_ready "ProfileNotFound"
              ("SSHJoinProfile " ++ (class.spec.join_profile ++ " not found")))
        else raise e

    -- The checks of `Reconcile`, in their order.
    unfoldable pub assess : NodeClass → Exec W Error Readiness
    assess class = do p ← attempt (c.get_profile class.spec.join_profile); with_profile class p

    abbrev pub maintain : StoredClass → Exec W Error (Unit {0})
    maintain nc = do kept ← ensure_finalizer nc; r ← assess kept.class; report kept r

    abbrev pub found_class : Result Error StoredClass → Exec W Error (Unit {0})
    found_class (ok nc) = if nc.deleting then finalize nc else maintain nc
    found_class (err e) = if is_not_found e then pure tt else raise e

    -- `Reconcile`
    unfoldable pub reconcile_class : String → Exec W Error (Unit {0})
    unfolding finalize ensure_finalizer assess report
    reconcile_class name = do r ← attempt (c.get_class name); found_class r
