-- ===== src/CloudProvider/Drift.antt =====
-- Drift: what `IsDrifted` says of a NodeClaim that `Create` has stamped.
use Prim.Native.Char.{Char}
use karpenter_provider_ssh.Common.{
  String, ◌≡◌, refl, ap, ◌∙◌, subst, inl, inr, false, not, ◌&&◌, Bool-cases, some, List, [], ◌∷◌,
  Dict, lookup, length, take, ◌==◌, eq_iff, arith, if◌then◌else◌,
}
use karpenter_provider_ssh.Exec.{Result, ok, err, Exec, map_error, ◌>>=◌}
use karpenter_provider_ssh.Exec.Chain.{>>=-eq-ok}
use karpenter_provider_ssh.Api.Errors.{Error}
use karpenter_provider_ssh.Api.JoinHash.{join_hash, join_document, hex}
use karpenter_provider_ssh.Api.JoinProfile.{JoinProfile}
use karpenter_provider_ssh.Api.NodeClass.{NodeClass}
use karpenter_provider_ssh.Api.NodeClaim.{NodeClaim}
use karpenter_provider_ssh.Kube.{Client}
use karpenter_provider_ssh.Profile.{installed_marker}
use karpenter_provider_ssh.Sshexec.Wire.{Bytes}
use karpenter_provider_ssh.Instance.{Instance, InstanceType, CloudError, plain}
use karpenter_provider_ssh.CloudProvider.{
  Core, InstanceProvider, InstanceTypeProvider, DriftReason, profile_drift, node_class_drift,
  no_drift, hash_annotation, hash_version_annotation, hash_version,
}
use karpenter_provider_ssh.CloudProvider.Operations.{
  create_claim, node_class_by_ref, create_in, create_with, create_of, require_ready,
  resolve_instance_types, stamps, require_types, drift_of, is_drifted,
}

nonempty_text : (c : Char) (s : String) → (String.◌∷◌ c s == "") ≡ false
nonempty_text c s = elim (Bool-cases (String.◌∷◌ c s == "")) [
  | inl e ↦ let q : String.◌∷◌ c s ≡ "" = (eq_iff (String.◌∷◌ c s) "").0 e in cc
  | inr e ↦ e
]

module _ (sha256 : Bytes → Bytes) (sized : (b : Bytes) → length (sha256 b) ≡ 32) where
  nonempty_hex : (b : Bytes) → length b ≡ 32 → (hex (take 8 b) == "") ≡ false
  unfolding hex
  nonempty_hex [] h = absurd (ground arith)
  nonempty_hex (x ∷ b) h = nonempty_text _ _

  nonempty_hash : (class : NodeClass) → (join_hash sha256 class == "") ≡ false
  unfolding join_hash
  nonempty_hash class = nonempty_hex (sha256 (join_document class.spec)) (sized _)

  -- The verdict on a NodeClaim of a class, from what the host has installed, the class as it is now
  -- and the marker of its profile.
  abbrev pub verdict : NodeClass → String → NodeClass → String → DriftReason
  verdict class installed now marker =
      if not (installed == "") && not (installed == marker)
      then profile_drift
      else if join_hash sha256 class == join_hash sha256 now
      then no_drift
      else node_class_drift

  module _ {W : Type 0} (core : Core W) (client : Client W) (instances : InstanceProvider W)
      (types : InstanceTypeProvider W) where
    -- Annotations with the stamp of a class.
    abbrev Stamped : NodeClass → Dict String → Type 0
    Stamped class annotations =
        (lookup hash_annotation annotations ≡ some (join_hash sha256 class))
        × (lookup hash_version_annotation annotations ≡ some hash_version)

    stamps-Stamped :
        (class : NodeClass) → Stamped class (stamps core client instances types sha256 class)
    unfolding lookup
    stamps-Stamped class = (refl, refl)

    drift_of-Stamped :
        (class : NodeClass) (claim : NodeClaim) (installed : String) (now : NodeClass)
        (marker : String)
        → Stamped class claim.meta.annotations
        → drift_of core client instances types sha256 claim installed now marker
          ≡ verdict class installed now marker
    unfolding drift_of
    drift_of-Stamped class claim installed now marker (hash, version) =
        rw hash (rw version (rw (nonempty_hash class) (ground arith)))

    abbrev launched : NodeClaim → Exec W CloudError NodeClaim
    launched = create_claim core client instances types sha256

    abbrev resolve : NodeClaim → Exec W Error NodeClass
    resolve nc = node_class_by_ref core client instances types sha256 nc.node_class_ref

    abbrev offers : NodeClaim → NodeClass → Exec W Error (List InstanceType)
    offers = resolve_instance_types core client instances types sha256

    create_of-Stamped :
        (nc out : NodeClaim) (class : NodeClass) (its : List InstanceType) (w w' : W)
        → create_of core client instances types sha256 nc class its w ≡ (ok out, w')
        → Stamped class out.meta.annotations
    create_of-Stamped nc out class its w w' h = split (instances.create class nc its w) refl
      where
        split :
            (r : Result CloudError Instance × W)
            → instances.create class nc its w ≡ r
            → Stamped class out.meta.annotations
        split (err y, x) q = absurd (ground arith)
        split (ok i, x) q =
            subst (Stamped class) {y = out.meta.annotations} (ground arith) (stamps-Stamped class)

    create_in-Stamped :
        (nc out : NodeClaim) (class : NodeClass) (w w' : W)
        → create_in core client instances types sha256 nc class w ≡ (ok out, w')
        → Stamped class out.meta.annotations
    create_in-Stamped nc out class w w' h =
        let (t, u, q, h1) =
          >>=-eq-ok (require_ready core client instances types sha256 (core.ready_condition class))
            (λ t.
              map_error plain (offers nc class)
              >>= create_with core client instances types sha256 nc class)
            w w' h in
        let (its, v, q1, h2) =
          >>=-eq-ok (map_error plain (offers nc class))
            (create_with core client instances types sha256 nc class) u w' h1 in
        let (t', x, q2, h3) =
          >>=-eq-ok (require_types core client instances types sha256 nc its)
            (λ t. create_of core client instances types sha256 nc class its) v w' h2 in
        create_of-Stamped nc out class its x w' h3

    create-Stamped :
        (nc out : NodeClaim) (class : NodeClass) (w w' u : W)
        → resolve nc w ≡ (ok class, u)
        → launched nc w ≡ (ok out, w')
        → Stamped class out.meta.annotations
    unfolding create_claim
    create-Stamped nc out class w w' u q h = create_in-Stamped nc out class u w' (ground arith)

    -- Of a NodeClaim that keeps the annotations that `Create` has put on it, and whose instance, node
    -- class and profile are found, `IsDrifted` says: that the profile has drifted, if the host has
    -- something else installed; else that the node class has drifted, exactly if the digest of the
    -- fields that feed a join is another one than when the NodeClaim was created; else nothing.
    pub created-is_drifted :
        (nc claim out : NodeClaim) (class now : NodeClass) (i : Instance) (prof : JoinProfile)
        (w w' u v v1 v2 v3 : W)
        → resolve nc w ≡ (ok class, u)
        → launched nc w ≡ (ok out, w')
        → claim.meta.annotations ≡ out.meta.annotations
        → (claim.provider_id == "") ≡ false
        → instances.get claim.provider_id v ≡ (ok i, v1)
        → resolve claim v1 ≡ (ok now, v2)
        → client.get_profile now.spec.join_profile v2 ≡ (ok prof, v3)
        → is_drifted core client instances types sha256 claim v
          ≡ (ok (verdict class i.installed_profile now (installed_marker prof)), v3)
    unfolding is_drifted
    created-is_drifted nc claim out class now i prof w w' u v v1 v2 v3 resolved made kept named got
          current profiled =
        let (hash, version) = create-Stamped nc out class w w' u resolved made in
        rw named (
          rw got (
            rw current (
              rw profiled (
                ap (λ d. (ok d, v3))
                  (drift_of-Stamped class claim i.installed_profile now (installed_marker prof) (
                    ap (λ a. lookup hash_annotation a) kept ∙ hash,
                    ap (λ a. lookup hash_version_annotation a) kept ∙ version,
                  ))))))
