-- ===== src/CloudProvider/Verdicts.antt =====
-- `Create` of pkg/cloudprovider: what a verdict of insufficient capacity stands for. Karpenter core
-- deletes a NodeClaim on that verdict, so no error that a retry may cure becomes one.
use karpenter_provider_ssh.Common.{
  ◌≡◌, refl, sym, subst, ◌⊎◌, inl, inr, true, Bool-cases, Option, none, some, List, [], ◌∷◌, arith,
}
use karpenter_provider_ssh.Exec.{Result, ok, err, Exec, map_error, ◌>>=◌}
use karpenter_provider_ssh.Exec.Chain.{>>=-eq-err, map_error-eq-ok, map_error-eq-err}
use karpenter_provider_ssh.Api.Errors.{Error, is_not_found}
use karpenter_provider_ssh.Api.Meta.{Condition, ConditionStatus, is_true, is_false, is_unknown}
use karpenter_provider_ssh.Api.NodeClass.{NodeClass}
use karpenter_provider_ssh.Api.NodeClaim.{NodeClaim}
use karpenter_provider_ssh.Kube.{Client}
use karpenter_provider_ssh.Sshexec.Wire.{Bytes}
use karpenter_provider_ssh.Instance.{
  Instance, InstanceType, CloudError, insufficient_capacity, plain,
}
use karpenter_provider_ssh.CloudProvider.{Core, InstanceProvider, InstanceTypeProvider}
use karpenter_provider_ssh.CloudProvider.Operations.{
  create_claim, node_class_by_ref, resolve_instance_types, create_in, create_with, create_of,
  require_ready, unresolved,
}

module _ {W : Type 0} (core : Core W) (client : Client W) (instances : InstanceProvider W)
    (types : InstanceTypeProvider W) (sha256 : Bytes → Bytes) (nc : NodeClaim) where
  abbrev created : NodeClaim → Exec W CloudError NodeClaim
  created = create_claim core client instances types sha256

  abbrev resolved : Exec W Error NodeClass
  resolved = node_class_by_ref core client instances types sha256 nc.node_class_ref

  abbrev offers : NodeClass → Exec W Error (List InstanceType)
  offers = resolve_instance_types core client instances types sha256 nc

  abbrev ready : NodeClass → Exec W CloudError (Unit {0})
  ready class = require_ready core client instances types sha256 (core.ready_condition class)

  -- The readiness of a class that `Create` goes on with.
  abbrev pub IsReady : NodeClass → Type 0
  IsReady class = (c : Condition) × (core.ready_condition class ≡ some c) × (c.status ≡ is_true)

  ready-IsReady :
      (class : NodeClass) (w w' : W) → ready class w ≡ (ok tt, w') → IsReady class × (w ≡ w')
  ready-IsReady class w w' h = split (core.ready_condition class) refl
    where
      split : (o : Option Condition) → core.ready_condition class ≡ o → IsReady class × (w ≡ w')
      split none q = absurd (ground arith)
      split (some c) q = by_status c.status refl
        where
          by_status : (x : ConditionStatus) → c.status ≡ x → IsReady class × (w ≡ w')
          by_status is_true p = ((c, q, p), ground arith)
          by_status is_false p = absurd (ground arith)
          by_status is_unknown p = absurd (ground arith)

  not_ready-ne-insufficient :
      (class : NodeClass) (w w' : W) (e : Error)
      → ready class w ≡ (err (insufficient_capacity e), w')
      → ⊥
  not_ready-ne-insufficient class w w' e h = split (core.ready_condition class) refl
    where
      split : (o : Option Condition) → core.ready_condition class ≡ o → ⊥
      split none q = ground arith
      split (some c) q = by_status c.status refl
        where
          by_status : (x : ConditionStatus) → c.status ≡ x → ⊥
          by_status is_true p = ground arith
          by_status is_false p = ground arith
          by_status is_unknown p = ground arith

  -- The node class does not exist.
  abbrev pub ClassMissing : W → Type 0
  ClassMissing w = (x : Error) × (w' : W) × (resolved w ≡ (err x, w')) × (is_not_found x ≡ true)

  -- The node class is ready, and offers nothing that suits the NodeClaim.
  abbrev pub NothingOffered : W → Type 0
  NothingOffered w =
      (class : NodeClass) × (u w' : W) × (resolved w ≡ (ok class, u))
      × IsReady class
      × (offers class u ≡ (ok [], w'))

  -- The instance provider has no host for any type that suits.
  abbrev pub NoHost : W → Error → Type 0
  NoHost w e =
      (class : NodeClass) × (its : List InstanceType) × (u v w' : W) × (resolved w ≡ (ok class, u))
      × IsReady class
      × (offers class u ≡ (ok its, v))
      × (instances.create class nc its v ≡ (err (insufficient_capacity e), w'))

  abbrev failing : NodeClass → List InstanceType → Exec W CloudError NodeClaim
  failing = create_of core client instances types sha256 nc

  abbrev listed : NodeClass → Exec W CloudError NodeClaim
  listed class =
      map_error plain (offers class) >>= create_with core client instances types sha256 nc class

  -- How a ready class falls short.
  abbrev Short : NodeClass → W → W → Error → Type 0
  Short class u w' e =
      (offers class u ≡ (ok [], w'))
      ⊎ ((its : List InstanceType) × (v x : W) × (offers class u ≡ (ok its, v))
          × (instances.create class nc its v ≡ (err (insufficient_capacity e), x)))

  create_of-insufficient :
      (class : NodeClass) (its : List InstanceType) (v w' : W) (e : Error)
      → failing class its v ≡ (err (insufficient_capacity e), w')
      → (x : W) × (instances.create class nc its v ≡ (err (insufficient_capacity e), x))
  create_of-insufficient class its v w' e h = split (instances.create class nc its v) refl
    where
      split :
          (r : Result CloudError Instance × W)
          → instances.create class nc its v ≡ r
          → (x : W) × (instances.create class nc its v ≡ (err (insufficient_capacity e), x))
      split (ok i, x) q = absurd (ground arith)
      split (err y, x) q = (x, ground arith)

  create_in-insufficient :
      (class : NodeClass) (u w' : W) (e : Error)
      → create_in core client instances types sha256 nc class u
        ≡ (err (insufficient_capacity e), w')
      → IsReady class × Short class u w' e
  create_in-insufficient class u w' e h =
      elim (>>=-eq-err (ready class) (λ t. listed class) u w' h) [
        | inl unready ↦ absurd (not_ready-ne-insufficient class u w' e unready)
        | inr (t, v, q, h1) ↦
            let (r, same) = ready-IsReady class u v q in
            (r, subst (λ z. Short class z w' e) (sym same) (short v h1))
      ]
    where
      offered :
          (v x : W) (its : List InstanceType)
          → offers class v ≡ (ok its, x)
          → create_with core client instances types sha256 nc class its x
            ≡ (err (insufficient_capacity e), w')
          → Short class v w' e
      offered v x [] q h2 = inl (ground arith)
      offered v x (it ∷ its) q h2 =
          let (y, z) = create_of-insufficient class (it ∷ its) x w' e h2 in
          inr (it ∷ its, x, y, q, z)

      short : (v : W) → listed class v ≡ (err (insufficient_capacity e), w') → Short class v w' e
      short v h1 =
          elim (>>=-eq-err (map_error plain (offers class))
            (create_with core client instances types sha256 nc class) v w' h1) [
              | inl unlisted ↦
                  let (x, q, same) = map_error-eq-err plain (offers class) v w' unlisted in
                  absurd (ground arith)
              | inr (its, x, q, h2) ↦
                  offered v x its (map_error-eq-ok plain (offers class) v x q) h2
            ]

  -- `Create` reports insufficient capacity only if the node class does not exist, if it is ready and
  -- none of its types suits the NodeClaim, or if the instance provider has reported it.
  pub create_claim-insufficient :
      (w w' : W) (e : Error)
      → created nc w ≡ (err (insufficient_capacity e), w')
      → ClassMissing w ⊎ NothingOffered w ⊎ NoHost w e
  unfolding create_claim
  create_claim-insufficient w w' e h =
      elim (>>=-eq-err (map_error (unresolved core client instances types sha256) resolved)
        (create_in core client instances types sha256 nc) w w' h) [
          | inl failed ↦
              let (x, q, same) =
                map_error-eq-err (unresolved core client instances types sha256) resolved w w'
                  failed in
              inl (x, w', q, missing x same)
          | inr (class, u, q, h1) ↦
              let q' =
                map_error-eq-ok (unresolved core client instances types sha256) resolved w u q in
              let (r, short) = create_in-insufficient class u w' e h1 in
              inr (placed class u q' r short)
        ]
    where
      placed :
          (class : NodeClass) (u : W)
          → resolved w ≡ (ok class, u)
          → IsReady class
          → Short class u w' e
          → NothingOffered w ⊎ NoHost w e
      placed class u q r (inl bare) = inl (class, u, w', q, r, bare)
      placed class u q r (inr (its, v, x, q2, z)) = inr (class, its, u, v, x, q, r, q2, z)

      missing :
          (x : Error)
          → insufficient_capacity e ≡ unresolved core client instances types sha256 x
          → is_not_found x ≡ true
      missing x same = elim (Bool-cases (is_not_found x)) [
        | inl gone ↦ gone
        | inr other ↦ absurd (ground arith)
      ]
