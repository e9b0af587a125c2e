-- ===== src/Class/Finalizer.antt =====
-- What keeps the finalizer of a node class while NodeClaims name the class.
use karpenter_provider_ssh.Common.{
  String, ◌≡◌, refl, true, Bool-cases, Option-cases, inl, inr, Option, none, some, List, [], ◌∷◌,
}
use karpenter_provider_ssh.Exec.{Result, ok, err, pure, raise}
use karpenter_provider_ssh.Exec.Keep.{>>=-Held, if-Held}
use karpenter_provider_ssh.Api.Errors.{Error, is_not_found}
use karpenter_provider_ssh.Api.JoinProfile.{JoinProfile}
use karpenter_provider_ssh.Api.NodeClass.{NodeClass}
use karpenter_provider_ssh.Api.NodeClaim.{NodeClaim}
use karpenter_provider_ssh.Pool.Interface.{HostProvider}
use karpenter_provider_ssh.Profile.{Templates}
use karpenter_provider_ssh.Profile.Render.{validate}
use karpenter_provider_ssh.Class.{
  ClassClient, StoredClass, Readiness, termination_finalizer, finalize, ensure_finalizer, assess,
  report, reconcile_class, with_profile, with_selector, some_host, verdict, release_finalizer,
  maintain, found_class, patch_status_if_changed,
}

-- A property of the world that no call of a reconcile of one class breaks by itself: reads and status
-- patches preserve it, and a write of that class does if the written finalizers have the one of
-- termination.
pub record Stable {W : Type 0} (c : ClassClient W) (hosts : HostProvider W) (class_name : String)
    (Held : W → Type 0) : Type 0 where
  pub get_class-Held : (name : String) (w : W) → Held w → Held (c.get_class name w).1
  pub get_profile-Held : (name : String) (w : W) → Held w → Held (c.get_profile name w).1
  pub claims-Held : (nc : StoredClass) (w : W) → Held w → Held (c.claims_of_class nc w).1
  pub all-Held :
      (class : NodeClass) (w : W) → Held w → Held (hosts.all class.spec.host_selector w).1
  pub patch-Held : (nc orig : StoredClass) (w : W) → Held w → Held (c.patch_status nc orig w).1
  pub update-Held :
      (nc : StoredClass) (w : W)
      → nc.class.meta.name ≡ class_name
      → c.contains_finalizer nc.finalizers termination_finalizer ≡ true
      → Held w
      → Held (c.update_class nc w).1
  -- `controllerutil.AddFinalizer`
  pub added_lem :
      (old new : List String)
      → c.add_finalizer old termination_finalizer ≡ some new
      → c.contains_finalizer new termination_finalizer ≡ true
  -- A read gives the class of the name.
  pub get_named :
      (w v : W) (nc : StoredClass)
      → c.get_class class_name w ≡ (ok nc, v)
      → nc.class.meta.name ≡ class_name
  -- Some NodeClaim names the class, and the index of karpenter core shows it.
  pub referenced :
      (nc : StoredClass) (w w' : W)
      → nc.class.meta.name ≡ class_name
      → Held w
      → ¬ (c.claims_of_class nc w ≡ (ok [], w'))

module _ {W : Type 0} (c : ClassClient W) (hosts : HostProvider W) (templates : Templates)
    (class_name : String) (Held : W → Type 0) (stable : Stable c hosts class_name Held) where
  finalize-Held :
      (nc : StoredClass) (w : W)
      → nc.class.meta.name ≡ class_name
      → Held w
      → Held (finalize c nc w).1
  unfolding finalize
  finalize-Held nc w named held =
      elim (Bool-cases (c.contains_finalizer nc.finalizers termination_finalizer)) [
        | inr gone ↦ rw gone held
        | inl there ↦ rw there (
            >>=-Held Held (c.claims_of_class nc) (release_finalizer c nc) w
              (stable.claims-Held nc w held) blocked)
      ]
    where
      blocked :
          (claims : List NodeClaim) (v : W)
          → c.claims_of_class nc w ≡ (ok claims, v)
          → Held v
          → Held (release_finalizer c nc claims v).1
      blocked (claim ∷ claims) v q h = h
      blocked [] v q h = absurd (stable.referenced nc w v named held q)

  ensure_finalizer-Held :
      (nc : StoredClass) (w : W)
      → nc.class.meta.name ≡ class_name
      → Held w
      → Held (ensure_finalizer c nc w).1
  unfolding ensure_finalizer
  ensure_finalizer-Held nc w named held =
      elim (Option-cases (c.add_finalizer nc.finalizers termination_finalizer)) [
        | inl same ↦ rw same held
        | inr (new, q) ↦
            rw q (stable.update-Held _ w named (stable.added_lem nc.finalizers new q) held)
      ]

  abbrev reported : StoredClass → Readiness → StoredClass
  reported nc r = record nc { class = record nc.class { conditions = verdict c nc.class r } }

  report-Held : (nc : StoredClass) (r : Readiness) (w : W) → Held w → Held (report c nc r w).1
  unfolding report patch_status_if_changed
  report-Held nc r w held =
      elim (Bool-cases (c.status_equal nc.class.conditions (verdict c nc.class r))) [
        | inl same ↦ rw same held
        | inr other ↦ rw other (
            >>=-Held Held (c.patch_status (reported nc r) nc) (λ a. pure tt) w
              (stable.patch-Held (reported nc r) nc w held) (λ a v q h. h))
      ]

  with_selector-Held :
      (class : NodeClass) (o : Option Error) (w : W)
      → Held w
      → Held (with_selector c hosts templates class o w).1
  with_selector-Held class (some e) w held = held
  with_selector-Held class none w held =
      >>=-Held Held (hosts.all class.spec.host_selector) (λ found. pure (some_host found)) w
        (stable.all-Held class w held) (λ a v q h. h)

  with_profile-Held :
      (class : NodeClass) (r : Result Error JoinProfile) (w : W)
      → Held w
      → Held (with_profile c hosts templates class r w).1
  with_profile-Held class (err e) w held = elim (Bool-cases (is_not_found e)) [
    | inl missing ↦ rw missing held
    | inr other ↦ rw other held
  ]
  with_profile-Held class (ok p) w held = elim (Option-cases (validate templates p)) [
    | inr (e, q) ↦ rw q held
    | inl valid ↦
        rw valid (with_selector-Held class (c.selector_error class.spec.host_selector) w held)
  ]

  assess-Held : (class : NodeClass) (w : W) → Held w → Held (assess c hosts templates class w).1
  unfolding assess
  assess-Held class w held =
      with_profile-Held class _ _ (stable.get_profile-Held class.spec.join_profile w held)

  maintain-Held :
      (nc : StoredClass) (w : W)
      → nc.class.meta.name ≡ class_name
      → Held w
      → Held (maintain c hosts templates nc w).1
  maintain-Held nc w named held =
      >>=-Held Held (ensure_finalizer c nc) _ w (ensure_finalizer-Held nc w named held)
        (λ kept v q h.
          >>=-Held Held (assess c hosts templates kept.class) (report c kept) v
            (assess-Held kept.class v h) (λ r u p g. report-Held kept r u g))

  found_class-Held :
      (r : Result Error StoredClass) (u w : W)
      → c.get_class class_name u ≡ (r, w)
      → Held w
      → Held (found_class c hosts templates r w).1
  found_class-Held (err e) u w q held =
      if-Held Held (is_not_found e) (pure tt) (raise e) w held held
  found_class-Held (ok nc) u w q held =
      let named = stable.get_named u w nc q in
      if-Held Held nc.deleting (finalize c nc) (maintain c hosts templates nc) w
        (finalize-Held nc w named held) (maintain-Held nc w named held)

  -- A property of the world that no single call breaks while some NodeClaim names the node class and
  -- every write of the class has its finalizer, such as that the class has its finalizer and a
  -- NodeClaim names it, holds after a reconcile of that class as well: whatever the class, the answers
  -- and the errors are.
  pub reconcile_class-Held :
      (w : W) → Held w → Held (reconcile_class c hosts templates class_name w).1
  unfolding reconcile_class
  reconcile_class-Held w held =
      found_class-Held (c.get_class class_name w).0 w (c.get_class class_name w).1 refl
        (stable.get_class-Held class_name w held)
