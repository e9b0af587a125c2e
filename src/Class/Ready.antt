-- ===== src/Class/Ready.antt =====
-- When a node class is ready.
use karpenter_provider_ssh.Common.{◌≡◌, refl, ◌↔◌, Option, none, some, List, [], ◌∷◌, arith}
use karpenter_provider_ssh.Exec.{Result, ok, err}
use karpenter_provider_ssh.Api.Errors.{Error}
use karpenter_provider_ssh.Api.Host.{Host}
use karpenter_provider_ssh.Api.JoinProfile.{JoinProfile}
use karpenter_provider_ssh.Api.NodeClass.{NodeClass}
use karpenter_provider_ssh.Pool.Interface.{HostProvider}
use karpenter_provider_ssh.Profile.{Templates}
use karpenter_provider_ssh.Profile.Render.{validate}
use karpenter_provider_ssh.Class.{ClassClient, ready, assess, with_profile, with_selector}

module _ {W : Type 0} (c : ClassClient W) (hosts : HostProvider W) (templates : Templates) where
  module _ (class : NodeClass) where
    -- The selector lists some host.
    abbrev pub Matches : W → W → Type 0
    Matches v w' =
        (h : Host) × (hs : List Host) × (hosts.all class.spec.host_selector v ≡ (ok (h ∷ hs), w'))

    matched :
        (v w' : W) → with_selector c hosts templates class none v ≡ (ok ready, w') → Matches v w'
    matched v w' e = listed (hosts.all class.spec.host_selector v) refl e
      where
        listed :
            (r : Result Error (List Host) × W)
            → hosts.all class.spec.host_selector v ≡ r
            → with_selector c hosts templates class none v ≡ (ok ready, w')
            → Matches v w'
        listed (err x, u) q e = cc
        listed (ok [], u) q e = cc
        listed (ok (h ∷ hs), u) q e = (h, hs, ground arith)

    profiled :
        (p : JoinProfile) (v w' : W)
        → with_profile c hosts templates class (ok p) v ≡ (ok ready, w')
        → (validate templates p ≡ none)
          × (c.selector_error class.spec.host_selector ≡ none)
          × Matches v w'
    profiled p v w' e =
        valid (validate templates p) refl (c.selector_error class.spec.host_selector) refl
      where
        valid :
            (o : Option Error)
            → validate templates p ≡ o
            → (s : Option Error) → c.selector_error class.spec.host_selector ≡ s
            → (validate templates p ≡ none)
              × (c.selector_error class.spec.host_selector ≡ none)
              × Matches v w'
        valid (some x) q s z = ground arith
        valid none q (some x) z = ground arith
        valid none q none z = (q, z, matched v w' (ground arith))

    -- A node class is assessed as ready exactly if its profile is there and valid, its selector is well
    -- formed, and the list of the hosts that it selects succeeds and is not empty.
    pub assess-ready :
        (w w' : W)
        → (assess c hosts templates class w ≡ (ok ready, w')) ↔ (
            (p : JoinProfile) × (v : W) × (c.get_profile class.spec.join_profile w ≡ (ok p, v))
            × (validate templates p ≡ none)
            × (c.selector_error class.spec.host_selector ≡ none)
            × Matches v w')
    unfolding assess
    assess-ready w w' = (forward (c.get_profile class.spec.join_profile w) refl, backward)
      where
        forward :
            (r : Result Error JoinProfile × W)
            → c.get_profile class.spec.join_profile w ≡ r
            → assess c hosts templates class w ≡ (ok ready, w')
            → (p : JoinProfile) × (v : W) × (c.get_profile class.spec.join_profile w ≡ (ok p, v))
              × (validate templates p ≡ none)
              × (c.selector_error class.spec.host_selector ≡ none)
              × Matches v w'
        forward (ok p, v) q e =
            let (valid, selector, m) = profiled p v w' (ground arith) in
            (p, v, q, valid, selector, m)
        forward (err x, v) q e = ground arith

        backward :
            (p : JoinProfile) × (v : W) × (c.get_profile class.spec.join_profile w ≡ (ok p, v))
              × (validate templates p ≡ none)
              × (c.selector_error class.spec.host_selector ≡ none)
              × Matches v w'
            → assess c hosts templates class w ≡ (ok ready, w')
        backward (p, v, q, valid, selector, (h, hs, l)) = rw q (rw valid (rw selector (rw l refl)))
