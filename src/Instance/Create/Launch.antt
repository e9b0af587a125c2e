-- ===== src/Instance/Create/Launch.antt =====
-- How `Create` ends, from the claimed host on.
use karpenter_provider_ssh.Common.{String, ◌≡◌, sym, ap, ◌∙◌, refl, arith}
use karpenter_provider_ssh.Exec.{Result, ok, err}
use karpenter_provider_ssh.Api.Errors.{Error}
use karpenter_provider_ssh.Api.NodeClass.{NodeClass}
use karpenter_provider_ssh.Api.NodeClaim.{NodeClaim}
use karpenter_provider_ssh.Kube.{Session}
use karpenter_provider_ssh.Instance.{Deps, Instance, CloudError}
use karpenter_provider_ssh.Instance.Join.{join}
use karpenter_provider_ssh.Instance.Create.{launch, node_identity}
use karpenter_provider_ssh.Instance.Lifecycle.{to_instance}

module _ {W : Type 0} (deps : Deps W) (class : NodeClass) (nc : NodeClaim) where
  -- What a launch that succeeds has done.
  abbrev pub Launched : Session W → Instance → Session W → Type 0
  Launched s i u =
      (joined : Session W) × (identified : Session W) × (recorded : Session W) × (id : String)
      × (join deps class nc s ≡ (ok tt, joined))
      × (node_identity deps class joined ≡ (ok id, identified))
      × (deps.pool.set_provider_id id identified ≡ (ok tt, recorded))
      × ((deps.pool.mark_in_use recorded).1 ≡ u)
      × (i ≡ to_instance u.host nc.meta.name)

  launch-ends :
      (s t t1 t2 : Session W) (id : String)
      → join deps class nc s ≡ (ok tt, t)
      → node_identity deps class t ≡ (ok id, t1)
      → deps.pool.set_provider_id id t1 ≡ (ok tt, t2)
      → launch deps class nc s ≡ (
        ok (to_instance (deps.pool.mark_in_use t2).1.host nc.meta.name),
        (deps.pool.mark_in_use t2).1,
      )
  unfolding launch
  launch-ends s t t1 t2 id q p o = rw q (rw p (rw o refl))

  outcome_eq :
      {i j : Instance} {u v : Session W}
      → Path (Result CloudError Instance × Session W) (ok i, u) (ok j, v)
      → (i ≡ j) × (u ≡ v)
  outcome_eq {i} {j} e = (cc, ap (λ (r : Result CloudError Instance × Session W). r.1) e)

  -- A launch succeeds only after the join succeeded, the node was identified, and its providerID was
  -- recorded on the host, in this order; it then marks the host as in use, and describes the host
  -- whether or not that mark succeeds.
  pub launch-Launched :
      (s u : Session W) (i : Instance) → launch deps class nc s ≡ (ok i, u) → Launched s i u
  unfolding launch
  launch-Launched s u i e = joined (join deps class nc s) refl
    where
      joined : (r : Result Error (Unit {0}) × Session W) → join deps class nc s ≡ r → Launched s i u
      joined (err x, t) q = absurd (ground arith)
      joined (ok a, t) q = identified (node_identity deps class t) refl
        where
          identified :
              (r : Result CloudError String × Session W)
              → node_identity deps class t ≡ r
              → Launched s i u
          identified (err x, t1) p = absurd (ground arith)
          identified (ok id, t1) p = recorded (deps.pool.set_provider_id id t1) refl
            where
              recorded :
                  (r : Result Error (Unit {0}) × Session W)
                  → deps.pool.set_provider_id id t1 ≡ r
                  → Launched s i u
              recorded (err x, t2) o = absurd (ground arith)
              recorded (ok b, t2) o =
                  let (same, at) = outcome_eq (sym (launch-ends s t t1 t2 id q p o) ∙ e) in
                  (
                    t,
                    t1,
                    t2,
                    id,
                    q,
                    p,
                    o,
                    at,
                    sym same ∙ ap (λ v. to_instance v.host nc.meta.name) at,
                  )
