-- ===== src/Instance/Create/Failed.antt =====
-- How `Create` fails, from the claimed host on: what becomes of the host and of its token.
use Prim.Native.String.{◌++◌}
use karpenter_provider_ssh.Common.{
  String, ◌≡◌, ◌==◌, refl, ◌⊎◌, inl, inr, Bool, true, false, Bool-cases,
}
use karpenter_provider_ssh.Exec.{Result, ok, err}
use karpenter_provider_ssh.Api.Errors.{Error, wrapped, message, is_config_error}
use karpenter_provider_ssh.Api.NodeClass.{NodeClass, is_adopt}
use karpenter_provider_ssh.Api.NodeClaim.{NodeClaim}
use karpenter_provider_ssh.Kube.{Session}
use karpenter_provider_ssh.Pool.{provider_id}
use karpenter_provider_ssh.Instance.{Deps, Instance, CloudError, create_failed, plain}
use karpenter_provider_ssh.Instance.Join.{join, release_failed, delete_bootstrap_token}
use karpenter_provider_ssh.Instance.Create.{launch, after_join, node_identity, adopt_provider_id}

module _ {W : Type 0} (deps : Deps W) (class : NodeClass) (nc : NodeClaim) where
  -- The token that the host records is deleted, whether or not the deletion succeeds.
  pub data TokenDropped : Session W → W → Type 0 where
    no_token :
        {t : Session W} → (t.host.status.bootstrap_token_id == "") ≡ true → TokenDropped t t.world
    asked :
        {t : Session W} {r : Result Error (Unit {0})} {v : W}
        → (t.host.status.bootstrap_token_id == "") ≡ false
        → deps.bootstrap.delete_token_by_id t.host.status.bootstrap_token_id t.world ≡ (r, v)
        → TokenDropped t v

  -- The host is released, as healthy or not, after its token was deleted.
  abbrev pub LetGo : Bool → String → Session W → Session W → Type 0
  LetGo healthy reason t u =
      (v : W) × (r : Result Error (Unit {0})) × TokenDropped t v
      × (deps.pool.release healthy reason (record { host = t.host; world = v }) ≡ (r, u))

  -- The ways to fail: the join fails, for the configuration or for the host; its node does not appear
  -- where its providerID is to be adopted; or the providerID cannot be recorded, which leaves the host
  -- claimed for the next attempt.
  pub data LaunchFailed (s : Session W) : CloudError → Session W → Type 0 where
    misconfigured :
        {e : Error} {t u : Session W}
        → join deps class nc s ≡ (err e, t)
        → is_config_error e ≡ true
        → LetGo true ("join failed: " ++ message e) t u
        → LaunchFailed s
            (create_failed
              (wrapped ("joining host " ++ (t.host.meta.name ++ ": ")) e)
              "JoinFailed"
              "joining host over SSH failed")
            u
    broken :
        {e : Error} {t u : Session W}
        → join deps class nc s ≡ (err e, t)
        → is_config_error e ≡ false
        → LetGo false ("join failed: " ++ message e) t u
        → LaunchFailed s
            (create_failed
              (wrapped ("joining host " ++ (t.host.meta.name ++ ": ")) e)
              "JoinFailed"
              "joining host over SSH failed")
            u
    unadopted :
        {e : Error} {t u : Session W} {w : W}
        → join deps class nc s ≡ (ok tt, t)
        → is_adopt class.spec.provider_id_source ≡ true
        → adopt_provider_id deps t.host t.world ≡ (err e, w)
        → LetGo false
            ("providerID adoption failed: " ++ message e)
            (record { host = t.host; world = w })
            u
        → LaunchFailed s
            (create_failed e "AdoptFailed" "node did not appear for providerID adoption")
            u
    unrecorded :
        {e : Error} {t v u : Session W} {id : String}
        → join deps class nc s ≡ (ok tt, t)
        → node_identity deps class t ≡ (ok id, v)
        → deps.pool.set_provider_id id v ≡ (err e, u)
        → LaunchFailed s (plain e) u

  delete_bootstrap_token-TokenDropped :
      (t : Session W)
      → (v : W) × (delete_bootstrap_token deps t ≡ (ok tt, record { host = t.host; world = v }))
        × TokenDropped t v
  unfolding delete_bootstrap_token
  delete_bootstrap_token-TokenDropped t =
      elim (Bool-cases (t.host.status.bootstrap_token_id == "")) [
        | inl blank ↦ (t.world, rw blank refl, no_token blank)
        | inr minted ↦ (
          (deps.bootstrap.delete_token_by_id t.host.status.bootstrap_token_id t.world).1,
          rw minted refl,
          asked minted refl,
        )
      ]

  release_failed-LetGo :
      (healthy : Bool) (reason : String) (t : Session W)
      → LetGo healthy reason t (release_failed deps healthy reason t).1
  unfolding release_failed
  release_failed-LetGo healthy reason t =
      let (v, deleted, dropped) = delete_bootstrap_token-TokenDropped t in
      (
        v,
        (deps.pool.release healthy reason (record { host = t.host; world = v })).0,
        dropped,
        rw deleted refl,
      )

  -- How a launch ends, where only failures are described.
  abbrev pub FailsAs : Session W → Result CloudError Instance × Session W → Type 0
  FailsAs s (ok i, u) = Unit
  FailsAs s (err x, u) = LaunchFailed s x u

  -- However a launch fails: after a failed join the host is released, as healthy exactly if the error
  -- is one of configuration, and after a node that did not appear as unhealthy, each time after the
  -- token that the host records was deleted; and where the providerID cannot be recorded the host is
  -- not released, and the error is passed on. There is no other way to fail.
  pub launch-FailsAs : (s : Session W) → FailsAs s (launch deps class nc s)
  unfolding launch after_join node_identity
  launch-FailsAs s = joined (join deps class nc s) refl
    where
      joined :
          (r : Result Error (Unit {0}) × Session W)
          → join deps class nc s ≡ r
          → FailsAs s (launch deps class nc s)
      joined (err e, t) q = elim (Bool-cases (is_config_error e)) [
        | inl config ↦ rw q (rw config (misconfigured q config (release_failed-LetGo true _ t)))
        | inr host ↦ rw q (rw host (broken q host (release_failed-LetGo false _ t)))
      ]
      joined (ok a, t) q = identified (Bool-cases (is_adopt class.spec.provider_id_source))
        where
          recorded :
              (id : String) (v : Session W)
              → node_identity deps class t ≡ (ok id, v)
              → (r : Result Error (Unit {0}) × Session W) → deps.pool.set_provider_id id v ≡ r
              → FailsAs s (launch deps class nc s)
          recorded id v p (err e, u) o = rw q (rw p (rw o (unrecorded q p o)))
          recorded id v p (ok b, u) o = rw q (rw p (rw o tt))

          looked :
              is_adopt class.spec.provider_id_source ≡ true
              → (r : Result Error String × W) → adopt_provider_id deps t.host t.world ≡ r
              → FailsAs s (launch deps class nc s)
          looked adopt (err e, w) p =
              rw q (rw adopt (rw p (unadopted q adopt p (release_failed-LetGo false _ _))))
          looked adopt (ok id, w) p =
              let v : Session W = record { host = t.host; world = w } in
              recorded id v (rw adopt (rw p refl)) (deps.pool.set_provider_id id v) refl

          identified :
              (is_adopt class.spec.provider_id_source ≡ true)
                ⊎ (is_adopt class.spec.provider_id_source ≡ false)
              → FailsAs s (launch deps class nc s)
          identified (inl adopt) = looked adopt (adopt_provider_id deps t.host t.world) refl
          identified (inr direct) =
              recorded (provider_id t.host) t (rw direct refl)
                (deps.pool.set_provider_id (provider_id t.host) t) refl
