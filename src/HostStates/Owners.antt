-- ===== src/HostStates/Owners.antt =====
-- The writes of pkg/providers/host: a claim, a release and the setters of a claimed host are steps
-- of its life.
use karpenter_provider_ssh.Common.{String, ◌≡◌, refl, ◌∙◌, Bool, true, false, Option, none, some}
use karpenter_provider_ssh.Exec.{Result, ok, err}
use karpenter_provider_ssh.Exec.Keep.{Keeps, if-Held}
use karpenter_provider_ssh.Api.Errors.{Error}
use karpenter_provider_ssh.Api.Host.{
  Host, HostStatus, HostState, ClaimReference, unset, pending, available, claimed, in_use,
  unhealthy, leaving, maintenance,
}
use karpenter_provider_ssh.Api.NodeClaim.{NodeClaim}
use karpenter_provider_ssh.Kube.{Session, stored}
use karpenter_provider_ssh.Pool.{
  is_some, is_available, claim_status, release_status, claim_outcome, claim, release, cas_patch,
}
use karpenter_provider_ssh.Instance.{Deps}
use karpenter_provider_ssh.HostStates.{
  Edge, register, stay, vacate, condemn, OwnerStep, taken, WellFormed, Step, owned,
}
use karpenter_provider_ssh.HostStates.Server.{Server}
use karpenter_provider_ssh.HostStates.Claimed.{dropping}
use karpenter_provider_ssh.HostStates.Write.{Sound}

claim-Edge : (s : HostState) → is_available s ≡ true → Edge s claimed
claim-Edge available h = Edge.claim
claim-Edge unset h = cc
claim-Edge pending h = cc
claim-Edge claimed h = cc
claim-Edge in_use h = cc
claim-Edge unhealthy h = cc
claim-Edge leaving h = cc
claim-Edge maintenance h = cc

-- A host that is in use, or that was claimed, is in use.
pub register-Edge : (s : HostState) → owned s ≡ true → Edge s in_use
register-Edge claimed h = register
register-Edge in_use h = stay
register-Edge unset h = cc
register-Edge pending h = cc
register-Edge available h = cc
register-Edge unhealthy h = cc
register-Edge leaving h = cc
register-Edge maintenance h = cc

taking : (c : Option ClaimReference) (r : ClaimReference) → is_some c ≡ false → OwnerStep c (some r)
taking none r h = taken
taking (some c) r h = cc

claim-Step :
    (s : HostStatus) (nc : NodeClaim)
    → is_available s.state ≡ true
    → is_some s.claim_ref ≡ false
    → Step s (claim_status nc s)
unfolding claim_status
claim-Step s nc free unclaimed =
    (claim-Edge s.state free, taking s.claim_ref _ unclaimed, (refl, tt))

release-Step :
    (s : HostStatus) (healthy : Bool) (reason : String)
    → WellFormed s
    → owned s.state ≡ true
    → Step s (release_status healthy reason s)
unfolding release_status
release-Step s true reason (shape, clean) held =
    (vacate held, dropping s.claim_ref (shape ∙ held), (refl, (refl, refl)))
release-Step s false reason (shape, clean) held =
    (condemn held, dropping s.claim_ref (shape ∙ held), (refl, (refl, refl)))

module _ {W : Type 0} {deps : Deps W} {Known : Host → Type 0} {Inv : W → Type 0}
    (server : Server deps Known Inv) where
  -- The outcome of a write keeps the world that the write left.
  pub stored-Sound :
      (r : Result Error Host) (h : Host) (w : W)
      → Inv w
      → Sound server (stored r (record { host = h; world = w })).1
  stored-Sound (ok g) h w i = i
  stored-Sound (err e) h w i = i

  claim_outcome-Sound :
      (r : Result Error (Unit {0})) → Keeps (Sound server) (claim_outcome deps.client r)
  claim_outcome-Sound (ok a) s i = i
  claim_outcome-Sound (err e) s i = search (if-Held (Sound server), i)

  pub claim-Sound :
      (nc : NodeClaim) (s : Session W)
      → Known s.host
      → is_available s.host.status.state ≡ true
      → is_some s.host.status.claim_ref ≡ false
      → Inv s.world
      → Sound server (claim deps.client nc s).1
  unfolding claim
  claim-Sound nc s known free unclaimed i = claim_outcome-Sound _ _ (
      stored-Sound _ _ _ (
        server.update-Inv s.host (claim_status nc s.host.status) s.world known
          (claim-Step s.host.status nc free unclaimed) i))

  pub release-Sound :
      (healthy : Bool) (reason : String) (s : Session W)
      → Known s.host
      → owned s.host.status.state ≡ true
      → Inv s.world
      → Sound server (release deps.client healthy reason s).1
  unfolding release cas_patch
  release-Sound healthy reason s known held i = stored-Sound _ _ _ (
      server.patch-Inv (record s.host { status = release_status healthy reason s.host.status })
        s.host s.world known
        (release-Step s.host.status healthy reason (server.known-WellFormed s.host known) held) i)
