-- ===== src/HostStates/Claimed.antt =====
-- The branch of `Reconcile` in pkg/controllers/hostprobe.go for claimed hosts: what it writes is a
-- step of the life of a host.
use karpenter_provider_ssh.Common.{
  String, ◌≡◌, refl, ◌∙◌, Bool, true, false, Option, none, some, ◌==◌,
}
use karpenter_provider_ssh.Exec.{ok}
use karpenter_provider_ssh.Exec.Keep.{if-Held, continue-Held}
use karpenter_provider_ssh.Api.Meta.{Node}
use karpenter_provider_ssh.Api.Host.{Host, HostStatus, ClaimReference}
use karpenter_provider_ssh.Kube.{Session}
use karpenter_provider_ssh.Pool.{is_some}
use karpenter_provider_ssh.Instance.{Deps}
use karpenter_provider_ssh.Probe.{stale_status}
use karpenter_provider_ssh.Probe.Held.{
  reconcile_claimed, release_stale, collect_token, spend_token, delete_bootstrap_token,
}
use karpenter_provider_ssh.HostStates.{lapse, OwnerStep, dropped, IsClean, WellFormed, Step, owned}
use karpenter_provider_ssh.HostStates.Server.{Server}
use karpenter_provider_ssh.HostStates.Calm.{node_by_internal_ip-Keeps, check_claim-Keeps}
use karpenter_provider_ssh.HostStates.Write.{Sound, patch_status-Sound}

pub dropping : (c : Option ClaimReference) → is_some c ≡ true → OwnerStep c none
dropping none h = cc
dropping (some r) h = dropped

pub claimed-IsClean : (c : Option ClaimReference) (p t : String) → is_some c ≡ true → IsClean c p t
claimed-IsClean none p t h = cc
claimed-IsClean (some r) p t h = tt

-- A stale claim is dropped with all that it has left on the host.
stale-Step : (s t : HostStatus) → WellFormed s → owned s.state ≡ true → Step s (stale_status t)
unfolding stale_status
stale-Step s t (shape, clean) claimed =
    (lapse claimed, dropping s.claim_ref (shape ∙ claimed), (refl, (refl, refl)))

-- The token of a claimed host is forgotten.
spent-Step :
    (s t : HostStatus) (id : String)
    → Step s t
    → owned t.state ≡ true
    → Step s (record t { bootstrap_token_id = id })
spent-Step s t id (edge, owner, (shape, clean)) claimed =
    (edge, owner, (shape, claimed-IsClean t.claim_ref t.provider_id id (shape ∙ claimed)))

module _ {W : Type 0} {deps : Deps W} {Known : Host → Type 0} {Inv : W → Type 0}
    (server : Server deps Known Inv) where
  -- A host in hand that a claim has, beside the stored one.
  abbrev pub Holding : Host → HostStatus → Type 0
  Holding orig t = Step orig.status t × (owned orig.status.state ≡ true) × (owned t.state ≡ true)

  -- The token is deleted at best, and the host in hand stays as it is.
  deleted :
      (s : Session W)
      → Inv s.world
      → (w : W) × (delete_bootstrap_token deps s ≡ (ok tt, record { host = s.host; world = w }))
        × Inv w
  unfolding delete_bootstrap_token
  deleted s i = split (s.host.status.bootstrap_token_id == "") refl
    where
      split :
          (b : Bool)
          → s.host.status.bootstrap_token_id == "" ≡ b
          → (w : W) × (delete_bootstrap_token deps s ≡ (ok tt, record { host = s.host; world = w }))
            × Inv w
      split true q = (s.world, rw q refl, i)
      split false q = (_, rw q refl, server.token-Inv s.host.status.bootstrap_token_id s.world i)

  release_stale-Sound :
      (orig : Host) (s : Session W)
      → Known orig
      → Holding orig s.host.status
      → Inv s.world
      → Sound server (release_stale deps orig s).1
  unfolding release_stale
  release_stale-Sound orig s known (step, held, holding) i =
      let (w, q, j) = deleted s i in
      rw q (
        search (
          patch_status-Sound server,
          known,
          stale-Step orig.status s.host.status (server.known-WellFormed orig known) held,
          j,
        ))

  spend_token-Sound :
      (orig h : Host) (node : Option Node) (s : Session W)
      → Known orig
      → Holding orig s.host.status
      → Inv s.world
      → Sound server (spend_token deps orig h node s).1
  spend_token-Sound orig h none s known (step, held, holding) i =
      search (patch_status-Sound server, known, step, i)
  spend_token-Sound orig h (some n) s known (step, held, holding) i = search (
    continue-Held (Sound server),
    server.token-Inv,
    patch_status-Sound server,
    known,
    spent-Step orig.status s.host.status "" step holding,
    i,
  )

  collect_token-Sound :
      (orig : Host) (s : Session W)
      → Known orig
      → Holding orig s.host.status
      → Inv s.world
      → Sound server (collect_token deps orig s).1
  unfolding collect_token
  collect_token-Sound orig s known (step, held, holding) i =
      search
        (
          if-Held (Sound server),
          continue-Held (Sound server),
          node_by_internal_ip-Keeps server,
          spend_token-Sound,
          patch_status-Sound server,
          known,
          step,
          held,
          holding,
          i,
        )
        depth 12

  pub reconcile_claimed-Sound :
      (orig : Host) (s : Session W)
      → Known orig
      → Holding orig s.host.status
      → Inv s.world
      → Sound server (reconcile_claimed deps orig s).1
  unfolding reconcile_claimed
  reconcile_claimed-Sound orig s known (step, held, holding) i =
      search
        (
          if-Held (Sound server),
          continue-Held (Sound server),
          check_claim-Keeps server,
          release_stale-Sound,
          collect_token-Sound,
          known,
          step,
          held,
          holding,
          i,
        )
        depth 12
