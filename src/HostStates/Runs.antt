-- ===== src/HostStates/Runs.antt =====
-- The calls of the controllers that write the status of hosts, one after another in any order, as
-- runs of the state machine.
use karpenter_provider_ssh.Common.{ℕ, String, ◌≡◌, Bool, true, false, arith}
use karpenter_provider_ssh.Exec.{ok}
use karpenter_provider_ssh.Api.Host.{Host}
use karpenter_provider_ssh.Api.NodeClaim.{NodeClaim}
use karpenter_provider_ssh.Instance.{Deps}
use karpenter_provider_ssh.Instance.Lifecycle.{delete}
use karpenter_provider_ssh.Pool.Interface.{default_provider}
use karpenter_provider_ssh.HostStates.Deletes.{delete-Keeps}
use karpenter_provider_ssh.Pool.{
  is_some, is_available, claimable, claim, release, mark_in_use, set_installed, set_provider_id,
  set_bootstrap_token_id,
}
use karpenter_provider_ssh.Probe.Reconcile.{reconcile}
use karpenter_provider_ssh.HostStates.{WellFormed, owned}
use karpenter_provider_ssh.HostStates.Server.{Server}
use karpenter_provider_ssh.HostStates.Reconcile.{reconcile-Keeps}
use karpenter_provider_ssh.HostStates.Owners.{claim-Sound, release-Sound}
use karpenter_provider_ssh.HostStates.Setters.{
  mark_in_use-Sound, set_installed-Sound, set_provider_id-Sound, set_bootstrap_token_id-Sound,
}

module _ {W : Type 0} (deps : Deps W) (clock : W → ℕ) (Known : Host → Type 0) where
  -- A call of the host provider on a host that some read has given, which may be old by now.
  pub data PoolCall : Host → W → W → Type 0 where
    claims :
        {h : Host} {w : W} (class : String) (nc : NodeClaim)
        → claimable class h ≡ true
        → PoolCall h w (claim deps.client nc (record { host = h; world = w })).1.world
    releases :
        {h : Host} {w : W} (healthy : Bool) (reason : String)
        → owned h.status.state ≡ true
        → PoolCall h w (release deps.client healthy reason (record { host = h; world = w })).1.world
    marks :
        {h : Host} {w : W}
        → owned h.status.state ≡ true
        → PoolCall h w (mark_in_use deps.client (record { host = h; world = w })).1.world
    installs :
        {h : Host} {w : W} (marker : String)
        → owned h.status.state ≡ true
        → PoolCall h w (set_installed deps.client marker (record { host = h; world = w })).1.world
    adopts :
        {h : Host} {w : W} (id : String)
        → owned h.status.state ≡ true
        → PoolCall h w (set_provider_id deps.client id (record { host = h; world = w })).1.world
    issues :
        {h : Host} {w : W} (id : String)
        → owned h.status.state ≡ true
        → PoolCall h w
            (set_bootstrap_token_id deps.client id (record { host = h; world = w })).1.world

  -- A sequence of such calls, of reconciles and of deletions of NodeClaims.
  pub data Run (start : W) : W → Type 0 where
    begin : Run start start
    pool : {w v : W} → Run start w → (h : Host) → Known h → PoolCall h w v → Run start v
    probes :
        {w : W} → Run start w → (ns name : String) → Run start (reconcile deps clock ns name w).1
    deletes : {w : W} → Run start w → (nc : NodeClaim) → Run start (delete deps nc w).1

claimable-free :
    (class : String) (h : Host)
    → claimable class h ≡ true
    → (is_available h.status.state ≡ true) × (is_some h.status.claim_ref ≡ false)
unfolding claimable
claimable-free class h e = ground arith

module _ {W : Type 0} {deps : Deps W} {Known : Host → Type 0} {Inv : W → Type 0}
    (server : Server deps Known Inv) (clock : W → ℕ) (pool_namespace : String)
    (pooled : deps.pool ≡ default_provider deps.client pool_namespace) where
  pool_call-Inv : (h : Host) (w v : W) → Known h → PoolCall deps clock Known h w v → Inv w → Inv v
  pool_call-Inv h w v known (claims class nc free) i =
      let (idle, unclaimed) = claimable-free class h free in
      claim-Sound server nc _ known idle unclaimed i
  pool_call-Inv h w v known (releases healthy reason held) i =
      release-Sound server healthy reason _ known held i
  pool_call-Inv h w v known (marks held) i = mark_in_use-Sound server _ (known, held) i
  pool_call-Inv h w v known (installs marker held) i =
      set_installed-Sound server marker _ (known, held) i
  pool_call-Inv h w v known (adopts id held) i = set_provider_id-Sound server id _ (known, held) i
  pool_call-Inv h w v known (issues id held) i =
      set_bootstrap_token_id-Sound server id _ (known, held) i

  pub run-Inv : (u w : W) → Run deps clock Known u w → Inv u → Inv w
  run-Inv u w begin i = i
  run-Inv u v (pool run h known c) i = pool_call-Inv h _ v known c (run-Inv u _ run i)
  run-Inv u v (probes run ns name) i = reconcile-Keeps server clock ns name _ (run-Inv u _ run i)
  run-Inv u v (deletes run nc) i =
      delete-Keeps server pool_namespace pooled nc _ (run-Inv u _ run i)

  -- After any sequence of reconciles, deletions of NodeClaims, and claims of claimable hosts,
  -- releases and setters of claimed ones, each on an object that the server has stored at some time, a
  -- host that is read has a claim exactly if it is Claimed or InUse, and without a claim it has
  -- neither a provider ID nor a bootstrap token. A call on a host in hand that was never stored, such
  -- as a release after a setter whose write failed, is none of the sequence.
  pub run-WellFormed :
      (u w v : W) (ns name : String) (h : Host)
      → Run deps clock Known u w
      → Inv u
      → deps.client.get_host ns name w ≡ (ok h, v)
      → WellFormed h.status
  run-WellFormed u w v ns name h run i read =
      server.known-WellFormed h (server.get_known ns name w v h (run-Inv u w run i) read)
