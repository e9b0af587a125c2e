-- ===== src/Probe/Held/Stale.antt =====
-- The whole branch of the reconciler for claimed hosts: when a claim goes, and what goes with it.
use karpenter_provider_ssh.Common.{ℕ, ◌≡◌, ◌==◌, none, some, true, false}
use karpenter_provider_ssh.Exec.{Result, ok, err}
use karpenter_provider_ssh.Api.Errors.{Error, is_not_found}
use karpenter_provider_ssh.Api.Host.{Host, pending, ClaimReference}
use karpenter_provider_ssh.Api.NodeClaim.{NodeClaim}
use karpenter_provider_ssh.Kube.{Session}
use karpenter_provider_ssh.Instance.{Deps}
use karpenter_provider_ssh.Probe.{conflict_retry}
use karpenter_provider_ssh.Probe.Stores.{Stored}
use karpenter_provider_ssh.Probe.Held.{collect_token}

-- The NodeClaim of a claim is gone: there is none of its name, or one with another UID.
abbrev pub Gone : ClaimReference → Result Error NodeClaim → Type 0
Gone ref (err e) = is_not_found e ≡ true
Gone ref (ok nc) =
    ((ref.uid == "") ≡ false) × ((nc.meta.uid == "") ≡ false) × ((ref.uid == nc.meta.uid) ≡ false)

-- A NodeClaim was read that may hold the claim: it has the UID of the claim, or one has none.
abbrev pub Alive : ClaimReference → Result Error NodeClaim → Type 0
Alive ref (err e) = ⊥
Alive ref (ok nc) = Gone ref (ok nc) → ⊥

module _ {W : Type 0} (deps : Deps W) where
  -- The token that a host records is deleted, whether or not the deletion succeeds.
  pub data Dropped : Host → W → W → Type 0 where
    no_token : {h : Host} {w : W} → (h.status.bootstrap_token_id == "") ≡ true → Dropped h w w
    asked :
        {h : Host} {w v : W} {r : Result Error (Unit {0})}
        → (h.status.bootstrap_token_id == "") ≡ false
        → deps.bootstrap.delete_token_by_id h.status.bootstrap_token_id w ≡ (r, v)
        → Dropped h w v

  -- A run of the branch: it fails with the read of the NodeClaim; or the NodeClaim is gone, the token
  -- is deleted, and the host is stored as pending and without claim, providerID and token; or nothing
  -- says that the claim is stale, and the hygiene of the token goes on.
  pub data ClaimRun (orig : Host) (s : Session W) : Result Error ℕ × Session W → Type 0 where
    unread :
        {ref : ClaimReference} {e : Error} {w : W}
        → s.host.status.claim_ref ≡ some ref
        → deps.client.get_node_claim ref.name s.world ≡ (err e, w)
        → is_not_found e ≡ false
        → ClaimRun orig s (err e, record { host = s.host; world = w })
    freed :
        {ref : ClaimReference} {answer : Result Error NodeClaim} {new : Host} {w v : W}
        {r : Result Error ℕ × Session W}
        → s.host.status.claim_ref ≡ some ref
        → deps.client.get_node_claim ref.name s.world ≡ (answer, w)
        → Gone ref answer
        → Dropped s.host w v
        → (new.status.state ≡ pending)
          × (new.status.claim_ref ≡ none)
          × (new.status.provider_id ≡ "")
          × (new.status.bootstrap_token_id ≡ "")
        → Stored deps conflict_retry orig new v r
        → ClaimRun orig s r
    unclaimed : s.host.status.claim_ref ≡ none → ClaimRun orig s (collect_token deps orig s)
    live :
        {ref : ClaimReference} {answer : Result Error NodeClaim} {w : W}
        → s.host.status.claim_ref ≡ some ref
        → deps.client.get_node_claim ref.name s.world ≡ (answer, w)
        → Alive ref answer
        → ClaimRun orig s (collect_token deps orig (record { host = s.host; world = w }))
