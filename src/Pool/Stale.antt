-- ===== src/Pool/Stale.antt =====
-- The host in hand after a failed `SetBootstrapTokenID`, and the `Release` that follows it.
use karpenter_provider_ssh.Common.{
  ℕ, zero, suc, String, Bool, ◌≡◌, refl, subst, inl, inr, true, false, Bool-cases, arith, Option,
}
use karpenter_provider_ssh.Exec.{Result, ok, err}
use karpenter_provider_ssh.Api.Errors.{Error, is_conflict}
use karpenter_provider_ssh.Api.Host.{Host, HostStatus, ClaimReference}
use karpenter_provider_ssh.Kube.{Client, Session, write}
use karpenter_provider_ssh.Pool.{
  same_claim, set_status_once, retry_on_conflict, after_patch, refetch, set_bootstrap_token_id,
  set_status, release, cas_patch, release_status,
}

module _ {W : Type 0} (c : Client W) where
  abbrev cleared : HostStatus → HostStatus
  cleared s = record s { bootstrap_token_id = "" }

  -- After an error that is no conflict, the token is cleared in the host in hand.
  abbrev Left : Result Error (Unit {0}) × Session W → Type 0
  Left (ok a, t) = true ≡ true
  Left (err e, t) = is_conflict e ≡ false → t.host.status.bootstrap_token_id ≡ ""

  module _ (expect : Option ClaimReference) where
    refetch-Left :
        (e : Error) (t : Session W)
        → is_conflict e ≡ true
        → t.host.status.bootstrap_token_id ≡ ""
        → Left (refetch c expect e t)
    unfolding refetch
    refetch-Left e t lost clear =
        read (c.get_host t.host.meta.namespace t.host.meta.name t.world) refl
      where
        read :
            (r : Result Error Host × W)
            → c.get_host t.host.meta.namespace t.host.meta.name t.world ≡ r
            → Left (refetch c expect e t)
        read (err x, w) q = rw (q, refetch) (λ h. clear)
        read (ok fresh, w) q = elim (Bool-cases (same_claim expect fresh.status.claim_ref)) [
          | inl same ↦ rw (q, refetch) (rw same (λ h. absurd (ground arith)))
          | inr other ↦ rw (q, refetch) (rw other (λ h. clear))
        ]

    after_patch-Left :
        (e : Error) (t : Session W)
        → t.host.status.bootstrap_token_id ≡ ""
        → Left (after_patch c expect (err e) t)
    after_patch-Left e t clear = elim (Bool-cases (is_conflict e)) [
      | inl lost ↦ unfold after_patch in rw lost (refetch-Left e t lost clear)
      | inr final ↦ unfold after_patch in rw final (λ h. clear)
    ]

    once-Left : (s : Session W) → Left (set_status_once c expect cleared s)
    unfolding set_status_once
    once-Left s =
        patched
          (c.patch_host_status (record s.host { status = cleared s.host.status }) s.host s.world)
          refl
      where
        patched :
            (r : Result Error Host × W)
            → c.patch_host_status (record s.host { status = cleared s.host.status }) s.host s.world
              ≡ r
            → Left (set_status_once c expect cleared s)
        patched (ok h', w') q = rw (q, set_status_once, after_patch) refl
        patched (err e, w') q = rw (q, set_status_once) (after_patch-Left e _ refl)

    retried-Left :
        (n : ℕ) (s : Session W) → Left (retry_on_conflict n (set_status_once c expect cleared) s)
    unfolding retry_on_conflict
    retried-Left zero s = once-Left s
    retried-Left (suc n) s =
        step (retried-Left n) (set_status_once c expect cleared s) refl (once-Left s)
      where
        step :
            ((u : Session W) → Left (retry_on_conflict n (set_status_once c expect cleared) u))
            → (r : Result Error (Unit {0}) × Session W) → set_status_once c expect cleared s ≡ r
            → Left r
            → Left (retry_on_conflict (suc n) (set_status_once c expect cleared) s)
        step rec (ok a, u) q o = rw (q, retry_on_conflict) refl
        step rec (err x, u) q o = elim (Bool-cases (is_conflict x)) [
          | inl lost ↦ rw (q, retry_on_conflict) (rw lost (rec u))
          | inr final ↦ rw (q, retry_on_conflict) (rw final o)
        ]

  -- Where `SetBootstrapTokenID` with no token fails with an error that is no conflict, a Release of
  -- the host in hand is one patch, whose original and whose new status both have the empty token: the
  -- difference that it sends says nothing of the token, whichever the server still stores.
  pub release-KeepsToken :
      (s t : Session W) (e : Error) (healthy : Bool) (reason : String)
      → set_bootstrap_token_id c "" s ≡ (err e, t)
      → is_conflict e ≡ false
      → (new : Host) × (release c healthy reason t
          ≡ write (c.patch_host_status new t.host) (record t { host = new }))
        × (t.host.status.bootstrap_token_id ≡ "")
        × (new.status.bootstrap_token_id ≡ "")
  unfolding release cas_patch set_bootstrap_token_id set_status release_status
  release-KeepsToken s t e healthy reason failed calm = (
    record t.host { status = release_status healthy reason t.host.status },
    refl,
    subst Left failed (retried-Left s.host.status.claim_ref c.conflict_retries s) calm,
    no_token healthy,
  )
    where
      no_token : (b : Bool) → (release_status b reason t.host.status).bootstrap_token_id ≡ ""
      no_token true = refl
      no_token false = refl
