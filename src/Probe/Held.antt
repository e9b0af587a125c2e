-- ===== src/Probe/Held.antt =====
-- The branch of `Reconcile` in pkg/controllers/hostprobe.go for hosts that are claimed.
pub mod Live
pub mod Stale
use Prim.Native.String.{◌++◌}
use karpenter_provider_ssh.Common.{
  ℕ, ◌+◌, ◌-◌, String, Bool, true, false, not, ◌&&◌, ◌||◌, Option, none, some, List, [], ◌∷◌,
  lookup, eqb, ltb, ◌==◌, if◌then◌else◌,
}
use karpenter_provider_ssh.Common.Int.{ℤ, pos}
use karpenter_provider_ssh.Exec.{
  Result, ok, err, Exec, pure, raise, lift, attempt, map_error, ◌>>=◌, ◌>>◌,
}
use karpenter_provider_ssh.Api.Errors.{Error, wrapped, message, is_conflict, is_not_found}
use karpenter_provider_ssh.Api.Meta.{Node}
use karpenter_provider_ssh.Api.Host.{
  Host, HostStatus, HostState, unset, pending, available, claimed, in_use, unhealthy, leaving,
  maintenance, ClaimReference, maintenance_annotation, is_verified, node_ip,
}
use karpenter_provider_ssh.Api.NodeClaim.{NodeClaim}
use karpenter_provider_ssh.Kube.{Session, HostExec, call, the_host, modify_status}
use karpenter_provider_ssh.Pool.{cas_patch, is_some}
use karpenter_provider_ssh.Sshexec.Envelope.{Envelope, phase_probe}
use karpenter_provider_ssh.Sshexec.Runner.{RunResult, Target}
use karpenter_provider_ssh.Instance.{Deps}
use karpenter_provider_ssh.Instance.Phases.{read_ssh_credentials, ssh_target, leave_host}
use karpenter_provider_ssh.Probe.Facts.{
  ProbeResult, parse_probe_output, ready_condition, quantity, times_int64,
}
use karpenter_provider_ssh.Probe.{
  probe_interval, claimed_recheck, token_recheck, conflict_retry, foreign_kubelet, maintained,
  wait_left, is_stale, stale_status, probed_status, unhealthy_status, available_status, after_cas,
  patch_status, node_by_internal_ip, probe,
}

module _ {W : Type 0} (deps : Deps W) where
  -- `deleteBootstrapToken`
  unfoldable pub delete_bootstrap_token : HostExec W (Unit {0})
  delete_bootstrap_token = do
    h ← the_host
    if h.status.bootstrap_token_id == "" then pure tt else do
      attempt (call (deps.bootstrap.delete_token_by_id h.status.bootstrap_token_id))
      pure tt

  -- Whether the claim of a host is stale.
  unfoldable pub check_claim : Option ClaimReference → Exec W Error Bool
  unfolding is_stale
  check_claim none = pure false
  check_claim (some ref) = do
    r ← attempt (deps.client.get_node_claim ref.name)
    lift (is_stale ref r)

  unfoldable pub release_stale : Host → HostExec W ℕ
  unfolding delete_bootstrap_token stale_status patch_status
  release_stale orig = do
    delete_bootstrap_token
    modify_status stale_status
    patch_status deps orig conflict_retry

  abbrev pub spend_token : Host → Host → Option Node → HostExec W ℕ
  spend_token orig h none = patch_status deps orig token_recheck
  spend_token orig h (some n) = do
    map_error (wrapped "deleting spent bootstrap token: ")
        (call (deps.bootstrap.delete_token_by_id h.status.bootstrap_token_id))
    modify_status (λ s. record s { bootstrap_token_id = "" })
    patch_status deps orig claimed_recheck

  abbrev pub spend_at_node : Host → Host → HostExec W ℕ
  spend_at_node orig h = do
    n ← call (node_by_internal_ip deps (node_ip h.spec))
    spend_token orig h n

  -- The hygiene of the token of a live claim.
  unfoldable pub collect_token : Host → HostExec W ℕ
  unfolding node_by_internal_ip patch_status
  collect_token orig = do
    h ← the_host
    if not (h.status.bootstrap_token_id == "") && not (h.status.provider_id == "")
        then spend_at_node orig h
        else patch_status deps orig claimed_recheck

  -- The branch of `Reconcile` for the states Claimed and InUse.
  unfoldable pub reconcile_claimed : Host → HostExec W ℕ
  unfolding check_claim release_stale collect_token
  reconcile_claimed orig = do
    h ← the_host
    stale ← call (check_claim h.status.claim_ref)
    if stale then release_stale orig else collect_token orig
