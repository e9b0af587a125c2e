-- ===== src/Probe/Reconcile.antt =====
-- `Reconcile` of pkg/controllers/hostprobe.go.
pub mod Admit
use Prim.Native.String.{◌++◌}
use karpenter_provider_ssh.Common.{
  ℕ, ◌+◌, ◌-◌, String, Bool, true, false, not, ◌&&◌, ◌||◌, Option, none, some, List, [], ◌∷◌,
  lookup, eqb, ltb, ◌==◌, if◌then◌else◌,
}
use karpenter_provider_ssh.Common.Int.{ℤ, pos}
use karpenter_provider_ssh.Exec.{
  Result, ok, err, Exec, pure, raise, lift, attempt, map_error, ◌>>=◌, ◌>>◌,
}
use karpenter_provider_ssh.Api.Errors.{Error, wrapped, message, is_conflict, is_not_found}
use karpenter_provider_ssh.Api.Meta.{Node}
use karpenter_provider_ssh.Api.Host.{
  Host, HostStatus, HostState, unset, pending, available, claimed, in_use, unhealthy, leaving,
  maintenance, ClaimReference, maintenance_annotation, is_verified, node_ip,
}
use karpenter_provider_ssh.Api.NodeClaim.{NodeClaim}
use karpenter_provider_ssh.Kube.{Session, HostExec, call, the_host, modify_status}
use karpenter_provider_ssh.Pool.{cas_patch, is_some}
use karpenter_provider_ssh.Sshexec.Envelope.{Envelope, phase_probe}
use karpenter_provider_ssh.Sshexec.Runner.{RunResult, Target}
use karpenter_provider_ssh.Instance.{Deps}
use karpenter_provider_ssh.Instance.Phases.{read_ssh_credentials, ssh_target, leave_host}
use karpenter_provider_ssh.Probe.Facts.{
  ProbeResult, parse_probe_output, ready_condition, quantity, times_int64,
}
use karpenter_provider_ssh.Probe.{
  probe_interval, claimed_recheck, token_recheck, conflict_retry, foreign_kubelet, maintained,
  wait_left, is_stale, stale_status, probed_status, unhealthy_status, available_status, after_cas,
  patch_status, node_by_internal_ip, probe,
}
use karpenter_provider_ssh.Probe.Held.{reconcile_claimed}
use karpenter_provider_ssh.Probe.Guard.{handle_zombie}

module _ {W : Type 0} (deps : Deps W) (clock : W → ℕ) where
  abbrev pub now : HostExec W ℕ
  now s = (ok (clock s.world), s)

  abbrev pub admit : Host → HostExec W ℕ
  admit orig = do modify_status available_status; patch_status deps orig probe_interval

  abbrev pub persist : Host → HostExec W ℕ
  persist orig = do r ← attempt (cas_patch deps.client orig); after_cas deps r (handle_zombie deps)

  -- What `Reconcile` makes of the outcome of a probe.
  unfoldable pub after_probe : Host → Result Error ProbeResult → HostExec W ℕ
  unfolding patch_status probed_status cas_patch after_cas handle_zombie
  after_probe orig (err e) = do
    modify_status (unhealthy_status (message e))
    patch_status deps orig probe_interval
  after_probe orig (ok res) = do
    modify_status (probed_status res)
    if res.kubelet_active then persist orig else admit orig

  unfoldable pub probe_host : Host → HostExec W ℕ
  unfolding probe after_probe
  probe_host orig = do
    h ← the_host
    r ← attempt (call (probe deps h))
    t ← now
    modify_status
        (λ s. record s { last_probe_time = some t; observed_generation = h.meta.generation })
    after_probe orig r

  abbrev pub probe_unless : Host → Option ℕ → HostExec W ℕ
  probe_unless orig (some left) = pure left
  probe_unless orig none = probe_host orig

  -- The branch of `Reconcile` for the states that are probed.
  unfoldable pub reconcile_pool : Host → HostExec W ℕ
  unfolding wait_left probe_host
  reconcile_pool orig = do h ← the_host; t ← now; probe_unless orig (wait_left h t)

  abbrev pub by_state : Host → HostState → HostExec W ℕ
  by_state orig maintenance = patch_status deps orig 0
  by_state orig claimed = reconcile_claimed deps orig
  by_state orig in_use = reconcile_claimed deps orig
  by_state orig _ = reconcile_pool orig

  -- `Reconcile` of a host that it has read.
  unfoldable pub reconcile_host : HostExec W ℕ
  unfolding maintained patch_status reconcile_claimed reconcile_pool
  reconcile_host = do
    orig ← the_host
    modify_status (λ s. record s { state = maintained orig })
    by_state orig (maintained orig)

  abbrev pub on_read : Result Error Host → W → Result Error ℕ × W
  on_read (err e) w = if is_not_found e then (ok 0, w) else (err e, w)
  on_read (ok h) w = let (r, s) = reconcile_host (record { host = h; world = w }) in (r, s.world)

  -- `Reconcile`
  unfoldable pub reconcile : String → String → Exec W Error ℕ
  unfolding reconcile_host
  reconcile namespace name w = let (r, w') = deps.client.get_host namespace name w in on_read r w'
