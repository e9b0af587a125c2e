-- ===== src/Probe/Guard.antt =====
-- The zombie guard of pkg/controllers/hostprobe.go: an unclaimed host that runs a kubelet.
pub mod Fence
use Prim.Native.String.{◌++◌}
use karpenter_provider_ssh.Common.{
  ℕ, ◌+◌, ◌-◌, String, Bool, true, false, not, ◌&&◌, ◌||◌, Option, none, some, List, [], ◌∷◌,
  lookup, eqb, ltb, ◌==◌, if◌then◌else◌,
}
use karpenter_provider_ssh.Common.Int.{ℤ, pos}
use karpenter_provider_ssh.Exec.{
  Result, ok, err, Exec, pure, raise, lift, attempt, map_error, ◌>>=◌, ◌>>◌,
}
use karpenter_provider_ssh.Api.Errors.{Error, wrapped, message, is_conflict, is_not_found}
use karpenter_provider_ssh.Api.Meta.{Node}
use karpenter_provider_ssh.Api.Host.{
  Host, HostStatus, HostState, unset, pending, available, claimed, in_use, unhealthy, leaving,
  maintenance, ClaimReference, maintenance_annotation, is_verified, node_ip,
}
use karpenter_provider_ssh.Api.NodeClaim.{NodeClaim}
use karpenter_provider_ssh.Kube.{Session, HostExec, call, the_host, modify_status}
use karpenter_provider_ssh.Pool.{cas_patch, is_some}
use karpenter_provider_ssh.Sshexec.Envelope.{Envelope, phase_probe}
use karpenter_provider_ssh.Sshexec.Runner.{RunResult, Target}
use karpenter_provider_ssh.Instance.{Deps}
use karpenter_provider_ssh.Instance.Phases.{read_ssh_credentials, ssh_target, leave_host}
use karpenter_provider_ssh.Probe.Facts.{
  ProbeResult, parse_probe_output, ready_condition, quantity, times_int64,
}
use karpenter_provider_ssh.Probe.{
  probe_interval, claimed_recheck, token_recheck, conflict_retry, foreign_kubelet, maintained,
  wait_left, is_stale, stale_status, probed_status, unhealthy_status, available_status, after_cas,
  patch_status, node_by_internal_ip, probe,
}

module _ {W : Type 0} (deps : Deps W) where
  unfoldable pub park_foreign : HostExec W ℕ
  unfolding patch_status
  park_foreign = do
    orig ← the_host
    modify_status (unhealthy_status foreign_kubelet)
    patch_status deps orig probe_interval

  abbrev pub removed : Result Error (Unit {0}) → Exec W Error (Unit {0})
  removed (ok a) = pure tt
  removed (err e) = if is_not_found e then pure tt else raise e

  abbrev pub remove_node : Option Node → Exec W Error (Unit {0})
  remove_node none = pure tt
  remove_node (some n) = do r ← attempt (deps.client.delete_node n); removed r

  unfoldable pub readmit : Option Node → HostExec W ℕ
  unfolding patch_status
  readmit node = do
    call (remove_node node)
    orig ← the_host
    modify_status available_status
    patch_status deps orig probe_interval

  unfoldable pub leave_failed : Error → HostExec W ℕ
  unfolding patch_status
  leave_failed e = do
    orig ← the_host
    modify_status (unhealthy_status ("zombie leave failed: " ++ message e))
    patch_status deps orig probe_interval

  abbrev pub after_leave : Option Node → Result Error (Unit {0}) → HostExec W ℕ
  after_leave n (ok a) = readmit n
  after_leave n (err e) = leave_failed e

  abbrev pub leave_zombie : Option Node → HostExec W ℕ
  leave_zombie node = do h ← the_host; r ← attempt (call (leave_host deps h)); after_leave node r

  -- The fence around the leave of a zombie: the transition to Leaving, under the optimistic lock.
  unfoldable pub fence_zombie : Option Node → HostExec W ℕ
  unfolding cas_patch after_cas readmit leave_failed
  fence_zombie node = do
    orig ← the_host
    modify_status (λ s. record s { state = leaving })
    r ← attempt (cas_patch deps.client orig)
    after_cas deps r (leave_zombie node)

  abbrev pub find_zombie : Host → HostExec W ℕ
  find_zombie h = do
    node ← call (node_by_internal_ip deps (node_ip h.spec))
    if not (is_some node) && h.status.installed_profile == ""
        then park_foreign
        else fence_zombie node

  -- `handleZombie`
  unfoldable pub handle_zombie : HostExec W ℕ
  unfolding node_by_internal_ip park_foreign fence_zombie
  handle_zombie = do
    h ← the_host
    if is_some h.status.claim_ref then pure probe_interval else find_zombie h
