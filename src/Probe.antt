-- ===== src/Probe.antt =====
-- pkg/controllers/hostprobe.go: the reconciler that probes hosts and keeps their state.
pub mod Facts
pub mod Capacity
pub mod Held
pub mod Stores
pub mod Guard
pub mod Reconcile
use Prim.Native.String.{◌++◌}
use karpenter_provider_ssh.Common.{
  ℕ, ◌+◌, ◌-◌, String, Bool, true, false, not, ◌&&◌, ◌||◌, Option, none, some, List, [], ◌∷◌,
  lookup, eqb, ltb, ◌==◌, if◌then◌else◌,
}
use karpenter_provider_ssh.Common.Int.{ℤ, pos}
use karpenter_provider_ssh.Exec.{
  Result, ok, err, Exec, pure, raise, lift, attempt, map_error, ◌>>=◌, ◌>>◌,
}
use karpenter_provider_ssh.Api.Errors.{Error, wrapped, message, is_conflict, is_not_found}
use karpenter_provider_ssh.Api.Meta.{Node}
use karpenter_provider_ssh.Api.Host.{
  Host, HostStatus, HostState, unset, pending, available, claimed, in_use, unhealthy, leaving,
  maintenance, ClaimReference, maintenance_annotation, is_verified, node_ip,
}
use karpenter_provider_ssh.Api.NodeClaim.{NodeClaim}
use karpenter_provider_ssh.Kube.{Session, HostExec, call, the_host, modify_status}
use karpenter_provider_ssh.Pool.{cas_patch, is_some}
use karpenter_provider_ssh.Sshexec.Envelope.{Envelope, phase_probe}
use karpenter_provider_ssh.Sshexec.Runner.{RunResult, Target}
use karpenter_provider_ssh.Instance.{Deps}
use karpenter_provider_ssh.Instance.Phases.{read_ssh_credentials, ssh_target, leave_host}
use karpenter_provider_ssh.Probe.Facts.{
  ProbeResult, parse_probe_output, ready_condition, quantity, times_int64,
}

-- Durations and times, in nanoseconds. A `ctrl.Result` is its `RequeueAfter`, which is zero for none.
abbrev pub probe_interval : ℕ
probe_interval = 120_000_000_000

abbrev pub probe_timeout : ℤ
probe_timeout = pos 30_000_000_000

abbrev pub claimed_recheck : ℕ
claimed_recheck = 300_000_000_000

abbrev pub token_recheck : ℕ
token_recheck = 30_000_000_000

abbrev pub conflict_retry : ℕ
conflict_retry = 1_000_000_000

abbrev pub probe_script : String
probe_script =
    "nproc\nawk '/MemTotal/ {print $2}' /proc/meminfo\nuname -m\nsystemctl is-active kubelet 2>/dev/null || true\n"

abbrev pub foreign_kubelet : String
foreign_kubelet =
    "kubelet active on unclaimed host that this provider never installed — foreign membership? run leave/uninstall manually or remove the host from the pool"

abbrev pub is_maintenance : HostState → Bool
is_maintenance maintenance = true
is_maintenance _ = false

-- The first `switch` of `Reconcile`.
unfoldable pub maintained : Host → HostState
maintained h =
    let want = is_some (lookup maintenance_annotation h.meta.annotations) in
    if want && not (is_some h.status.claim_ref) && not (is_maintenance h.status.state)
    then maintenance
    else if not want && is_maintenance h.status.state
    then pending
    else h.status.state

-- What the status says of the requeue, if the host was probed recently in this generation.
unfoldable pub wait_left : Host → ℕ → Option ℕ
wait_left h now =
    if eqb h.status.observed_generation h.meta.generation
    then elim h.status.last_probe_time [
      | none ↦ none
      | some t ↦ if ltb now (t + probe_interval) then some (t + probe_interval - now) else none
    ]
    else none

-- Whether nothing holds a claim any more, from the read of its NodeClaim.
unfoldable pub is_stale : ClaimReference → Result Error NodeClaim → Result Error Bool
is_stale ref (err e) = if is_not_found e then ok true else err e
is_stale ref (ok nc) =
    ok (not (ref.uid == "") && not (nc.meta.uid == "") && not (ref.uid == nc.meta.uid))

-- What the branches of `Reconcile` write into the status.
unfoldable pub stale_status : HostStatus → HostStatus
stale_status s = record s {
  claim_ref = none;
  provider_id = "";
  bootstrap_token_id = "";
  state = pending;
}

unfoldable pub probed_status : ProbeResult → HostStatus → HostStatus
unfolding quantity times_int64
probed_status res s = record s {
  host_key_fingerprint =
      if s.host_key_fingerprint == "" then res.fingerprint else s.host_key_fingerprint;
  observed_capacity =
      ("cpu", quantity res.cpus) ∷ ("memory", quantity (times_int64 res.mem_kb 1024)) ∷ [];
  observed_arch = res.arch;
}

abbrev pub unhealthy_status : String → HostStatus → HostStatus
unhealthy_status reason s = record s { state = unhealthy; last_probe_error = reason }

abbrev pub available_status : HostStatus → HostStatus
available_status s = record s { last_probe_error = ""; state = available }

module _ {W : Type 0} (deps : Deps W) where
  -- `setReadyCondition`
  unfoldable pub set_ready_condition : HostExec W (Unit {0})
  unfolding ready_condition
  set_ready_condition = do
    h ← the_host
    modify_status (λ s. record s {
      conditions = deps.client.set_status_condition s.conditions (ready_condition h);
    })

  -- How a reconcile goes on after a patch: a lost race is retried, a host that is gone is left.
  unfoldable pub after_cas : Result Error (Unit {0}) → HostExec W ℕ → HostExec W ℕ
  after_cas (ok a) next = next
  after_cas (err e) next =
      if is_conflict e then pure conflict_retry else if is_not_found e then pure 0 else raise e

  abbrev pub patch_changed : Host → ℕ → HostExec W ℕ
  patch_changed orig result = do r ← attempt (cas_patch deps.client orig); after_cas r (pure result)

  -- `patchStatus`
  unfoldable pub patch_status : Host → ℕ → HostExec W ℕ
  unfolding set_ready_condition cas_patch after_cas
  patch_status orig result = do
    set_ready_condition
    h ← the_host
    if deps.client.status_equal orig.status h.status then pure result else patch_changed orig result

  abbrev first_node : List Node → Option Node
  first_node [] = none
  first_node (n ∷ ns) = some n

  -- `nodeByInternalIP`
  unfoldable pub node_by_internal_ip : String → Exec W Error (Option Node)
  node_by_internal_ip ip = do nodes ← deps.client.nodes_by_ip ip; pure (first_node nodes)

  -- `probe`
  unfoldable pub probe : Host → Exec W Error ProbeResult
  unfolding read_ssh_credentials parse_probe_output
  probe h = do
    creds ← read_ssh_credentials deps h
    out ←
        if is_verified h.spec.exec_mode
        then deps.runners.run_shim probe_timeout
            (record (ssh_target h creds) { shim_command = h.spec.shim_command })
            (record { phase = phase_probe; script = []; sig = []; params = [] })
        else deps.runners.run probe_timeout (ssh_target h creds) probe_script []
    pure (parse_probe_output out.stdout out.host_key_fingerprint)
