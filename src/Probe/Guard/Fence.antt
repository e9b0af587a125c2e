-- ===== src/Probe/Guard/Fence.antt =====
-- What the zombie guard does, in each of its ends.
use Prim.Native.String.{◌++◌}
use karpenter_provider_ssh.Common.{ℕ, ◌≡◌, Option, none, some, true, false, ◌==◌}
use karpenter_provider_ssh.Exec.{Result, ok, err}
use karpenter_provider_ssh.Api.Errors.{Error, message, is_not_found}
use karpenter_provider_ssh.Api.Meta.{Node}
use karpenter_provider_ssh.Api.Host.{Host, available, unhealthy, leaving, node_ip}
use karpenter_provider_ssh.Kube.{Session}
use karpenter_provider_ssh.Pool.{is_some}
use karpenter_provider_ssh.Instance.{Deps}
use karpenter_provider_ssh.Instance.Phases.{leave_host}
use karpenter_provider_ssh.Probe.{foreign_kubelet, node_by_internal_ip, probe_interval}
use karpenter_provider_ssh.Probe.Stores.{Refused, Put}

module _ {W : Type 0} (deps : Deps W) where
  abbrev fenced : Host → Host
  fenced h = record h { status = record h.status { state = leaving } }

  -- The removal of the node of a host: there is none, or it was deleted, or it was gone.
  pub data Removed : Option Node → W → W → Type 0 where
    no_node : {w : W} → Removed none w w
    deleted : {n : Node} {w v : W} → deps.client.delete_node n w ≡ (ok tt, v) → Removed (some n) w v
    missing :
        {n : Node} {w v : W} {e : Error}
        → deps.client.delete_node n w ≡ (err e, v)
        → is_not_found e ≡ true
        → Removed (some n) w v

  -- The end of a zombie whose leave phase succeeded: the node is removed, and only then the host is
  -- stored as available.
  pub data Readmitted : Option Node → Host → W → Result Error ℕ × Session W → Type 0 where
    back :
        {n : Option Node} {h : Host} {w v : W} {r : Result Error ℕ × Session W}
        → Removed n w v
        → Put deps h available "" v r
        → Readmitted n h w r
    stuck :
        {n : Node} {h : Host} {w v : W} {e : Error}
        → deps.client.delete_node n w ≡ (err e, v)
        → is_not_found e ≡ false
        → Readmitted (some n) h w (err e, record { host = h; world = v })

  -- A run of the guard: it backs off from a claimed host; it fails with the list of nodes; it parks a
  -- host with no node and no install marker; it gives way to another writer; or the host is fenced,
  -- and only then the leave phase runs, and only if that succeeds the node goes and the host comes
  -- back.
  pub data GuardRun : Session W → Result Error ℕ × Session W → Type 0 where
    backs_off :
        {s : Session W} → is_some s.host.status.claim_ref ≡ true → GuardRun s (ok probe_interval, s)
    blind :
        {s : Session W} {e : Error} {w : W}
        → is_some s.host.status.claim_ref ≡ false
        → node_by_internal_ip deps (node_ip s.host.spec) s.world ≡ (err e, w)
        → GuardRun s (err e, record { host = s.host; world = w })
    parks :
        {s : Session W} {w : W} {r : Result Error ℕ × Session W}
        → is_some s.host.status.claim_ref ≡ false
        → node_by_internal_ip deps (node_ip s.host.spec) s.world ≡ (ok none, w)
        → (s.host.status.installed_profile == "") ≡ true
        → Put deps s.host unhealthy foreign_kubelet w r
        → GuardRun s r
    gives_way :
        {s : Session W} {n : Option Node} {e : Error} {w v : W} {r : Result Error ℕ × Session W}
        → is_some s.host.status.claim_ref ≡ false
        → node_by_internal_ip deps (node_ip s.host.spec) s.world ≡ (ok n, w)
        → deps.client.patch_host_status (fenced s.host) s.host w ≡ (err e, v)
        → Refused deps e (record { host = fenced s.host; world = v }) r
        → GuardRun s r
    stays :
        {s : Session W} {n : Option Node} {h : Host} {e : Error} {w u v : W}
        {r : Result Error ℕ × Session W}
        → is_some s.host.status.claim_ref ≡ false
        → node_by_internal_ip deps (node_ip s.host.spec) s.world ≡ (ok n, w)
        → deps.client.patch_host_status (fenced s.host) s.host w ≡ (ok h, u)
        → leave_host deps h u ≡ (err e, v)
        → Put deps h unhealthy ("zombie leave failed: " ++ message e) v r
        → GuardRun s r
    leaves :
        {s : Session W} {n : Option Node} {h : Host} {w u v : W} {r : Result Error ℕ × Session W}
        → is_some s.host.status.claim_ref ≡ false
        → node_by_internal_ip deps (node_ip s.host.spec) s.world ≡ (ok n, w)
        → deps.client.patch_host_status (fenced s.host) s.host w ≡ (ok h, u)
        → leave_host deps h u ≡ (ok tt, v)
        → Readmitted n h v r
        → GuardRun s r
