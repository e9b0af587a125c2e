-- ===== src/HostStates/Probed.antt =====
-- The branch of `Reconcile` in pkg/controllers/hostprobe.go for hosts that no claim has, and its
-- zombie guard: their writes are steps of the life of a host.
use karpenter_provider_ssh.Common.{ap, ◌≡◌, refl, sym, ◌∙◌, false, Option, none, some}
use karpenter_provider_ssh.Exec.{Result, ok, err}
use karpenter_provider_ssh.Exec.Keep.{Keeps, if-Held, continue-Held}
use karpenter_provider_ssh.Api.Errors.{Error}
use karpenter_provider_ssh.Api.Meta.{Node}
use karpenter_provider_ssh.Api.Host.{Host, HostState, leaving, available, unhealthy}
use karpenter_provider_ssh.Kube.{Session}
use karpenter_provider_ssh.Instance.{Deps}
use karpenter_provider_ssh.Probe.{is_maintenance}
use karpenter_provider_ssh.Probe.Guard.{
  park_foreign, readmit, leave_failed, fence_zombie, handle_zombie, removed, remove_node,
  after_leave, leave_zombie,
}
use karpenter_provider_ssh.HostStates.{Edge, admit, fail, fence, Step, owned}
use karpenter_provider_ssh.HostStates.Server.{Server}
use karpenter_provider_ssh.HostStates.Calm.{node_by_internal_ip-Keeps, leave_host-Keeps}
use karpenter_provider_ssh.HostStates.Write.{moved, Sound, patched-Sound, patch_status-Sound}

module _ {W : Type 0} {deps : Deps W} {Known : Host → Type 0} {Inv : W → Type 0}
    (server : Server deps Known Inv) where
  -- A stored host that no claim has goes to another state without one.
  freed-Step :
      (h : Host) (to : HostState)
      → Known h
      → owned h.status.state ≡ false
      → Edge h.status.state to
      → owned to ≡ false
      → Step h.status (record h.status { state = to })
  freed-Step h to known free edge unowned =
      moved h.status to (server.known-WellFormed h known) edge (unowned ∙ sym free)

  park_foreign-Sound :
      (s : Session W)
      → Known s.host
      → owned s.host.status.state ≡ false
      → Inv s.world
      → Sound server (park_foreign deps s).1
  unfolding park_foreign
  park_foreign-Sound s known free i =
      search (
        patch_status-Sound server,
        known,
        freed-Step s.host unhealthy known free (fail free) refl,
        i,
      )

  removed-Keeps : (r : Result Error (Unit {0})) → Keeps Inv (removed deps r)
  removed-Keeps (ok a) w i = i
  removed-Keeps (err e) w i = search (if-Held Inv, i)

  remove_node-Keeps : (found : Option Node) → Keeps Inv (remove_node deps found)
  remove_node-Keeps none w i = i
  remove_node-Keeps (some n) w i = search (continue-Held Inv, removed-Keeps, server.delete-Inv, i)

  readmit-Sound :
      (found : Option Node) (s : Session W)
      → Known s.host
      → owned s.host.status.state ≡ false
      → Inv s.world
      → Sound server (readmit deps found s).1
  unfolding readmit
  readmit-Sound found s known free i = search (
    continue-Held (Sound server),
    patch_status-Sound server,
    remove_node-Keeps,
    freed-Step s.host available known free (admit free) refl,
    known,
    i,
  )

  leave_failed-Sound :
      (e : Error) (s : Session W)
      → Known s.host
      → owned s.host.status.state ≡ false
      → Inv s.world
      → Sound server (leave_failed deps e s).1
  unfolding leave_failed
  leave_failed-Sound e s known free i =
      search (
        patch_status-Sound server,
        known,
        freed-Step s.host unhealthy known free (fail free) refl,
        i,
      )

  after_leave-Sound :
      (found : Option Node) (r : Result Error (Unit {0})) (s : Session W)
      → Known s.host
      → owned s.host.status.state ≡ false
      → Inv s.world
      → Sound server (after_leave deps found r s).1
  after_leave-Sound found (ok a) s known free i = readmit-Sound found s known free i
  after_leave-Sound found (err e) s known free i = leave_failed-Sound e s known free i

  leave_zombie-Sound :
      (found : Option Node) (s : Session W)
      → Known s.host
      → owned s.host.status.state ≡ false
      → Inv s.world
      → Sound server (leave_zombie deps found s).1
  leave_zombie-Sound found s known free i =
      search (after_leave-Sound, leave_host-Keeps server, known, free, i)

  fence_zombie-Sound :
      (found : Option Node) (s : Session W)
      → Known s.host
      → owned s.host.status.state ≡ false
      → is_maintenance s.host.status.state ≡ false
      → Inv s.world
      → Sound server (fence_zombie deps found s).1
  unfolding fence_zombie
  fence_zombie-Sound found s known free working i =
      patched-Sound server s.host (leave_zombie deps found) _ known
        (freed-Step s.host leaving known free (fence free working) refl) i
        (λ t k e j. leave_zombie-Sound found t k (ap (λ x. owned x.state) e) j)

  pub handle_zombie-Sound :
      (s : Session W)
      → Known s.host
      → owned s.host.status.state ≡ false
      → is_maintenance s.host.status.state ≡ false
      → Inv s.world
      → Sound server (handle_zombie deps s).1
  unfolding handle_zombie
  handle_zombie-Sound s known free working i =
      search
        (
          continue-Held (Sound server),
          if-Held (Sound server),
          node_by_internal_ip-Keeps server,
          park_foreign-Sound,
          fence_zombie-Sound,
          known,
          free,
          working,
          i,
        )
        depth 12
