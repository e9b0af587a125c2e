-- ===== src/HostStates/Write.antt =====
-- The writes of a reconcile, of pkg/controllers/hostprobe.go: `patchStatus` and the optimistic
-- transition, as steps of the life of a host.
use karpenter_provider_ssh.Common.{ℕ, ◌≡◌, refl, sym, ◌∙◌, subst, false}
use karpenter_provider_ssh.Exec.{Result, ok, err, attempt, ◌>>=◌}
use karpenter_provider_ssh.Exec.Keep.{if-Held}
use karpenter_provider_ssh.Api.Errors.{Error}
use karpenter_provider_ssh.Api.Host.{Host, HostStatus, HostState}
use karpenter_provider_ssh.Kube.{Session, HostExec}
use karpenter_provider_ssh.Pool.{cas_patch}
use karpenter_provider_ssh.Instance.{Deps}
use karpenter_provider_ssh.Probe.{after_cas, patch_status}
use karpenter_provider_ssh.HostStates.{Edge, same, WellFormed, Step, owned}
use karpenter_provider_ssh.HostStates.Server.{Server}

-- A status in another state that no claim has either.
pub redirect :
    (s t : HostStatus) (to : HostState)
    → Step s t
    → owned t.state ≡ false
    → Edge s.state to
    → owned to ≡ false
    → Step s (record t { state = to })
redirect s t to (e, o, (shape, clean)) free edge unowned =
    (edge, o, (shape ∙ free ∙ sym unowned, clean))

-- A transition that leaves the claim alone.
pub moved :
    (s : HostStatus) (to : HostState)
    → WellFormed s
    → Edge s.state to
    → owned to ≡ owned s.state
    → Step s (record s { state = to })
moved s to (shape, clean) edge keeps = (edge, same, (shape ∙ sym keeps, clean))

module _ {W : Type 0} {deps : Deps W} {Known : Host → Type 0} {Inv : W → Type 0}
    (server : Server deps Known Inv) where
  -- The invariant of the world while a host is in hand.
  abbrev pub Sound : Session W → Type 0
  Sound s = Inv s.world

  -- A transition that is written, and what follows it with the stored object in hand.
  pub patched-Sound :
      (orig : Host) (next : HostExec W ℕ) (s : Session W)
      → Known orig
      → Step orig.status s.host.status
      → Inv s.world
      → ((t : Session W)
          → Known t.host
          → t.host.status ≡ s.host.status
          → Inv t.world
          → Sound (next t).1)
      → Sound ((attempt (cas_patch deps.client orig) >>= λ r. after_cas deps r next) s).1
  unfolding cas_patch after_cas
  patched-Sound orig next s known step i onward =
      split (deps.client.patch_host_status s.host orig s.world) refl
    where
      split :
          (r : Result Error Host × W)
          → deps.client.patch_host_status s.host orig s.world ≡ r
          → Sound ((attempt (cas_patch deps.client orig) >>= λ r. after_cas deps r next) s).1
      split (ok h, w) q =
          let (k, e) = server.patch_known s.host orig h s.world w known step q in
          let j = subst (λ z. Inv z.1) q (server.patch-Inv s.host orig s.world known step i) in
          rw q (onward (record { host = h; world = w }) k e j)
      split (err x, w) q =
          let j = subst (λ z. Inv z.1) q (server.patch-Inv s.host orig s.world known step i) in
          rw q (search (if-Held Sound, j))

  -- `patchStatus`, which writes the conditions and the transition, or finds nothing to write.
  pub patch_status-Sound :
      (orig : Host) (result : ℕ) (s : Session W)
      → Known orig
      → Step orig.status s.host.status
      → Inv s.world
      → Sound (patch_status deps orig result s).1
  unfolding patch_status
  patch_status-Sound orig result s known step i =
      search (if-Held Sound, patched-Sound, known, step, i)
