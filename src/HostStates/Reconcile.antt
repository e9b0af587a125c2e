-- ===== src/HostStates/Reconcile.antt =====
-- `Reconcile` of pkg/controllers/hostprobe.go: what it writes of a host is a step of its life.
use karpenter_provider_ssh.Common.{
  ap, Bool-cases, inl, inr, ℕ, String, ◌≡◌, refl, sym, ◌∙◌, subst, Bool, true, false, not, ◌&&◌,
  Option, none, some, arith, if◌then◌else◌,
}
use karpenter_provider_ssh.Exec.{Result, ok, err}
use karpenter_provider_ssh.Exec.Keep.{Keeps, if-Held}
use karpenter_provider_ssh.Api.Errors.{Error, is_not_found}
use karpenter_provider_ssh.Api.Host.{
  Host, HostStatus, HostState, unset, pending, available, claimed, in_use, unhealthy, leaving,
  maintenance,
}
use karpenter_provider_ssh.Kube.{Session}
use karpenter_provider_ssh.Instance.{Deps}
use karpenter_provider_ssh.Probe.{wait_left, is_maintenance, maintained, probed_status}
use karpenter_provider_ssh.Probe.Facts.{ProbeResult}
use karpenter_provider_ssh.Probe.Guard.{handle_zombie}
use karpenter_provider_ssh.Probe.Reconcile.{
  admit, persist, probe_unless, by_state, on_read, after_probe, probe_host, reconcile_pool,
  reconcile_host, reconcile,
}
use karpenter_provider_ssh.HostStates.{Edge, stay, park, resume, fail, WellFormed, Step, owned}
use karpenter_provider_ssh.HostStates.Server.{Server}
use karpenter_provider_ssh.HostStates.Calm.{probe-Keeps}
use karpenter_provider_ssh.HostStates.Write.{
  redirect, moved, Sound, patched-Sound, patch_status-Sound,
}
use karpenter_provider_ssh.HostStates.Claimed.{reconcile_claimed-Sound}
use karpenter_provider_ssh.HostStates.Probed.{handle_zombie-Sound}

-- A state and the one it goes to, both of a claim or neither.
abbrev Switched : HostState → HostState → Type 0
Switched s t = (owned t ≡ owned s) × Edge s t

resumed : (s : HostState) → is_maintenance s ≡ true → Switched s pending
resumed maintenance h = (refl, resume)
resumed _ h = absurd (ground arith)

switched :
    (s : HostState) (b c : Bool)
    → (b ≡ true → owned s ≡ false)
    → (c ≡ true → is_maintenance s ≡ true)
    → Switched s (if b then maintenance else if c then pending else s)
switched s true c f g = (sym (f refl), park (f refl))
switched s false true f g = resumed s (g refl)
switched s false false f g = (refl, stay)

second : (a b : Bool) → a && b ≡ true → b ≡ true
second true b h = h
second false b h = cc

unclaimed : (a b c : Bool) → a && not b && c ≡ true → b ≡ false
unclaimed a b c h = ground arith

-- The maintenance switch is a step, and never between the states of a claim and the others.
maintained-Switched : (h : Host) → WellFormed h.status → Switched h.status.state (maintained h)
unfolding maintained
maintained-Switched h (shape, clean) =
    switched h.status.state _ _ (λ e. sym shape ∙ unclaimed _ _ _ e) (λ e. second _ _ e)

maintained-Step :
    (h : Host) → WellFormed h.status → Step h.status (record h.status { state = maintained h })
maintained-Step h formed =
    let (keeps, edge) = maintained-Switched h formed in
    moved h.status (maintained h) formed edge keeps

module _ {W : Type 0} {deps : Deps W} {Known : Host → Type 0} {Inv : W → Type 0}
    (server : Server deps Known Inv) (clock : W → ℕ) where
  -- A host in hand that is about to be probed, beside the stored one.
  abbrev Probing : Host → HostStatus → Type 0
  Probing orig t =
      Step orig.status t
      × (owned orig.status.state ≡ false)
      × (owned t.state ≡ false)
      × (is_maintenance t.state ≡ false)

  admit-Sound :
      (orig : Host) (s : Session W)
      → Known orig
      → Probing orig s.host.status
      → Inv s.world
      → Sound server (admit deps clock orig s).1
  admit-Sound orig s known (step, free, unowned, working) i = search (
    patch_status-Sound server,
    known,
    redirect orig.status s.host.status available step unowned (Edge.admit free) refl,
    i,
  )

  persist-Sound :
      (orig : Host) (s : Session W)
      → Known orig
      → Probing orig s.host.status
      → Inv s.world
      → Sound server (persist deps clock orig s).1
  persist-Sound orig s known (step, free, unowned, working) i =
      patched-Sound server orig (handle_zombie deps) s known step i (λ t k e j.
        handle_zombie-Sound server t k (ap (λ x. owned x.state) e ∙ unowned)
          (ap (λ x. is_maintenance x.state) e ∙ working) j)

  after_probe-Sound :
      (orig : Host) (r : Result Error ProbeResult) (s : Session W)
      → Known orig
      → Probing orig s.host.status
      → Inv s.world
      → Sound server (after_probe deps clock orig r s).1
  unfolding after_probe probed_status
  after_probe-Sound orig (err e) s known (step, free, unowned, working) i = search (
    patch_status-Sound server,
    known,
    redirect orig.status s.host.status unhealthy step unowned (fail free) refl,
    i,
  )
  after_probe-Sound orig (ok res) s known (step, free, unowned, working) i =
      search
        (if-Held (Sound server), persist-Sound, admit-Sound, known, step, free, unowned, working, i)

  probe_host-Sound :
      (orig : Host) (s : Session W)
      → Known orig
      → Probing orig s.host.status
      → Inv s.world
      → Sound server (probe_host deps clock orig s).1
  unfolding probe_host
  probe_host-Sound orig s known (step, free, unowned, working) i =
      search (after_probe-Sound, probe-Keeps server, known, step, free, unowned, working, i)

  probe_unless-Sound :
      (orig : Host) (wait : Option ℕ) (s : Session W)
      → Known orig
      → Probing orig s.host.status
      → Inv s.world
      → Sound server (probe_unless deps clock orig wait s).1
  probe_unless-Sound orig (some left) s known p i = i
  probe_unless-Sound orig none s known p i = probe_host-Sound orig s known p i

  reconcile_pool-Sound :
      (orig : Host) (s : Session W)
      → Known orig
      → Probing orig s.host.status
      → Inv s.world
      → Sound server (reconcile_pool deps clock orig s).1
  unfolding reconcile_pool
  reconcile_pool-Sound orig s known p i =
      probe_unless-Sound orig (wait_left s.host (clock s.world)) s known p i

  -- The branches of `Reconcile`, at the state after the maintenance switch.
  by_state-Sound :
      (orig : Host) (to : HostState) (s : Session W)
      → Known orig
      → Step orig.status s.host.status
      → s.host.status.state ≡ to
      → owned to ≡ owned orig.status.state
      → Inv s.world
      → Sound server (by_state deps clock orig to s).1
  by_state-Sound orig maintenance s known step at keeps i =
      patch_status-Sound server orig 0 s known step i
  by_state-Sound orig claimed s known step at keeps i =
      reconcile_claimed-Sound server orig s known (step, sym keeps, ap owned at) i
  by_state-Sound orig in_use s known step at keeps i =
      reconcile_claimed-Sound server orig s known (step, sym keeps, ap owned at) i
  by_state-Sound orig unset s known step at keeps i =
      reconcile_pool-Sound orig s known (step, sym keeps, ap owned at, ap is_maintenance at) i
  by_state-Sound orig pending s known step at keeps i =
      reconcile_pool-Sound orig s known (step, sym keeps, ap owned at, ap is_maintenance at) i
  by_state-Sound orig available s known step at keeps i =
      reconcile_pool-Sound orig s known (step, sym keeps, ap owned at, ap is_maintenance at) i
  by_state-Sound orig unhealthy s known step at keeps i =
      reconcile_pool-Sound orig s known (step, sym keeps, ap owned at, ap is_maintenance at) i
  by_state-Sound orig leaving s known step at keeps i =
      reconcile_pool-Sound orig s known (step, sym keeps, ap owned at, ap is_maintenance at) i

  reconcile_host-Sound :
      (s : Session W) → Known s.host → Inv s.world → Sound server (reconcile_host deps clock s).1
  unfolding reconcile_host
  reconcile_host-Sound s known i =
      let formed = server.known-WellFormed s.host known in
      let (keeps, edge) = maintained-Switched s.host formed in
      by_state-Sound s.host (maintained s.host)
        (record {
          host = record s.host { status = record s.host.status { state = maintained s.host } };
          world = s.world;
        })
        known (maintained-Step s.host formed) refl keeps i

  absent : (e : Error) (v : W) → Inv v → Inv (on_read deps clock (err e) v).1
  absent e v i = elim (Bool-cases (is_not_found e)) [ inl q ↦ rw q i | inr q ↦ rw q i ]

  -- If the API server keeps an invariant of the world under each write that takes a stored host
  -- along an edge of the state machine to a well-formed status, and under all other calls, then
  -- `Reconcile` keeps it, whatever the calls return: it writes nothing else.
  pub reconcile-Keeps : (ns name : String) → Keeps Inv (reconcile deps clock ns name)
  unfolding reconcile
  reconcile-Keeps ns name w i = split (deps.client.get_host ns name w) refl
    where
      split :
          (r : Result Error Host × W)
          → deps.client.get_host ns name w ≡ r
          → Inv (reconcile deps clock ns name w).1
      split (ok h, v) q = rw q (
          reconcile_host-Sound (record { host = h; world = v }) (server.get_known ns name w v h i q)
            (subst (λ z. Inv z.1) q (server.get-Inv ns name w i)))
      split (err e, v) q = rw q (absent e v (subst (λ z. Inv z.1) q (server.get-Inv ns name w i)))
