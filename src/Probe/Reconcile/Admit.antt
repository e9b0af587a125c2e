-- ===== src/Probe/Reconcile/Admit.antt =====
-- How a free host comes back: a probe that succeeds makes it claimable.
use karpenter_provider_ssh.Common.{
  ℕ, String, ◌≡◌, refl, ◌⊎◌, inl, inr, true, false, Bool-cases, none, some, lookup, arith, eq_iff,
  if◌then◌else◌,
}
use karpenter_provider_ssh.Exec.{Result, ok}
use karpenter_provider_ssh.Api.Errors.{Error}
use karpenter_provider_ssh.Api.Host.{
  Host, HostStatus, HostState, unset, pending, available, claimed, in_use, unhealthy, leaving,
  maintenance, maintenance_annotation, host_class,
}
use karpenter_provider_ssh.Kube.{Session}
use karpenter_provider_ssh.Pool.{cas_patch, claimable}
use karpenter_provider_ssh.Instance.{Deps}
use karpenter_provider_ssh.Probe.{
  probe, probed_status, available_status, wait_left, maintained, patch_status, set_ready_condition,
  after_cas, probe_interval, is_maintenance,
}
use karpenter_provider_ssh.Probe.Facts.{ProbeResult, ready_condition}
use karpenter_provider_ssh.Probe.Reconcile.{
  by_state, reconcile_pool, probe_host, after_probe, reconcile_host, reconcile,
}

-- The states that a probe decides on.
abbrev pub IsProbed : HostState → Type 0
IsProbed unset = Unit
IsProbed pending = Unit
IsProbed available = Unit
IsProbed unhealthy = Unit
IsProbed leaving = Unit
IsProbed maintenance = Unit
IsProbed _ = ⊥

-- A host as it is probed, after the maintenance switch.
abbrev pub switched : Host → Host
switched h = record h { status = record h.status { state = maintained h } }

-- An available host is claimable for its own class, if nothing else keeps it.
claimable-offered :
    (h t : Host)
    → t.status.state ≡ available
    → t.status.claim_ref ≡ none
    → lookup maintenance_annotation t.meta.annotations ≡ none
    → claimable (host_class t) t ≡ true
unfolding claimable host_class
claimable-offered h t free unclaimed bare =
    rw free
      (rw unclaimed (rw bare (rw ((eq_iff (host_class t) (host_class t)).1 refl) (ground arith))))

module _ {W : Type 0} (deps : Deps W) (clock : W → ℕ) where
  -- What is written of a host whose probe has succeeded.
  abbrev written : Host → ProbeResult → ℕ → HostStatus
  written h res t = available_status (
      probed_status res (record (switched h).status {
        last_probe_time = some t;
        observed_generation = h.meta.generation;
      }))

  abbrev ready : Host → Host
  ready h = record h {
    status = record h.status {
      conditions = deps.client.set_status_condition h.status.conditions (ready_condition h);
    };
  }

  -- A reconcile that ended in a claimable host: the server stores it, or has stored it before.
  abbrev pub Admitted : Host → W → Result Error ℕ × W → Type 0
  Admitted h w out =
      (t : Host) × (claimable (host_class h) t ≡ true)
      × (((deps.client.status_equal h.status t.status ≡ true) × (out ≡ (ok probe_interval, w)))
          ⊎ ((t' : Host) × (v : W) × (deps.client.patch_host_status t h w ≡ (ok t', v))
              × (out ≡ (ok probe_interval, v))))

  by_state-pool :
      (orig : Host) (to : HostState) (s : Session W)
      → IsProbed to
      → is_maintenance to ≡ false
      → by_state deps clock orig to s ≡ reconcile_pool deps clock orig s
  by_state-pool orig unset s p q = refl
  by_state-pool orig pending s p q = refl
  by_state-pool orig available s p q = refl
  by_state-pool orig unhealthy s p q = refl
  by_state-pool orig leaving s p q = refl
  by_state-pool orig maintenance s p q = cc
  by_state-pool orig claimed s p q = absurd p
  by_state-pool orig in_use s p q = absurd p

  -- Without the annotation the switch ends in a probed state.
  maintained-IsProbed :
      (h : Host)
      → lookup maintenance_annotation h.meta.annotations ≡ none
      → IsProbed h.status.state
      → IsProbed (maintained h) × (is_maintenance (maintained h) ≡ false)
  unfolding maintained
  maintained-IsProbed h bare p = rw bare (by_case h.status.state p)
    where
      by_case :
          (x : HostState)
          → IsProbed x
          → IsProbed (if is_maintenance x then pending else x)
            × (is_maintenance (if is_maintenance x then pending else x) ≡ false)
      by_case unset p = (tt, refl)
      by_case pending p = (tt, refl)
      by_case available p = (tt, refl)
      by_case unhealthy p = (tt, refl)
      by_case leaving p = (tt, refl)
      by_case maintenance p = (tt, refl)
      by_case claimed p = absurd p
      by_case in_use p = absurd p

  -- A reconcile of an unclaimed host without the maintenance annotation whose probe is due and
  -- succeeds, finds no kubelet, and whose patch the server accepts, ends with a host that the pool
  -- offers to claims of its class.
  pub reconcile-admits :
      (ns name : String) (h : Host) (res : ProbeResult) (w w1 w2 : W)
      → deps.client.get_host ns name w ≡ (ok h, w1)
      → IsProbed h.status.state
      → h.status.claim_ref ≡ none
      → lookup maintenance_annotation h.meta.annotations ≡ none
      → wait_left h (clock w1) ≡ none
      → probe deps (switched h) w1 ≡ (ok res, w2)
      → res.kubelet_active ≡ false
      → ((t : Host) → (t' : Host) × (v : W) × (deps.client.patch_host_status t h w2 ≡ (ok t', v)))
      → Admitted h w2 (reconcile deps clock ns name w)
  unfolding reconcile reconcile_host reconcile_pool wait_left probe_host after_probe patch_status
      set_ready_condition cas_patch after_cas host_class
  reconcile-admits ns name h res w w1 w2 read pooled unclaimed bare due probed quiet accepts =
      let (p, q) = maintained-IsProbed h bare pooled in
      let t = ready (record h { status = written h res (clock w2) }) in
      let (t', v, patched) = accepts t in
      rw read (
        rw (by_state-pool h (maintained h) (record { host = switched h; world = w1 }) p q) (
          rw due (
            rw probed (
              rw quiet (
                t,
                claimable-offered h t refl unclaimed bare,
                elim (Bool-cases (deps.client.status_equal h.status t.status)) [
                  | inl same ↦ inl (same, rw same refl)
                  | inr differs ↦ inr (t', v, patched, rw differs (rw patched refl))
                ],
              )))))
