-- ===== src/Probe/Stores.antt =====
-- What `patchStatus` and the compare-and-swap of pkg/controllers/hostprobe.go come to: the write that
-- the server gets, and how the reconcile ends after it.
use karpenter_provider_ssh.Common.{ℕ, String, ◌≡◌, refl, true, false, Bool-cases, inl, inr}
use karpenter_provider_ssh.Exec.{Result, ok, err, pure}
use karpenter_provider_ssh.Api.Errors.{Error, is_conflict, is_not_found}
use karpenter_provider_ssh.Api.Host.{Host, HostState}
use karpenter_provider_ssh.Kube.{Session, HostExec}
use karpenter_provider_ssh.Pool.{cas_patch}
use karpenter_provider_ssh.Instance.{Deps}
use karpenter_provider_ssh.Probe.{
  after_cas, patch_status, patch_changed, set_ready_condition, conflict_retry, probe_interval,
}

module _ {W : Type 0} (deps : Deps W) where
  -- How a reconcile ends after a write that failed: a lost race is retried, a host that is gone is
  -- left, and any other error is passed on.
  pub data Refused : Error → Session W → Result Error ℕ × Session W → Type 0 where
    retried :
        {e : Error} {t : Session W} → is_conflict e ≡ true → Refused e t (ok conflict_retry, t)
    vanished :
        {e : Error} {t : Session W}
        → is_conflict e ≡ false
        → is_not_found e ≡ true
        → Refused e t (ok 0, t)
    broken :
        {e : Error} {t : Session W}
        → is_conflict e ≡ false
        → is_not_found e ≡ false
        → Refused e t (err e, t)

  -- How a reconcile ends that wants a new status stored in place of the original, with the time to
  -- its next run as the result: there is no
  -- difference, the server takes the patch, or it does not.
  pub data Stored (result : ℕ) : Host → Host → W → Result Error ℕ × Session W → Type 0 where
    unchanged :
        {orig new : Host} {w : W}
        → deps.client.status_equal orig.status new.status ≡ true
        → Stored result orig new w (ok result, record { host = new; world = w })
    taken :
        {orig new h : Host} {w v : W}
        → deps.client.patch_host_status new orig w ≡ (ok h, v)
        → Stored result orig new w (ok result, record { host = h; world = v })
    refused :
        {orig new : Host} {w v : W} {e : Error} {r : Result Error ℕ × Session W}
        → deps.client.patch_host_status new orig w ≡ (err e, v)
        → Refused e (record { host = new; world = v }) r
        → Stored result orig new w r

  -- The end that stores a state and a probe error for the host, which keeps its claim.
  abbrev pub Put : Host → HostState → String → W → Result Error ℕ × Session W → Type 0
  Put h state reason w r =
      (new : Host) × (new.status.state ≡ state)
      × (new.status.last_probe_error ≡ reason)
      × (new.status.claim_ref ≡ h.status.claim_ref)
      × Stored probe_interval h new w r

  pub after_cas-Refused :
      (e : Error) (t : Session W) (next : HostExec W ℕ)
      → Refused e t (after_cas deps (err e) next t)
  unfolding after_cas
  after_cas-Refused e t next = elim (Bool-cases (is_conflict e)) [
    | inl lost ↦ rw lost (retried lost)
    | inr calm ↦ elim (Bool-cases (is_not_found e)) [
      | inl gone ↦ rw calm (rw gone (vanished calm gone))
      | inr other ↦ rw calm (rw other (broken calm other))
    ]
  ]

  -- The host whose Ready condition follows its status.
  abbrev pub readied : Session W → Host
  readied s = (set_ready_condition deps s).1.host

  pub patch_status-Stored :
      (orig : Host) (result : ℕ) (s : Session W)
      → Stored result orig (readied s) s.world (patch_status deps orig result s)
  unfolding patch_status set_ready_condition cas_patch
  patch_status-Stored orig result s =
      elim (Bool-cases (deps.client.status_equal orig.status (readied s).status)) [
        | inl same ↦ rw same (unchanged same)
        | inr other ↦
            rw other (patched (deps.client.patch_host_status (readied s) orig s.world) refl)
      ]
    where
      patched :
          (r : Result Error Host × W)
          → deps.client.patch_host_status (readied s) orig s.world ≡ r
          → Stored result orig
              (readied s)
              s.world
              (patch_changed deps orig result (record { host = readied s; world = s.world }))
      patched (ok h, v) q = rw q (unfold after_cas in taken q)
      patched (err e, v) q = rw q (refused q (after_cas-Refused e _ (pure result)))

  pub put :
      (h : Host) (state : HostState) (reason : String) (w : W)
      → Put h state reason w (
          patch_status deps h probe_interval (record {
            host = record h {
              status = record h.status { state = state; last_probe_error = reason };
            };
            world = w;
          }))
  unfolding set_ready_condition
  put h state reason w = (
    readied (record {
      host = record h { status = record h.status { state = state; last_probe_error = reason } };
      world = w;
    }),
    refl,
    refl,
    refl,
    patch_status-Stored h probe_interval _,
  )
