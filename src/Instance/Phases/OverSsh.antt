-- ===== src/Instance/Phases/OverSsh.antt =====
-- A phase on a verified host over SSH: `runVerifiedPhase` of pkg/providers/instance with `RunShim` of
-- internal/sshexec as its runner.
use karpenter_provider_ssh.Common.{
  arith, ℕ, String, ◌≡◌, refl, sym, ap, ◌∙◌, subst, ◌⊎◌, inl, inr, true, Option, none, some, Dict,
}
use karpenter_provider_ssh.Common.Int.{ℤ}
use karpenter_provider_ssh.Exec.{Result, ok, err}
use karpenter_provider_ssh.Api.Errors.{Error, is_config_error, exit_status}
use karpenter_provider_ssh.Api.Host.{Host}
use karpenter_provider_ssh.Api.JoinProfile.{JoinProfile}
use karpenter_provider_ssh.Sshexec.Wire.{Bytes}
use karpenter_provider_ssh.Sshexec.Envelope.{marshal}
use karpenter_provider_ssh.Sshexec.Runner.{Target, RunResult}
use karpenter_provider_ssh.Sshexec.Script.{shim_command}
use karpenter_provider_ssh.Sshexec.Dial.{
  Ssh, Ending, finished, failed, Report, run_shim, built, outcome, ssh_runners, deadline_after,
}
use karpenter_provider_ssh.Sshexec.Dial.Sent.{ExitErrors, Ran, SentBuilt, run_shim-SentBuilt}
use karpenter_provider_ssh.Instance.{Deps}
use karpenter_provider_ssh.Instance.Phases.{run_verified_phase, signed_envelope, discard}
use karpenter_provider_ssh.Instance.Phases.Verified.{IsSigned, run_verified_phase-fails_closed}

module _ {W Signer Conn Client Session : Type 0} (deps : Deps W)
    (ssh : Ssh W Signer Conn Client Session) (h : Host) (prof : JoinProfile) (phase : String) where
  -- The target of the shim of the host.
  abbrev pub shim_target : Target → Target
  shim_target target = record target { shim_command = h.spec.shim_command }

  -- The shim has read the envelope of the signed script in a session of a client whose host had shown
  -- the pinned key, and ended so.
  abbrev pub ShimRan : Target → Dict String → Option ℕ → Ending → Type 0
  ShimRan target env deadline ending =
      (wire : Bytes) × (marshal (signed_envelope deps prof phase env) ≡ ok wire)
      × (fp out errors : String) × Ran ssh deadline (shim_target target)
          (shim_command (shim_target target)) wire fp out errors ending

  -- The ends of a phase.
  abbrev pub PhaseEnded : Target → Dict String → Option ℕ → Result Error (Unit {0}) → Type 0
  PhaseEnded target env deadline (ok a) =
      IsSigned deps.crypto h prof phase × ShimRan target env deadline finished
  PhaseEnded target env deadline (err e) =
      (is_config_error e ≡ true)
      ⊎ (exit_status e ≡ none)
      ⊎ (IsSigned deps.crypto h prof phase
          × ((x : Error) × ShimRan target env deadline (failed x)
              × (exit_status e ≡ exit_status x)))

  abbrev without_output : Result Error RunResult × W → Result Error (Unit {0}) × W
  without_output r = discard deps (λ w. r) r.1

  abbrev status : Report (Unit {0}) → Option ℕ
  status (res, err e) = exit_status e
  status (res, ok a) = none

  report-PhaseEnded :
      (target : Target) (env : Dict String) (deadline : Option ℕ) (m : Result Error Bytes)
      (p : Report (Unit {0}) × W)
      → marshal (signed_envelope deps prof phase env) ≡ m
      → IsSigned deps.crypto h prof phase
      → SentBuilt ssh deadline
          (shim_target target)
          (shim_command (shim_target target))
          (built m)
          p.0
      → PhaseEnded target env deadline (without_output (outcome p)).0
  report-PhaseEnded target env deadline (err x) ((res, err e), w) q signed (same, plain) =
      inr (inl (ap status same ∙ plain))
  report-PhaseEnded target env deadline (err x) ((none, ok a), w) q signed (same, plain) =
      absurd (ground arith)
  report-PhaseEnded target env deadline (err x) ((some res, ok a), w) q signed (same, plain) =
      absurd (ground arith)
  report-PhaseEnded target env deadline (ok wire) ((res, err e), w) q signed (inl plain) =
      inr (inl plain)
  report-PhaseEnded target env deadline (ok wire) ((res, err e), w) q signed
        (inr (fp, out, errors, x, ran, told, same)) =
      inr (inr (signed, (x, (wire, q, fp, out, errors, ran), same)))
  report-PhaseEnded target env deadline (ok wire) ((none, ok a), w) q signed
        (fp, out, errors, ran, told) =
      (signed, (wire, q, fp, out, errors, ran))
  report-PhaseEnded target env deadline (ok wire) ((some res, ok a), w) q signed
        (fp, out, errors, ran, told) =
      (signed, (wire, q, fp, out, errors, ran))

  -- However a phase on a verified host ends over SSH, where the runners are `Run` and `RunShim` and
  -- only the run of a command gives the exit status of an error: without an error, the signature of
  -- its script verifies under the host's trusted signers, if it lists any, and the shim has read the
  -- envelope of that script and exited with zero, in a session of a client that authenticated only
  -- after its host had shown the pinned key, if one is pinned, in the handshake; and an error that
  -- carries an exit status, such as that of an unknown phase, and is none of configuration, has the
  -- status of an error with which the shim has ended in such a session after it read that envelope.
  pub run_verified_phase-PhaseEnded :
      (wired : deps.runners ≡ ssh_runners ssh) (exits : (d : Option ℕ) → ExitErrors ssh d)
      (limit : ℤ) (target : Target) (env : Dict String) (w : W)
      → PhaseEnded target env
          (deadline_after limit (ssh.now w))
          (run_verified_phase deps limit target h prof phase env w).0
  unfolding is_config_error
  run_verified_phase-PhaseEnded wired exits limit target env w =
      let deadline = deadline_after limit (ssh.now w) in
      let t = shim_target target in
      let e = signed_envelope deps prof phase env in
      elim (run_verified_phase-fails_closed deps h prof phase limit target env w) [
        | inl (e, q) ↦ rw q (inl refl)
        | inr (signed, q) ↦ rw q (
            subst (λ r. PhaseEnded target env deadline (without_output (r.run_shim limit t e w)).0)
              (sym wired)
              (report-PhaseEnded target env deadline (marshal e) (run_shim ssh deadline t e w) refl
                signed (run_shim-SentBuilt ssh deadline (exits deadline) t e w)))
      ]
