-- ===== src/Instance/Phases/Verified.antt =====
-- Verified execution fails closed: what reaches a verified host is one signed script, verbatim.
use karpenter_provider_ssh.Common.{
  String, ◌≡◌, refl, ◌⊎◌, inl, inr, false, List, [], ◌∷◌, Dict, bytes, ◌==◌, Bool-cases, subst,
  arith,
}
use karpenter_provider_ssh.Common.Int.{ℤ}
use karpenter_provider_ssh.Exec.{Result, ok, err, map_error_result}
use karpenter_provider_ssh.Api.Errors.{Error, config}
use karpenter_provider_ssh.Api.Host.{Host}
use karpenter_provider_ssh.Api.JoinProfile.{JoinProfile}
use karpenter_provider_ssh.Profile.{script, signature, has_template_actions}
use karpenter_provider_ssh.Sshexec.Wire.{Bytes}
use karpenter_provider_ssh.Sshexec.Runner.{Target}
use karpenter_provider_ssh.Sshexec.Signature.{Crypto, parse_trusted_signers, default_sign_namespace}
use karpenter_provider_ssh.Sshexec.Signature.Soundness.{IsVerified, verify_sshsig-IsVerified}
use karpenter_provider_ssh.Instance.{Deps}
use karpenter_provider_ssh.Instance.Phases.{
  run_verified_phase, verified_script, check_signature, signed_envelope, discard, verify_under,
}

-- The signature of a script holds under the keys that the host trusts, if it lists any.
abbrev pub Trusted : Crypto → String → String → List String → Type 0
Trusted crypto raw sig [] = Unit
Trusted crypto raw sig (l ∷ lines) =
    (signers : List Bytes) × (parse_trusted_signers crypto (l ∷ lines) ≡ ok signers)
    × IsVerified crypto (bytes raw) (bytes sig) signers default_sign_namespace

abbrev pub IsSigned : Crypto → Host → JoinProfile → String → Type 0
IsSigned crypto h prof phase =
    ((script prof phase == "") ≡ false)
    × (has_template_actions (script prof phase) ≡ false)
    × ((signature prof phase == "") ≡ false)
    × Trusted crypto (script prof phase) (signature prof phase) h.spec.trusted_signers

module _ {W : Type 0} (deps : Deps W) (h : Host) (prof : JoinProfile) (phase : String) where
  map_error_result-ok :
      (g : Error → Error) (r : Result Error (Unit {0})) → map_error_result g r ≡ ok tt → r ≡ ok tt
  map_error_result-ok g (ok a) e = refl
  map_error_result-ok g (err x) e = cc

  check_signature-Trusted :
      (lines : List String)
      → check_signature deps h prof phase lines ≡ ok tt
      → Trusted deps.crypto (script prof phase) (signature prof phase) lines
  unfolding check_signature
  check_signature-Trusted [] e = tt
  check_signature-Trusted (l ∷ lines) e =
      parsed (parse_trusted_signers deps.crypto (l ∷ lines)) refl
    where
      parsed :
          (r : Result Error (List Bytes))
          → parse_trusted_signers deps.crypto (l ∷ lines) ≡ r
          → Trusted deps.crypto (script prof phase) (signature prof phase) (l ∷ lines)
      parsed (err x) q = absurd (ground arith)
      parsed (ok signers) q = (
        signers,
        q,
        verify_sshsig-IsVerified deps.crypto _ _ signers default_sign_namespace
            (map_error_result-ok _ _ (subst (λ r. verify_under deps h prof phase r ≡ ok tt) q e)),
      )

  verified_script-IsSigned :
      verified_script deps h prof phase ≡ ok tt → IsSigned deps.crypto h prof phase
  unfolding verified_script
  verified_script-IsSigned e = elim (Bool-cases (script prof phase == "")) [
    | inl empty ↦ absurd (ground arith)
    | inr written ↦ elim (Bool-cases (has_template_actions (script prof phase))) [
      | inl actions ↦ absurd (ground arith)
      | inr plain ↦ elim (Bool-cases (signature prof phase == "")) [
        | inl unsigned ↦ absurd (ground arith)
        | inr signed ↦
            (written, plain, signed, check_signature-Trusted h.spec.trusted_signers (ground arith))
      ]
    ]
  ]

  -- A phase on a verified host ends in one of two ways. It fails with a configuration error and the
  -- world as it was, so nothing was sent; or the profile has a script and a signature for the phase,
  -- the script has no template actions, the signature verifies under the host's trusted signers if it
  -- lists any, and the phase is the one call of the shim with the script as it was signed.
  pub run_verified_phase-fails_closed :
      (limit : ℤ) (target : Target) (env : Dict String) (w : W)
      → ((e : Error) × (run_verified_phase deps limit target h prof phase env w
            ≡ (err (config e), w)))
        ⊎ (IsSigned deps.crypto h prof phase
            × (run_verified_phase deps limit target h prof phase env w
                ≡ discard deps
                    (deps.runners.run_shim limit
                      (record target { shim_command = h.spec.shim_command })
                      (record {
                        phase = phase;
                        script = bytes (script prof phase);
                        sig = bytes (signature prof phase);
                        params = env;
                      }))
                    w))
  unfolding run_verified_phase
  run_verified_phase-fails_closed limit target env w =
      tested (verified_script deps h prof phase) refl
    where
      tested :
          (r : Result Error (Unit {0}))
          → verified_script deps h prof phase ≡ r
          → ((e : Error) × (run_verified_phase deps limit target h prof phase env w
                ≡ (err (config e), w)))
            ⊎ (IsSigned deps.crypto h prof phase
                × (run_verified_phase deps limit target h prof phase env w
                    ≡ discard deps
                        (deps.runners.run_shim limit
                          (record target { shim_command = h.spec.shim_command })
                          (signed_envelope deps prof phase env))
                        w))
      tested (err e) q = inl (e, rw q refl)
      tested (ok a) q = inr (verified_script-IsSigned (ground arith), rw q refl)
