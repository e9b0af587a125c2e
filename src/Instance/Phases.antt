-- ===== src/Instance/Phases.antt =====
-- How a phase of a profile runs on a host: pkg/providers/instance/leave.go, and `runPhase` and
-- `runVerifiedPhase` of instance.go.
pub mod Verified
pub mod OverSsh
use Prim.Native.String.{◌++◌}
use karpenter_provider_ssh.Common.{
  String, Bool, true, false, Option, none, some, List, [], ◌∷◌, Dict, lookup, cut, bytes, ◌==◌,
  if◌then◌else◌,
}
use karpenter_provider_ssh.Common.Int.{ℤ, pos}
use karpenter_provider_ssh.Exec.{
  Result, ok, err, Exec, pure, raise, lift, map_error, map_error_result, ◌>>=◌, ◌>>◌,
}
use karpenter_provider_ssh.Api.Errors.{Error, text, wrapped, config}
use karpenter_provider_ssh.Api.Host.{Host, is_verified, node_ip}
use karpenter_provider_ssh.Api.JoinProfile.{JoinProfile}
use karpenter_provider_ssh.Profile.{
  Context, empty_context, script, signature, has_template_actions, environment, timeout,
  phase_leave,
}
use karpenter_provider_ssh.Profile.Render.{render}
use karpenter_provider_ssh.Sshexec.Wire.{Bytes}
use karpenter_provider_ssh.Sshexec.HostKey.{pinned_fingerprint}
use karpenter_provider_ssh.Sshexec.Envelope.{Envelope}
use karpenter_provider_ssh.Sshexec.Runner.{Target, RunResult}
use karpenter_provider_ssh.Sshexec.Signature.{
  Crypto, parse_trusted_signers, verify_sshsig, default_sign_namespace,
}
use karpenter_provider_ssh.Instance.{Deps}

pub record Credentials : Type 0 where
  pub private_key : String
  pub pinned_host_key : String

-- `EffectivePin`: the pin of the secret, before the one of the first contact.
unfoldable pub effective_pin : Credentials → Host → String
effective_pin creds h =
    if creds.pinned_host_key == "" then h.status.host_key_fingerprint else creds.pinned_host_key

-- `SSHTarget`
unfoldable pub ssh_target : Host → Credentials → Target
unfolding effective_pin
ssh_target h creds = record {
  address = h.spec.address;
  port = h.spec.port;
  user = h.spec.user;
  private_key = creds.private_key;
  pinned_host_key = effective_pin creds h;
  shim_command = "";
}

-- `hostLeaveTimeout` and `hostRebootTimeout`, in nanoseconds
abbrev pub host_leave_timeout : ℤ
host_leave_timeout = pos 180_000_000_000

abbrev pub host_reboot_timeout : ℤ
host_reboot_timeout = pos 60_000_000_000

-- The name of the profile in an install marker.
unfoldable pub marker_profile : String → String
marker_profile marker = elim (cut b'@' marker) [ none ↦ marker | some (name, version) ↦ name ]

module _ {W : Type 0} (deps : Deps W) where
  abbrev pub secret_key : Host → Option String → Exec W Error String
  secret_key h (some key) = pure key
  secret_key h none = raise (
      text (
        "secret "
        ++ (h.meta.namespace ++ ("/" ++ (h.spec.ssh_key_secret ++ " has no privateKey")))))

  abbrev pub known_host : Host → Option String → Exec W Error String
  known_host h none = pure ""
  known_host h (some kh) = lift (
      map_error_result
        (wrapped
          ("secret " ++ (h.meta.namespace ++ ("/" ++ (h.spec.ssh_key_secret ++ " knownHost: ")))))
        (pinned_fingerprint deps.crypto kh))

  -- `ReadSSHCredentials`
  unfoldable pub read_ssh_credentials : Host → Exec W Error Credentials
  unfolding pinned_fingerprint
  read_ssh_credentials h = do
    secret ←
        map_error (wrapped "getting ssh key secret: ")
          (deps.client.get_secret h.meta.namespace h.spec.ssh_key_secret)
    key ← secret_key h (lookup "privateKey" secret)
    pin ← known_host h (lookup "knownHost" secret)
    pure (record { private_key = key; pinned_host_key = pin })

  abbrev pub verify_under :
      Host → JoinProfile → String → Result Error (List Bytes) → Result Error (Unit {0})
  verify_under h prof phase (err e) =
      err (wrapped ("host " ++ (h.meta.name ++ " trustedSigners: ")) e)
  verify_under h prof phase (ok signers) =
      map_error_result
        (wrapped (
          "controller-side signature check for profile "
          ++ (prof.name ++ (" " ++ (phase ++ ": ")))))
        (verify_sshsig deps.crypto (bytes (script prof phase)) (bytes (signature prof phase))
          signers default_sign_namespace)

  -- The controller's own check of a signature, which hosts without trusted signers skip.
  unfoldable pub check_signature :
      Host → JoinProfile → String → List String → Result Error (Unit {0})
  check_signature h prof phase [] = ok tt
  check_signature h prof phase (l ∷ lines) =
      verify_under h prof phase (parse_trusted_signers deps.crypto (l ∷ lines))

  -- The tests of `runVerifiedPhase`, before it connects.
  unfoldable pub verified_script : Host → JoinProfile → String → Result Error (Unit {0})
  unfolding check_signature
  verified_script h prof phase =
      if script prof phase == ""
      then err (text ("profile " ++ (prof.name ++ (" has no " ++ (phase ++ " script")))))
      else if has_template_actions (script prof phase)
      then err (
          text (
            "verified exec requires template-free scripts; profile "
            ++ (prof.name ++ (" " ++ (phase ++ " uses Go template actions")))))
      else if signature prof phase == ""
      then err (
          text (
            "verified host "
            ++ (h.meta.name
                ++ (": profile " ++ (prof.name ++ (" has no signature for phase " ++ phase))))))
      else check_signature h prof phase h.spec.trusted_signers

  abbrev pub signed_envelope : JoinProfile → String → Dict String → Envelope
  signed_envelope prof phase env = record {
    phase = phase;
    script = bytes (script prof phase);
    sig = bytes (signature prof phase);
    params = env;
  }

  abbrev pub discard : Exec W Error RunResult → Exec W Error (Unit {0})
  discard m = m >>= λ _. pure tt

  -- `runVerifiedPhase`
  unfoldable pub run_verified_phase :
      ℤ → Target → Host → JoinProfile → String → Dict String → Exec W Error (Unit {0})
  unfolding verified_script
  run_verified_phase limit target h prof phase env = do
    lift (map_error_result config (verified_script h prof phase))
    discard (
        deps.runners.run_shim limit (record target { shim_command = h.spec.shim_command })
          (signed_envelope prof phase env))

  abbrev pub run_rendered : ℤ → Target → Dict String → Result Error String → Exec W Error (Unit {0})
  run_rendered limit target env (err e) = raise (config e)
  run_rendered limit target env (ok out) = discard (deps.runners.run limit target out env)

  -- `runPhase`, which is also the `if` of `runInstalledPhase`.
  unfoldable pub run_phase :
      ℤ → Target → Host → JoinProfile → String → Context → Dict String → Exec W Error (Unit {0})
  unfolding run_verified_phase
  run_phase limit target h prof phase pctx env =
      if is_verified h.spec.exec_mode
      then run_verified_phase limit target h prof phase env
      else run_rendered limit target env (render deps.templates prof phase pctx)

  abbrev pub host_context : Host → Context
  host_context h = record empty_context {
    host_address = h.spec.address;
    node_address = node_ip h.spec;
  }

  -- `runInstalledPhase`
  unfoldable pub run_installed_phase : Host → String → ℤ → Exec W Error (Unit {0})
  unfolding run_phase read_ssh_credentials
  run_installed_phase h phase def =
      if h.status.installed_profile == ""
      then raise (
          config (
            text (
              "host " ++ (h.meta.name ++ (" has no installed profile to " ++ (phase ++ " with"))))))
      else do
        prof ←
            map_error
              (wrapped ("getting profile " ++ (marker_profile h.status.installed_profile ++ ": ")))
              (deps.client.get_profile (marker_profile h.status.installed_profile))
        if script prof phase == ""
            then raise
                (config (text ("profile " ++ (prof.name ++ (" has no " ++ (phase ++ " script"))))))
            else do
              creds ← read_ssh_credentials h
              env ← lift (environment (host_context h))
              map_error (wrapped (phase ++ " phase: ")) (
                  run_phase (timeout prof phase def) (ssh_target h creds) h prof phase
                    (host_context h) env)

  -- `LeaveHost`
  unfoldable pub leave_host : Host → Exec W Error (Unit {0})
  unfolding run_installed_phase
  leave_host h = run_installed_phase h phase_leave host_leave_timeout
