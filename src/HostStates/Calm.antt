-- ===== src/HostStates/Calm.antt =====
-- The parts of a reconcile that write no host: reads, the phases on the host, and the tokens.
use karpenter_provider_ssh.Common.{String, Option, none, some, Dict}
use karpenter_provider_ssh.Common.Int.{ℤ}
use karpenter_provider_ssh.Exec.{Result, ok, err}
use karpenter_provider_ssh.Exec.Keep.{Keeps, continue-Held, if-Held}
use karpenter_provider_ssh.Api.Errors.{Error}
use karpenter_provider_ssh.Api.Host.{Host, ClaimReference}
use karpenter_provider_ssh.Api.JoinProfile.{JoinProfile}
use karpenter_provider_ssh.Profile.{Context}
use karpenter_provider_ssh.Sshexec.Runner.{Target}
use karpenter_provider_ssh.Instance.{Deps}
use karpenter_provider_ssh.Instance.Phases.{
  read_ssh_credentials, run_phase, run_verified_phase, run_installed_phase, leave_host, secret_key,
  known_host, run_rendered,
}
use karpenter_provider_ssh.Probe.{probe, node_by_internal_ip}
use karpenter_provider_ssh.Probe.Held.{check_claim}
use karpenter_provider_ssh.HostStates.Server.{Server}

module _ {W : Type 0} {deps : Deps W} {Known : Host → Type 0} {Inv : W → Type 0}
    (server : Server deps Known Inv) where
  secret_key-Keeps : (h : Host) (o : Option String) → Keeps Inv (secret_key deps h o)
  secret_key-Keeps h none w i = i
  secret_key-Keeps h (some k) w i = i

  known_host-Keeps : (h : Host) (o : Option String) → Keeps Inv (known_host deps h o)
  known_host-Keeps h none w i = i
  known_host-Keeps h (some k) w i = i

  read_ssh_credentials-Keeps : (h : Host) → Keeps Inv (read_ssh_credentials deps h)
  unfolding read_ssh_credentials
  read_ssh_credentials-Keeps h w i =
      search (continue-Held Inv, server.secret-Inv, secret_key-Keeps, known_host-Keeps, i)

  run_verified_phase-Keeps :
      (limit : ℤ) (t : Target) (h : Host) (prof : JoinProfile) (phase : String) (env : Dict String)
      → Keeps Inv (run_verified_phase deps limit t h prof phase env)
  unfolding run_verified_phase
  run_verified_phase-Keeps limit t h prof phase env w i =
      search (continue-Held Inv, server.shim-Inv, i)

  run_rendered-Keeps :
      (limit : ℤ) (t : Target) (env : Dict String) (r : Result Error String)
      → Keeps Inv (run_rendered deps limit t env r)
  run_rendered-Keeps limit t env (err e) w i = i
  run_rendered-Keeps limit t env (ok out) w i = search (continue-Held Inv, server.run-Inv, i)

  run_phase-Keeps :
      (limit : ℤ) (t : Target) (h : Host) (prof : JoinProfile) (phase : String) (c : Context)
      (env : Dict String)
      → Keeps Inv (run_phase deps limit t h prof phase c env)
  unfolding run_phase
  run_phase-Keeps limit t h prof phase c env w i =
      search (if-Held Inv, run_verified_phase-Keeps, run_rendered-Keeps, i)

  pub leave_host-Keeps : (h : Host) → Keeps Inv (leave_host deps h)
  unfolding leave_host run_installed_phase
  leave_host-Keeps h w i =
      search
        (
          if-Held Inv,
          continue-Held Inv,
          server.profile-Inv,
          read_ssh_credentials-Keeps,
          run_phase-Keeps,
          i,
        )
        depth 14 fits 4000

  pub node_by_internal_ip-Keeps : (ip : String) → Keeps Inv (node_by_internal_ip deps ip)
  unfolding node_by_internal_ip
  node_by_internal_ip-Keeps ip w i = search (continue-Held Inv, server.nodes-Inv, i)

  pub check_claim-Keeps : (o : Option ClaimReference) → Keeps Inv (check_claim deps o)
  unfolding check_claim
  check_claim-Keeps none w i = i
  check_claim-Keeps (some ref) w i = server.claim-Inv ref.name w i

  pub probe-Keeps : (h : Host) → Keeps Inv (probe deps h)
  unfolding probe
  probe-Keeps h w i = search (
    continue-Held Inv,
    if-Held Inv,
    read_ssh_credentials-Keeps,
    server.shim-Inv,
    server.run-Inv,
    i,
  )
