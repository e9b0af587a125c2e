-- ===== src/Tests/Dial.antt =====
-- The theorems on the SSH calls at one host.
use karpenter_provider_ssh.Common.{arith, ℕ, Option, String, refl, Bool, true, false, none, [], ◌∷◌}
use karpenter_provider_ssh.Exec.{ok}
use karpenter_provider_ssh.Api.Errors.{wrapped, exit, exit_status}
use karpenter_provider_ssh.Sshexec.Runner.{Target}
use karpenter_provider_ssh.Sshexec.Script.{run_input, run_command}
use karpenter_provider_ssh.Sshexec.Dial.{Ssh, failed, ssh_runners, deadline_after, run}
use karpenter_provider_ssh.Sshexec.Dial.Sent.{ExitErrors, SentBuilt, run-SentBuilt}
use karpenter_provider_ssh.Common.Int.{pos}
use karpenter_provider_ssh.Instance.{Deps}
use karpenter_provider_ssh.Instance.Phases.{run_verified_phase}
use karpenter_provider_ssh.Instance.Phases.OverSsh.{PhaseEnded, run_verified_phase-PhaseEnded}
use karpenter_provider_ssh.Example.{signed_host, kubeadm}
use karpenter_provider_ssh.Example.Services.{crypto, services}

-- A network with one host, whose shell and shim know no command. `true` is the world after a call.
abbrev network : Ssh Bool (Unit {0}) (Unit {0}) (Unit {0}) (Unit {0})
network = record {
  crypto = crypto;
  now = λ w. 1000;
  parse_private_key = λ key. ok tt;
  dial = λ limit deadline address w. (ok tt, w);
  set_deadline = λ conn deadline w. w;
  exchange = λ conn w. (ok (1 ∷ 2 ∷ 3 ∷ []), w);
  authenticate = λ conn user signer w. (ok tt, w);
  rejected = λ e. wrapped "ssh: handshake failed: " e;
  close_conn = λ conn w. w;
  close_client = λ client w. true;
  new_session = λ client w. (ok tt, w);
  run = λ session deadline cmd input w. (("", "unknown phase", failed (exit 5 "exit status 5")), w);
  close_session = λ session w. w;
  decode = λ s. "";
}

exits : (deadline : Option ℕ) → ExitErrors network deadline
unfolding exit_status
exits deadline = record {
  parse = λ key. tt;
  dial = λ limit d address w. tt;
  exchange = λ conn w. tt;
  authenticate = λ conn user signer w. tt;
  rejected = λ m. refl;
  new_session = λ client w. tt;
  run = λ session cmd input u v out errors e q. absurd (ground arith);
}

abbrev host : String → Target
host pin = record {
  address = "10.0.0.5";
  port = 22;
  user = "";
  private_key = "key";
  pinned_host_key = pin;
  shim_command = "";
}

run-SentBuilt_example :
    SentBuilt network none
      (host "")
      (run_command (host ""))
      (run_input "id" [])
      (run network none (host "") "id" [] false).0
run-SentBuilt_example = run-SentBuilt network none (exits none) (host "") "id" [] false

-- Services that reach their hosts over the network.
abbrev wired : Deps Bool
wired = record (services signed_host) { runners = ssh_runners network }

run_verified_phase-PhaseEnded_example :
    PhaseEnded wired network signed_host kubeadm "join"
      (host "")
      []
      (deadline_after (pos 5) 1000)
      (run_verified_phase wired (pos 5) (host "") signed_host kubeadm "join" [] false).0
run_verified_phase-PhaseEnded_example =
    run_verified_phase-PhaseEnded wired network signed_host kubeadm "join" refl exits (pos 5)
      (host "") [] false
