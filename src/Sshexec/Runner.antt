-- ===== src/Sshexec/Runner.antt =====
-- internal/sshexec/sshexec.go: the endpoint, the two ways to run a script over SSH, and their results.
use karpenter_provider_ssh.Common.{ℕ, String, Dict}
use karpenter_provider_ssh.Common.Int.{ℤ}
use karpenter_provider_ssh.Exec.{Exec}
use karpenter_provider_ssh.Api.Errors.{Error}
use karpenter_provider_ssh.Sshexec.Envelope.{Envelope}

pub record Target : Type 0 where
  pub address : String
  pub port : ℕ
  pub user : String
  pub private_key : String
  pub pinned_host_key : String
  pub shim_command : String

pub record RunResult : Type 0 where
  pub stdout : String
  pub stderr : String
  pub host_key_fingerprint : String

-- `Runner` and `ShimRunner`, which the providers take as dependencies. The first argument is the
-- deadline of the context, in nanoseconds.
pub record Runners (W : Type 0) : Type 0 where
  pub run : ℤ → Target → String → Dict String → Exec W Error RunResult
  pub run_shim : ℤ → Target → Envelope → Exec W Error RunResult
