-- ===== src/Pool/Interface.antt =====
-- `Provider` of pkg/providers/host/host.go: the pool as its clients see it, and the provider that
-- implements it.
use karpenter_provider_ssh.Common.{String, Bool, Option, List}
use karpenter_provider_ssh.Exec.{Exec}
use karpenter_provider_ssh.Api.Errors.{Error}
use karpenter_provider_ssh.Api.Meta.{LabelSelector}
use karpenter_provider_ssh.Api.Host.{Host}
use karpenter_provider_ssh.Api.NodeClaim.{NodeClaim}
use karpenter_provider_ssh.Kube.{Client, HostExec}
use karpenter_provider_ssh.Pool

pub record HostProvider (W : Type 0) : Type 0 where
  pub available : Option LabelSelector → String → Exec W Error (List Host)
  pub all : Option LabelSelector → Exec W Error (List Host)
  pub claim : NodeClaim → HostExec W Bool
  pub release : Bool → String → HostExec W (Unit {0})
  pub mark_in_use : HostExec W (Unit {0})
  pub set_installed : String → HostExec W (Unit {0})
  pub by_provider_id : String → Exec W Error Host
  pub set_provider_id : String → HostExec W (Unit {0})
  pub set_bootstrap_token_id : String → HostExec W (Unit {0})
  pub by_claim : NodeClaim → Exec W Error (Option Host)
  pub claimed : Exec W Error (List Host)

-- `NewDefaultProvider`
abbrev pub default_provider : {W : Type 0} → Client W → String → HostProvider W
default_provider c namespace = record {
  available = Pool.available_hosts c namespace;
  all = Pool.list c namespace;
  claim = Pool.claim c;
  release = Pool.release c;
  mark_in_use = Pool.mark_in_use c;
  set_installed = Pool.set_installed c;
  by_provider_id = Pool.by_provider_id c namespace;
  set_provider_id = Pool.set_provider_id c;
  set_bootstrap_token_id = Pool.set_bootstrap_token_id c;
  by_claim = Pool.by_claim c namespace;
  claimed = Pool.claimed_hosts c namespace;
}
