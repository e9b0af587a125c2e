-- ===== src/Instance/Join.antt =====
-- `join` of pkg/providers/instance/instance.go: a claimed host is installed and joined to the
-- cluster, under a bootstrap token that is recorded before it is used.
pub mod Token
use Prim.Native.String.{◌++◌}
use karpenter_provider_ssh.Common.{
  ℕ, String, Bool, true, false, not, Option, none, some, List, [], ◌∷◌, Dict, cut, ◌==◌,
  if◌then◌else◌,
}
use karpenter_provider_ssh.Common.Int.{ℤ, pos}
use karpenter_provider_ssh.Exec.{
  Result, ok, err, Exec, pure, raise, lift, attempt, map_error, map_error_result, ◌>>=◌, ◌>>◌,
}
use karpenter_provider_ssh.Api.Errors.{Error, text, wrapped, config, message, is_config_error}
use karpenter_provider_ssh.Api.Host.{Host, node_ip}
use karpenter_provider_ssh.Api.JoinProfile.{JoinProfile}
use karpenter_provider_ssh.Api.NodeClass.{NodeClass, is_adopt}
use karpenter_provider_ssh.Api.NodeClaim.{NodeClaim}
use karpenter_provider_ssh.Kube.{Session, HostExec, call, the_host}
use karpenter_provider_ssh.Pool.{provider_id}
use karpenter_provider_ssh.Profile.{
  Context, environment, timeout, installed_marker, redact, phase_install, phase_join,
}
use karpenter_provider_ssh.Sshexec.Runner.{Target}
use karpenter_provider_ssh.Instance.{Deps, ClusterInfo}
use karpenter_provider_ssh.Instance.Phases.{read_ssh_credentials, ssh_target, run_phase}
use karpenter_provider_ssh.Instance.Labels.{render_node_labels, render_taints}

-- `installTimeout`, `joinTimeout` and `tokenTTL`, in nanoseconds
abbrev pub install_timeout : ℤ
install_timeout = pos 600_000_000_000

abbrev pub join_timeout : ℤ
join_timeout = pos 300_000_000_000

abbrev pub token_ttl : ℤ
token_ttl = pos 3_600_000_000_000

-- `TokenID` of pkg/providers/bootstrap/bootstrap.go
unfoldable pub token_id : String → String
token_id token = elim (cut b'.' token) [ none ↦ token | some (id, secret) ↦ id ]

-- `redactPhaseErr`
unfoldable pub redact_phase_err : Context → String → Error → Error
redact_phase_err pctx phase e =
    let red = text (phase ++ (" phase: " ++ redact pctx (message e))) in
    if is_config_error e then config red else red

-- The context of `join`, before it knows the secrets and the token.
unfoldable pub join_context : NodeClass → NodeClaim → Host → ClusterInfo → Dict String → Context
join_context class nc h info secrets = record {
  cluster_endpoint = info.endpoint;
  cluster_ca_cert = info.ca_cert_b64;
  bootstrap_token = "";
  node_name = nc.meta.name;
  provider_id = if is_adopt class.spec.provider_id_source then "" else provider_id h;
  node_labels = render_node_labels nc;
  register_with_taints = render_taints nc;
  host_address = h.spec.address;
  node_address = node_ip h.spec;
  vars = class.spec.vars;
  secrets = secrets;
}

-- What the first half of `join` has read when it touches the host for the first time.
pub record Prepared : Type 0 where
  pub prof : JoinProfile
  pub target : Target
  pub context : Context
  pub env : Dict String

module _ {W : Type 0} (deps : Deps W) where
  abbrev join_secrets : NodeClass → Host → Option String → Exec W Error (Dict String)
  join_secrets class h none = pure []
  join_secrets class h (some name) =
      map_error (λ e. config (wrapped "getting joinSecretRef secret: " e))
        (deps.client.get_secret h.meta.namespace name)

  -- `join` up to its first phase.
  unfoldable pub prepare : NodeClass → NodeClaim → Host → Exec W Error Prepared
  unfolding read_ssh_credentials join_context
  prepare class nc h = do
    prof ←
        map_error (λ e. config (wrapped "getting join profile: " e))
          (deps.client.get_profile class.spec.join_profile)
    creds ← map_error config (read_ssh_credentials deps h)
    info ← map_error config (deps.bootstrap.cluster_info class)
    secrets ← join_secrets class h class.spec.join_secret
    env ← lift (map_error_result config (environment (join_context class nc h info secrets)))
    pure (record {
      prof = prof;
      target = ssh_target h creds;
      context = join_context class nc h info secrets;
      env = env;
    })

  -- `deleteToken`
  unfoldable pub delete_token : String → HostExec W (Unit {0})
  delete_token token = do
    attempt (call (deps.bootstrap.delete_token token))
    h ← the_host
    if h.status.bootstrap_token_id == ""
        then pure tt
        else do attempt (deps.pool.set_bootstrap_token_id ""); pure tt

  -- `deleteBootstrapToken`
  unfoldable pub delete_bootstrap_token : HostExec W (Unit {0})
  delete_bootstrap_token = do
    h ← the_host
    if h.status.bootstrap_token_id == "" then pure tt else do
      attempt (call (deps.bootstrap.delete_token_by_id h.status.bootstrap_token_id))
      pure tt

  -- `release`
  unfoldable pub release_failed : Bool → String → HostExec W (Unit {0})
  unfolding delete_bootstrap_token
  release_failed healthy reason = do
    delete_bootstrap_token
    attempt (deps.pool.release healthy reason)
    pure tt

  abbrev install : Prepared → Host → HostExec W (Unit {0})
  install p h = do
    map_error (redact_phase_err p.context phase_install) (
        call (
          run_phase deps (timeout p.prof phase_install install_timeout) p.target h p.prof
            phase_install p.context p.env))
    deps.pool.set_installed (installed_marker p.prof)

  -- The install phase, unless the host has the profile's marker.
  unfoldable pub run_install : Prepared → HostExec W (Unit {0})
  unfolding run_phase
  run_install p = do
    h ← the_host
    if not (h.status.installed_profile == installed_marker p.prof) then install p h else pure tt

  -- Gives a token back that the join will not use, and fails.
  abbrev pub abandon : {A : Type 0} → String → Error → HostExec W A
  abandon token e = do delete_token token; raise e

  abbrev or_abandon : {A : Type 0} → String → (Error → Error) → Result Error A → HostExec W A
  or_abandon token g (ok a) = pure a
  or_abandon token g (err e) = abandon token (g e)

  -- The join phase under a token, which every failure gives back.
  unfoldable pub run_join : Prepared → String → HostExec W (Unit {0})
  unfolding run_phase delete_token
  run_join p token =
      let pctx = record p.context { bootstrap_token = token } in
      do
        env ← or_abandon token (λ e. e) (environment pctx)
        recorded ← attempt (deps.pool.set_bootstrap_token_id (token_id token))
        or_abandon token (wrapped "recording bootstrap token: ") recorded
        h ← the_host
        joined ← attempt (
            call (
              run_phase deps (timeout p.prof phase_join join_timeout) p.target h p.prof phase_join
                pctx env))
        or_abandon token (redact_phase_err pctx phase_join) joined

  -- `join`
  unfoldable pub join : NodeClass → NodeClaim → HostExec W (Unit {0})
  unfolding prepare run_install run_join
  join class nc = do
    h ← the_host
    p ← call (prepare class nc h)
    run_install p
    token ← call (
        deps.bootstrap.create_token token_ttl ("karpenter-provider-ssh nodeclaim " ++ nc.meta.name))
    run_join p token
