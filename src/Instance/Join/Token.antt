-- ===== src/Instance/Join/Token.antt =====
-- The bootstrap token of a join: recorded on the host before it is used, and given back by every
-- join that fails once it has one; and what a failed join says of the host.
use karpenter_provider_ssh.Common.{String, ◌≡◌, ◌==◌, true, false, Dict, arith}
use karpenter_provider_ssh.Exec.{Result, ok, err}
use karpenter_provider_ssh.Api.Errors.{Error, is_config_error}
use karpenter_provider_ssh.Api.Host.{Host}
use karpenter_provider_ssh.Api.NodeClass.{NodeClass}
use karpenter_provider_ssh.Api.NodeClaim.{NodeClaim}
use karpenter_provider_ssh.Kube.{Session}
use karpenter_provider_ssh.Profile.{environment, timeout, phase_join}
use karpenter_provider_ssh.Instance.{Deps}
use karpenter_provider_ssh.Instance.Phases.{run_phase}
use karpenter_provider_ssh.Instance.Join.{Prepared, prepare, delete_token, token_id, join_timeout}

module _ {W : Type 0} (deps : Deps W) where
  -- Every failure of a join before its first phase is one of configuration, never the host's.
  pub prepare-config :
      (class : NodeClass) (nc : NodeClaim) (h : Host) (w w' : W) (e : Error)
      → prepare deps class nc h w ≡ (err e, w')
      → is_config_error e ≡ true
  unfolding prepare is_config_error
  prepare-config class nc h w w' e failed = ground arith

  -- The record of the token goes from a host that has one, whether or not that write succeeds.
  pub data Forgotten : Session W → Session W → Type 0 where
    unrecorded : {t : Session W} → (t.host.status.bootstrap_token_id == "") ≡ true → Forgotten t t
    cleared :
        {t u : Session W} {r : Result Error (Unit {0})}
        → (t.host.status.bootstrap_token_id == "") ≡ false
        → deps.pool.set_bootstrap_token_id "" t ≡ (r, u)
        → Forgotten t u

  -- How a join ends that has a token: with an error, after the token was deleted, as far as the
  -- server did so, and then its record; or with the token recorded on the host and then the join
  -- phase run under it on that host.
  abbrev pub GaveBack : String → Session W → Type 0
  GaveBack token u =
      (t : Session W) × (r : Result Error (Unit {0})) × (v : W) × (deps.bootstrap.delete_token token
          t.world
        ≡ (r, v))
      × Forgotten (record { host = t.host; world = v }) u

  abbrev pub Joined : Prepared → String → Session W → Session W → Type 0
  Joined p token s u =
      (env : Dict String) × (t : Session W) × (v : W) × (environment
          (record p.context { bootstrap_token = token })
        ≡ ok env)
      × (deps.pool.set_bootstrap_token_id (token_id token) s ≡ (ok tt, t))
      × (run_phase deps (timeout p.prof phase_join join_timeout) p.target t.host p.prof phase_join
            (record p.context { bootstrap_token = token }) env t.world
          ≡ (ok tt, v))
      × (u ≡ record { host = t.host; world = v })

  abbrev pub JoinOutcome :
      Prepared → String → Session W → Result Error (Unit {0}) × Session W → Type 0
  JoinOutcome p token s (ok a, u) = Joined p token s u
  JoinOutcome p token s (err e, u) = GaveBack token u
