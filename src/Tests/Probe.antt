-- ===== src/Tests/Probe.antt =====
-- The theorems on the host reconciler at one host.
use karpenter_provider_ssh.Common.{◌≡◌, ◌↔◌, refl, Bool, true, false, not, [], ◌∷◌}
use karpenter_provider_ssh.Common.Int.{pos}
use karpenter_provider_ssh.Api.Host.{Host}
use karpenter_provider_ssh.Exec.{ok, err}
use karpenter_provider_ssh.Api.Errors.{api, not_found}
use karpenter_provider_ssh.Kube.{Session, Client}
use karpenter_provider_ssh.Pool.{claim_held_by, is_some}
use karpenter_provider_ssh.Probe.{is_stale}
use karpenter_provider_ssh.Probe.Held.{reconcile_claimed, check_claim}
use karpenter_provider_ssh.Probe.Held.Live.{
  is_stale-claim_held_by, KeepsClaim, reconcile_claimed-KeepsClaim,
}
use karpenter_provider_ssh.Probe.Capacity.{capacity_drift, FallsShort, capacity_drift_lem}
use karpenter_provider_ssh.Example.{free_host, busy_host, claim_ref, web_claim}
use karpenter_provider_ssh.Example.Cluster.{client, lock}
use karpenter_provider_ssh.Example.Services.{services}

abbrev idle : Session Bool
idle = record { host = free_host; world = false }

abbrev busy : Session Bool
busy = record { host = busy_host; world = false }

is_stale-claim_held_by_example :
    is_stale claim_ref (ok web_claim) ≡ ok (not (claim_held_by busy_host web_claim))
is_stale-claim_held_by_example = is_stale-claim_held_by busy_host claim_ref web_claim refl refl

reconcile_claimed-KeepsClaim_example :
    KeepsClaim busy_host (reconcile_claimed (services busy_host) busy_host busy).1.host
unfolding check_claim
reconcile_claimed-KeepsClaim_example =
    reconcile_claimed-KeepsClaim (services busy_host) (lock busy_host) busy_host refl busy false
      refl

-- An API server without the NodeClaim.
abbrev bereft : Client Bool
bereft = record (client busy_host) { get_node_claim = λ name w. (err (api not_found name), w) }

-- A host of eight processors that shows four.
abbrev short_host : Host
short_host = record free_host {
  spec = record free_host.spec { capacity = ("cpu", pos 8000) ∷ [] };
  status = record free_host.status { observed_capacity = ("cpu", pos 4000) ∷ [] };
}

capacity_drift_lem_example :
    (is_some (capacity_drift (λ q. "4") true free_host short_host) ≡ true)
    ↔ ((true ≡ true) × FallsShort (λ q. "4") short_host × ¬ FallsShort (λ q. "4") free_host)
capacity_drift_lem_example = capacity_drift_lem (λ q. "4") true free_host short_host
