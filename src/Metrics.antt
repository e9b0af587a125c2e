-- ===== src/Metrics.antt =====
-- pkg/metrics/metrics.go: the gauge of the pool's hosts by state and class, and the labels of the
-- outcomes. The histograms and the counters are Prometheus's own.
pub mod Tally
use karpenter_provider_ssh.Common.{
  ℕ, suc, ◌+◌, String, Bool, ◌&&◌, List, [], ◌∷◌, none, ◌==◌, if◌then◌else◌,
}
use karpenter_provider_ssh.Exec.{Result, ok, err, Exec}
use karpenter_provider_ssh.Api.Errors.{Error}
use karpenter_provider_ssh.Api.Host.{
  Host, HostState, unset, pending, available, claimed, in_use, unhealthy, leaving, maintenance,
  host_class,
}
use karpenter_provider_ssh.Kube.{Client}

abbrev pub Key : Type 0
Key = String × String

-- The label of a state: a host that no controller has written yet counts as pending.
abbrev pub state_label : HostState → String
state_label unset = "Pending"
state_label pending = "Pending"
state_label available = "Available"
state_label claimed = "Claimed"
state_label in_use = "InUse"
state_label unhealthy = "Unhealthy"
state_label leaving = "Leaving"
state_label maintenance = "Maintenance"

abbrev pub host_key : Host → Key
host_key h = (state_label h.status.state, host_class h)

abbrev pub same_key : Key → Key → Bool
same_key a b = a.0 == b.0 && a.1 == b.1

-- `counts[key]++`
unfoldable pub bump : Key → List (Key × ℕ) → List (Key × ℕ)
bump k [] = (k, 1) ∷ []
bump k ((j, n) ∷ counts) =
    let rest = bump k counts in if same_key j k then (j, suc n) ∷ counts else (j, n) ∷ rest

-- The loop of `Collect`.
unfoldable pub tally : List (Key × ℕ) → List Host → List (Key × ℕ)
unfolding bump
tally counts [] = counts
tally counts (h ∷ hosts) = tally (bump (host_key h) counts) hosts

abbrev gauges : Result Error (List Host) → List (Key × ℕ)
gauges (ok hosts) = tally [] hosts
gauges (err e) = []

-- `Collect`: the gauges that a scrape sends, which are none if the hosts cannot be listed
unfoldable pub collect : {W : Type 0} → Client W → String → W → List (Key × ℕ) × W
unfolding tally
collect c namespace w = let (r, v) = c.list_hosts namespace none w in (gauges r, v)

-- `outcome`
unfoldable pub outcome_label : {A : Type 0} → Result Error A → String
outcome_label (ok a) = "success"
outcome_label (err e) = "error"
