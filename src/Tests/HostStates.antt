-- ===== src/Tests/HostStates.antt =====
-- The theorems on the life of a host at one host.
use karpenter_provider_ssh.Common.{ℕ, ◌≡◌, refl, true, lookup}
use karpenter_provider_ssh.Exec.Keep.{Keeps}
use karpenter_provider_ssh.Api.Host.{HostStatus, host_class}
use karpenter_provider_ssh.Pool.{claim, claimable}
use karpenter_provider_ssh.Instance.Lifecycle.{delete}
use karpenter_provider_ssh.Probe.{probe, wait_left}
use karpenter_provider_ssh.Probe.Facts.{ProbeResult, parse_probe_output}
use karpenter_provider_ssh.Probe.Reconcile.{reconcile}
use karpenter_provider_ssh.Probe.Reconcile.Admit.{Admitted, reconcile-admits}
use karpenter_provider_ssh.HostStates.{WellFormed}
use karpenter_provider_ssh.HostStates.Reconcile.{reconcile-Keeps}
use karpenter_provider_ssh.HostStates.Runs.{
  Run, begin, pool, probes, deletes, claims, run-WellFormed,
}
use karpenter_provider_ssh.Example.{free_host, web_claim}
use karpenter_provider_ssh.Example.Ledger.{ledger_services, ledger_server, Formed}

abbrev clock : HostStatus → ℕ
clock w = 500_000_000_000

reconcile-Keeps_example : Keeps WellFormed (reconcile ledger_services clock "pool" "alpha")
reconcile-Keeps_example = reconcile-Keeps ledger_server clock "pool" "alpha"

-- A probe, a claim of the host as it was, and the deletion of the NodeClaim.
abbrev probed : HostStatus
probed = (reconcile ledger_services clock "pool" "alpha" free_host.status).1

abbrev taken : HostStatus
taken =
    (claim ledger_services.client web_claim (record { host = free_host; world = probed })).1.world

abbrev last : HostStatus
last = (delete ledger_services web_claim taken).1

free : claimable "default" free_host ≡ true
unfolding claimable lookup host_class
free = refl

run : Run ledger_services clock Formed free_host.status last
run =
    deletes
      (pool (probes begin "pool" "alpha") free_host (refl, (refl, refl))
        (claims "default" web_claim free))
      web_claim

run-WellFormed_example : WellFormed last
run-WellFormed_example =
    run-WellFormed ledger_server clock "pool" refl free_host.status last last "pool" "alpha"
      (record free_host { status = last }) run (refl, (refl, refl)) refl

abbrev found : ProbeResult
found = parse_probe_output "" "SHA256:x"

reconcile-admits_example :
    Admitted ledger_services clock free_host free_host.status
      (reconcile ledger_services clock "pool" "alpha" free_host.status)
unfolding probe lookup wait_left
reconcile-admits_example =
    reconcile-admits ledger_services clock "pool" "alpha" free_host found free_host.status
      free_host.status free_host.status refl tt refl refl refl refl refl (λ t. (t, t.status, refl))
