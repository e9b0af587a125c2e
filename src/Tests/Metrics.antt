-- ===== src/Tests/Metrics.antt =====
-- The theorem on the gauges at a pool of one host.
use karpenter_provider_ssh.Common.{◌≡◌, refl, false, [], ◌∷◌, length}
use karpenter_provider_ssh.Metrics.{Key, collect}
use karpenter_provider_ssh.Metrics.Tally.{value, total, hosts_of, collect-counts}
use karpenter_provider_ssh.Example.{free_host}
use karpenter_provider_ssh.Example.Cluster.{client}

collect-counts_example :
    ((k : Key) → value k (collect (client free_host) "pool" false).0 ≡ hosts_of k (free_host ∷ []))
    × (total (collect (client free_host) "pool" false).0 ≡ length (free_host ∷ []))
collect-counts_example = collect-counts (client free_host) "pool" false false (free_host ∷ []) refl
