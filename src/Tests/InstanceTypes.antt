-- ===== src/Tests/InstanceTypes.antt =====
-- The theorem on the capacity of a class at a class of two hosts.
use karpenter_provider_ssh.Common.{false, ◌≡◌, refl, none, some, [], ◌∷◌, lookup, insert}
use karpenter_provider_ssh.Common.Int.{ℤ, pos}
use karpenter_provider_ssh.Api.Host.{Host, host_class}
use karpenter_provider_ssh.InstanceTypes.{gather, usable_capacity, with_pods, min_capacity}
use karpenter_provider_ssh.InstanceTypes.Shape.{Covers, gather-lower_bound}
use karpenter_provider_ssh.Example.{free_host}

abbrev sized : ℤ → ℤ → Host
sized cpu memory = record free_host {
  spec = record free_host.spec { capacity = ("cpu", cpu) ∷ ("memory", memory) ∷ [] };
}

abbrev small : Host
small = sized (pos 2) (pos 9)

abbrev large : Host
large = sized (pos 8) (pos 4)

-- The class takes the smaller quantity of each resource.
smallest :
    lookup (host_class small) (gather none [] (small ∷ large ∷ []))
    ≡ some (record {
      name = "default";
      capacity = ("cpu", pos 2) ∷ ("memory", pos 4) ∷ ("pods", pos 110_000_000_000) ∷ [];
      arch = "";
      mixed_arch = false;
      available = 2;
      total = 2;
    })
unfolding lookup gather insert min_capacity with_pods
smallest = refl

gather-lower_bound_example : Covers none (gather none [] (small ∷ large ∷ [])) large
unfolding usable_capacity lookup
gather-lower_bound_example = gather-lower_bound none [] (small ∷ []) large [] refl
