-- ===== src/Tests/Instance.antt =====
-- The theorems on the instance provider at one host and its services.
use mathlib.Core.List.{Perm}
use karpenter_provider_ssh.Common.{
  String, ◌≡◌, refl, ◌⊎◌, Bool, true, false, List, [], ◌∷◌, arith, lookup, sort_by,
}
use karpenter_provider_ssh.Common.Int.{pos}
use karpenter_provider_ssh.Exec.{ok, err}
use karpenter_provider_ssh.Api.Errors.{Error, text, config}
use karpenter_provider_ssh.Kube.{Session, Client}
use karpenter_provider_ssh.Profile.{empty_context, environment, installed_marker, script}
use karpenter_provider_ssh.Profile.Render.{render}
use karpenter_provider_ssh.Pool.{claim_held_by}
use karpenter_provider_ssh.Instance.{InstanceType, node_claim_not_found}
use karpenter_provider_ssh.Instance.Phases.{
  run_verified_phase, signed_envelope, ssh_target, discard,
}
use karpenter_provider_ssh.Instance.Phases.Verified.{run_verified_phase-fails_closed, IsSigned}
use karpenter_provider_ssh.Instance.Join.{Prepared, join}
use karpenter_provider_ssh.Instance.Create.{
  sort_by_price, claim_cheapest, launch, adopt_polling, adopted_id,
}
use karpenter_provider_ssh.Instance.Lifecycle.{delete, reboot, to_instance}
use karpenter_provider_ssh.Instance.Create.Order.{sort_by_price_lem, ByPrice}
use karpenter_provider_ssh.Instance.Create.Claiming.{claim_cheapest_lem, CheapestOutcome}
use karpenter_provider_ssh.Instance.Lifecycle.Delete.{delete-fenced, delete-Released, Released}
use karpenter_provider_ssh.Instance.Create.Adopt.{
  adopt_polling-SawNode, adopt_polling-finds, SawNode, missed_none,
}
use karpenter_provider_ssh.Instance.Create.Failed.{launch-FailsAs, FailsAs}
use karpenter_provider_ssh.Instance.Create.Launch.{launch-Launched, Launched}
use karpenter_provider_ssh.Example.{
  free_host, busy_host, signed_host, web_claim, other_claim, web_class, kubeadm,
}
use karpenter_provider_ssh.Example.Cluster.{client}
use karpenter_provider_ssh.Example.Services.{services, services_with}

abbrev creds : String × String
creds = ("key", "")

run_verified_phase-fails_closed_example :
    ((e : Error) × (run_verified_phase
          (services signed_host)
          (pos 0)
          (ssh_target signed_host (record { private_key = "key"; pinned_host_key = "" }))
          signed_host
          kubeadm
          "join"
          []
          false
        ≡ (err (config e), false)))
    ⊎ (IsSigned (services signed_host).crypto signed_host kubeadm "join"
        × (run_verified_phase
              (services signed_host)
              (pos 0)
              (ssh_target signed_host (record { private_key = "key"; pinned_host_key = "" }))
              signed_host
              kubeadm
              "join"
              []
              false
            ≡ discard
                (services signed_host)
                ((services signed_host).runners.run_shim
                  (pos 0)
                  (record (ssh_target signed_host
                    (record { private_key = "key"; pinned_host_key = "" })) {
                      shim_command = signed_host.spec.shim_command;
                    })
                  (signed_envelope (services signed_host) kubeadm "join" []))
                false))
run_verified_phase-fails_closed_example =
    run_verified_phase-fails_closed (services signed_host) signed_host kubeadm "join" (pos 0)
      (ssh_target signed_host (record { private_key = "key"; pinned_host_key = "" })) [] false

delete-fenced_example :
    ((e : Error) × (delete (services busy_host) other_claim false
        ≡ (err (node_claim_not_found e), false)))
    × ((e : Error) × (reboot (services busy_host) other_claim false
          ≡ (err (node_claim_not_found e), false)))
unfolding claim_held_by
delete-fenced_example =
    delete-fenced (services busy_host) other_claim false false busy_host refl refl

delete-Released_example : Released (services busy_host) web_claim false false
unfolding delete claim_held_by
delete-Released_example = delete-Released (services busy_host) web_claim false false refl

-- Two types, the dearer one first.
abbrev types : List InstanceType
types =
    record {
      name = "large";
      requirements = [];
      offerings = record { price = 5; available = true; requirements = [] } ∷ [];
      capacity = [];
      kube_reserved = [];
    }
    ∷ record {
      name = "small";
      requirements = [];
      offerings = record { price = 2; available = true; requirements = [] } ∷ [];
      capacity = [];
      kube_reserved = [];
    }
    ∷ []

sort_by_price_lem_example : Perm (sort_by_price types) types × ByPrice (sort_by_price types)
sort_by_price_lem_example = sort_by_price_lem types

claim_cheapest_lem_example :
    CheapestOutcome
      (services free_host)
      web_class
      web_claim
      types
      false
      (claim_cheapest (services free_host) web_class web_claim types false)
claim_cheapest_lem_example = claim_cheapest_lem (services free_host) web_class web_claim types false

adopt_polling-SawNode_example : SawNode (services free_host) free_host "aws:///i-1" false
unfolding adopt_polling
adopt_polling-SawNode_example =
    adopt_polling-SawNode (services free_host) free_host 0 false false "aws:///i-1" refl

adopt_polling-finds_example :
    adopt_polling (services free_host) 3 free_host false ≡ (ok "aws:///i-1", false)
unfolding adopted_id
adopt_polling-finds_example =
    adopt_polling-finds (services free_host) free_host 3 0 false false "aws:///i-1" missed_none
      (omega arith) refl

-- An API server without the profile.
abbrev unreadable : Client Bool
unreadable = record (client free_host) { get_profile = λ name w. (err (text "no such profile"), w) }

abbrev idle : Session Bool
idle = record { host = free_host; world = false }

launch-FailsAs_example :
    FailsAs
      (services_with unreadable free_host)
      web_class
      web_claim
      idle
      (launch (services_with unreadable free_host) web_class web_claim idle)
launch-FailsAs_example =
    launch-FailsAs (services_with unreadable free_host) web_class web_claim idle

launch-Launched_example :
    Launched (services free_host) web_class web_claim idle (to_instance free_host "web-1") idle
unfolding launch join lookup environment sort_by installed_marker render script
launch-Launched_example =
    launch-Launched (services free_host) web_class web_claim idle idle
      (to_instance free_host "web-1") refl

abbrev prepared : Prepared
prepared = record {
  prof = kubeadm;
  target = ssh_target free_host (record { private_key = "key"; pinned_host_key = "" });
  context = empty_context;
  env = [];
}
