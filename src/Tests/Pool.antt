-- ===== src/Tests/Pool.antt =====
-- The theorems on the host pool at one host.
use mathlib.Core.List.{Mem, mem-cons_self}
use karpenter_provider_ssh.Common.{
  ◌≡◌, ◌↔◌, refl, Bool, String, true, false, none, some, List, [], ◌∷◌, contains_byte, keep, lookup,
  sort_by,
}
use karpenter_provider_ssh.Exec.{ok, err}
use karpenter_provider_ssh.Api.Errors.{text, is_conflict}
use karpenter_provider_ssh.Api.Host.{Host}
use karpenter_provider_ssh.Kube.{Session, Client, write}
use karpenter_provider_ssh.Pool.{
  claim_status, list, available_hosts, claim, by_provider_id, provider_id, set_provider_id,
  set_bootstrap_token_id, release,
}
use karpenter_provider_ssh.Pool.Available.{available_hosts_lem, IsClaimable, OldestFirst}
use karpenter_provider_ssh.Pool.Claims.{claim_exclusive}
use karpenter_provider_ssh.Pool.Stale.{release-KeepsToken}
use karpenter_provider_ssh.Pool.Fence.{set_status_fenced, WroteUnder}
use karpenter_provider_ssh.Pool.Lookup.{by_provider_id-provider_id}
use karpenter_provider_ssh.Example.{free_host, busy_host, claim_ref, web_claim}
use karpenter_provider_ssh.Example.Cluster.{client, current, lock}

available_hosts_lem_example :
    (out : List Host) × (available_hosts (client free_host) "pool" none "" false ≡ (ok out, false))
    × ((h : Host) → Mem h out ↔ (Mem h (free_host ∷ []) × IsClaimable "" h))
    × OldestFirst out
unfolding list
available_hosts_lem_example =
    available_hosts_lem (client free_host) "pool" none "" false false (free_host ∷ []) refl

abbrev won : Session Bool
won = record {
  host = record free_host { status = claim_status web_claim free_host.status };
  world = true;
}

claim_exclusive_example :
    (current free_host "pool" "alpha" false ≡ some free_host)
    × IsClaimable "" free_host
    × (won.host.status ≡ claim_status web_claim free_host.status)
unfolding list available_hosts claim sort_by keep lookup
claim_exclusive_example =
    claim_exclusive (lock free_host) "pool" none "" web_claim (free_host ∷ []) (free_host ∷ [])
      free_host false false false won refl refl mem-cons_self refl

abbrev identified : Session Bool
identified = record {
  host = record busy_host {
    status = record busy_host.status { provider_id = "kpssh://pool/alpha" };
  };
  world = true;
}

set_status_fenced_example :
    WroteUnder
      (lock busy_host)
      (λ s. record s { provider_id = "kpssh://pool/alpha" })
      (some claim_ref)
      identified
unfolding set_provider_id
set_status_fenced_example =
    set_status_fenced (lock busy_host) (λ s. record s { provider_id = "kpssh://pool/alpha" })
      (some claim_ref) (record { host = busy_host; world = false }) identified refl refl refl

by_provider_id-provider_id_example :
    by_provider_id (client free_host) "pool" (provider_id free_host) false
    ≡ (client free_host).get_host "pool" "alpha" false
unfolding contains_byte
by_provider_id-provider_id_example =
    by_provider_id-provider_id (client free_host) "pool" free_host false refl

-- A server that takes no patch.
abbrev deaf : Client Bool
deaf = record (client busy_host) {
  patch_host_status = λ h orig w. (err (text "connection refused"), w);
}

abbrev joining : String → Host
joining token = record busy_host { status = record busy_host.status { bootstrap_token_id = token } }

release-KeepsToken_example :
    (new : Host) × (release deaf false "join failed" (record { host = joining ""; world = false })
      ≡ write (deaf.patch_host_status new (joining "")) (record { host = new; world = false }))
    × ((joining "").status.bootstrap_token_id ≡ "")
    × (new.status.bootstrap_token_id ≡ "")
unfolding set_bootstrap_token_id is_conflict
release-KeepsToken_example =
    release-KeepsToken deaf (record { host = joining "abcdef"; world = false })
      (record { host = joining ""; world = false }) (text "connection refused") false "join failed"
      refl refl
