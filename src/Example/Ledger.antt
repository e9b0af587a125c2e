-- ===== src/Example/Ledger.antt =====
-- A server that stores the status of one host, and accepts every write of it.
use karpenter_provider_ssh.Common.{◌≡◌, subst, ap, sym, none, [], ◌∷◌, All, arith, false}
use karpenter_provider_ssh.Exec.{ok}
use karpenter_provider_ssh.Api.Host.{Host, HostStatus}
use karpenter_provider_ssh.Kube.{Client}
use karpenter_provider_ssh.Pool.Interface.{default_provider}
use karpenter_provider_ssh.Instance.{Deps}
use karpenter_provider_ssh.Example.{free_host, web_claim, web_class, kubeadm, alpha_node}
use karpenter_provider_ssh.Example.Services.{services_with}
use karpenter_provider_ssh.HostStates.{WellFormed}
use karpenter_provider_ssh.HostStates.Server.{Server}

abbrev as_stored : HostStatus → Host
as_stored s = record free_host { status = s }

abbrev pub ledger : Client HostStatus
ledger = record {
  get_host = λ ns name w. (ok (as_stored w), w);
  list_hosts = λ ns selector w. (ok (as_stored w ∷ []), w);
  update_host_status = λ h w. (ok h, h.status);
  patch_host_status = λ h orig w. (ok h, h.status);
  get_profile = λ name w. (ok kubeadm, w);
  get_node_class = λ name w. (ok web_class, w);
  get_node_claim = λ name w. (ok web_claim, w);
  nodes_by_ip = λ ip w. (ok (alpha_node ∷ []), w);
  delete_node = λ n w. (ok tt, w);
  get_secret = λ ns name w. (ok (("privateKey", "key") ∷ []), w);
  selector_error = λ selector. none;
  set_status_condition = λ cs c. c ∷ [];
  status_equal = λ a b. false;
  conflict_retries = 3;
}

abbrev pub ledger_services : Deps HostStatus
ledger_services = record (services_with ledger free_host) { pool = default_provider ledger "pool" }

-- A host with a well-formed status.
abbrev pub Formed : Host → Type 0
Formed h = WellFormed h.status

pub ledger_server : Server ledger_services Formed WellFormed
ledger_server = record {
  known-WellFormed = λ h k. k;
  get_known = λ ns name w v h i q. subst Formed {x = as_stored w} {y = h} (ground arith) i;
  list_known = λ ns selector w v hosts i q.
      subst (All Formed) {x = as_stored w ∷ []} {y = hosts} (ground arith) (i, tt);
  patch-Inv = λ h orig w known step i. step.2;
  patch_known = λ h orig h' w v known step q.
      let same : h ≡ h' = ground arith in (subst Formed same step.2, ap (λ x. x.status) (sym same));
  update-Inv = λ orig status w known step i. step.2;
  get_no_conflict = λ ns name w v e q. absurd (ground arith);
  get-Inv = λ ns name w i. i;
  list-Inv = λ ns selector w i. i;
  profile-Inv = λ name w i. i;
  claim-Inv = λ name w i. i;
  nodes-Inv = λ ip w i. i;
  delete-Inv = λ n w i. i;
  secret-Inv = λ ns name w i. i;
  token-Inv = λ id w i. i;
  run-Inv = λ limit t script env w i. i;
  shim-Inv = λ limit t e w i. i;
}
