-- ===== src/Example/Cluster.antt =====
-- A server that stores one host until its first write, and forgets it then.
use std.HLevel.{hedberg}
use native.Mathlib.Nat.{ℕ_set}
use mathlib.Core.Bool.{false≢true}
use karpenter_provider_ssh.Common.{
  String, ◌≡◌, refl, sym, subst, All, ◌∙◌, inl, inr, Bool-cases, Bool, true, false, ◌&&◌, Option,
  none, some, List, [], ◌∷◌, ◌==◌, eq_iff, arith, if◌then◌else◌,
}
use karpenter_provider_ssh.Exec.{Result, ok, err}
use karpenter_provider_ssh.Api.Errors.{Error, api, conflict, not_found, is_conflict}
use karpenter_provider_ssh.Api.Host.{Host}
use karpenter_provider_ssh.Kube.{Client}
use karpenter_provider_ssh.Kube.Lock.{OptimisticLock}
use karpenter_provider_ssh.Example.{web_claim, web_class, kubeadm, alpha_node}

String-discrete : Discrete String
String-discrete a b = elim (Bool-cases (a == b)) [
  | inl same ↦ yes ((eq_iff a b).0 same)
  | inr other ↦ no (λ e. false≢true (sym other ∙ (eq_iff a b).1 e))
]

String-IsSet : IsSet String
String-IsSet = hedberg String-discrete

Host-IsSet : IsSet Host
Host-IsSet = hlevel (String-IsSet, ℕ_set)

-- `false` is the world before the first write.
abbrev pub current : Host → String → String → Bool → Option Host
current h ns name true = none
current h ns name false = if h.meta.namespace == ns && h.meta.name == name then some h else none

abbrev read : String → Option Host → Result Error Host
read name (some h) = ok h
read name none = err (api not_found name)

abbrev accept : Host → Host → Option Host → Bool → Result Error Host × Bool
accept new orig none w = (err (api not_found new.meta.name), w)
accept new orig (some cur) w =
    if cur.meta.resource_version == orig.meta.resource_version
    then (ok new, true)
    else (err (api conflict new.meta.name), w)

module _ (stored : Host) where
  -- A host that is read and listed as it is stored, and written under its resourceVersion.
  abbrev pub client : Client Bool
  client = record {
    get_host = λ ns name w. (read name (current stored ns name w), w);
    list_hosts = λ ns selector w. (ok (elim w [ true ↦ [] | false ↦ stored ∷ [] ]), w);
    update_host_status = λ h w. accept h h (current stored h.meta.namespace h.meta.name w) w;
    patch_host_status = λ h orig w. accept h orig (current stored h.meta.namespace h.meta.name w) w;
    get_profile = λ name w. (ok kubeadm, w);
    get_node_class = λ name w. (ok web_class, w);
    get_node_claim = λ name w. (ok web_claim, w);
    nodes_by_ip = λ ip w. (ok (alpha_node ∷ []), w);
    delete_node = λ n w. (ok tt, w);
    get_secret = λ ns name w. (ok (("privateKey", "key") ∷ []), w);
    selector_error = λ selector. none;
    set_status_condition = λ cs c. c ∷ [];
    status_equal = λ a b. false;
    conflict_retries = 3;
  }

  current-stored :
      (ns name : String) (w : Bool) (h : Host)
      → current stored ns name w ≡ some h
      → (h ≡ stored) × (h.meta.namespace ≡ ns) × (h.meta.name ≡ name)
  current-stored ns name true h e = cc
  current-stored ns name false h e =
      ground (arith, eq_iff stored.meta.namespace ns, eq_iff stored.meta.name name)

  read-stored :
      (ns name : String) (w w' : Bool) (h : Host)
      → (client.get_host ns name w ≡ (ok h, w'))
      → (h ≡ stored) × (h.meta.namespace ≡ ns) × (h.meta.name ≡ name)
  read-stored ns name w w' h e = found (current stored ns name w) refl
    where
      found :
          (o : Option Host)
          → current stored ns name w ≡ o
          → (h ≡ stored) × (h.meta.namespace ≡ ns) × (h.meta.name ≡ name)
      found none q = absurd (ground arith)
      found (some g) q = current-stored ns name w h (ground arith)

  accepted :
      (new orig h' : Host) (w w' : Bool)
      → accept new orig (current stored new.meta.namespace new.meta.name w) w ≡ (ok h', w')
      → (cur : Host) × (current stored new.meta.namespace new.meta.name w ≡ some cur)
        × (cur.meta.resource_version ≡ orig.meta.resource_version)
        × (h'.status ≡ new.status)
  accepted new orig h' w w' e = found (current stored new.meta.namespace new.meta.name w) refl e
    where
      found :
          (o : Option Host)
          → current stored new.meta.namespace new.meta.name w ≡ o
          → accept new orig o w ≡ (ok h', w')
          → (cur : Host) × (current stored new.meta.namespace new.meta.name w ≡ some cur)
            × (cur.meta.resource_version ≡ orig.meta.resource_version)
            × (h'.status ≡ new.status)
      found none q p = absurd (ground arith)
      found (some cur) q p = (
        cur,
        q,
        ground (arith, eq_iff cur.meta.resource_version orig.meta.resource_version),
        ground arith,
      )

  listed :
      (w w' : Bool) (ns : String) (hosts : List Host)
      → (client.list_hosts ns none w ≡ (ok hosts, w'))
      → All (λ h. h ≡ stored) hosts
  listed true w' ns hosts e = subst (All (λ h. h ≡ stored)) {x = []} (ground arith) tt
  listed false w' ns hosts e =
      subst (All (λ h. h ≡ stored)) {x = stored ∷ []} (ground arith) (refl, tt)

  no_conflict :
      (ns name : String) (w w' : Bool) (e : Error)
      → (client.get_host ns name w ≡ (err e, w'))
      → is_conflict e ≡ false
  unfolding is_conflict
  no_conflict ns name w w' e h = found (current stored ns name w) refl
    where
      found : (o : Option Host) → current stored ns name w ≡ o → is_conflict e ≡ false
      found none q = ground arith
      found (some g) q = absurd (ground arith)

  pub lock : OptimisticLock client (λ h. h ≡ stored) (current stored)
  lock = record {
    Seen-prop = λ h. Host-IsSet h stored;
    list_seen = λ ns selector w w' hosts e. listed w w' ns hosts e;
    get_seen = λ ns name w w' h e. read-stored ns name w w' h e;
    current_seen = λ ns name w h e. current-stored ns name w h e;
    version_unique = λ a b seen_a seen_b key version. seen_a ∙ sym seen_b;
    update_current = λ h h' w w' e. accepted h h h' w w' e;
    patch_current = λ h orig h' w w' seen e. accepted h orig h' w w' e;
    get_no_conflict = λ ns name w w' e h. no_conflict ns name w w' e h;
  }
