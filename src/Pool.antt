-- ===== src/Pool.antt =====
-- pkg/providers/host/host.go: the host pool.
pub mod Available
pub mod Interface
pub mod Lookup
pub mod Fence
pub mod Claims
pub mod Stale
use Prim.Native.String.{◌++◌}
use Prim.Native.Nat.{compare, Ordering}
use karpenter_provider_ssh.Common.{
  ℕ, zero, suc, String, Bool, true, false, not, ◌&&◌, ◌||◌, Option, none, some, List, [], ◌∷◌, keep,
  first, lookup, cut, cut_prefix, sort_by, text_le, ◌==◌, if◌then◌else◌,
}
use karpenter_provider_ssh.Exec.{Result, ok, err, Exec, pure, raise, attempt, ◌>>=◌, ◌>>◌}
use karpenter_provider_ssh.Api.Errors.{Error, text, wrapped, api, not_found, is_conflict}
use karpenter_provider_ssh.Api.Meta.{LabelSelector}
use karpenter_provider_ssh.Api.Host.{
  Host, HostStatus, HostState, available, claimed, in_use, unhealthy, ClaimReference, host_class,
  maintenance_annotation, provider_prefix,
}
use karpenter_provider_ssh.Api.NodeClaim.{NodeClaim}
use karpenter_provider_ssh.Kube.{
  Client, Session, HostExec, call, the_host, replace_host, modify_status, write,
}

-- `ClaimHeldBy`. The UIDs are compared only when both sides have one.
unfoldable pub claim_held_by : Host → NodeClaim → Bool
claim_held_by h nc = elim h.status.claim_ref [
  | none ↦ false
  | some ref ↦
      if not (ref.name == nc.meta.name)
      then false
      else if not (ref.uid == "") && not (nc.meta.uid == "") && not (ref.uid == nc.meta.uid)
      then false
      else true
]

unfoldable pub same_claim : Option ClaimReference → Option ClaimReference → Bool
same_claim none none = true
same_claim none (some b) = false
same_claim (some a) none = false
same_claim (some a) (some b) = a.name == b.name && a.uid == b.uid

-- `ProviderID`
unfoldable pub provider_id : Host → String
provider_id h = provider_prefix ++ (h.meta.namespace ++ ("/" ++ h.meta.name))

abbrev pub is_some {ℓ} : {A : Type ℓ} → Option A → Bool
is_some none = false
is_some (some a) = true

abbrev pub is_available : HostState → Bool
is_available available = true
is_available _ = false

-- The tests of the loop of `Available`, each of which passes a host over.
unfoldable pub claimable : String → Host → Bool
claimable class h =
    if not (is_available h.status.state) || is_some h.status.claim_ref
    then false
    else if is_some (lookup maintenance_annotation h.meta.annotations)
    then false
    else if not (class == "") && not (host_class h == class)
    then false
    else true

-- The order of `Available`: the age, then the name.
unfoldable pub older : Host → Host → Bool
older a b = elim (compare a.meta.creation_timestamp b.meta.creation_timestamp) [
  | Ordering.lt ↦ true
  | Ordering.gt ↦ false
  | Ordering.eq ↦ text_le a.meta.name b.meta.name
]

abbrev pub claim_reference : NodeClaim → ClaimReference
claim_reference nc = record { name = nc.meta.name; uid = nc.meta.uid }

-- What each method writes into the status.
unfoldable pub claim_status : NodeClaim → HostStatus → HostStatus
claim_status nc s = record s { state = claimed; claim_ref = some (claim_reference nc) }

unfoldable pub release_status : Bool → String → HostStatus → HostStatus
release_status true reason s = record s {
  claim_ref = none;
  provider_id = "";
  bootstrap_token_id = "";
  state = available;
}
release_status false reason s = record s {
  claim_ref = none;
  provider_id = "";
  bootstrap_token_id = "";
  state = unhealthy;
  last_probe_error = reason;
}

-- `%v` of a `*ClaimReference`
unfoldable pub show_claim : Option ClaimReference → String
show_claim none = "<nil>"
show_claim (some c) = "&{" ++ (c.name ++ (" " ++ (c.uid ++ "}")))

module _ {W : Type 0} where
  abbrev pub retry_step :
      Result Error (Unit {0})
      → Session W
      → Result Error (Unit {0}) × Session W
      → Result Error (Unit {0}) × Session W
  retry_step (ok a) t rest = (ok a, t)
  retry_step (err e) t rest = if is_conflict e then rest else (err e, t)

  -- `retry.RetryOnConflict`, by the number of calls that may follow the first one.
  unfoldable pub retry_on_conflict : ℕ → HostExec W (Unit {0}) → HostExec W (Unit {0})
  retry_on_conflict zero f s = f s
  retry_on_conflict (suc n) f s =
      let (r, t) = f s in let rest = retry_on_conflict n f t in retry_step r t rest

module _ {W : Type 0} (c : Client W) where
  -- `casPatch`: the patch carries the resourceVersion of `orig`.
  unfoldable pub cas_patch : Host → HostExec W (Unit {0})
  cas_patch orig = do h ← the_host; write (c.patch_host_status h orig)

  abbrev pub claim_changed : Host → Host → Error
  claim_changed host fresh = text (
      "host "
      ++ (host.meta.name
          ++ (" claim changed while writing status (now "
              ++ (show_claim fresh.status.claim_ref ++ ")"))))

  -- After a lost race: the fresh read takes the host's place if the claim still holds.
  unfoldable pub refetch : Option ClaimReference → Error → HostExec W (Unit {0})
  refetch expect e = do
    host ← the_host
    fresh ← call (c.get_host host.meta.namespace host.meta.name)
    if not (same_claim expect fresh.status.claim_ref)
        then raise (claim_changed host fresh)
        else do replace_host fresh; raise e

  -- What the closure of `setStatus` does with the outcome of its patch.
  unfoldable pub after_patch :
      Option ClaimReference → Result Error (Unit {0}) → HostExec W (Unit {0})
  unfolding refetch
  after_patch expect (ok a) = pure a
  after_patch expect (err e) = if not (is_conflict e) then raise e else refetch expect e

  unfoldable pub set_status_once :
      Option ClaimReference → (HostStatus → HostStatus) → HostExec W (Unit {0})
  unfolding cas_patch after_patch
  set_status_once expect mutate = do
    orig ← the_host
    modify_status mutate
    r ← attempt (cas_patch orig)
    after_patch expect r

  -- `setStatus`
  unfoldable pub set_status : (HostStatus → HostStatus) → HostExec W (Unit {0})
  unfolding set_status_once retry_on_conflict
  set_status mutate = do
    host ← the_host
    retry_on_conflict c.conflict_retries (set_status_once host.status.claim_ref mutate)

  -- What `Claim` makes of the outcome of its update: a conflict is a lost race.
  abbrev pub claim_outcome : Result Error (Unit {0}) → HostExec W Bool
  claim_outcome (ok a) = pure true
  claim_outcome (err e) = if is_conflict e then pure false else raise e

  -- `Claim`
  unfoldable pub claim : NodeClaim → HostExec W Bool
  unfolding claim_status
  claim nc = do
    modify_status (claim_status nc)
    host ← the_host
    r ← attempt (write (c.update_host_status host))
    claim_outcome r

  -- `Release`
  unfoldable pub release : Bool → String → HostExec W (Unit {0})
  unfolding cas_patch release_status
  release healthy reason = do
    orig ← the_host
    modify_status (release_status healthy reason)
    cas_patch orig

  unfoldable pub mark_in_use : HostExec W (Unit {0})
  unfolding set_status
  mark_in_use = set_status (λ s. record s { state = in_use })

  unfoldable pub set_installed : String → HostExec W (Unit {0})
  unfolding set_status
  set_installed marker = set_status (λ s. record s { installed_profile = marker })

  unfoldable pub set_provider_id : String → HostExec W (Unit {0})
  unfolding set_status
  set_provider_id id = set_status (λ s. record s { provider_id = id })

  unfoldable pub set_bootstrap_token_id : String → HostExec W (Unit {0})
  unfolding set_status
  set_bootstrap_token_id id = set_status (λ s. record s { bootstrap_token_id = id })

module _ {W : Type 0} (c : Client W) (namespace : String) where
  unfoldable pub list_selected : LabelSelector → Option Error → Exec W Error (List Host)
  list_selected selector (some e) = raise (wrapped "invalid host selector: " e)
  list_selected selector none = c.list_hosts namespace (some selector)

  -- `list`, which is also `All`
  unfoldable pub list : Option LabelSelector → Exec W Error (List Host)
  unfolding list_selected
  list none = c.list_hosts namespace none
  list (some selector) = list_selected selector (c.selector_error selector)

  -- `Available`
  unfoldable pub available_hosts : Option LabelSelector → String → Exec W Error (List Host)
  unfolding claimable older
  available_hosts selector class = do
    hosts ← list selector
    pure (sort_by older (keep (claimable class) hosts))

  abbrev pub found : String → Option Host → Exec W Error Host
  found id none = raise (api not_found id)
  found id (some h) = pure h

  -- The lookup of an id behind the `kpssh://` prefix.
  abbrev pub by_path : String → Option (String × String) → Exec W Error Host
  by_path id none = raise (text ("malformed providerID " ++ id))
  by_path id (some (ns, name)) = c.get_host ns name

  -- The lookup of an id that a host has adopted.
  unfoldable pub by_adopted_id : String → Exec W Error Host
  by_adopted_id id = do hosts ← list none; found id (first (λ h. h.status.provider_id == id) hosts)

  abbrev pub by_prefixed : String → Option String → Exec W Error Host
  by_prefixed id (some rest) = by_path id (cut b'/' rest)
  by_prefixed id none = by_adopted_id id

  -- `ByProviderID`
  unfoldable pub by_provider_id : String → Exec W Error Host
  unfolding by_adopted_id
  by_provider_id id =
      if id == ""
      then raise (api not_found "<empty providerID>")
      else by_prefixed id (cut_prefix provider_prefix id)

  -- `ByClaim`
  unfoldable pub by_claim : NodeClaim → Exec W Error (Option Host)
  by_claim nc = do hosts ← list none; pure (first (λ h. claim_held_by h nc) hosts)

  -- `Claimed`
  unfoldable pub claimed_hosts : Exec W Error (List Host)
  claimed_hosts = do hosts ← list none; pure (keep (λ h. is_some h.status.claim_ref) hosts)
