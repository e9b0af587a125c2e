-- ===== src/Instance/Create.antt =====
-- `Create` of pkg/providers/instance/instance.go: a host is claimed, joined and identified.
pub mod Order
pub mod Claiming
pub mod Adopt
pub mod Launch
pub mod Failed
use Prim.Native.String.{◌++◌}
use karpenter_provider_ssh.Common.{
  ℕ, zero, suc, String, Bool, true, false, not, ◌&&◌, ◌||◌, Option, none, some, List, [], ◌∷◌,
  sort_by, leb, ltb, map, ◌==◌, if◌then◌else◌,
}
use karpenter_provider_ssh.Common.Int.{ℤ, pos}
use karpenter_provider_ssh.Exec.{
  Result, ok, err, Exec, pure, raise, lift, attempt, map_error, map_error_result, ◌>>=◌, ◌>>◌,
}
use karpenter_provider_ssh.Api.Errors.{Error, text, wrapped, message, is_config_error, is_not_found}
use karpenter_provider_ssh.Api.Meta.{Node}
use karpenter_provider_ssh.Api.Host.{Host, ClaimReference, host_class, node_ip, is_verified}
use karpenter_provider_ssh.Api.NodeClass.{NodeClass, is_adopt}
use karpenter_provider_ssh.Api.NodeClaim.{NodeClaim}
use karpenter_provider_ssh.Kube.{Session, HostExec, call, the_host}
use karpenter_provider_ssh.Pool.{provider_id, claim_held_by}
use karpenter_provider_ssh.Profile.{phase_reboot}
use karpenter_provider_ssh.Sshexec.Envelope.{is_unknown_phase}
use karpenter_provider_ssh.Instance.{
  Deps, Instance, InstanceType, Offering, CloudError, plain, insufficient_capacity, create_failed,
  node_claim_not_found, node_reboot_failed,
}
use karpenter_provider_ssh.Instance.Phases.{run_installed_phase, leave_host, host_reboot_timeout}
use karpenter_provider_ssh.Instance.Join.{join, release_failed, delete_bootstrap_token}
use karpenter_provider_ssh.Instance.Lifecycle.{to_instance, on_host}

abbrev pub lower : Option ℕ → ℕ → ℕ
lower none p = p
lower (some q) p = if ltb p q then p else q

-- `cheapest`: no price stands for the greatest one, which no offering has.
unfoldable pub lowest_price : Option ℕ → List Offering → Option ℕ
lowest_price lowest [] = lowest
lowest_price lowest (o ∷ os) = lowest_price (some (lower lowest o.price)) os

unfoldable pub cheapest : InstanceType → Option ℕ
unfolding lowest_price
cheapest it = lowest_price none it.offerings

abbrev pub price_le : Option ℕ → Option ℕ → Bool
price_le a none = true
price_le none (some q) = false
price_le (some p) (some q) = leb p q

unfoldable pub cheaper : InstanceType → InstanceType → Bool
unfolding cheapest
cheaper a b = price_le (cheapest a) (cheapest b)

-- `sortByPrice`
unfoldable pub sort_by_price : List InstanceType → List InstanceType
unfolding cheaper
sort_by_price its = sort_by cheaper its

-- The first node with a providerID.
unfoldable pub adopted_id : List Node → Option String
adopted_id [] = none
adopted_id (n ∷ ns) =
    let rest = adopted_id ns in if n.provider_id == "" then rest else some n.provider_id

abbrev poll_timeout : Host → Error
poll_timeout h =
    wrapped ("no node with InternalIP " ++ (node_ip h.spec ++ " appeared within 4m0s: "))
      (text "context deadline exceeded")

module _ {W : Type 0} (deps : Deps W) where
  abbrev polled : Result Error (List Node) → Option String
  polled (err e) = none
  polled (ok nodes) = adopted_id nodes

  -- `adoptProviderID`, by the number of polls that may follow the first one. A failed list is a poll
  -- without a node.
  unfoldable pub adopt_polling : ℕ → Host → Exec W Error String
  unfolding adopted_id
  adopt_polling zero h w =
      let (r, t) = deps.client.nodes_by_ip (node_ip h.spec) w in
      elim (polled r) [ some id ↦ (ok id, t) | none ↦ (err (poll_timeout h), t) ]
  adopt_polling (suc n) h w =
      let (r, t) = deps.client.nodes_by_ip (node_ip h.spec) w in
      let rest = adopt_polling n h t in elim (polled r) [ some id ↦ (ok id, t) | none ↦ rest ]

  unfoldable pub adopt_provider_id : Host → Exec W Error String
  unfolding adopt_polling
  adopt_provider_id h = adopt_polling deps.adopt_polls h

  -- The claim of a candidate, with the host as the claim leaves it.
  unfoldable pub claim_candidate : NodeClaim → Host → Exec W Error (Bool × Host)
  claim_candidate nc h w =
      let (r, s) = deps.pool.claim nc (record { host = h; world = w }) in
      (elim r [ ok b ↦ ok (b, s.host) | err e ↦ err e ], s.world)

  -- The inner loop of `Create`.
  unfoldable pub claim_first : NodeClaim → List Host → Exec W Error (Option Host)
  unfolding claim_candidate
  claim_first nc [] = pure none
  claim_first nc (h ∷ hs) =
      let rest = claim_first nc hs in
      do (won, claimed) ← claim_candidate nc h; if won then pure (some claimed) else rest

  -- The outer loop of `Create`.
  unfoldable pub claim_cheapest :
      NodeClass → NodeClaim → List InstanceType → Exec W Error (Option Host)
  unfolding claim_first
  claim_cheapest class nc [] = pure none
  claim_cheapest class nc (it ∷ its) =
      let rest = claim_cheapest class nc its in
      do
        candidates ← deps.pool.available class.spec.host_selector it.name
        h ← claim_first nc candidates
        elim h [ some c ↦ pure (some c) | none ↦ rest ]

  abbrev or_claim :
      NodeClass → NodeClaim → List InstanceType → Option Host → Exec W Error (Option Host)
  or_claim class nc its (some h) = pure (some h)
  or_claim class nc its none = claim_cheapest class nc (sort_by_price its)

  -- The outcome of an action as a value, where the errors of the caller are those of karpenter.
  abbrev try : {A : Type 0} → HostExec W A → Exec (Session W) CloudError (Result Error A)
  try m s = let (r, t) = m s in (ok r, t)

  abbrev here : Exec (Session W) CloudError Host
  here s = (ok s.host, s)

  -- Releases the host of a failed launch, and fails.
  abbrev give_up : {A : Type 0} → Bool → String → CloudError → Exec (Session W) CloudError A
  give_up healthy reason e = do try (release_failed deps healthy reason); raise e

  -- What `Create` makes of the outcome of `join`.
  unfoldable pub after_join : Result Error (Unit {0}) → Exec (Session W) CloudError (Unit {0})
  unfolding release_failed
  after_join (ok a) = pure tt
  after_join (err e) = do
    h ← here
    give_up (is_config_error e) ("join failed: " ++ message e) (
        create_failed (wrapped ("joining host " ++ (h.meta.name ++ ": ")) e) "JoinFailed"
          "joining host over SSH failed")

  abbrev adopted_or : Result Error String → Exec (Session W) CloudError String
  adopted_or (ok id) = pure id
  adopted_or (err e) =
      give_up false ("providerID adoption failed: " ++ message e)
        (create_failed e "AdoptFailed" "node did not appear for providerID adoption")

  abbrev adopted : Host → Exec (Session W) CloudError String
  adopted h = do r ← try (call (adopt_provider_id h)); adopted_or r

  -- The providerID that `Create` records.
  unfoldable pub node_identity : NodeClass → Exec (Session W) CloudError String
  unfolding adopt_provider_id release_failed
  node_identity class = do
    h ← here
    if is_adopt class.spec.provider_id_source then adopted h else pure (provider_id h)

  -- `Create` from the claimed host on.
  unfoldable pub launch : NodeClass → NodeClaim → Exec (Session W) CloudError Instance
  unfolding after_join node_identity to_instance
  launch class nc = do
    joined ← try (join deps class nc)
    after_join joined
    id ← node_identity class
    map_error plain (deps.pool.set_provider_id id)
    try deps.pool.mark_in_use
    h ← here
    pure (to_instance h nc.meta.name)

  abbrev launch_on : NodeClass → NodeClaim → Option Host → Exec W CloudError Instance
  launch_on class nc (some h) = on_host h (launch class nc)
  launch_on class nc none =
      raise (insufficient_capacity (text ("no Available SSHHost for NodeClaim " ++ nc.meta.name)))

  -- `Create`
  unfoldable pub create : NodeClass → NodeClaim → List InstanceType → Exec W CloudError Instance
  unfolding claim_cheapest launch
  create class nc its = do
    resumed ← map_error plain (deps.pool.by_claim nc)
    h ← map_error plain (or_claim class nc its resumed)
    launch_on class nc h
