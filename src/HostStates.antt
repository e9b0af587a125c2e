-- ===== src/HostStates.antt =====
-- The life of a host: the state machine of docs/architecture.md over the states of
-- pkg/apis/v1beta1/sshhost_types.go, and what a status has to satisfy in each state.
pub mod Server
pub mod Calm
pub mod Write
pub mod Probed
pub mod Claimed
pub mod Reconcile
pub mod Owners
pub mod Setters
pub mod Deletes
pub mod Runs
use karpenter_provider_ssh.Common.{String, ◌≡◌, Bool, true, false, Option, none, some}
use karpenter_provider_ssh.Api.Host.{
  HostStatus, HostState, unset, pending, available, claimed, in_use, unhealthy, leaving,
  maintenance, ClaimReference,
}
use karpenter_provider_ssh.Pool.{is_some}
use karpenter_provider_ssh.Probe.{is_maintenance}

-- The states in which a NodeClaim owns the host.
abbrev pub owned : HostState → Bool
owned claimed = true
owned in_use = true
owned _ = false

-- The edges of the state machine. A host whose maintenance ends is probed at once, so it may be
-- stored as probed without having been stored as pending.
pub data Edge : HostState → HostState → Type 0 where
  stay : {a : HostState} → Edge a a
  park : {a : HostState} → owned a ≡ false → Edge a maintenance
  resume : Edge maintenance pending
  admit : {a : HostState} → owned a ≡ false → Edge a available
  fail : {a : HostState} → owned a ≡ false → Edge a unhealthy
  fence : {a : HostState} → owned a ≡ false → is_maintenance a ≡ false → Edge a leaving
  claim : Edge available claimed
  register : Edge claimed in_use
  vacate : {a : HostState} → owned a ≡ true → Edge a available
  condemn : {a : HostState} → owned a ≡ true → Edge a unhealthy
  lapse : {a : HostState} → owned a ≡ true → Edge a pending

-- A host changes its owner only by way of having none.
pub data OwnerStep : Option ClaimReference → Option ClaimReference → Type 0 where
  same : {a : Option ClaimReference} → OwnerStep a a
  taken : {r : ClaimReference} → OwnerStep none (some r)
  dropped : {r : ClaimReference} → OwnerStep (some r) none

-- Nothing of a former claim is left on a host without one.
abbrev pub IsClean : Option ClaimReference → String → String → Type 0
IsClean none provider_id token_id = (provider_id ≡ "") × (token_id ≡ "")
IsClean (some r) provider_id token_id = Unit

-- A host has a claim exactly in the states of one, and without a claim it is clean.
abbrev pub WellFormed : HostStatus → Type 0
WellFormed s =
    (is_some s.claim_ref ≡ owned s.state) × IsClean s.claim_ref s.provider_id s.bootstrap_token_id

-- A transition of the state machine.
abbrev pub Step : HostStatus → HostStatus → Type 0
Step s t = Edge s.state t.state × OwnerStep s.claim_ref t.claim_ref × WellFormed t
