-- ===== src/Gate/Watch.antt =====
-- The watches of pkg/controllers/startuptaintgate.go: which events wake the reconciler, and for which
-- nodes.
use mathlib.Core.Bool.{false≢true}
use karpenter_provider_ssh.Common.{
  ℕ, ◌+◌, ◌<◌, String, ◌≡◌, refl, sym, ◌∙◌, ◌⊎◌, inl, inr, Bool, true, false, not, ◌&&◌, Bool-cases,
  List, [], ◌∷◌, ◌++◌, some_of, ◌==◌, if◌then◌else◌, eq_iff, arith,
}
use karpenter_provider_ssh.Exec.{Result, ok, err, Exec}
use karpenter_provider_ssh.Api.Errors.{Error}
use karpenter_provider_ssh.Api.NodeClass.{NodeClass}
use karpenter_provider_ssh.Api.NodeClaim.{NodeClaim}
use karpenter_provider_ssh.Gate.{
  GatedNode, Pod, node_claim_api_version, is_pod_ready, counts, ready_pods, no_taints,
}

-- `nodeForPod`
unfoldable pub node_for_pod : Pod → List String
node_for_pod p = if p.node_name == "" then [] else p.node_name ∷ []

-- `podReadyChanged`, of an update
unfoldable pub pod_ready_changed : Pod → Pod → Bool
unfolding is_pod_ready
pod_ready_changed old new = if is_pod_ready old then not (is_pod_ready new) else is_pod_ready new

-- `ownedByNodeClaim`
unfoldable pub owned_by_node_claim : GatedNode → Bool
unfolding some_of
owned_by_node_claim n =
    some_of (λ ref. ref.kind == "NodeClaim" && ref.api_version == node_claim_api_version) n.owners

-- The predicate on the events of nodes.
unfoldable pub has_gate_work : GatedNode → Bool
unfolding owned_by_node_claim
has_gate_work n = not (no_taints n.taints) && owned_by_node_claim n

unfoldable pub node_names : List NodeClaim → List String
node_names [] = []
node_names (nc ∷ ncs) =
    let names = node_names ncs in if nc.node_name == "" then names else nc.node_name ∷ names

abbrev names_or_none : Result Error (List NodeClaim) → List String
names_or_none (ok claims) = node_names claims
names_or_none (err e) = []

-- `nodesForNodeClass`, over the index of karpenter core
unfoldable pub nodes_for_node_class :
    {W : Type 0} → (NodeClass → Exec W Error (List NodeClaim)) → NodeClass → W → List String × W
unfolding node_names
nodes_for_node_class claims_of class w = elim class.spec.startup_taint_gates [
  | [] ↦ ([], w)
  | g ∷ gs ↦ let (r, v) = claims_of class w in (names_or_none r, v)
]

abbrev one_if : Bool → ℕ
one_if true = 1
one_if false = 0

ready_pods-append :
    (node : GatedNode) (before after : List Pod) (p : Pod)
    → ready_pods node (before ++ p ∷ after)
      ≡ ready_pods node before + one_if (counts node p) + ready_pods node after
unfolding ready_pods
ready_pods-append node [] after p = ground arith
ready_pods-append node (b ∷ before) after p = ground (arith, ready_pods-append node before after p)

-- What the API server keeps of a pod: it is not moved between nodes, it is not ready before it is
-- bound to one, and a deletion is not taken back.
abbrev pub Updates : Pod → Pod → Type 0
Updates old new =
    ((old.node_name ≡ new.node_name) ⊎ (is_pod_ready old ≡ false))
    × ((old.deleting ≡ true) → (new.deleting ≡ true))

counted :
    (node : GatedNode) (p : Pod)
    → counts node p ≡ true
    → (p.node_name ≡ node.meta.name) × (p.deleting ≡ false) × (is_pod_ready p ≡ true)
unfolding counts
counted node p h = ground (arith, eq_iff p.node_name node.meta.name)

uncounted :
    (node : GatedNode) (p : Pod)
    → counts node p ≡ false
    → p.node_name ≡ node.meta.name
    → p.deleting ≡ false
    → is_pod_ready p ≡ false
unfolding counts
uncounted node p h bound alive = ground (arith, eq_iff p.node_name node.meta.name)

raised : (b c : Bool) (m n : ℕ) → m + one_if b + n < m + one_if c + n → (b ≡ false) × (c ≡ true)
raised true true m n h = absurd (omega arith)
raised true false m n h = absurd (omega arith)
raised false true m n h = (refl, refl)
raised false false m n h = absurd (omega arith)

rising :
    (node : GatedNode) (old new : Pod)
    → Updates old new
    → counts node old ≡ false
    → counts node new ≡ true
    → (pod_ready_changed old new ≡ true) × (new.node_name ≡ node.meta.name)
unfolding pod_ready_changed
rising node old new (place, stays) before after =
    let (bound, alive, ready) = counted node new after in
    let living = elim (Bool-cases old.deleting) as (λ x. old.deleting ≡ false) [
      | inl gone ↦ absurd (false≢true (sym alive ∙ stays gone))
      | inr living ↦ living
    ] in
    let unready = elim place as (λ x. is_pod_ready old ≡ false) [
      | inl same ↦ uncounted node old before (same ∙ bound) living
      | inr unready ↦ unready
    ] in
    (rw unready ready, bound)

-- No update of a pod raises the number of ready pods of a node without an event: the update passes
-- the predicate of the watch, and the event wakes the reconciler for that node.
pub ready_pods-wakes :
    (node : GatedNode) (before after : List Pod) (old new : Pod)
    → (node.meta.name == "") ≡ false
    → Updates old new
    → ready_pods node (before ++ old ∷ after) < ready_pods node (before ++ new ∷ after)
    → (pod_ready_changed old new ≡ true) × (node_for_pod new ≡ node.meta.name ∷ [])
unfolding node_for_pod
ready_pods-wakes node before after old new named update rose =
    let (less, more) =
      raised (counts node old) (counts node new) (ready_pods node before) (ready_pods node after) (
        rw⁻¹ (ready_pods-append node before after old)
          (rw⁻¹ (ready_pods-append node before after new) rose)) in
    let (changed, bound) = rising node old new update less more in
    (changed, rw bound (rw named refl))
