-- ===== src/Gate.antt =====
-- pkg/controllers/startuptaintgate.go: startup taints go once the gate of the node class opens.
pub mod Strip
pub mod Writes
pub mod Watch
use Prim.Native.String.{◌++◌}
use karpenter_provider_ssh.Common.{
  ℕ, suc, ◌+◌, ◌-◌, ◌%◌, ◌^◌, String, Bool, true, false, not, ◌&&◌, ◌||◌, Option, none, some, List,
  [], ◌∷◌, keep, some_of, ltb, ◌==◌, if◌then◌else◌,
}
use karpenter_provider_ssh.Common.Int.{ℤ, pos, negsuc, less}
use karpenter_provider_ssh.Exec.{
  Result, ok, err, Exec, pure, raise, attempt, map_error, ◌>>=◌, ◌>>◌,
}
use karpenter_provider_ssh.Api.Errors.{Error, text, wrapped, is_conflict, is_not_found}
use karpenter_provider_ssh.Api.Meta.{ObjectMeta, Taint, LabelSelector}
use karpenter_provider_ssh.Api.NodeClass.{
  NodeClass, StartupTaintGate, StartupTaintCondition, PodsReadyCondition, NodeConditionCondition,
  min_ready_or_default, status_or_default,
}
use karpenter_provider_ssh.Api.NodeClaim.{NodeClaim, NodeClassReference}

abbrev pub node_claim_api_version : String
node_claim_api_version = "karpenter.sh/v1"

abbrev pub node_class_group : String
node_class_group = "karpenter.dklesev.github.io"

abbrev pub node_class_kind : String
node_class_kind = "SSHNodeClass"

-- `gateRecheck`, in nanoseconds
abbrev pub gate_recheck : ℕ
gate_recheck = 30_000_000_000

pub record OwnerReference : Type 0 where
  pub api_version : String
  pub kind : String
  pub name : String

pub record StatusCondition : Type 0 where
  pub kind : String
  pub status : String

-- The fields of a Node that the reconciler reads, and of a Pod.
pub record GatedNode : Type 0 where
  pub meta : ObjectMeta
  pub deleting : Bool
  pub taints : List Taint
  pub owners : List OwnerReference
  pub conditions : List StatusCondition

pub record Pod : Type 0 where
  pub node_name : String
  pub deleting : Bool
  pub conditions : List StatusCondition

-- The calls of the API server.
pub record GateClient (W : Type 0) : Type 0 where
  pub get_node : String → Exec W Error GatedNode
  pub get_node_claim : String → Exec W Error NodeClaim
  pub get_node_class : String → Exec W Error NodeClass
  pub list_pods : String → LabelSelector → Exec W Error (List Pod)
  -- The patch of a node, under the resourceVersion of the original.
  pub patch_node : GatedNode → GatedNode → Exec W Error (Unit {0})
  pub selector_error : LabelSelector → Option Error

unfoldable pub has_taint_key : List Taint → String → Bool
has_taint_key taints key = some_of (λ t. t.key == key) taints

-- The status of the first condition of a kind.
unfoldable pub condition_status : String → List StatusCondition → Option String
condition_status kind [] = none
condition_status kind (c ∷ cs) =
    let rest = condition_status kind cs in if c.kind == kind then some c.status else rest

unfoldable pub is_pod_ready : Pod → Bool
unfolding condition_status
is_pod_ready p = elim (condition_status "Ready" p.conditions) [
  | none ↦ false
  | some s ↦ s == "True"
]

-- The pods that `podsReady` counts.
unfoldable pub counts : GatedNode → Pod → Bool
unfolding is_pod_ready
counts node p = if not (p.node_name == node.meta.name) || p.deleting then false else is_pod_ready p

unfoldable pub ready_pods : GatedNode → List Pod → ℕ
unfolding counts
ready_pods node [] = 0
ready_pods node (p ∷ ps) = let rest = ready_pods node ps in if counts node p then suc rest else rest

-- The 32-bit number of a count.
abbrev int32_of : ℕ → ℤ
int32_of n = let r = n % 2 ^ 32 in if ltb r (2 ^ 31) then pos r else negsuc (2 ^ 32 - 1 - r)

-- The taints that `removeTaints` keeps.
unfoldable pub kept_taints : List String → List Taint → List Taint
kept_taints keys taints = keep (λ t. not (some_of (λ k. k == t.key) keys)) taints

abbrev pub no_taints : List Taint → Bool
no_taints [] = true
no_taints (t ∷ ts) = false

abbrev pub no_keys : List String → Bool
no_keys [] = true
no_keys (k ∷ ks) = false

module _ {W : Type 0} (c : GateClient W) where
  abbrev pub or_none : {A : Type 0} → Result Error A → Exec W Error (Option A)
  or_none (ok a) = pure (some a)
  or_none (err e) = if is_not_found e then pure none else raise e

  unfoldable pub node_claim_of : List OwnerReference → Exec W Error (Option NodeClaim)
  node_claim_of [] = pure none
  node_claim_of (ref ∷ refs) =
      let rest = node_claim_of refs in
      if not (ref.kind == "NodeClaim") || not (ref.api_version == node_claim_api_version)
      then rest
      else do r ← attempt (c.get_node_claim ref.name); or_none r

  -- `nodeClaimFor`
  unfoldable pub node_claim_for : GatedNode → Exec W Error (Option NodeClaim)
  unfolding node_claim_of
  node_claim_for node = node_claim_of node.owners

  abbrev pub class_of : Option NodeClassReference → Exec W Error (Option NodeClass)
  class_of none = pure none
  class_of (some ref) =
      if not (ref.group == node_class_group) || not (ref.kind == node_class_kind)
      then pure none
      else do r ← attempt (c.get_node_class ref.name); or_none r

  -- `nodeClassFor`
  unfoldable pub node_class_for : NodeClaim → Exec W Error (Option NodeClass)
  node_class_for nc = class_of nc.node_class_ref

  abbrev pub enough : GatedNode → PodsReadyCondition → List Pod → Bool
  enough node cond pods = not (less (int32_of (ready_pods node pods)) (min_ready_or_default cond))

  abbrev pub list_ready : GatedNode → PodsReadyCondition → Option Error → Exec W Error Bool
  list_ready node cond (some e) = raise (wrapped "podsReady selector: " e)
  list_ready node cond none = do
    pods ← map_error (wrapped "listing pods: ") (c.list_pods cond.namespace cond.selector)
    pure (enough node cond pods)

  -- `podsReady`
  unfoldable pub pods_ready : GatedNode → PodsReadyCondition → Exec W Error Bool
  unfolding ready_pods min_ready_or_default
  pods_ready node cond = list_ready node cond (c.selector_error cond.selector)

  abbrev holds : GatedNode → NodeConditionCondition → Bool
  holds node cond = elim (condition_status cond.kind node.conditions) [
    | none ↦ false
    | some s ↦ s == status_or_default cond
  ]

  abbrev pub evaluate_condition : GatedNode → Option NodeConditionCondition → Exec W Error Bool
  evaluate_condition node (some cond) = pure (holds node cond)
  evaluate_condition node none = raise (text "removeWhen sets no condition")

  abbrev pub evaluate_by :
      GatedNode → StartupTaintCondition → Option PodsReadyCondition → Exec W Error Bool
  evaluate_by node cond (some pods) = pods_ready node pods
  evaluate_by node cond none = evaluate_condition node cond.node_condition

  -- `evaluate`
  unfoldable pub evaluate : GatedNode → StartupTaintCondition → Exec W Error Bool
  unfolding pods_ready status_or_default condition_status
  evaluate node cond = evaluate_by node cond cond.pods_ready

  abbrev pub count_gate : Bool → String → List String × ℕ → List String × ℕ
  count_gate true key (keys, pending) = (key ∷ keys, pending)
  count_gate false key (keys, pending) = (keys, suc pending)

  -- The loop of `Reconcile` over the gates: the keys to remove, and how many gates are still shut.
  unfoldable pub open_gates :
      GatedNode → NodeClaim → List StartupTaintGate → Exec W Error (List String × ℕ)
  unfolding evaluate has_taint_key
  open_gates node nc [] = pure ([], 0)
  open_gates node nc (gate ∷ gates) =
      let rest = open_gates node nc gates in
      if not (has_taint_key node.taints gate.taint_key)
      then rest
      else if not (has_taint_key nc.startup_taints gate.taint_key)
      then rest
      else do
        opened ←
            map_error (wrapped ("evaluating gate " ++ (gate.taint_key ++ ": ")))
              (evaluate node gate.remove_when)
        found ← rest
        pure (count_gate opened gate.taint_key found)

  abbrev pub patched : Result Error (Unit {0}) → Exec W Error (Unit {0})
  patched (ok a) = pure tt
  patched (err e) = if is_conflict e then pure tt else raise (wrapped "removing startup taints: " e)

  -- `removeTaints`
  unfoldable pub remove_taints : GatedNode → List String → Exec W Error (Unit {0})
  unfolding kept_taints
  remove_taints node keys = do
    r ← attempt (c.patch_node (record node { taints = kept_taints keys node.taints }) node)
    patched r

  abbrev pub requeue : ℕ → Exec W Error ℕ
  requeue pending = pure (if ltb 0 pending then gate_recheck else 0)

  abbrev pub removed : ℕ → Result Error (Unit {0}) → Exec W Error ℕ
  removed pending (ok a) = requeue pending
  removed pending (err e) = if is_not_found e then pure 0 else raise e

  abbrev pub act : GatedNode → List String × ℕ → Exec W Error ℕ
  act node (keys, pending) =
      if no_keys keys
      then requeue pending
      else do r ← attempt (remove_taints node keys); removed pending r

  abbrev pub run_gates : GatedNode → NodeClaim → Option NodeClass → Exec W Error ℕ
  run_gates node nc none = pure 0
  run_gates node nc (some class) = do
    found ← open_gates node nc class.spec.startup_taint_gates
    act node found

  abbrev pub with_class : GatedNode → NodeClaim → Exec W Error ℕ
  with_class node nc = do class ← node_class_for nc; run_gates node nc class

  abbrev pub with_claim : GatedNode → Option NodeClaim → Exec W Error ℕ
  with_claim node none = pure 0
  with_claim node (some nc) = if no_taints nc.startup_taints then pure 0 else with_class node nc

  abbrev pub find_claim : GatedNode → Exec W Error ℕ
  find_claim node = do nc ← node_claim_for node; with_claim node nc

  abbrev pub reconcile_node : Option GatedNode → Exec W Error ℕ
  reconcile_node none = pure 0
  reconcile_node (some node) =
      if node.deleting || no_taints node.taints then pure 0 else find_claim node

  -- `Reconcile`: its result is the time to the requeue, or zero for none.
  unfoldable pub reconcile_gates : String → Exec W Error ℕ
  unfolding node_claim_for node_class_for open_gates remove_taints
  reconcile_gates name = do r ← attempt (c.get_node name); node ← or_none r; reconcile_node node
