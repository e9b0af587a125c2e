-- ===== src/Gate/Writes.antt =====
-- The writes of the reconcile of startup taints: every one spares the taints that no gate may remove.
use Prim.Native.String.{◌++◌}
use mathlib.Core.List.{Mem, mem-cons_self, mem-cons_of_mem}
use karpenter_provider_ssh.Common.{
  arith, ◌==◌, not, ◌||◌, ℕ, String, ◌≡◌, refl, ◌⊎◌, inl, inr, false, Bool-cases, Option, none,
  some, List, [], ◌∷◌,
}
use karpenter_provider_ssh.Exec.{Result, ok, err, pure, raise, map_error}
use karpenter_provider_ssh.Exec.Keep.{Keeps, >>=-Held, if-Held}
use karpenter_provider_ssh.Api.Errors.{Error, wrapped, is_not_found, is_conflict}
use karpenter_provider_ssh.Api.Meta.{Taint, LabelSelector}
use karpenter_provider_ssh.Api.NodeClass.{
  NodeClass, StartupTaintGate, PodsReadyCondition, NodeConditionCondition,
}
use karpenter_provider_ssh.Api.NodeClaim.{NodeClaim, NodeClassReference}
use karpenter_provider_ssh.Gate.{
  no_keys, no_taints, requeue, removed, patched, run_gates, with_class, with_claim, find_claim,
  reconcile_node, list_ready, enough, evaluate_by, evaluate_condition, class_of, act,
  node_class_group, node_class_kind, node_claim_api_version, GateClient, GatedNode, OwnerReference,
  has_taint_key, open_gates, evaluate, pods_ready, or_none, node_claim_of, node_claim_for,
  node_class_for, remove_taints, kept_taints, reconcile_gates,
}
use karpenter_provider_ssh.Gate.Strip.{gated, open_gates-kept}

module _ {W : Type 0} (c : GateClient W) where
  -- The new node is the old one but for its taints, of which every one is left that is no startup
  -- taint of the NodeClaim or that no gate of the class names.
  abbrev pub Spares : NodeClaim → NodeClass → GatedNode → GatedNode → Type 0
  Spares nc class old new =
      (new ≡ record old { taints = new.taints })
      × ((t : Taint)
          → Mem t old.taints
          → (has_taint_key nc.startup_taints t.key ≡ false)
            ⊎ (gated class.spec.startup_taint_gates t.key ≡ false)
          → Mem t new.taints)

  -- A patch of a node that a gate may ask for: the NodeClaim and the class are what the server has
  -- answered, the NodeClaim under the name of an owner of the node and the class under the name that
  -- the NodeClaim refers to.
  abbrev pub Allowed : GatedNode → GatedNode → Type 0
  Allowed old new =
      (nc : NodeClaim) × (class : NodeClass) × (owner : OwnerReference) × (ref : NodeClassReference)
      × (u v x y : W) × Mem owner old.owners
      × (c.get_node_claim owner.name u ≡ (ok nc, v))
      × (nc.node_class_ref ≡ some ref)
      × (c.get_node_class ref.name x ≡ (ok class, y))
      × Spares nc class old new

  -- A property of the world that reads preserve, and a patch of a node that is allowed.
  pub record Spared (Held : W → Type 0) : Type 0 where
    pub node-Held : (name : String) → Keeps Held (c.get_node name)
    pub claim-Held : (name : String) → Keeps Held (c.get_node_claim name)
    pub class-Held : (name : String) → Keeps Held (c.get_node_class name)
    pub pods-Held : (ns : String) (selector : LabelSelector) → Keeps Held (c.list_pods ns selector)
    pub patch-Held : (new old : GatedNode) → Allowed old new → Keeps Held (c.patch_node new old)

  module _ (Held : W → Type 0) (spared : Spared Held) where
    or_none-Held : {A : Type 0} (r : Result Error A) → Keeps Held (or_none c r)
    or_none-Held (ok a) w h = h
    or_none-Held (err e) w h = if-Held Held (is_not_found e) (pure none) (raise e) w h h

    pods_ready-Held :
        (node : GatedNode) (cond : PodsReadyCondition) → Keeps Held (pods_ready c node cond)
    unfolding pods_ready
    pods_ready-Held node cond w h = listed (c.selector_error cond.selector)
      where
        listed : (o : Option Error) → Held (list_ready c node cond o w).1
        listed (some e) = h
        listed none =
            >>=-Held Held
              (map_error (wrapped "listing pods: ") (c.list_pods cond.namespace cond.selector))
              (λ pods. pure (enough c node cond pods)) w
              (spared.pods-Held cond.namespace cond.selector w h) (λ pods v q k. k)

    evaluate-Held :
        (node : GatedNode) (gate : StartupTaintGate) → Keeps Held (evaluate c node gate.remove_when)
    unfolding evaluate
    evaluate-Held node gate w h = by_pods gate.remove_when.pods_ready
      where
        by_node : (o : Option NodeConditionCondition) → Held (evaluate_condition c node o w).1
        by_node (some cond) = h
        by_node none = h

        by_pods : (o : Option PodsReadyCondition) → Held (evaluate_by c node gate.remove_when o w).1
        by_pods (some pods) = pods_ready-Held node pods w h
        by_pods none = by_node gate.remove_when.node_condition

    open_gates-Held :
        (node : GatedNode) (nc : NodeClaim) (gates : List StartupTaintGate)
        → Keeps Held (open_gates c node nc gates)
    unfolding open_gates
    open_gates-Held node nc [] w h = h
    open_gates-Held node nc (gate ∷ gates) w h =
        if-Held Held (not (has_taint_key node.taints gate.taint_key)) (open_gates c node nc gates) _
          w (open_gates-Held node nc gates w h)
          (if-Held Held (not (has_taint_key nc.startup_taints gate.taint_key))
            (open_gates c node nc gates) _ w (open_gates-Held node nc gates w h)
            (>>=-Held Held
              (map_error (wrapped ("evaluating gate " ++ (gate.taint_key ++ ": ")))
                (evaluate c node gate.remove_when))
              _ w (evaluate-Held node gate w h)
              (λ opened v q k.
                >>=-Held Held (open_gates c node nc gates) _ v (open_gates-Held node nc gates v k)
                  (λ found u p j. j))))

    node_claim_of-Held : (refs : List OwnerReference) → Keeps Held (node_claim_of c refs)
    unfolding node_claim_of
    node_claim_of-Held [] w h = h
    node_claim_of-Held (ref ∷ refs) w h =
        if-Held Held
          (not (ref.kind == "NodeClaim") || not (ref.api_version == node_claim_api_version))
          (node_claim_of c refs) _ w (node_claim_of-Held refs w h)
          (or_none-Held (c.get_node_claim ref.name w).0 (c.get_node_claim ref.name w).1
            (spared.claim-Held ref.name w h))

    node_class_for-Held : (nc : NodeClaim) → Keeps Held (node_class_for c nc)
    unfolding node_class_for
    node_class_for-Held nc w h = referred nc.node_class_ref
      where
        referred : (o : Option NodeClassReference) → Held (class_of c o w).1
        referred none = h
        referred (some ref) =
            if-Held Held (not (ref.group == node_class_group) || not (ref.kind == node_class_kind))
              (pure none) _ w h
              (or_none-Held (c.get_node_class ref.name w).0 (c.get_node_class ref.name w).1
                (spared.class-Held ref.name w h))

    act-Held :
        (node : GatedNode) (keys : List String) (pending : ℕ)
        → Allowed node (record node { taints = kept_taints keys node.taints })
        → Keeps Held (act c node (keys, pending))
    unfolding remove_taints
    act-Held node keys pending allowed w h = if-Held Held (no_keys keys) (requeue c pending) _ w h (
        removed-Held (remove_taints c node keys w).0 (remove_taints c node keys w).1 (
          patched-Held (c.patch_node new node w).0 (c.patch_node new node w).1
            (spared.patch-Held new node allowed w h)))
      where
        new : GatedNode
        new = record node { taints = kept_taints keys node.taints }

        patched-Held : (r : Result Error (Unit {0})) → Keeps Held (patched c r)
        patched-Held (ok a) v k = k
        patched-Held (err e) v k =
            if-Held Held (is_conflict e) (pure tt) (raise (wrapped "removing startup taints: " e)) v
              k k

        removed-Held : (r : Result Error (Unit {0})) → Keeps Held (removed c pending r)
        removed-Held (ok a) v k = k
        removed-Held (err e) v k = if-Held Held (is_not_found e) (pure 0) (raise e) v k k

    found_claim :
        (refs : List OwnerReference) (w v : W) (nc : NodeClaim)
        → node_claim_of c refs w ≡ (ok (some nc), v)
        → (owner : OwnerReference) × (x y : W) × Mem owner refs
          × (c.get_node_claim owner.name x ≡ (ok nc, y))
    unfolding node_claim_of
    found_claim [] w v nc e = absurd (ground arith)
    found_claim (ref ∷ refs) w v nc e =
        elim (Bool-cases
          (not (ref.kind == "NodeClaim") || not (ref.api_version == node_claim_api_version))) [
            | inl other ↦
                let (owner, x, y, m, q) = found_claim refs w v nc (ground arith) in
                (owner, x, y, mem-cons_of_mem ref m, q)
            | inr ours ↦ (ref, w, v, mem-cons_self, ground arith)
          ]

    found_class :
        (nc : NodeClaim) (w v : W) (class : NodeClass)
        → node_class_for c nc w ≡ (ok (some class), v)
        → (ref : NodeClassReference) × (x y : W) × (nc.node_class_ref ≡ some ref)
          × (c.get_node_class ref.name x ≡ (ok class, y))
    unfolding node_class_for
    found_class nc w v class e = referred nc.node_class_ref refl e
      where
        referred :
            (o : Option NodeClassReference)
            → nc.node_class_ref ≡ o
            → class_of c o w ≡ (ok (some class), v)
            → (ref : NodeClassReference) × (x y : W) × (nc.node_class_ref ≡ some ref)
              × (c.get_node_class ref.name x ≡ (ok class, y))
        referred none q p = absurd (ground arith)
        referred (some ref) q p = (ref, w, v, q, ground arith)

    -- The gates at work: the NodeClaim and the class were read.
    run_gates-Held :
        (node : GatedNode) (nc : NodeClaim) (owner : OwnerReference) (u v : W)
        → Mem owner node.owners
        → c.get_node_claim owner.name u ≡ (ok nc, v)
        → Keeps Held (with_class c node nc)
    run_gates-Held node nc owner u v m read w h =
        >>=-Held Held (node_class_for c nc) (run_gates c node nc) w (node_class_for-Held nc w h)
          gated_by
      where
        gated_by :
            (class : Option NodeClass) (y : W)
            → node_class_for c nc w ≡ (ok class, y)
            → Held y
            → Held (run_gates c node nc class y).1
        gated_by none y q k = k
        gated_by (some class) y q k =
            let (ref, a, b, named, answered) = found_class nc w y class q in
            >>=-Held Held (open_gates c node nc class.spec.startup_taint_gates) (act c node) y
              (open_gates-Held node nc class.spec.startup_taint_gates y k)
              (λ (keys, pending) z p j.
                act-Held node keys pending
                  (
                    nc,
                    class,
                    owner,
                    ref,
                    u,
                    v,
                    a,
                    b,
                    m,
                    read,
                    named,
                    answered,
                    (
                      refl,
                      λ t there fixed.
                          open_gates-kept c node nc class.spec.startup_taint_gates y z keys pending
                            t p there fixed,
                    ),
                  )
                  z j)

    find_claim-Held : (node : GatedNode) → Keeps Held (find_claim c node)
    unfolding node_claim_for
    find_claim-Held node w h =
        >>=-Held Held (node_claim_for c node) (with_claim c node) w
          (node_claim_of-Held node.owners w h) claimed
      where
        claimed :
            (o : Option NodeClaim) (v : W)
            → node_claim_for c node w ≡ (ok o, v)
            → Held v
            → Held (with_claim c node o v).1
        claimed none v q k = k
        claimed (some nc) v q k =
            let (owner, x, y, m, read) = found_claim node.owners w v nc q in
            if-Held Held (no_taints nc.startup_taints) (pure 0) (with_class c node nc) v k
              (run_gates-Held node nc owner x y m read v k)

    -- A property of the world that reads preserve, and every patch of a node that takes away startup
    -- taints only which the NodeClaim of one of its owners lists and a gate of the class of that
    -- NodeClaim names, such as that no other taint of a node was ever removed, holds after a reconcile
    -- as well, however it ends: the reconcile makes no other write.
    pub reconcile_gates-Held : (name : String) → Keeps Held (reconcile_gates c name)
    unfolding reconcile_gates
    reconcile_gates-Held name w h =
        >>=-Held Held (or_none c (c.get_node name w).0) (reconcile_node c) (c.get_node name w).1
          (or_none-Held (c.get_node name w).0 (c.get_node name w).1 (spared.node-Held name w h))
          at_node
      where
        at_node :
            (o : Option GatedNode) (v : W)
            → or_none c (c.get_node name w).0 (c.get_node name w).1 ≡ (ok o, v)
            → Held v
            → Held (reconcile_node c o v).1
        at_node none v q k = k
        at_node (some node) v q k =
            if-Held Held (node.deleting || no_taints node.taints) (pure 0) (find_claim c node) v k
              (find_claim-Held node v k)
