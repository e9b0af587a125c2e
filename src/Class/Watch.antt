-- ===== src/Class/Watch.antt =====
-- The watches of pkg/controllers/nodeclass.go: which node classes an event wakes.
use karpenter_provider_ssh.Common.{
  String, not, ◌||◌, Option, none, some, List, [], ◌∷◌, map, ◌==◌, if◌then◌else◌,
}
use karpenter_provider_ssh.Exec.{Result, ok, err, Exec}
use karpenter_provider_ssh.Api.Errors.{Error}
use karpenter_provider_ssh.Api.NodeClass.{NodeClass}
use karpenter_provider_ssh.Api.NodeClaim.{NodeClaim, NodeClassReference}
use karpenter_provider_ssh.Gate.{node_class_group, node_class_kind}

abbrev class_of_reference : Option NodeClassReference → List String
class_of_reference none = []
class_of_reference (some ref) =
    if not (ref.group == node_class_group) || not (ref.kind == node_class_kind)
    then []
    else ref.name ∷ []

-- `nodeClassForClaim`
unfoldable pub node_class_for_claim : NodeClaim → List String
node_class_for_claim nc = class_of_reference nc.node_class_ref

abbrev class_names : Result Error (List NodeClass) → List String
class_names (ok classes) = map (λ class. class.meta.name) classes
class_names (err e) = []

-- `allNodeClasses`
unfoldable pub all_node_classes : {W : Type 0} → Exec W Error (List NodeClass) → W → List String × W
all_node_classes list w = let (r, v) = list w in (class_names r, v)
