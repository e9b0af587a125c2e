-- ===== src/Instance/Labels.antt =====
-- The labels and taints that a join hands to the kubelet: `renderNodeLabels`, `kubeletSelfLabel` and
-- `renderTaints` of pkg/providers/instance/instance.go.
use Prim.Native.String.{◌++◌}
use karpenter_provider_ssh.Common.{
  String, Bool, true, not, ◌||◌, none, some, List, [], ◌∷◌, Dict, cut, ◌==◌, has_suffix,
  if◌then◌else◌,
}
use karpenter_provider_ssh.Api.Meta.{Taint}
use karpenter_provider_ssh.Api.NodeClaim.{NodeClaim}

-- `strings.Join`
unfoldable pub join_with : String → List String → String
join_with separator [] = ""
join_with separator (part ∷ []) = part
join_with separator (part ∷ next ∷ parts) =
    part ++ (separator ++ join_with separator (next ∷ parts))

-- What stands before the first slash of a key, if there is one.
unfoldable pub label_namespace : String → String
label_namespace key = elim (cut b'/' key) [ none ↦ "" | some (ns, name) ↦ ns ]

-- A domain or one of its subdomains.
unfoldable pub in_domain : String → String → Bool
in_domain domain ns = ns == domain || has_suffix ("." ++ domain) ns

unfoldable pub in_k8s_space : String → Bool
unfolding in_domain
in_k8s_space ns = in_domain "kubernetes.io" ns || in_domain "k8s.io" ns

-- `kubeletSelfLabel`
unfoldable pub kubelet_self_label : String → Bool
unfolding label_namespace in_k8s_space in_domain
kubelet_self_label key =
    let ns = label_namespace key in
    if not (in_k8s_space ns)
    then true
    else in_domain "kubelet.kubernetes.io" ns || in_domain "node.kubernetes.io" ns

-- The labels that the kubelet may set on itself.
unfoldable pub label_parts : Dict String → List String
unfolding kubelet_self_label
label_parts [] = []
label_parts ((k, v) ∷ rest) =
    let parts = label_parts rest in
    if kubelet_self_label k then (k ++ ("=" ++ v)) ∷ parts else parts

-- `renderNodeLabels`, in the order in which the loop over the map meets the labels.
unfoldable pub render_node_labels : NodeClaim → String
unfolding label_parts join_with
render_node_labels nc = join_with "," (label_parts nc.meta.labels)

abbrev pub unregistered_taint_key : String
unregistered_taint_key = "karpenter.sh/unregistered"

unfoldable pub taint_part : Taint → String
taint_part t =
    if not (t.value == "")
    then t.key ++ ("=" ++ (t.value ++ (":" ++ t.effect)))
    else t.key ++ (":" ++ t.effect)

unfoldable pub taint_parts : List Taint → List String
unfolding taint_part
taint_parts [] = []
taint_parts (t ∷ ts) = taint_part t ∷ taint_parts ts

-- `renderTaints`
unfoldable pub render_taints : NodeClaim → String
unfolding taint_parts join_with
render_taints nc = join_with "," ((unregistered_taint_key ++ ":NoExecute") ∷ taint_parts nc.taints)
