-- ===== src/Tests/Gate.antt =====
-- The theorems on the startup taint gates at one node.
use mathlib.Core.List.{Mem, mem-cons_self, mem-cons_of_mem, not-mem-nil}
use mathlib.Core.Logic.{inl, inr}
use karpenter_provider_ssh.Common.{
  not, ◌&&◌, ◌||◌, ◌==◌, keep, mem-keep, eq_iff, eq_refl, subst, Bool-cases, ap, sym, String, ◌≡◌,
  ◌<◌, arith, refl, Bool, true, false, none, some, List, [], ◌∷◌, some_of,
}
use karpenter_provider_ssh.Exec.{ok}
use karpenter_provider_ssh.Api.Meta.{Taint}
use karpenter_provider_ssh.Api.NodeClass.{StartupTaintGate}
use karpenter_provider_ssh.Api.NodeClaim.{NodeClaim}
use karpenter_provider_ssh.Gate.Watch.{node_for_pod, pod_ready_changed, ready_pods-wakes}
use karpenter_provider_ssh.Gate.{
  Pod, ready_pods, GateClient, GatedNode, has_taint_key, reconcile_gates,
}
use karpenter_provider_ssh.Gate.Writes.{Allowed, reconcile_gates-Held}
use karpenter_provider_ssh.Exec.{Result, err}
use karpenter_provider_ssh.Api.Errors.{Error}
use karpenter_provider_ssh.Api.NodeClass.{NodeClass}
use karpenter_provider_ssh.Example.{web_claim, web_class}

abbrev taint : String → Taint
taint key = record { key = key; value = ""; effect = "NoSchedule" }

-- A node with a permanent taint and a startup taint whose gate is open.
abbrev node : GatedNode
node = record {
  meta = web_claim.meta;
  deleting = false;
  taints = taint "dedicated" ∷ taint "agent-not-ready" ∷ [];
  owners = [];
  conditions = record { kind = "AgentReady"; status = "True" } ∷ [];
}

abbrev nc : NodeClaim
nc = record web_claim {
  startup_taints = taint "agent-not-ready" ∷ [];
  node_class_ref =
      some
        (record { group = "karpenter.dklesev.github.io"; kind = "SSHNodeClass"; name = "default" });
}

abbrev gates : List StartupTaintGate
gates =
    record {
      taint_key = "agent-not-ready";
      remove_when = record {
        pods_ready = none;
        node_condition = some (record { kind = "AgentReady"; status = "" });
      };
    }
    ∷ []

abbrev owned_node : GatedNode
owned_node = record node {
  owners = record { api_version = "karpenter.sh/v1"; kind = "NodeClaim"; name = "web-1" } ∷ [];
}

abbrev gated_class : NodeClass
gated_class = record web_class { spec = record web_class.spec { startup_taint_gates = gates } }

abbrev server : GateClient Bool
server = record {
  get_node = λ name w. (ok node, w);
  get_node_claim = λ name w. (ok nc, w);
  get_node_class = λ name w. (ok web_class, w);
  list_pods = λ ns selector w. (ok [], w);
  patch_node = λ new old w. (ok tt, true);
  selector_error = λ selector. none;
}

-- The world is whether no taint `dedicated` was ever removed.
abbrev watched : GateClient Bool
watched = record server {
  get_node = λ name w. (ok owned_node, w);
  get_node_class = λ name w. (ok gated_class, w);
  patch_node = λ new old w. (
    ok tt,
    w && (not (has_taint_key old.taints "dedicated") || has_taint_key new.taints "dedicated"),
  );
}

-- The taint of a key that a list has.
taint_of :
    (key : String) (ts : List Taint)
    → has_taint_key ts key ≡ true
    → (t : Taint) × Mem t ts × (t.key ≡ key)
unfolding has_taint_key some_of
taint_of key [] h = cc
taint_of key (t ∷ ts) h = elim (Bool-cases (t.key == key)) [
  | inl here ↦ (t, mem-cons_self, (eq_iff t.key key).0 here)
  | inr miss ↦ let (u, m, same) = taint_of key ts (ground arith) in (u, mem-cons_of_mem t m, same)
]

none_kept :
    (key : String) (ts : List Taint)
    → has_taint_key ts key ≡ false
    → keep (λ t. t.key == key) ts ≡ []
unfolding has_taint_key some_of keep
none_kept key [] h = refl
none_kept key (t ∷ ts) h = ground (arith, none_kept key ts)

has-Mem : (t : Taint) (ts : List Taint) → Mem t ts → has_taint_key ts t.key ≡ true
has-Mem t ts m = elim (Bool-cases (has_taint_key ts t.key)) [
  | inl there ↦ there
  | inr gone ↦ absurd (
      not-mem-nil (
        subst (Mem t) (none_kept t.key ts gone)
          ((mem-keep (λ u. u.key == t.key) t ts).1 (m, eq_refl t.key))))
]

not_startup : has_taint_key nc.startup_taints "dedicated" ≡ false
unfolding has_taint_key some_of
not_startup = refl

abbrev claim_read : Result Error NodeClaim × Bool → NodeClaim
claim_read (ok c, w) = c
claim_read (err e, w) = nc

spared_patch :
    (new old : GatedNode) (w : Bool)
    → Allowed watched old new
    → w ≡ true
    → (watched.patch_node new old w).1 ≡ true
spared_patch new old w (c, class, owner, ref, u, v, x, y, m, read, named, answered, (same, left))
      h =
    elim (Bool-cases (has_taint_key old.taints "dedicated")) [
      | inr free ↦ rw h (rw free refl)
      | inl there ↦ rw h (rw there (kept there))
    ]
  where
    fixed : (t : Taint) → t.key ≡ "dedicated" → has_taint_key c.startup_taints t.key ≡ false
    fixed t key =
        subst (λ d. has_taint_key d.startup_taints t.key ≡ false) (ap claim_read read)
          (subst (λ k. has_taint_key nc.startup_taints k ≡ false) (sym key) not_startup)

    kept : has_taint_key old.taints "dedicated" ≡ true → has_taint_key new.taints "dedicated" ≡ true
    kept there =
        let (t, m, key) = taint_of "dedicated" old.taints there in
        subst (λ k. has_taint_key new.taints k ≡ true) key
          (has-Mem t new.taints (left t m (inl (fixed t key))))

reconcile_gates-Held_example : (reconcile_gates watched "web-1" true).1 ≡ true
reconcile_gates-Held_example =
    reconcile_gates-Held watched (λ w. w ≡ true)
      (record {
        node-Held = λ name w h. h;
        claim-Held = λ name w h. h;
        class-Held = λ name w h. h;
        pods-Held = λ ns selector w h. h;
        patch-Held = λ new old allowed w h. spared_patch new old w allowed h;
      })
      "web-1" true refl

-- A pod of the node that turns ready.
abbrev pod : String → Pod
pod ready = record {
  node_name = "web-1";
  deleting = false;
  conditions = record { kind = "Ready"; status = ready } ∷ [];
}

one_more :
    ready_pods node (pod "True" ∷ pod "False" ∷ []) < ready_pods node (pod "True" ∷ pod "True" ∷ [])
unfolding ready_pods
one_more = omega arith

ready_pods-wakes_example :
    (pod_ready_changed (pod "False") (pod "True") ≡ true)
    × (node_for_pod (pod "True") ≡ "web-1" ∷ [])
ready_pods-wakes_example =
    ready_pods-wakes node (pod "True" ∷ []) [] (pod "False") (pod "True") refl
      (inl refl, λ gone. gone) one_more
