-- ===== src/Tests/Class.antt =====
-- The theorems on node classes at one class with a NodeClaim, which may be deleted.
use karpenter_provider_ssh.Common.{
  String, ◌≡◌, refl, ap, sym, eq_iff, Bool, true, false, Option, none, some, List, [], ◌∷◌, some_of,
  ◌==◌, if◌then◌else◌, Bool-cases, inl, inr, arith,
}
use karpenter_provider_ssh.Exec.{Result, ok, err}
use karpenter_provider_ssh.Api.Errors.{Error, api, not_found}
use karpenter_provider_ssh.Api.NodeClaim.{NodeClaim}
use karpenter_provider_ssh.Class.{
  ClassClient, StoredClass, ready, termination_finalizer, assess, reconcile_class,
}
use karpenter_provider_ssh.Class.Ready.{assess-ready}
use karpenter_provider_ssh.Class.Finalizer.{Stable, reconcile_class-Held}
use karpenter_provider_ssh.Profile.{script}
use karpenter_provider_ssh.Profile.Render.{validate, render}
use karpenter_provider_ssh.Example.{web_claim, web_class, kubeadm, free_host}
use karpenter_provider_ssh.Example.Services.{pool, templates}

abbrev stored : StoredClass
stored = record { class = web_class; deleting = true; finalizers = termination_finalizer ∷ [] }

abbrev has : List String → String → Bool
has fs f = some_of (λ g. g == f) fs

abbrev add : List String → String → Option (List String)
add fs f = if has fs f then none else some (f ∷ fs)

abbrev claim_of_default : NodeClaim
claim_of_default = record web_claim {
  node_class_ref =
      some
        (record { group = "karpenter.dklesev.github.io"; kind = "SSHNodeClass"; name = "default" });
}

-- A server with one NodeClaim, of the class `default`, which the index lists under that class alone.
-- The world is whether that class has its finalizer.
abbrev server : ClassClient Bool
server = record {
  get_class = λ name w. (if name == "default" then ok stored else err (api not_found name), w);
  update_class = λ nc w. (
    ok nc,
    if nc.class.meta.name == "default" then has nc.finalizers termination_finalizer else w,
  );
  patch_status = λ nc orig w. (ok nc, w);
  get_profile = λ name w. (ok kubeadm, w);
  claims_of_class =
      λ nc w. (ok (if nc.class.meta.name == "default" then claim_of_default ∷ [] else []), w);
  contains_finalizer = has;
  add_finalizer = add;
  remove_finalizer = λ fs f. [];
  selector_error = λ selector. none;
  set_true = λ class. class.conditions;
  set_false = λ class reason why. class.conditions;
  status_equal = λ a b. false;
}

added :
    (old new : List String)
    → add old termination_finalizer ≡ some new
    → has new termination_finalizer ≡ true
unfolding some_of
added old new e = elim (Bool-cases (has old termination_finalizer)) [
  | inl there ↦ ground arith
  | inr gone ↦ ground arith
]

abbrev class_of : Result Error StoredClass × Bool → String
class_of (ok nc, w) = nc.class.meta.name
class_of (err e, w) = ""

read_default :
    (w v : Bool) (nc : StoredClass)
    → server.get_class "default" w ≡ (ok nc, v)
    → nc.class.meta.name ≡ "default"
read_default w v nc e = sym (ap class_of e)

listed :
    (nc : StoredClass) (w w' : Bool)
    → nc.class.meta.name ≡ "default"
    → w ≡ true
    → ¬ (server.claims_of_class nc w ≡ (ok [], w'))
listed nc w w' named held e =
    found (nc.class.meta.name == "default") ((eq_iff nc.class.meta.name "default").1 named) e
  where
    found :
        (b : Bool)
        → b ≡ true
        → Path
            (Result Error (List NodeClaim) × Bool)
            (ok (if b then claim_of_default ∷ [] else []), w)
            (ok [], w')
        → ⊥
    found b same e = ground arith

written :
    (nc : StoredClass) (w : Bool)
    → nc.class.meta.name ≡ "default"
    → has nc.finalizers termination_finalizer ≡ true
    → w ≡ true
    → (server.update_class nc w).1 ≡ true
written nc w named kept held = rw ((eq_iff nc.class.meta.name "default").1 named) kept

stable : Stable server (pool free_host) "default" (λ w. w ≡ true)
stable = record {
  get_class-Held = λ name w h. h;
  get_profile-Held = λ name w h. h;
  claims-Held = λ nc w h. h;
  all-Held = λ class w h. h;
  patch-Held = λ nc orig w h. h;
  update-Held = λ nc w named kept h. written nc w named kept h;
  added_lem = added;
  get_named = read_default;
  referenced = listed;
}

reconcile_class-Held_example :
    (reconcile_class server (pool free_host) templates "default" true).1 ≡ true
reconcile_class-Held_example =
    reconcile_class-Held server (pool free_host) templates "default" (λ w. w ≡ true) stable true
      refl

assess-ready_example : assess server (pool free_host) templates web_class true ≡ (ok ready, true)
unfolding validate script render
assess-ready_example =
    (assess-ready server (pool free_host) templates web_class true true).1
      (kubeadm, true, refl, refl, refl, (free_host, [], refl))
