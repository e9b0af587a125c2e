-- ===== src/InstanceTypes/Shape.antt =====
-- The capacity of a class against that of its hosts.
use karpenter_provider_ssh.Common.{
  String, ◌≡◌, refl, sym, ap, ◌∙◌, ◌⊎◌, inl, inr, true, false, Bool-cases, Option, none, some,
  Option-cases, List, [], ◌∷◌, ◌++◌, Dict, insert, lookup, lookup-insert, lookup-insert_other, ◌==◌,
  eq_iff, if◌then◌else◌, arith,
}
use karpenter_provider_ssh.Common.Int.{ℤ, pos, negsuc, less}
use karpenter_provider_ssh.Api.Meta.{ResourceList}
use karpenter_provider_ssh.Api.Host.{Host, host_class}
use karpenter_provider_ssh.InstanceTypes.{
  ClassInfo, add_host, gather, min_capacity, with_pods, usable_capacity, merged, observe_arch,
  class_with,
}

-- A capacity that has no more of any resource than another.
abbrev pub AtMost : ResourceList → ResourceList → Type 0
AtMost a b =
    (r : String) (q : ℤ)
    → lookup r a ≡ some q
    → (p : ℤ) × (lookup r b ≡ some p) × (less p q ≡ false)

less_irrefl : (x : ℤ) → less x x ≡ false
less_irrefl (pos n) = ground arith
less_irrefl (negsuc n) = ground arith

less_trans : (x y z : ℤ) → less x y ≡ false → less y z ≡ false → less x z ≡ false
less_trans (pos m) (pos n) (pos k) g h = ground arith
less_trans (pos m) (pos n) (negsuc k) g h = refl
less_trans (pos m) (negsuc n) (pos k) g h = cc
less_trans (pos m) (negsuc n) (negsuc k) g h = refl
less_trans (negsuc m) (pos n) z g h = cc
less_trans (negsuc m) (negsuc n) (pos k) g h = cc
less_trans (negsuc m) (negsuc n) (negsuc k) g h = ground arith

less_asym : (x y : ℤ) → less x y ≡ true → less y x ≡ false
less_asym (pos m) (pos n) h = ground arith
less_asym (pos m) (negsuc n) h = cc
less_asym (negsuc m) (pos n) h = refl
less_asym (negsuc m) (negsuc n) h = ground arith

smaller :
    (x y : ℤ)
    → (less x (if less y x then y else x) ≡ false) × (less y (if less y x then y else x) ≡ false)
smaller x y = elim (Bool-cases (less y x)) [
  | inl h ↦ rw h (less_asym y x h, less_irrefl y)
  | inr h ↦ rw h (less_irrefl x, h)
]

abbrev Both : ResourceList → ResourceList → String → ℤ → Type 0
Both a b r q =
    ((p : ℤ) × (lookup r a ≡ some p) × (less p q ≡ false))
    × ((p : ℤ) × (lookup r b ≡ some p) × (less p q ≡ false))

-- Each resource of the minimum is in both capacities, with at least that quantity.
min_capacity-Both :
    (a b : ResourceList) (r : String) (q : ℤ) → lookup r (min_capacity a b) ≡ some q → Both a b r q
unfolding min_capacity lookup
min_capacity-Both [] b r q e = cc
min_capacity-Both ((name, qa) ∷ a) b r q e =
    split (lookup name b) refl (Bool-cases (name == r)) (min_capacity-Both a b r q)
  where
    at_name : (name == r) ≡ true → lookup r b ≡ lookup name b
    at_name same = ap (λ k. lookup k b) (sym ((eq_iff name r).0 same))

    split :
        (o : Option ℤ)
        → lookup name b ≡ o
        → (((name == r) ≡ true) ⊎ ((name == r) ≡ false))
        → (lookup r (min_capacity a b) ≡ some q → Both a b r q)
        → Both ((name, qa) ∷ a) b r q
    split none z (inl same) rec =
        let missing : lookup r b ≡ none = at_name same ∙ z in
        let (l, (p, at, k)) = rec (ground arith) in
        let clash : none ≡ some p = sym missing ∙ at in cc
    split none z (inr other) rec =
        let ((p, at, k), m) = rec (ground arith) in ((p, rw other at, k), m)
    split (some qb) z (inl same) rec =
        ((qa, rw same refl, ground arith), (qb, at_name same ∙ z, ground arith))
    split (some qb) z (inr other) rec =
        let ((p, at, k), m) = rec (ground arith) in ((p, rw other at, k), m)

AtMost-trans : (a b c : ResourceList) → AtMost a b → AtMost b c → AtMost a c
AtMost-trans a b c f g r q e =
    let (p, at, l) = f r q e in let (o, ot, k) = g r p at in (o, ot, less_trans o p q k l)

AtMost-refl : (a : ResourceList) → AtMost a a
AtMost-refl a r q e = (q, e, less_irrefl q)

capacity-observe_arch :
    (seen : String) (ci : ClassInfo) → (observe_arch seen ci).capacity ≡ ci.capacity
capacity-observe_arch seen ci = ground arith

capacity-class_with-none :
    (classes : Dict ClassInfo) (m : Option ℤ) (h : Host)
    → lookup (host_class h) classes ≡ none
    → (class_with classes m h).capacity ≡ with_pods h.spec.capacity m
capacity-class_with-none classes m h e =
    rw
      (capacity-observe_arch h.status.observed_arch
        (merged (lookup (host_class h) classes) (host_class h) (with_pods h.spec.capacity m)))
      (rw e refl)

capacity-class_with-some :
    (classes : Dict ClassInfo) (m : Option ℤ) (h : Host) (ci : ClassInfo)
    → lookup (host_class h) classes ≡ some ci
    → (class_with classes m h).capacity ≡ min_capacity ci.capacity (with_pods h.spec.capacity m)
capacity-class_with-some classes m h ci e =
    rw
      (capacity-observe_arch h.status.observed_arch
        (merged (lookup (host_class h) classes) (host_class h) (with_pods h.spec.capacity m)))
      (rw e refl)

-- The class of a host promises no more than the host has, with the pods that the node class sets.
abbrev pub Covers : Option ℤ → Dict ClassInfo → Host → Type 0
Covers m classes h =
    (ci : ClassInfo) × (lookup (host_class h) classes ≡ some ci)
    × AtMost ci.capacity (with_pods h.spec.capacity m)

module _ (m : Option ℤ) where
  -- A host that is added is covered.
  add_host_self :
      (classes : Dict ClassInfo) (h : Host)
      → usable_capacity h.spec.capacity ≡ true
      → Covers m (add_host m classes h) h
  unfolding add_host
  add_host_self classes h usable = rw usable (
    class_with classes m h,
    lookup-insert (host_class h) (class_with classes m h) classes,
    bounded (Option-cases (lookup (host_class h) classes)),
  )
    where
      bounded :
          (lookup (host_class h) classes ≡ none)
            ⊎ ((ci : ClassInfo) × (lookup (host_class h) classes ≡ some ci))
          → AtMost (class_with classes m h).capacity (with_pods h.spec.capacity m)
      bounded (inl fresh) = rw (capacity-class_with-none classes m h fresh) (AtMost-refl _)
      bounded (inr (ci, old)) =
          rw (capacity-class_with-some classes m h ci old)
            (λ r q e. (min_capacity-Both ci.capacity (with_pods h.spec.capacity m) r q e).1)

  -- What is covered stays so.
  add_host-Covers :
      (classes : Dict ClassInfo) (g h : Host)
      → Covers m classes h
      → Covers m (add_host m classes g) h
  unfolding add_host
  add_host-Covers classes g h (ci, at, l) = elim (Bool-cases (usable_capacity g.spec.capacity)) [
    | inr bad ↦ rw bad (ci, at, l)
    | inl usable ↦ rw usable (elim (Bool-cases (host_class g == host_class h)) [
      | inr other ↦ (
        ci,
        lookup-insert_other (host_class h) (host_class g) (class_with classes m g) classes other
            ∙ at,
        l,
      )
      | inl same ↦
          let one : host_class g ≡ host_class h = (eq_iff (host_class g) (host_class h)).0 same in
          (
            class_with classes m g,
            ap (λ k. lookup k (insert (host_class g) (class_with classes m g) classes)) (sym one)
                ∙ lookup-insert (host_class g) (class_with classes m g) classes,
            rw (capacity-class_with-some classes m g ci (ap (λ k. lookup k classes) one ∙ at)) (
                AtMost-trans _ ci.capacity _
                  (λ r q e. (min_capacity-Both ci.capacity (with_pods g.spec.capacity m) r q e).0)
                  l),
          )
    ])
  ]

  gather-Covers :
      (classes : Dict ClassInfo) (hs : List Host) (h : Host)
      → Covers m classes h
      → Covers m (gather m classes hs) h
  unfolding gather
  gather-Covers classes [] h c = c
  gather-Covers classes (g ∷ hs) h c =
      gather-Covers (add_host m classes g) hs h (add_host-Covers classes g h c)

  -- Every listed host with a usable capacity is in a class, and the class promises of each resource no
  -- more than the host has, where the pods are those that the node class sets or the default.
  pub gather-lower_bound :
      (classes : Dict ClassInfo) (before : List Host) (h : Host) (after : List Host)
      → usable_capacity h.spec.capacity ≡ true
      → Covers m (gather m classes (before ++ (h ∷ after))) h
  unfolding gather
  gather-lower_bound classes [] h after usable =
      gather-Covers (add_host m classes h) after h (add_host_self classes h usable)
  gather-lower_bound classes (g ∷ before) h after usable =
      gather-lower_bound (add_host m classes g) before h after usable
