-- ===== src/Gate/Strip.antt =====
-- Which taints the gates may remove: only startup taints of the NodeClaim that a gate names.
use mathlib.Core.List.{Mem}
use karpenter_provider_ssh.Common.{
  ℕ, String, ◌≡◌, refl, subst, ◌⊎◌, inl, inr, Bool, true, false, not, Bool-cases, List, [], ◌∷◌,
  All, some_of, mem-keep, ◌==◌, eq_iff, eq_refl, arith,
}
use karpenter_provider_ssh.Exec.{Result, ok, err}
use karpenter_provider_ssh.Api.Errors.{Error}
use karpenter_provider_ssh.Api.Meta.{Taint}
use karpenter_provider_ssh.Api.NodeClass.{StartupTaintGate}
use karpenter_provider_ssh.Api.NodeClaim.{NodeClaim}
use karpenter_provider_ssh.Gate.{
  GateClient, GatedNode, has_taint_key, open_gates, evaluate, kept_taints,
}

-- Some gate of a list names a key.
abbrev pub gated : List StartupTaintGate → String → Bool
gated gates key = some_of (λ g. g.taint_key == key) gates

hit :
    (P : String → Type 0) (keys : List String) (x : String)
    → All P keys
    → some_of (λ k. k == x) keys ≡ true
    → P x
unfolding some_of
hit P [] x a e = cc
hit P (k ∷ keys) x a e = elim (Bool-cases (k == x)) [
  | inl same ↦ subst P ((eq_iff k x).0 same) a.0
  | inr other ↦ hit P keys x a.1 (ground arith)
]

module _ {W : Type 0} (c : GateClient W) (node : GatedNode) (nc : NodeClaim) where
  abbrev Removable : List StartupTaintGate → String → Type 0
  Removable gates key = (has_taint_key nc.startup_taints key ≡ true) × (gated gates key ≡ true)

  abbrev Outcome : List StartupTaintGate → Result Error (List String × ℕ) × W → Type 0
  Outcome gates (ok (keys, pending), w) = All (Removable gates) keys
  Outcome gates (err e, w) = Unit

  weaken :
      (gate : StartupTaintGate) (gates : List StartupTaintGate) (keys : List String)
      → All (Removable gates) keys
      → All (Removable (gate ∷ gates)) keys
  unfolding some_of
  weaken gate gates [] a = tt
  weaken gate gates (k ∷ keys) ((s, g), a) = ((s, ground arith), weaken gate gates keys a)

  weaken-Outcome :
      (gate : StartupTaintGate) (gates : List StartupTaintGate)
      (r : Result Error (List String × ℕ) × W)
      → Outcome gates r
      → Outcome (gate ∷ gates) r
  weaken-Outcome gate gates (ok (keys, n), w) a = weaken gate gates keys a
  weaken-Outcome gate gates (err e, w) a = tt

  named :
      (gate : StartupTaintGate) (gates : List StartupTaintGate)
      → gated (gate ∷ gates) gate.taint_key ≡ true
  unfolding some_of
  named gate gates = rw (eq_refl gate.taint_key) refl

  open_gates-Outcome :
      (gates : List StartupTaintGate) (w : W) → Outcome gates (open_gates c node nc gates w)
  unfolding open_gates
  open_gates-Outcome [] w = tt
  open_gates-Outcome (gate ∷ gates) w =
      elim (Bool-cases (has_taint_key node.taints gate.taint_key)) [
        | inr gone ↦ rw gone (weaken-Outcome gate gates _ (open_gates-Outcome gates w))
        | inl there ↦ elim (Bool-cases (has_taint_key nc.startup_taints gate.taint_key)) [
          | inr kept ↦ rw there (rw kept (weaken-Outcome gate gates _ (open_gates-Outcome gates w)))
          | inl startup ↦
              opened startup there (open_gates-Outcome gates) (evaluate c node gate.remove_when w)
                refl
        ]
      ]
    where
      opened :
          has_taint_key nc.startup_taints gate.taint_key ≡ true
          → has_taint_key node.taints gate.taint_key ≡ true
          → ((v : W) → Outcome gates (open_gates c node nc gates v))
          → (r : Result Error Bool × W) → evaluate c node gate.remove_when w ≡ r
          → Outcome (gate ∷ gates) (open_gates c node nc (gate ∷ gates) w)
      opened startup there rec (err e, v) q = rw there (rw startup (rw q tt))
      opened startup there rec (ok b, v) q = rest b q (open_gates c node nc gates v) refl (rec v)
        where
          rest :
              (b : Bool)
              → evaluate c node gate.remove_when w ≡ (ok b, v)
              → (r : Result Error (List String × ℕ) × W) → open_gates c node nc gates v ≡ r
              → Outcome gates (open_gates c node nc gates v)
              → Outcome (gate ∷ gates) (open_gates c node nc (gate ∷ gates) w)
          rest b q' (err e, u) p o = rw there (rw startup (rw q' (rw p tt)))
          rest true q' (ok (keys, n), u) p o = rw there (
              rw startup (
                rw q' (
                  rw p (
                    (startup, named gate gates),
                    weaken gate gates keys (subst (Outcome gates) p o),
                  ))))
          rest false q' (ok (keys, n), u) p o =
              rw there
                (rw startup (rw q' (rw p (weaken gate gates keys (subst (Outcome gates) p o)))))

  -- A taint of the node that is not a startup taint of the NodeClaim, or that no gate of the list
  -- names, is among those that are kept when the keys of the open gates are removed.
  pub open_gates-kept :
      (gates : List StartupTaintGate) (w w' : W) (keys : List String) (pending : ℕ) (t : Taint)
      → open_gates c node nc gates w ≡ (ok (keys, pending), w')
      → Mem t node.taints
      → (has_taint_key nc.startup_taints t.key ≡ false) ⊎ (gated gates t.key ≡ false)
      → Mem t (kept_taints keys node.taints)
  unfolding kept_taints
  open_gates-kept gates w w' keys pending t e m fixed =
      (mem-keep (λ x. not (some_of (λ k. k == x.key) keys)) t node.taints).1
        (m, spared (Bool-cases (some_of (λ k. k == t.key) keys)))
    where
      spared :
          (some_of (λ k. k == t.key) keys ≡ true) ⊎ (some_of (λ k. k == t.key) keys ≡ false)
          → not (some_of (λ k. k == t.key) keys) ≡ true
      spared (inr out) = rw out refl
      spared (inl taken) =
          let (startup, gate_named) =
            hit (Removable gates) keys t.key (subst (Outcome gates) e (open_gates-Outcome gates w))
              taken in
          absurd (ground arith)
