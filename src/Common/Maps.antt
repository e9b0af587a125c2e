-- ===== src/Common/Maps.antt =====
-- What a map holds after an insertion.
use package.karpenter_provider_ssh.Common.Tests.{if◌then◌else◌, Bool-cases}
use text.Mathlib.Text.{◌==◌}
use text.Mathlib.TextEquality.{eq_iff}
use text.Mathlib.TextPositions.{eq_refl}
use package.karpenter_provider_ssh.Common.Lists.{Dict, insert, lookup}
use Prim.Native.String.{String}
use mathlib.Core.Path.{◌≡◌, refl, ◌∙◌, ap}
use mathlib.Core.Logic.{inl, inr}
use mathlib.Core.Bool.{false}
use mathlib.Core.Option.{some}
use mathlib.Core.List.{[], ◌∷◌}

module _ {ℓ} {V : Type ℓ} where
  pub lookup-insert : (k : String) (v : V) (m : Dict V) → lookup k (insert k v m) ≡ some v
  unfolding lookup insert
  lookup-insert k v [] = rw (eq_refl k) refl
  lookup-insert k v ((j, w) ∷ m) = elim (Bool-cases (j == k)) [
    | inl same ↦ rw same (rw (eq_refl k) refl)
    | inr other ↦ rw other (rw other (lookup-insert k v m))
  ]

  pub lookup-insert_other :
      (j k : String) (v : V) (m : Dict V)
      → ((k == j) ≡ false)
      → lookup j (insert k v m) ≡ lookup j m
  unfolding lookup insert
  lookup-insert_other j k v [] other = rw other refl
  lookup-insert_other j k v ((i, w) ∷ m) other = elim (Bool-cases (i == k)) [
    | inl same ↦
        let apart : (i == j) ≡ false = ap (λ x. x == j) ((eq_iff i k).0 same) ∙ other in
        rw same (rw other (rw apart refl))
    | inr differs ↦
        rw differs (ap (λ r. if i == j then some w else r) (lookup-insert_other j k v m other))
  ]
