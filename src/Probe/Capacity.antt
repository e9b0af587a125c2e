-- ===== src/Probe/Capacity.antt =====
-- `warnOnCapacityDrift` of pkg/controllers/hostprobe.go: the warning about a host that has less than
-- its spec promises.
use Prim.Native.String.{◌++◌}
use mathlib.Core.Bool.{false≢true}
use karpenter_provider_ssh.Common.{
  String, ◌≡◌, refl, sym, ◌∙◌, ◌↔◌, ◌⊎◌, inl, inr, Bool, true, false, Bool-cases, not, ◌&&◌, ◌||◌,
  Option, none, some, List, [], ◌∷◌, ◌++◌ as ◌++ˡ◌, lookup, if◌then◌else◌, arith,
}
use karpenter_provider_ssh.Common.Int.{ℤ, less}
use karpenter_provider_ssh.Api.Meta.{ResourceList}
use karpenter_provider_ssh.Api.Host.{Host}
use karpenter_provider_ssh.Pool.{is_some}

-- The text of a quantity is `Quantity.String`.
module _ (show : ℤ → String) where
  abbrev compared : String → Option ℤ → Option ℤ → List String
  compared name (some want) (some got) =
      if less got want
      then (name ++ (": observed " ++ (show got ++ (" < spec " ++ show want)))) ∷ []
      else []
  compared name (some want) none = []
  compared name none got = []

  abbrev short_of : ResourceList → ResourceList → String → List String
  short_of spec observed name = compared name (lookup name spec) (lookup name observed)

  -- `capacityShortfall`
  unfoldable pub capacity_shortfall : ResourceList → ResourceList → List String
  capacity_shortfall spec [] = []
  capacity_shortfall spec (o ∷ observed) =
      short_of spec (o ∷ observed) "cpu" ++ˡ short_of spec (o ∷ observed) "memory"

  abbrev host_shortfall : Host → List String
  host_shortfall h = capacity_shortfall h.spec.capacity h.status.observed_capacity

  abbrev warned : List String → List String → Option (List String)
  warned [] was = none
  warned (n ∷ now) [] = some (n ∷ now)
  warned (n ∷ now) (w ∷ was) = none

  -- `warnOnCapacityDrift`, by whether there is a recorder: what the event lists, if there is one
  unfoldable pub capacity_drift : Bool → Host → Host → Option (List String)
  unfolding capacity_shortfall
  capacity_drift recorder orig host =
      if recorder then warned (host_shortfall host) (host_shortfall orig) else none

  -- The observed amount of a resource is below the one of the spec.
  abbrev pub IsShort : ResourceList → ResourceList → String → Type 0
  IsShort spec observed name =
      (want got : ℤ) × (lookup name spec ≡ some want)
      × (lookup name observed ≡ some got)
      × (less got want ≡ true)

  abbrev pub FallsShort : Host → Type 0
  FallsShort h =
      IsShort h.spec.capacity h.status.observed_capacity "cpu"
      ⊎ IsShort h.spec.capacity h.status.observed_capacity "memory"

  abbrev any : List String → Bool
  any [] = false
  any (s ∷ ss) = true

  compared-IsShort :
      (spec observed : ResourceList) (name : String)
      → (any (short_of spec observed name) ≡ true) ↔ IsShort spec observed name
  compared-IsShort spec observed name =
      (to (lookup name spec) (lookup name observed) refl refl, from)
    where
      to :
          (w g : Option ℤ)
          → lookup name spec ≡ w
          → lookup name observed ≡ g
          → any (compared name w g) ≡ true
          → IsShort spec observed name
      to none g p q h = absurd (false≢true h)
      to (some want) none p q h = absurd (false≢true h)
      to (some want) (some got) p q h = (want, got, p, q, ground arith)

      from : IsShort spec observed name → any (short_of spec observed name) ≡ true
      from (want, got, p, q, short) = rw p (rw q (rw short refl))

  any-append : (xs ys : List String) → any (xs ++ˡ ys) ≡ any xs || any ys
  any-append [] ys = refl
  any-append (x ∷ xs) ys = refl

  nothing_short : (spec : ResourceList) (name : String) → IsShort spec [] name → ⊥
  unfolding lookup
  nothing_short spec name (want, got, p, q, short) = cc

  shortfall-FallsShort :
      (spec observed : ResourceList)
      → (any (capacity_shortfall spec observed) ≡ true)
        ↔ (IsShort spec observed "cpu" ⊎ IsShort spec observed "memory")
  unfolding capacity_shortfall
  shortfall-FallsShort spec [] = (
    λ h. absurd (false≢true h),
    λ x. elim x [
      | inl cpu ↦ absurd (nothing_short spec "cpu" cpu)
      | inr memory ↦ absurd (nothing_short spec "memory" memory)
    ],
  )
  shortfall-FallsShort spec (o ∷ os) = (to, from)
    where
      both :
          any (capacity_shortfall spec (o ∷ os))
          ≡ (any (short_of spec (o ∷ os) "cpu") || any (short_of spec (o ∷ os) "memory"))
      both = any-append (short_of spec (o ∷ os) "cpu") (short_of spec (o ∷ os) "memory")

      to :
          any (capacity_shortfall spec (o ∷ os)) ≡ true
          → IsShort spec (o ∷ os) "cpu" ⊎ IsShort spec (o ∷ os) "memory"
      to h = elim (Bool-cases (any (short_of spec (o ∷ os) "cpu"))) [
        | inl cpu ↦ inl ((compared-IsShort spec (o ∷ os) "cpu").0 cpu)
        | inr rest ↦ inr ((compared-IsShort spec (o ∷ os) "memory").0 (second rest (sym both ∙ h)))
      ]
        where
          second : {b c : Bool} → b ≡ false → b || c ≡ true → c ≡ true
          second p q = ground arith

      from :
          IsShort spec (o ∷ os) "cpu" ⊎ IsShort spec (o ∷ os) "memory"
          → any (capacity_shortfall spec (o ∷ os)) ≡ true
      from (inl cpu) =
          both
          ∙ either_first (any (short_of spec (o ∷ os) "cpu"))
              (any (short_of spec (o ∷ os) "memory")) ((compared-IsShort spec (o ∷ os) "cpu").1 cpu)
        where
          either_first : (b c : Bool) → b ≡ true → b || c ≡ true
          either_first b c p = ground arith
      from (inr memory) =
          both
          ∙ either_second (any (short_of spec (o ∷ os) "cpu"))
              (any (short_of spec (o ∷ os) "memory"))
              ((compared-IsShort spec (o ∷ os) "memory").1 memory)
        where
          either_second : (b c : Bool) → c ≡ true → b || c ≡ true
          either_second b c p = ground arith

  warned-any : (now was : List String) → is_some (warned now was) ≡ (any now && not (any was))
  warned-any [] was = refl
  warned-any (n ∷ now) [] = refl
  warned-any (n ∷ now) (w ∷ was) = refl

  -- The reconciler warns of a host exactly if it has a recorder, the host's observed processors or
  -- memory are below its spec now, and neither was before: once, while the drift lasts.
  pub capacity_drift_lem :
      (recorder : Bool) (orig host : Host)
      → (is_some (capacity_drift recorder orig host) ≡ true)
        ↔ ((recorder ≡ true) × FallsShort host × ¬ FallsShort orig)
  unfolding capacity_drift
  capacity_drift_lem false orig host =
      (λ h. absurd (false≢true h), λ (r, now, was). absurd (false≢true r))
  capacity_drift_lem true orig host = (to, from)
    where
      shortfall : (h : Host) → (any (host_shortfall h) ≡ true) ↔ FallsShort h
      shortfall h = shortfall-FallsShort h.spec.capacity h.status.observed_capacity

      both :
          is_some (warned (host_shortfall host) (host_shortfall orig))
          ≡ (any (host_shortfall host) && not (any (host_shortfall orig)))
      both = warned-any (host_shortfall host) (host_shortfall orig)

      parts : {b c : Bool} → b && not c ≡ true → (b ≡ true) × (c ≡ false)
      parts p = ground arith

      to :
          is_some (warned (host_shortfall host) (host_shortfall orig)) ≡ true
          → (true ≡ true) × FallsShort host × ¬ FallsShort orig
      to h =
          let (now, was) = parts (sym both ∙ h) in
          (refl, (shortfall host).0 now, λ f. false≢true (sym was ∙ (shortfall orig).1 f))

      from :
          (true ≡ true) × FallsShort host × ¬ FallsShort orig
          → is_some (warned (host_shortfall host) (host_shortfall orig)) ≡ true
      from (r, now, was) = elim (Bool-cases (any (host_shortfall orig))) [
        | inl before ↦ absurd (was ((shortfall orig).0 before))
        | inr fresh ↦ both ∙ rw ((shortfall host).1 now) (rw fresh refl)
      ]
