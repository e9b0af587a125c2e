-- ===== src/Exec/Chain.antt =====
-- What the outcome of a chain of actions says of its parts.
use karpenter_provider_ssh.Common.{◌≡◌, refl, ◌⊎◌, inl, inr, arith}
use karpenter_provider_ssh.Exec.{Result, ok, err, Exec, map_error, ◌>>=◌}

module _ {S E A B : Type 0} (first : Exec S E A) (next : A → Exec S E B) (s t : S) where
  pub >>=-eq-ok :
      {out : B}
      → (first >>= next) s ≡ (ok out, t)
      → (mid : A) × (u : S) × (first s ≡ (ok mid, u)) × (next mid u ≡ (ok out, t))
  >>=-eq-ok {out} h = split (first s) refl
    where
      split :
          (r : Result E A × S)
          → first s ≡ r
          → (mid : A) × (u : S) × (first s ≡ (ok mid, u)) × (next mid u ≡ (ok out, t))
      split (ok mid, u) q = (mid, u, q, ground arith)
      split (err e, u) q = absurd (ground arith)

  -- A chain fails where its first action or the rest does.
  pub >>=-eq-err :
      {e : E}
      → (first >>= next) s ≡ (err e, t)
      → (first s ≡ (err e, t))
        ⊎ ((mid : A) × (u : S) × (first s ≡ (ok mid, u)) × (next mid u ≡ (err e, t)))
  >>=-eq-err {e} h = split (first s) refl
    where
      split :
          (r : Result E A × S)
          → first s ≡ r
          → (first s ≡ (err e, t))
            ⊎ ((mid : A) × (u : S) × (first s ≡ (ok mid, u)) × (next mid u ≡ (err e, t)))
      split (ok mid, u) q = inr (mid, u, q, ground arith)
      split (err x, u) q = inl (ground arith)

module _ {S E F A : Type 0} (g : E → F) (m : Exec S E A) (s t : S) where
  pub map_error-eq-ok : {a : A} → map_error g m s ≡ (ok a, t) → m s ≡ (ok a, t)
  map_error-eq-ok {a} h = split (m s) refl
    where
      split : (r : Result E A × S) → m s ≡ r → m s ≡ (ok a, t)
      split (ok b, u) q = ground arith
      split (err e, u) q = absurd (ground arith)

  pub map_error-eq-err :
      {f : F} → map_error g m s ≡ (err f, t) → (e : E) × (m s ≡ (err e, t)) × (f ≡ g e)
  map_error-eq-err {f} h = split (m s) refl
    where
      split : (r : Result E A × S) → m s ≡ r → (e : E) × (m s ≡ (err e, t)) × (f ≡ g e)
      split (ok b, u) q = absurd (ground arith)
      split (err e, u) q = (e, ground arith, ground arith)
