-- ===== src/Exec.antt =====
-- Go functions that read and write the world and may return an error: an action takes the state and
-- gives back a value or an error beside the new state. What was done before an error stays done.
pub mod Pure
pub mod Chain
pub mod Keep
use karpenter_provider_ssh.Common.{◌≡◌}

pub data Result (E A : Type 0) : Type 0 where
  ok : A → Result E A
  err : E → Result E A

abbrev pub Exec : Type 0 → Type 0 → Type 0 → Type 0
Exec S E A = S → Result E A × S

module _ {S E A : Type 0} where
  abbrev pub pure : A → Exec S E A
  pure a s = (ok a, s)

  abbrev pub raise : E → Exec S E A
  raise e s = (err e, s)

  abbrev pub lift : Result E A → Exec S E A
  lift r s = (r, s)

  -- The value and the error of a call as a value, for a caller that looks at both.
  abbrev pub attempt : Exec S E A → Exec S E (Result E A)
  attempt m s = let (r, t) = m s in (ok r, t)

module _ {S E A B : Type 0} where
  abbrev pub continue : Result E A → (A → Exec S E B) → Exec S E B
  continue (ok a) f s = f a s
  continue (err e) f s = (err e, s)

  infixl 5 ◌>>=◌ ◌>>◌
  abbrev pub ◌>>=◌ : Exec S E A → (A → Exec S E B) → Exec S E B
  ◌>>=◌ m f s = let (r, t) = m s in continue r f t

  abbrev pub ◌>>◌ : Exec S E A → Exec S E B → Exec S E B
  m >> n = m >>= λ _. n

-- Another error in place of the one that a call returns.
module _ {E F A : Type 0} where
  abbrev pub map_error_result : (E → F) → Result E A → Result F A
  map_error_result g (ok a) = ok a
  map_error_result g (err e) = err (g e)

module _ {S E F A : Type 0} where
  abbrev pub map_error : (E → F) → Exec S E A → Exec S F A
  map_error g m s = let (r, t) = m s in (map_error_result g r, t)

abbrev pub result_or : {E A : Type 0} → A → Result E A → A
result_or a (ok b) = b
result_or a (err e) = a
