-- ===== src/Exec/Pure.antt =====
-- Functions that return a value or an error and touch no state.
use karpenter_provider_ssh.Common.{◌≡◌, refl, Bool, true, false}
use karpenter_provider_ssh.Exec.{Result, ok, err}

module _ {E A B : Type 0} where
  infixl 5 ◌>>=◌ ◌>>◌
  abbrev pub ◌>>=◌ : Result E A → (A → Result E B) → Result E B
  err failed >>= next = err failed
  ok result >>= next = next result

  abbrev pub ◌>>◌ : Result E A → Result E B → Result E B
  m >> n = m >>= λ _. n

-- `if !test { return err }`
abbrev pub require : {E : Type 0} → Bool → E → Result E (Unit {0})
require true e = ok tt
require false e = err e

-- `fmt.Errorf("...: %w", err)` around the error of a call.
abbrev pub or_error : {E F A : Type 0} → (E → F) → Result E A → Result F A
or_error g (ok a) = ok a
or_error g (err e) = err (g e)

-- What the success of a chain says of its parts.
pub >>=-eq-ok :
    {E A B : Type 0} (first : Result E A) (next : A → Result E B) {out : B}
    → (first >>= next) ≡ ok out
    → (mid : A) × (first ≡ ok mid) × (next mid ≡ ok out)
>>=-eq-ok (err failed) next q = cc
>>=-eq-ok (ok mid) next q = (mid, refl, q)

pub require-eq-ok : {E : Type 0} (b : Bool) (e : E) {u : Unit {0}} → require b e ≡ ok u → b ≡ true
require-eq-ok true e h = refl
require-eq-ok false e h = cc

pub or_error-eq-ok :
    {E F A : Type 0} (g : E → F) (r : Result E A) {a : A} → or_error g r ≡ ok a → r ≡ ok a
or_error-eq-ok g (ok b) h = cc
or_error-eq-ok g (err e) h = cc
