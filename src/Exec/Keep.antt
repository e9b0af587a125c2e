-- ===== src/Exec/Keep.antt =====
-- Chains of actions preserve a property of the state if their parts do, whatever they return.
use karpenter_provider_ssh.Common.{◌≡◌, refl, Bool, true, false, if◌then◌else◌}
use karpenter_provider_ssh.Exec.{Result, ok, err, Exec, continue, ◌>>=◌}

-- An action that preserves a property of the state.
abbrev pub Keeps : {S E A : Type 0} → (S → Type 0) → Exec S E A → Type 0
Keeps {S} Held m = (s : S) → Held s → Held (m s).1

-- A chain at the point where its first action has ended: the rest need only preserve the property
-- where that action has not failed.
pub continue-Held :
    {S E A B : Type 0} (Held : S → Type 0) (r : Result E A) (next : A → Exec S E B) (s : S)
    → Held s
    → ((a : A) → r ≡ ok a → Held s → Held (next a s).1)
    → Held (continue r next s).1
continue-Held Held (err e) next s held onward = held
continue-Held Held (ok a) next s held onward = onward a refl held

-- A step of a chain preserves a property of the world if its parts do.
pub >>=-Held :
    {W E A B : Type 0} (Held : W → Type 0) (first : Exec W E A) (next : A → Exec W E B) (w : W)
    → Held (first w).1
    → ((a : A) (v : W) → first w ≡ (ok a, v) → Held v → Held (next a v).1)
    → Held ((first >>= next) w).1
>>=-Held {W = W} {E = E} {A = A} Held first next w held onward = split (first w) refl held
  where
    split : (r : Result E A × W) → first w ≡ r → Held r.1 → Held ((first >>= next) w).1
    split (err e, v) q h = rw q h
    split (ok a, v) q h = rw q (onward a v q h)

pub if-Held :
    {W E A : Type 0} (Held : W → Type 0) (b : Bool) (m n : Exec W E A) (w : W)
    → Held (m w).1
    → Held (n w).1
    → Held ((if b then m else n) w).1
if-Held Held true m n w first second = first
if-Held Held false m n w first second = second
