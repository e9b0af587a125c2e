-- ===== src/Sshexec/Dial/Plain.antt =====
-- The errors that `Run` and `RunShim` report before they dial carry no exit status.
use karpenter_provider_ssh.Common.{
  String, ◌≡◌, refl, Bool, true, false, none, List, [], ◌∷◌, Dict, sort_by,
}
use karpenter_provider_ssh.Exec.{Result, ok, err}
use karpenter_provider_ssh.Exec.Pure.{◌>>=◌, require}
use karpenter_provider_ssh.Api.Errors.{Error, text, exit_status}
use karpenter_provider_ssh.Sshexec.Wire.{Bytes}
use karpenter_provider_ssh.Sshexec.Envelope.{Envelope, marshal, params_block, params_line, by_name}
use karpenter_provider_ssh.Sshexec.Script.{run_input, exports}
use karpenter_provider_ssh.Sshexec.Dial.{built}

-- A result whose error has no exit status.
abbrev pub Plain : {A : Type 0} → Result Error A → Type 0
Plain (ok a) = Unit
Plain (err e) = exit_status e ≡ none

require-Plain : (b : Bool) (s : String) → Plain (require b (text s))
unfolding exit_status
require-Plain true s = tt
require-Plain false s = refl

bind-Plain :
    {A B : Type 0} (r : Result Error A) (f : A → Result Error B)
    → Plain r
    → ((a : A) → Plain (f a))
    → Plain (r >>= f)
bind-Plain (ok a) f p q = q a
bind-Plain (err e) f p q = p

exports-Plain : (env : List (String × String)) → Plain (exports env)
unfolding exports
exports-Plain [] = tt
exports-Plain ((k, v) ∷ env) = search (bind-Plain, require-Plain, exports-Plain env)

pub run_input-Plain : (script : String) (env : Dict String) → Plain (run_input script env)
unfolding run_input
run_input-Plain script env =
    bind-Plain (exports (sort_by by_name env)) _ (exports-Plain (sort_by by_name env)) (λ l. tt)

params_block-Plain : (ps : List (String × String)) → Plain (params_block ps)
unfolding params_block
params_block-Plain [] = tt
params_block-Plain ((k, v) ∷ ps) = search (bind-Plain, require-Plain, params_block-Plain ps)

params_line-Plain : (ps : List (String × String)) → Plain (params_line ps)
params_line-Plain [] = tt
params_line-Plain (p ∷ ps) =
    bind-Plain (params_block (sort_by by_name (p ∷ ps))) _
      (params_block-Plain (sort_by by_name (p ∷ ps))) (λ b. tt)

pub marshal-Plain : (e : Envelope) → Plain (marshal e)
unfolding marshal
marshal-Plain e = search (bind-Plain, require-Plain, params_line-Plain)

pub built-Plain : (r : Result Error Bytes) → Plain r → Plain (built r)
unfolding exit_status
built-Plain (ok wire) p = tt
built-Plain (err e) p = p
