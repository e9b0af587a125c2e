-- ===== src/Api/Errors.antt =====
-- Go's error values, as far as the program looks into them: the chains that `fmt.Errorf` and `%w`
-- build, the reason of an API error, the exit status of a command, and `configError` of
-- pkg/providers/instance/instance.go.
use karpenter_provider_ssh.Common.{ℕ, String, Bool, true, false, Option, none, some}
use Prim.Native.String.{◌++◌}

pub data Reason : Type 0 where
  conflict not_found other : Reason

pub data Error : Type 0 where
  text : String → Error
  wrapped : String → Error → Error
  api : Reason → String → Error
  exit : ℕ → String → Error
  config : Error → Error

unfoldable pub message : Error → String
message (text m) = m
message (wrapped prefix e) = prefix ++ message e
message (api r m) = m
message (exit n m) = m
message (config e) = message e

abbrev reason_is_conflict : Reason → Bool
reason_is_conflict conflict = true
reason_is_conflict _ = false

abbrev reason_is_not_found : Reason → Bool
reason_is_not_found not_found = true
reason_is_not_found _ = false

-- `apierrors.IsConflict`, `apierrors.IsNotFound` and `errors.As` look through the whole chain.
unfoldable pub is_conflict : Error → Bool
is_conflict (api r m) = reason_is_conflict r
is_conflict (wrapped prefix e) = is_conflict e
is_conflict (config e) = is_conflict e
is_conflict _ = false

unfoldable pub is_not_found : Error → Bool
is_not_found (api r m) = reason_is_not_found r
is_not_found (wrapped prefix e) = is_not_found e
is_not_found (config e) = is_not_found e
is_not_found _ = false

unfoldable pub is_config_error : Error → Bool
is_config_error (config e) = true
is_config_error (wrapped prefix e) = is_config_error e
is_config_error _ = false

unfoldable pub exit_status : Error → Option ℕ
exit_status (exit n m) = some n
exit_status (wrapped prefix e) = exit_status e
exit_status (config e) = exit_status e
exit_status _ = none
