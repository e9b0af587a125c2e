-- ===== src/Sshexec/Script.antt =====
-- `Run` of internal/sshexec/sshexec.go: the script that goes to `bash -s`, behind a preamble of
-- exported variables, and `shellQuote`. Dialling and the session are golang.org/x/crypto/ssh's.
pub mod Preamble
use karpenter_provider_ssh.Common.{
  ℕ, String, Bool, true, false, ◌&&◌, ◌||◌, List, [], ◌∷◌, ◌++◌, Dict, bytes, sort_by, leb, eqb,
  ◌==◌, if◌then◌else◌,
}
use Prim.Native.String.{◌++◌ as ◌++ᵗ◌}
use karpenter_provider_ssh.Exec.{Result, ok, err}
use karpenter_provider_ssh.Exec.Pure.{◌>>=◌, ◌>>◌, require}
use karpenter_provider_ssh.Api.Errors.{Error, text}
use karpenter_provider_ssh.Sshexec.Wire.{Bytes}
use karpenter_provider_ssh.Sshexec.Envelope.{is_word_byte, all_word_bytes, by_name}
use karpenter_provider_ssh.Sshexec.Runner.{Target}

-- The replacement of each quote of a text: it closes the quotes, adds an escaped quote and opens
-- them again.
unfoldable pub quote_body : Bytes → Bytes
quote_body [] = []
quote_body (c ∷ s) =
    let rest = quote_body s in if eqb c 39 then 39 ∷ 92 ∷ 39 ∷ 39 ∷ rest else c ∷ rest

-- `shellQuote`
unfoldable pub shell_quote : Bytes → Bytes
unfolding quote_body
shell_quote s = 39 ∷ (quote_body s ++ (39 ∷ []))

-- `^[A-Za-z_][A-Za-z0-9_]*$`
unfoldable pub is_env_name : Bytes → Bool
unfolding all_word_bytes
is_env_name [] = false
is_env_name (c ∷ rest) =
    (leb b'A' c && leb c b'Z' || leb b'a' c && leb c b'z' || eqb c b'_') && all_word_bytes rest

-- `export name=value` and a newline
abbrev pub export_line : String × String → Bytes
export_line (k, v) =
    101
    ∷ 120
    ∷ 112
    ∷ 111
    ∷ 114
    ∷ 116
    ∷ 32
    ∷ (bytes k ++ (61 ∷ (shell_quote (bytes v) ++ (10 ∷ []))))

unfoldable pub exports : List (String × String) → Result Error Bytes
unfolding is_env_name
exports [] = ok []
exports ((k, v) ∷ env) =
    let rest = exports env in
    do
      require (is_env_name (bytes k)) (text ("invalid environment variable name " ++ᵗ k))
      lines ← rest
      ok (export_line (k, v) ++ lines)

-- What `Run` writes to the standard input of the shell, before it dials.
unfoldable pub run_input : String → Dict String → Result Error Bytes
unfolding exports
run_input script env = do
  preamble ← exports (sort_by by_name env)
  ok (bytes "set -euo pipefail" ++ (10 ∷ (preamble ++ bytes script)))

-- `effectiveUser`
unfoldable pub effective_user : Target → String
effective_user t = if t.user == "" then "root" else t.user

-- The command that `Run` starts, and that `RunShim` does.
unfoldable pub run_command : Target → String
unfolding effective_user
run_command t = if effective_user t == "root" then "bash -s" else "sudo bash -s"

abbrev pub default_shim_command : String
default_shim_command = "/opt/kpssh/kpssh-shim"

unfoldable pub shim_command : Target → String
shim_command t = if t.shim_command == "" then default_shim_command else t.shim_command

-- The port that `connect` dials.
unfoldable pub dial_port : Target → ℕ
dial_port t = if eqb t.port 0 then 22 else t.port

-- The host key callback of `connect`: any key on first contact, and the pinned one after it.
unfoldable pub accepts_host_key : Target → String → Bool
accepts_host_key t fingerprint = t.pinned_host_key == "" || t.pinned_host_key == fingerprint
