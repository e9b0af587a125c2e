-- ===== src/Sshexec/Envelope.antt =====
-- internal/sshexec/envelope.go: the envelope that goes to kpssh-shim on the host.
pub mod Params
use karpenter_provider_ssh.Common.{
  ℕ, ◌+◌, ◌-◌, ◌*◌, ◌/◌, ◌%◌, String, Bool, true, false, not, ◌&&◌, ◌||◌, Option, none, some, List,
  [], ◌∷◌, ◌++◌, Dict, some_of, bytes, sort_by, text_le, ltb, leb, eqb, ◌==◌, if◌then◌else◌,
}
use Prim.Native.String.{◌++◌ as ◌++ᵗ◌}
use karpenter_provider_ssh.Exec.{Result, ok, err}
use karpenter_provider_ssh.Exec.Pure.{◌>>=◌, ◌>>◌, require}
use karpenter_provider_ssh.Api.Errors.{Error, text, exit_status}
use karpenter_provider_ssh.Sshexec.Wire.{Bytes}

pub record Envelope : Type 0 where
  pub phase : String
  pub script : Bytes
  pub sig : Bytes
  pub params : Dict String

abbrev pub phase_probe : String
phase_probe = "probe"

abbrev pub signed_phases : List String
signed_phases = "install" ∷ "join" ∷ "leave" ∷ "uninstall" ∷ "reboot" ∷ []

-- `validPhase`
unfoldable pub valid_phase : String → Bool
unfolding some_of
valid_phase p = p == phase_probe || some_of (λ s. s == p) signed_phases

-- `IsUnknownPhase`: the shim's exit status for a phase outside its list is 5.
unfoldable pub is_unknown_phase : Error → Bool
unfolding exit_status
is_unknown_phase e = elim (exit_status e) [ none ↦ false | some n ↦ eqb n 5 ]

-- A letter, a digit or an underscore.
abbrev pub is_word_byte : ℕ → Bool
is_word_byte c =
    leb b'A' c && leb c b'Z' || leb b'a' c && leb c b'z' || leb b'0' c && leb c b'9' || eqb c b'_'

unfoldable pub all_word_bytes : Bytes → Bool
all_word_bytes [] = true
all_word_bytes (c ∷ s) = is_word_byte c && all_word_bytes s

-- `^KPSSH_[A-Za-z0-9_]+$`
unfoldable pub is_param_name : Bytes → Bool
unfolding all_word_bytes
is_param_name (k ∷ p ∷ s1 ∷ s2 ∷ h ∷ u ∷ c ∷ rest) =
    eqb k b'K'
    && eqb p b'P'
    && eqb s1 b'S'
    && eqb s2 b'S'
    && eqb h b'H'
    && eqb u b'_'
    && is_word_byte c
    && all_word_bytes rest
is_param_name short = false

unfoldable pub has_newline : Bytes → Bool
has_newline [] = false
has_newline (c ∷ s) = eqb c 10 || has_newline s

-- The alphabet of `base64.StdEncoding`, and the encoding with its padding.
unfoldable pub base64_digit : ℕ → ℕ
base64_digit n =
    if ltb n 26
    then n + 65
    else if ltb n 52
    then n + 71
    else if ltb n 62
    then n - 4
    else if eqb n 62
    then 43
    else 47

unfoldable pub encode_base64 : Bytes → Bytes
unfolding base64_digit
encode_base64 (a ∷ b ∷ c ∷ rest) =
    base64_digit (a / 4)
    ∷ base64_digit (a % 4 * 16 + b / 16)
    ∷ base64_digit (b % 16 * 4 + c / 64)
    ∷ base64_digit (c % 64)
    ∷ encode_base64 rest
encode_base64 (a ∷ b ∷ []) =
    base64_digit (a / 4) ∷ base64_digit (a % 4 * 16 + b / 16) ∷ base64_digit (b % 16 * 4) ∷ 61 ∷ []
encode_base64 (a ∷ []) = base64_digit (a / 4) ∷ base64_digit (a % 4 * 16) ∷ 61 ∷ 61 ∷ []
encode_base64 [] = []

-- `name=value` and a newline
abbrev pub param_line : String × String → Bytes
param_line (k, v) = bytes k ++ (61 ∷ (bytes v ++ (10 ∷ [])))

-- The block of the parameters, in the order of their names.
unfoldable pub params_block : List (String × String) → Result Error Bytes
unfolding is_param_name has_newline
params_block [] = ok []
params_block ((k, v) ∷ ps) =
    let rest = params_block ps in
    do
      require (is_param_name (bytes k)) (text ("invalid param name " ++ᵗ k))
      require (not (has_newline (bytes v)))
          (text ("param " ++ᵗ (k ++ᵗ " value contains a newline")))
      block ← rest
      ok (param_line (k, v) ++ block)

abbrev pub by_name : String × String → String × String → Bool
by_name a b = text_le a.0 b.0

-- A line `name: base64`, left out for an empty payload.
abbrev pub payload_line : String → Bytes → Bytes
payload_line name [] = []
payload_line name (c ∷ s) = bytes name ++ (58 ∷ 32 ∷ (encode_base64 (c ∷ s) ++ (10 ∷ [])))

abbrev pub is_empty : Bytes → Bool
is_empty [] = true
is_empty (c ∷ s) = false

-- The line of the parameters, which stands also where only its payload is empty.
abbrev pub params_line : Dict String → Result Error Bytes
params_line [] = ok []
params_line (p ∷ ps) = do
  block ← params_block (sort_by by_name (p ∷ ps))
  ok (bytes "params-b64" ++ (58 ∷ 32 ∷ (encode_base64 block ++ (10 ∷ []))))

-- `Marshal`
unfoldable pub marshal : Envelope → Result Error Bytes
unfolding valid_phase params_block encode_base64
marshal e = do
  require (valid_phase e.phase) (text ("invalid phase " ++ᵗ e.phase))
  require (e.phase == phase_probe || not (is_empty e.script || is_empty e.sig))
      (text ("phase " ++ᵗ (e.phase ++ᵗ " requires script and signature")))
  params ← params_line e.params
  ok (
      bytes "kpssh-envelope: 1"
      ++ (10
          ∷ (bytes "phase: "
              ++ (bytes e.phase
                  ++ (10
                      ∷ (params
                          ++ (payload_line "sig-b64" e.sig
                              ++ payload_line "script-b64" e.script)))))))
