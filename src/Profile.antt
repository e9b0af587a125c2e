-- ===== src/Profile.antt =====
-- internal/profile/profile.go: the scripts of a join profile and the environment they run in.
pub mod Render
pub mod Environment
use Prim.Native.Char.{Char, code}
use Prim.Native.String.{◌++◌}
use karpenter_provider_ssh.Common.{
  length, bytes, ℕ, String, Bool, not, ◌||◌, Option, none, some, List, [], ◌∷◌, Dict, insert,
  lookup, or_empty, map, cut, contains, replace_all, upper_char, map_text, sort_by, text_le, eqb,
  leb, ltb, ◌==◌, if◌then◌else◌,
}
use karpenter_provider_ssh.Common.Int.{ℤ, is_positive}
use karpenter_provider_ssh.Exec.{Result, ok, err}
use karpenter_provider_ssh.Api.Errors.{Error, text, wrapped}
use karpenter_provider_ssh.Api.JoinProfile.{JoinProfile, ProfileTimeouts, ProfileSignatures}

abbrev pub phase_install : String
phase_install = "install"

abbrev pub phase_join : String
phase_join = "join"

abbrev pub phase_leave : String
phase_leave = "leave"

abbrev pub phase_uninstall : String
phase_uninstall = "uninstall"

abbrev pub phase_reboot : String
phase_reboot = "reboot"

pub record Context : Type 0 where
  pub cluster_endpoint : String
  pub cluster_ca_cert : String
  pub bootstrap_token : String
  pub node_name : String
  pub provider_id : String
  pub node_labels : String
  pub register_with_taints : String
  pub host_address : String
  pub node_address : String
  pub vars : Dict String
  pub secrets : Dict String

abbrev pub empty_context : Context
empty_context = record {
  cluster_endpoint = "";
  cluster_ca_cert = "";
  bootstrap_token = "";
  node_name = "";
  provider_id = "";
  node_labels = "";
  register_with_taints = "";
  host_address = "";
  node_address = "";
  vars = [];
  secrets = [];
}

-- Go's text/template: why a script does not parse, and what a parsed one renders to.
pub record Templates : Type 0 where
  pub parse_error : String → String → Option Error
  pub execute : String → String → Context → Result Error String

unfoldable pub underscored : Char → Char
underscored c = if eqb (code c) b'-' || eqb (code c) b'.' then "_" else c

-- `secretEnvName`
unfoldable pub secret_env_name : String → String
unfolding underscored
secret_env_name key = "KPSSH_SECRET_" ++ map_text upper_char (map_text underscored key)

abbrev pub context_env : Context → Dict String
context_env c =
    ("KPSSH_CLUSTER_ENDPOINT", c.cluster_endpoint)
    ∷ ("KPSSH_CLUSTER_CA_B64", c.cluster_ca_cert)
    ∷ ("KPSSH_BOOTSTRAP_TOKEN", c.bootstrap_token)
    ∷ ("KPSSH_NODE_NAME", c.node_name)
    ∷ ("KPSSH_PROVIDER_ID", c.provider_id)
    ∷ ("KPSSH_NODE_LABELS", c.node_labels)
    ∷ ("KPSSH_TAINTS", c.register_with_taints)
    ∷ ("KPSSH_HOST_ADDRESS", c.host_address)
    ∷ ("KPSSH_NODE_ADDRESS", c.node_address)
    ∷ []

unfoldable pub add_vars : Dict String → Dict String → Dict String
add_vars [] env = env
add_vars ((k, v) ∷ vars) env = add_vars vars (insert ("KPSSH_VAR_" ++ k) v env)

abbrev pub collision : String → String → String → Error
collision prev k name =
    text ("secret keys " ++ (prev ++ (" and " ++ (k ++ (" both map to " ++ name)))))

-- The loop over the sorted keys of the secrets: `seen` is the key that each name came from.
unfoldable pub add_secrets :
    Dict String → List String → Dict String → Dict String → Result Error (Dict String)
add_secrets secrets [] seen env = ok env
add_secrets secrets (k ∷ keys) seen env =
    let name = secret_env_name k in
    let rest =
      add_secrets secrets keys (insert name k seen)
        (insert name (or_empty (lookup k secrets)) env) in
    elim (lookup name seen) [ some prev ↦ err (collision prev k name) | none ↦ rest ]

abbrev pub keys : {V : Type 0} → Dict V → List String
keys m = map (λ e. e.0) m

-- `Env`
unfoldable pub environment : Context → Result Error (Dict String)
unfolding add_vars add_secrets
environment c =
    add_secrets c.secrets (sort_by text_le (keys c.secrets)) [] (add_vars c.vars (context_env c))

abbrev pub redaction_placeholder : String
redaction_placeholder = "[REDACTED]"

abbrev pub min_redactable_len : ℕ
min_redactable_len = 8

abbrev token_values : String → List String → List String
token_values token rest =
    if token == ""
    then rest
    else token ∷ elim (cut b'.' token) [ none ↦ rest | some (id, secret) ↦ secret ∷ rest ]

-- The length of a Go string, which counts bytes.
abbrev byte_len : String → ℕ
byte_len s = length (bytes s)

unfoldable pub redact_values : List String → String → String
redact_values [] msg = msg
redact_values (v ∷ values) msg =
    redact_values values
      (if ltb (byte_len v) min_redactable_len then msg else replace_all v redaction_placeholder msg)

-- `Redact`: the longest value first. Values of one length keep the order in which they are collected,
-- which Go leaves open.
unfoldable pub redact : Context → String → String
unfolding redact_values
redact c msg =
    redact_values
      (sort_by (λ a b. leb (byte_len b) (byte_len a))
        (token_values c.bootstrap_token (map (λ e. e.1) c.secrets)))
      msg

unfoldable pub phase_timeout : ProfileTimeouts → String → Option ℤ
phase_timeout t phase =
    if phase == phase_install
    then t.install
    else if phase == phase_join
    then t.join
    else if phase == phase_leave
    then t.leave
    else if phase == phase_reboot
    then t.reboot
    else none

abbrev positive_or : ℤ → Option ℤ → ℤ
positive_or def none = def
positive_or def (some d) = if is_positive d then d else def

-- `Timeout`
unfoldable pub timeout : JoinProfile → String → ℤ → ℤ
unfolding phase_timeout
timeout p phase def = elim p.timeouts [
  | none ↦ def
  | some t ↦ positive_or def (phase_timeout t phase)
]

-- `Script`
unfoldable pub script : JoinProfile → String → String
script p phase =
    if phase == phase_install
    then p.scripts.install
    else if phase == phase_join
    then p.scripts.join
    else if phase == phase_leave
    then p.scripts.leave
    else if phase == phase_uninstall
    then p.scripts.uninstall
    else if phase == phase_reboot
    then p.scripts.reboot
    else ""

unfoldable pub phase_signature : ProfileSignatures → String → String
phase_signature s phase =
    if phase == phase_install
    then s.install
    else if phase == phase_join
    then s.join
    else if phase == phase_leave
    then s.leave
    else if phase == phase_uninstall
    then s.uninstall
    else if phase == phase_reboot
    then s.reboot
    else ""

-- `Signature`
unfoldable pub signature : JoinProfile → String → String
unfolding phase_signature
signature p phase = elim p.signatures [ none ↦ "" | some s ↦ phase_signature s phase ]

-- `HasTemplateActions`
unfoldable pub has_template_actions : String → Bool
has_template_actions raw = contains "{{" raw

abbrev pub known_phase : String → Bool
known_phase phase =
    phase == phase_install
    || phase == phase_join
    || phase == phase_leave
    || phase == phase_uninstall
    || phase == phase_reboot

-- `InstalledMarker`
unfoldable pub installed_marker : JoinProfile → String
installed_marker p = p.name ++ ("@" ++ (if p.version == "" then "1" else p.version))
