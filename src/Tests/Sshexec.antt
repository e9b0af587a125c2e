-- ===== src/Tests/Sshexec.antt =====
-- The theorems on the SSH executor at small inputs.
use karpenter_provider_ssh.Common.{String, ◌≡◌, refl, some, List, [], ◌∷◌, ◌++◌, map, bytes, arith}
use karpenter_provider_ssh.Exec.{ok}
use karpenter_provider_ssh.Sshexec.Wire.{read_ssh_string, append_ssh_string, put_uint32}
use karpenter_provider_ssh.Sshexec.Signature.{Fields, read_fields, verify_sshsig}
use karpenter_provider_ssh.Sshexec.Signature.Soundness.{
  IsVerified, verify_sshsig-IsVerified, encode_fields, read_fields-encode_fields,
}
use karpenter_provider_ssh.Sshexec.Envelope.{params_block}
use karpenter_provider_ssh.Sshexec.Envelope.Params.{
  read_params, read_params-params_block, entry_bytes,
}
use karpenter_provider_ssh.Sshexec.Script.{exports, export_line}
use karpenter_provider_ssh.Sshexec.Script.Preamble.{read_exports, read_exports-exports}
use karpenter_provider_ssh.Example.Services.{crypto}

abbrev small : Fields
small = record {
  public_key = 1 ∷ [];
  namespace = 2 ∷ [];
  reserved = [];
  hash_algorithm = 3 ∷ [];
  signature = 4 ∷ 5 ∷ [];
}

read_fields-encode_fields_example : read_fields (encode_fields small) ≡ ok small
read_fields-encode_fields_example =
    read_fields-encode_fields small
      (omega arith, omega arith, omega arith, omega arith, omega arith)

verify_sshsig-IsVerified_example : IsVerified crypto [] [] (bytes "k" ∷ []) "kpssh"
unfolding verify_sshsig append_ssh_string put_uint32 bytes read_ssh_string
verify_sshsig-IsVerified_example =
    verify_sshsig-IsVerified crypto [] [] (bytes "k" ∷ []) "kpssh" refl

abbrev variables : List (String × String)
variables = ("A", "it's") ∷ ("B", "") ∷ []

read_exports-exports_example :
    read_exports 2 ((export_line ("A", "it's") ++ (export_line ("B", "") ++ [])) ++ bytes "true")
    ≡ some (map entry_bytes variables, bytes "true")
unfolding exports bytes
read_exports-exports_example =
    read_exports-exports variables (export_line ("A", "it's") ++ (export_line ("B", "") ++ []))
      (bytes "true") refl

abbrev params : List (String × String)
params = ("KPSSH_A", "1") ∷ []

read_params-params_block_example :
    read_params (bytes "KPSSH_A=1\n") ≡ map (λ p. some (entry_bytes p)) params
unfolding params_block bytes
read_params-params_block_example = read_params-params_block params (bytes "KPSSH_A=1\n") refl
