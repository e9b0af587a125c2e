-- ===== src/Sshexec/Signature.antt =====
-- `ParseTrustedSigners` and `VerifySSHSIG` of internal/sshexec/sshsig.go. Keys are their wire form,
-- which `Marshal` gives back; what golang.org/x/crypto/ssh, PEM and the hashes do is a parameter.
pub mod Soundness
use karpenter_provider_ssh.Common.{
  ℕ, String, Bool, true, false, not, ◌||◌, Option, none, some, List, [], ◌∷◌, ◌++◌, length, take,
  drop, some_of, bytes, ltb, eqb, ◌==◌, if◌then◌else◌,
}
use Prim.Native.String.{◌++◌ as ◌++ᵗ◌}
use karpenter_provider_ssh.Exec.{Result, ok, err}
use karpenter_provider_ssh.Exec.Pure.{◌>>=◌, ◌>>◌, require, or_error}
use karpenter_provider_ssh.Api.Errors.{Error, text, wrapped}
use karpenter_provider_ssh.Sshexec.Wire.{Bytes, read_ssh_string, append_ssh_string, uint32}

pub record PemBlock : Type 0 where
  pub kind : String
  pub content : Bytes

pub record Crypto : Type 0 where
  -- `ssh.ParseKnownHosts`, of the key of the line
  pub parse_known_hosts : String → Result Error Bytes
  -- `ssh.ParseAuthorizedKey`, `ssh.ParsePublicKey`
  pub parse_authorized_key : String → Result Error Bytes
  pub parse_public_key : Bytes → Result Error Bytes
  -- `pem.Decode`, without the rest
  pub pem_decode : Bytes → Option PemBlock
  pub sha256 : Bytes → Bytes
  pub sha512 : Bytes → Bytes
  -- `PublicKey.Verify`: the key, the signed data, the format and the blob of the signature
  pub verify : Bytes → Bytes → Bytes → Bytes → Result Error (Unit {0})
  -- `strings.TrimSpace`
  pub trim_space : String → String

unfoldable pub same_bytes : Bytes → Bytes → Bool
same_bytes [] [] = true
same_bytes (a ∷ as') (b ∷ bs) = let rest = same_bytes as' bs in if eqb a b then rest else false
same_bytes _ _ = false

abbrev pub default_sign_namespace : String
default_sign_namespace = "kpssh"

-- "SSHSIG"
abbrev pub sshsig_magic : Bytes
sshsig_magic = 83 ∷ 83 ∷ 72 ∷ 83 ∷ 73 ∷ 71 ∷ []

-- `signatureAlgorithms`: ed25519, rsa-sha2-256, rsa-sha2-512, ecdsa-sha2-nistp256, -nistp384 and
-- -nistp521, sk-ssh-ed25519 and sk-ecdsa-sha2-nistp256.
abbrev pub signature_algorithms : List String
signature_algorithms =
    "ssh-ed25519" ∷ "rsa-sha2-256" ∷ "rsa-sha2-512" ∷ "ecdsa-sha2-nistp256" ∷ "ecdsa-sha2-nistp384"
    ∷ "ecdsa-sha2-nistp521" ∷ "sk-ssh-ed25519@openssh.com" ∷ "sk-ecdsa-sha2-nistp256@openssh.com"
    ∷ []

unfoldable pub is_permitted : Bytes → Bool
unfolding some_of
is_permitted format = some_of (λ a. same_bytes (bytes a) format) signature_algorithms

-- The fields of a signature blob, which `VerifySSHSIG` reads in this order.
pub record Fields : Type 0 where
  pub public_key : Bytes
  pub namespace : Bytes
  pub reserved : Bytes
  pub hash_algorithm : Bytes
  pub signature : Bytes

abbrev pub field : String → Bytes → Result Error (Bytes × Bytes)
field name b = or_error (wrapped ("sshsig: " ++ᵗ (name ++ᵗ ": "))) (read_ssh_string b)

unfoldable pub read_fields : Bytes → Result Error Fields
read_fields b = do
  (public_key, rest1) ← field "publickey" b
  (namespace, rest2) ← field "namespace" rest1
  (reserved, rest3) ← field "reserved" rest2
  (hash_algorithm, rest4) ← field "hash_algorithm" rest3
  (signature, rest5) ← field "signature" rest4
  ok (record {
    public_key = public_key;
    namespace = namespace;
    reserved = reserved;
    hash_algorithm = hash_algorithm;
    signature = signature;
  })

abbrev pub check_version : Bytes → Result Error Bytes
check_version (a ∷ b ∷ c ∷ d ∷ rest) =
    if eqb (uint32 a b c d) 1 then ok rest else err (text "sshsig: unsupported version")
check_version short = err (text "sshsig: bad magic")

-- The tests on the magic and the version; what follows them is left.
unfoldable pub read_header : Bytes → Result Error Bytes
unfolding same_bytes uint32
read_header b =
    if ltb (length b) 10 || not (same_bytes (take 6 b) sshsig_magic)
    then err (text "sshsig: bad magic")
    else check_version (drop 6 b)

abbrev pub signature_block : Option PemBlock → Result Error Bytes
signature_block none = err (text "sshsig: not an armored SSH signature")
signature_block (some blk) =
    if blk.kind == "SSH SIGNATURE"
    then ok blk.content
    else err (text "sshsig: not an armored SSH signature")

-- The blob that a signer signs.
unfoldable pub signed_data : Bytes → Bytes → Bytes → Bytes
signed_data namespace algorithm hash =
    append_ssh_string
      (append_ssh_string (append_ssh_string (append_ssh_string sshsig_magic namespace) [])
        algorithm)
      hash

abbrev pub namespace_or_default : String → String
namespace_or_default namespace = if namespace == "" then default_sign_namespace else namespace

abbrev pub any_signers : List Bytes → Bool
any_signers [] = false
any_signers (k ∷ ks) = true

module _ (crypto : Crypto) where
  unfoldable pub parse_signers : List String → Result Error (List Bytes)
  parse_signers [] = ok []
  parse_signers (l ∷ lines) =
      let line = crypto.trim_space l in
      let rest = parse_signers lines in
      if line == "" then rest else do
        key ←
            or_error (wrapped ("parsing trusted signer " ++ᵗ (line ++ᵗ ": ")))
              (crypto.parse_authorized_key line)
        out ← rest
        ok (key ∷ out)

  abbrev some_signers : List Bytes → Result Error (List Bytes)
  some_signers [] = err (text "no trusted signers parsed")
  some_signers (k ∷ ks) = ok (k ∷ ks)

  -- `ParseTrustedSigners`
  unfoldable pub parse_trusted_signers : List String → Result Error (List Bytes)
  unfolding parse_signers
  parse_trusted_signers lines = do out ← parse_signers lines; some_signers out

  -- The `switch` on the hash algorithm.
  unfoldable pub message_hash : Bytes → Bytes → Result Error Bytes
  message_hash algorithm message =
      if same_bytes algorithm (bytes "sha256")
      then ok (crypto.sha256 message)
      else if same_bytes algorithm (bytes "sha512")
      then ok (crypto.sha512 message)
      else err (text "sshsig: unsupported hash")

  -- What `VerifySSHSIG` does with the fields that it has read.
  unfoldable pub verify_fields : Bytes → List Bytes → String → Fields → Result Error (Unit {0})
  unfolding message_hash signed_data some_of is_permitted
  verify_fields message allowed namespace f = do
    require (same_bytes f.namespace (bytes namespace)) (text "sshsig: namespace mismatch")
    key ← or_error (wrapped "sshsig: parse publickey: ") (crypto.parse_public_key f.public_key)
    require (some_of (λ a. same_bytes a key) allowed) (text "sshsig: signer not in the trusted set")
    hash ← message_hash f.hash_algorithm message
    (format, srest) ←
        or_error (wrapped "sshsig: inner signature format: ") (read_ssh_string f.signature)
    (blob, rest) ← or_error (wrapped "sshsig: inner signature blob: ") (read_ssh_string srest)
    require (is_permitted format) (text "sshsig: signature algorithm is not permitted")
    or_error (wrapped "sshsig: signature verification failed: ")
        (crypto.verify key (signed_data f.namespace f.hash_algorithm hash) format blob)

  -- `VerifySSHSIG`. No key of the list is nil: they come from `ParseTrustedSigners`.
  unfoldable pub verify_sshsig : Bytes → Bytes → List Bytes → String → Result Error (Unit {0})
  unfolding verify_fields read_fields read_header
  verify_sshsig message armored allowed namespace = do
    require (any_signers allowed) (text "sshsig: no trusted signers configured")
    b ← signature_block (crypto.pem_decode armored)
    rest ← read_header b
    f ← read_fields rest
    verify_fields message allowed (namespace_or_default namespace) f
