-- ===== src/Sshexec/HostKey.antt =====
-- The fingerprints of host keys in internal/sshexec/sshexec.go.
use Prim.Native.Char.{Char}
use Prim.Native.String.{◌++◌}
use karpenter_provider_ssh.Common.{
  ℕ, zero, suc, ◌+◌, ◌*◌, ◌/◌, ◌%◌, String, none, some, [], ◌∷◌, cut_prefix, ◌==◌, if◌then◌else◌,
}
use karpenter_provider_ssh.Exec.{Result, ok, err}
use karpenter_provider_ssh.Api.Errors.{Error, text}
use karpenter_provider_ssh.Sshexec.Wire.{Bytes}
use karpenter_provider_ssh.Sshexec.Signature.{Crypto}

unfoldable pub nth_char : ℕ → String → Char
nth_char n String.[] = "="
nth_char zero (String.◌∷◌ c s) = c
nth_char (suc n) (String.◌∷◌ c s) = nth_char n s

-- A digit of base64.
unfoldable pub sextet : ℕ → String → String
unfolding nth_char
sextet n rest =
    String.◌∷◌ (nth_char n "ABCDEFGHIJKLMNOPQRSTUVWXYZabcdefghijklmnopqrstuvwxyz0123456789+/") rest

-- Standard base64 without its padding.
unfoldable pub unpadded_base64 : Bytes → String
unfolding sextet
unpadded_base64 [] = ""
unpadded_base64 (a ∷ []) = sextet (a / 4) (sextet (a % 4 * 16) "")
unpadded_base64 (a ∷ b ∷ []) =
    sextet (a / 4) (sextet (a % 4 * 16 + b / 16) (sextet (b % 16 * 4) ""))
unpadded_base64 (a ∷ b ∷ c ∷ rest) = sextet (a / 4) (
    sextet (a % 4 * 16 + b / 16)
      (sextet (b % 16 * 4 + c / 64) (sextet (c % 64) (unpadded_base64 rest))))

module _ (crypto : Crypto) where
  -- `Fingerprint`
  unfoldable pub fingerprint : Bytes → String
  unfolding unpadded_base64
  fingerprint key = "SHA256:" ++ unpadded_base64 (crypto.sha256 key)

  abbrev from_key_line : Result Error Bytes → Result Error String
  from_key_line (ok key) = ok (fingerprint key)
  from_key_line (err e) = err (
      text
        "host key material is neither a SHA256 fingerprint, a known_hosts line, nor a public key")

  abbrev from_known_hosts : String → Result Error Bytes → Result Error String
  from_known_hosts s (ok key) = ok (fingerprint key)
  from_known_hosts s (err e) = from_key_line (crypto.parse_authorized_key s)

  abbrev from_material : String → Result Error String
  from_material s =
      if s == "" then err (text "empty host key material") else elim (cut_prefix "SHA256:" s) [
        | some digest ↦ ok s
        | none ↦ from_known_hosts s (crypto.parse_known_hosts (s ++ "\n"))
      ]

  -- `PinnedFingerprintFromKnownHost`
  unfoldable pub pinned_fingerprint : String → Result Error String
  unfolding fingerprint cut_prefix
  pinned_fingerprint material = from_material (crypto.trim_space material)
