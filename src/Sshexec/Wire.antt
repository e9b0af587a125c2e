-- ===== src/Sshexec/Wire.antt =====
-- The length-prefixed strings of the SSH wire format (`readSSHString`, `appendSSHString` of
-- internal/sshexec/sshsig.go).
use karpenter_provider_ssh.Common.{
  ℕ, ◌+◌, ◌*◌, ◌/◌, ◌%◌, ◌^◌, ◌<◌, ◌≡◌, List, [], ◌∷◌, ◌++◌, length, take, drop, length-append,
  take-append, drop-append, ltb, arith, if◌then◌else◌,
}
use karpenter_provider_ssh.Exec.{Result, ok, err}
use karpenter_provider_ssh.Api.Errors.{Error, text}

abbrev pub Bytes : Type 0
Bytes = List ℕ

-- `binary.BigEndian.PutUint32` of a number converted to `uint32`
unfoldable pub put_uint32 : ℕ → Bytes
put_uint32 n = (n / 2 ^ 24 % 256) ∷ (n / 2 ^ 16 % 256) ∷ (n / 2 ^ 8 % 256) ∷ (n % 256) ∷ []

unfoldable pub uint32 : ℕ → ℕ → ℕ → ℕ → ℕ
uint32 a b c d = a * 2 ^ 24 + b * 2 ^ 16 + c * 2 ^ 8 + d

abbrev body : ℕ → Bytes → Result Error (Bytes × Bytes)
body n b = if ltb (length b) n then err (text "truncated string body") else ok (take n b, drop n b)

-- `readSSHString`: the string and what follows it.
unfoldable pub read_ssh_string : Bytes → Result Error (Bytes × Bytes)
unfolding uint32
read_ssh_string (a ∷ b ∷ c ∷ d ∷ rest) = body (uint32 a b c d) rest
read_ssh_string short = err (text "truncated length prefix")

-- `appendSSHString`
unfoldable pub append_ssh_string : Bytes → Bytes → Bytes
append_ssh_string dst s = dst ++ (put_uint32 (length s) ++ s)

uint32-put_uint32 :
    (n : ℕ)
    → n < 2 ^ 32
    → uint32 (n / 2 ^ 24 % 256) (n / 2 ^ 16 % 256) (n / 2 ^ 8 % 256) (n % 256) ≡ n
unfolding uint32
uint32-put_uint32 n h = omega arith

body_lem : (s rest : Bytes) → body (length s) (s ++ rest) ≡ ok (s, rest)
body_lem s rest = rw (take-append s rest, drop-append s rest) (ground (arith, length-append s rest))

-- What is appended as a string is read back whole, and what follows it is left, for every string
-- shorter than 2^32 bytes.
pub read-append_ssh_string :
    (s rest : Bytes)
    → length s < 2 ^ 32
    → read_ssh_string (append_ssh_string [] s ++ rest) ≡ ok (s, rest)
unfolding read_ssh_string append_ssh_string put_uint32
read-append_ssh_string s rest h = rw (uint32-put_uint32 (length s) h) (body_lem s rest)
