-- ===== src/Sshexec/Dial.antt =====
-- `connect`, `runSession`, `Run` and `RunShim` of internal/sshexec/sshexec.go, over the SSH client of
-- golang.org/x/crypto/ssh and the TCP dialer of Go as parameters.
pub mod Plain
pub mod Sent
use Prim.Native.String.{◌++◌}
use karpenter_provider_ssh.Common.{
  ℕ, zero, suc, ◌+◌, ◌-◌, ◌/◌, ◌%◌, String, Bool, true, false, not, ◌||◌, Option, none, some, List,
  [], ◌∷◌, Dict, bytes, length, drop, ltb, leb, ◌==◌, if◌then◌else◌,
}
use karpenter_provider_ssh.Common.Int.{ℤ, pos, negsuc}
use karpenter_provider_ssh.Exec.{Result, ok, err, Exec}
use karpenter_provider_ssh.Api.Errors.{Error, text, wrapped}
use karpenter_provider_ssh.Sshexec.Wire.{Bytes}
use karpenter_provider_ssh.Sshexec.Signature.{Crypto}
use karpenter_provider_ssh.Sshexec.HostKey.{fingerprint, nth_char}
use karpenter_provider_ssh.Sshexec.Envelope.{Envelope, marshal}
use karpenter_provider_ssh.Sshexec.Runner.{Target, RunResult, Runners}
use karpenter_provider_ssh.Sshexec.Script.{
  run_input, run_command, shim_command, effective_user, dial_port, accepts_host_key,
}

-- How a command ended: the context ended first, the command exited with zero, or it failed.
pub data Ending : Type 0 where
  cancelled : Error → Ending
  finished : Ending
  failed : Error → Ending

-- What the program asks of the network and of the SSH client, over a world `W`: signers, TCP
-- connections, clients and sessions are the client's own. `exchange` is the part of
-- `ssh.NewClientConn` before its host key callback, of which it gives the key, and `authenticate`
-- the part after it.
pub record Ssh (W Signer Conn Client Session : Type 0) : Type 0 where
  pub crypto : Crypto
  pub now : W → ℕ
  pub parse_private_key : String → Result Error Signer
  -- `DialContext`, by the timeout of the dialer, the deadline of the context and the address
  pub dial : ℕ → Option ℕ → String → Exec W Error Conn
  -- `SetDeadline`, without an argument for the zero time
  pub set_deadline : Conn → Option ℕ → W → W
  pub exchange : Conn → Exec W Error Bytes
  pub authenticate : Conn → String → Signer → Exec W Error Client
  -- The error of `ssh.NewClientConn` for one of the callback
  pub rejected : Error → Error
  pub close_conn : Conn → W → W
  pub close_client : Client → W → W
  pub new_session : Client → Exec W Error Session
  -- The command and its input, bounded by the deadline of the context: what it wrote, and its end
  pub run : Session → Option ℕ → String → Bytes → W → (String × String × Ending) × W
  pub close_session : Session → W → W
  -- The text that bytes read as
  pub decode : Bytes → String

-- A `*Result`, if there is one, beside a value or an error.
abbrev pub Report : Type 0 → Type 0
Report A = Option RunResult × Result Error A

-- `%d`
unfoldable pub digits : ℕ → ℕ → String → String
unfolding nth_char
digits zero n rest = rest
digits (suc fuel) n rest =
    let more = String.◌∷◌ (nth_char (n % 10) "0123456789") rest in
    let longer = digits fuel (n / 10) more in if ltb n 10 then more else longer

unfoldable pub decimal : ℕ → String
unfolding digits
decimal n = digits (suc n) n ""

-- `cfg.Timeout`, in nanoseconds
abbrev pub dial_timeout : ℕ
dial_timeout = 15_000_000_000

abbrev pub address : Target → String
address t = t.address ++ (":" ++ decimal (dial_port t))

-- `tail`, of a text whose surrounding space is trimmed
unfoldable pub tail : Bytes → ℕ → Bytes
tail s n = if leb (length s) n then s else 226 ∷ 128 ∷ 166 ∷ drop (length s - n) s

-- The deadline of the handshake: that of the context, if it has one and it is the earlier one.
unfoldable pub handshake_deadline : ℕ → Option ℕ → ℕ
handshake_deadline now none = now + dial_timeout
handshake_deadline now (some deadline) =
    if ltb deadline (now + dial_timeout) then deadline else now + dial_timeout

abbrev pub no_output : RunResult
no_output = record { stdout = ""; stderr = ""; host_key_fingerprint = "" }

abbrev pub seen_key : String → RunResult
seen_key fp = record { stdout = ""; stderr = ""; host_key_fingerprint = fp }

abbrev pub key_mismatch : Target → String → Error
key_mismatch t fp = text (
    "host key mismatch for "
    ++ (address t ++ (": pinned " ++ (t.pinned_host_key ++ (", got " ++ fp)))))

abbrev pub built : Result Error Bytes → Result Error Bytes
built (ok wire) = ok wire
built (err e) = err (wrapped "building envelope: " e)

module _ {W Signer Conn Client Session : Type 0} (ssh : Ssh W Signer Conn Client Session)
    (deadline : Option ℕ) where
  abbrev pub handshake_error : Target → Error → Error
  handshake_error t e = wrapped ("ssh handshake with " ++ (address t ++ ": ")) e

  -- The end of a handshake, whose failure closes the connection.
  abbrev pub shaken : Target → Conn → String → Result Error Client × W → Report Client × W
  shaken t conn fp (ok client, w) = ((some (seen_key fp), ok client), ssh.set_deadline conn none w)
  shaken t conn fp (err e, w) =
      ((some (seen_key fp), err (handshake_error t e)), ssh.close_conn conn w)

  -- The host key callback, and the rest of the handshake behind it.
  abbrev pub offered : Target → Conn → Signer → Result Error Bytes × W → Report Client × W
  offered t conn signer (err e, w) =
      ((some no_output, err (handshake_error t e)), ssh.close_conn conn w)
  offered t conn signer (ok key, w) =
      let fp = fingerprint ssh.crypto key in
      shaken t conn fp (
        if accepts_host_key t fp
        then ssh.authenticate conn (effective_user t) signer w
        else (err (ssh.rejected (key_mismatch t fp)), w))

  abbrev pub dialled : Target → Signer → Result Error Conn × W → Report Client × W
  dialled t signer (err e, w) =
      ((some no_output, err (wrapped ("dialing " ++ (address t ++ ": ")) e)), w)
  dialled t signer (ok conn, w) =
      let v = ssh.set_deadline conn (some (handshake_deadline (ssh.now w) deadline)) w in
      offered t conn signer (ssh.exchange conn v)

  abbrev pub keyed : Target → Result Error Signer → W → Report Client × W
  keyed t (err e) w = ((none, err (wrapped "parsing private key: " e)), w)
  keyed t (ok signer) w = dialled t signer (ssh.dial dial_timeout deadline (address t) w)

  -- `connect`
  unfoldable pub connect : Target → W → Report Client × W
  unfolding fingerprint accepts_host_key effective_user handshake_deadline decimal
  connect t w = keyed t (ssh.parse_private_key t.private_key) w

  abbrev pub with_output : RunResult → String → String → RunResult
  with_output res out errors = record res { stdout = out; stderr = errors }

  -- The `select` of `runSession`.
  abbrev pub ended : Client → RunResult → (String × String × Ending) × W → Report (Unit {0}) × W
  ended client res ((out, errors, finished), w) = ((some (with_output res out errors), ok tt), w)
  ended client res ((out, errors, cancelled e), w) = (
    (some (with_output res out errors), err (wrapped "script timed out: " e)),
    ssh.close_client client w,
  )
  ended client res ((out, errors, failed e), w) = (
    (
      some (with_output res out errors),
      err (
          wrapped
            ("script failed (stderr tail: "
              ++ (ssh.decode (tail (bytes (ssh.crypto.trim_space errors)) 800) ++ "): "))
            e),
    ),
    w,
  )

  abbrev pub closing : Session → Report (Unit {0}) × W → Report (Unit {0}) × W
  closing session (r, w) = (r, ssh.close_session session w)

  abbrev pub opened :
      Client → String → Bytes → RunResult → Result Error Session × W → Report (Unit {0}) × W
  opened client cmd input res (err e, w) = ((some res, err (wrapped "opening session: " e)), w)
  opened client cmd input res (ok session, w) =
      closing session (ended client res (ssh.run session deadline cmd input w))

  -- `runSession`
  unfoldable pub run_session : Client → String → Bytes → RunResult → W → Report (Unit {0}) × W
  unfolding tail
  run_session client cmd input res w = opened client cmd input res (ssh.new_session client w)

  abbrev pub hang_up : Client → Report (Unit {0}) × W → Report (Unit {0}) × W
  hang_up client (r, w) = (r, ssh.close_client client w)

  abbrev pub result_of : Option RunResult → RunResult
  result_of none = no_output
  result_of (some res) = res

  -- `Run` and `RunShim` behind `connect`.
  abbrev pub connected : String → Bytes → Report Client × W → Report (Unit {0}) × W
  connected cmd input ((res, err e), w) = ((res, err e), w)
  connected cmd input ((res, ok client), w) =
      hang_up client (run_session client cmd input (result_of res) w)

  abbrev pub send : Target → String → Result Error Bytes → W → Report (Unit {0}) × W
  send t cmd (err e) w = ((none, err e), w)
  send t cmd (ok input) w = connected cmd input (connect t w)

  -- `Run`
  unfoldable pub run : Target → String → Dict String → W → Report (Unit {0}) × W
  unfolding run_input run_command connect run_session
  run t script env w = send t (run_command t) (run_input script env) w

  -- `RunShim`
  unfoldable pub run_shim : Target → Envelope → W → Report (Unit {0}) × W
  unfolding marshal shim_command connect run_session
  run_shim t e w = send t (shim_command t) (built (marshal e)) w

-- `context.WithTimeout`, by the time left
unfoldable pub deadline_after : ℤ → ℕ → Option ℕ
deadline_after (pos n) now = some (now + n)
deadline_after (negsuc n) now = some (now - suc n)

-- What a caller goes on with: the result, or the error alone.
abbrev pub outcome : {W : Type 0} → Report (Unit {0}) × W → Result Error RunResult × W
outcome ((res, err e), w) = (err e, w)
outcome ((none, ok a), w) = (ok no_output, w)
outcome ((some res, ok a), w) = (ok res, w)

-- `Run` and `RunShim` as the runners of the providers.
abbrev pub ssh_runners :
    {W Signer Conn Client Session : Type 0} → Ssh W Signer Conn Client Session → Runners W
ssh_runners ssh = record {
  run = λ limit t script env w. outcome (run ssh (deadline_after limit (ssh.now w)) t script env w);
  run_shim = λ limit t e w. outcome (run_shim ssh (deadline_after limit (ssh.now w)) t e w);
}
