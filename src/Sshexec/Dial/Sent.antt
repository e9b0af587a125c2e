-- ===== src/Sshexec/Dial/Sent.antt =====
-- `Run` and `RunShim`: what every end of theirs says of the command and of the host.
use karpenter_provider_ssh.Common.{
  ℕ, String, ◌≡◌, refl, ◌⊎◌, inl, inr, Bool-cases, true, Option, none, some, Dict, arith, eq_iff,
}
use karpenter_provider_ssh.Exec.{Result, ok, err}
use karpenter_provider_ssh.Api.Errors.{Error, text, exit_status}
use karpenter_provider_ssh.Sshexec.Wire.{Bytes}
use karpenter_provider_ssh.Sshexec.HostKey.{fingerprint}
use karpenter_provider_ssh.Sshexec.Envelope.{Envelope, marshal}
use karpenter_provider_ssh.Sshexec.Runner.{Target, RunResult}
use karpenter_provider_ssh.Sshexec.Script.{
  run_input, run_command, shim_command, accepts_host_key, effective_user,
}
use karpenter_provider_ssh.Sshexec.Dial.Plain.{Plain, run_input-Plain, marshal-Plain, built-Plain}
use karpenter_provider_ssh.Sshexec.Dial.{
  Ending, cancelled, finished, failed, Ssh, Report, connect, run_session, run, run_shim, send,
  built, connected, handshake_deadline, dial_timeout, address, opened, ended, keyed, dialled,
  offered, shaken, seen_key,
}

-- What the host key callback accepts: the pinned key, or any key where none is pinned.
abbrev pub Trusted : Target → String → Type 0
Trusted t fp = (t.pinned_host_key ≡ "") ⊎ (t.pinned_host_key ≡ fp)

accepts_host_key-Trusted : (t : Target) (fp : String) → accepts_host_key t fp ≡ true → Trusted t fp
unfolding accepts_host_key
accepts_host_key-Trusted t fp h =
    ground (arith, eq_iff t.pinned_host_key "", eq_iff t.pinned_host_key fp)

module _ {W Signer Conn Client Session : Type 0} (ssh : Ssh W Signer Conn Client Session)
    (deadline : Option ℕ) where
  -- What golang.org/x/crypto/ssh documents of its errors: only the run of a command gives an
  -- `ssh.ExitError`, and the end of a context is none.
  pub record ExitErrors : Type 0 where
    pub parse : (key : String) → Plain (ssh.parse_private_key key)
    pub dial :
        (limit : ℕ) (d : Option ℕ) (address : String) (w : W) → Plain (ssh.dial limit d address w).0
    pub exchange : (conn : Conn) (w : W) → Plain (ssh.exchange conn w).0
    pub authenticate :
        (conn : Conn) (user : String) (signer : Signer) (w : W)
        → Plain (ssh.authenticate conn user signer w).0
    pub rejected : (m : String) → exit_status (ssh.rejected (text m)) ≡ none
    pub new_session : (client : Client) (w : W) → Plain (ssh.new_session client w).0
    pub run :
        (session : Session) (cmd : String) (input : Bytes) (u v : W) (out errors : String)
        (e : Error)
        → ssh.run session deadline cmd input u ≡ ((out, errors, cancelled e), v)
        → exit_status e ≡ none

  -- The client of a connection whose host has shown the key with this fingerprint in the handshake:
  -- the host key is trusted, and only then the client has authenticated.
  abbrev pub Reached : Target → Client → String → Type 0
  Reached t client fp =
      (conn : Conn) × (signer : Signer) × (key : Bytes) × (u v w : W) × (ssh.exchange conn u
        ≡ (ok key, v))
      × (fp ≡ fingerprint ssh.crypto key)
      × Trusted t fp
      × (ssh.authenticate conn (effective_user t) signer v ≡ (ok client, w))

  -- The run of a command with its input in a session of such a client, and what it gave.
  abbrev pub Ran : Target → String → Bytes → String → String → String → Ending → Type 0
  Ran t cmd input fp out errors ending =
      (client : Client) × (session : Session) × (u v y : W) × Reached t client fp
      × (ssh.new_session client u ≡ (ok session, v))
      × (ssh.run session deadline cmd input v ≡ ((out, errors, ending), y))

  -- The result of a command: what it wrote, and the fingerprint of the key of its host.
  abbrev pub Told : Option RunResult → String → String → String → Type 0
  Told res fp out errors =
      res ≡ some (record { stdout = out; stderr = errors; host_key_fingerprint = fp })

  -- The ends of a call that sends a command and its input.
  abbrev pub Sent : Target → String → Bytes → Report (Unit {0}) → Type 0
  Sent t cmd input (res, ok a) =
      (fp out errors : String) × Ran t cmd input fp out errors finished × Told res fp out errors
  Sent t cmd input (res, err e) =
      (exit_status e ≡ none)
      ⊎ ((fp out errors : String) × (x : Error) × Ran t cmd input fp out errors (failed x)
          × Told res fp out errors
          × (exit_status e ≡ exit_status x))

  module _ (exits : ExitErrors) (t : Target) (cmd : String) (input : Bytes) where
    abbrev Ends : Report (Unit {0}) × W → Type 0
    Ends p = Sent t cmd input p.0

    ended-Ends :
        (client : Client) (session : Session) (fp : String) (u v : W)
        (o : (String × String × Ending) × W)
        → Reached t client fp
        → ssh.new_session client u ≡ (ok session, v)
        → ssh.run session deadline cmd input v ≡ o
        → Ends (ended ssh deadline client (seen_key fp) o)
    unfolding exit_status
    ended-Ends client session fp u v ((out, errors, finished), y) reached opened q =
        (fp, out, errors, (client, session, u, v, y, reached, opened, q), refl)
    ended-Ends client session fp u v ((out, errors, cancelled e), y) reached opened q =
        inl (exits.run session cmd input v y out errors e q)
    ended-Ends client session fp u v ((out, errors, failed e), y) reached opened q =
        inr (fp, out, errors, e, (client, session, u, v, y, reached, opened, q), refl, refl)

    opened-Ends :
        (client : Client) (fp : String) (r : Result Error Session) (u w : W)
        → Reached t client fp
        → ssh.new_session client u ≡ (r, w)
        → Plain r
        → Ends (opened ssh deadline client cmd input (seen_key fp) (r, w))
    unfolding exit_status
    opened-Ends client fp (err e) u w reached q plain = inl plain
    opened-Ends client fp (ok session) u w reached q plain =
        ended-Ends client session fp u w (ssh.run session deadline cmd input w) reached q refl

    run_session-Ends :
        (client : Client) (fp : String) (w : W)
        → Reached t client fp
        → Ends (run_session ssh deadline client cmd input (seen_key fp) w)
    unfolding run_session
    run_session-Ends client fp w reached =
        opened-Ends client fp (ssh.new_session client w).0 w (ssh.new_session client w).1 reached
          refl (exits.new_session client w)

    shaken-Ends :
        (conn : Conn) (signer : Signer) (key : Bytes) (r : Result Error Client) (u v w : W)
        → ssh.exchange conn u ≡ (ok key, v)
        → Trusted t (fingerprint ssh.crypto key)
        → ssh.authenticate conn (effective_user t) signer v ≡ (r, w)
        → Plain r
        → Ends (
            connected ssh deadline cmd input
              (shaken ssh deadline t conn (fingerprint ssh.crypto key) (r, w)))
    unfolding exit_status
    shaken-Ends conn signer key (err e) u v w shown trusted q plain = inl plain
    shaken-Ends conn signer key (ok client) u v w shown trusted q plain =
        run_session-Ends client (fingerprint ssh.crypto key) (ssh.set_deadline conn none w)
          (conn, signer, key, u, v, w, shown, refl, trusted, q)

    offered-Ends :
        (conn : Conn) (signer : Signer) (r : Result Error Bytes) (u w : W)
        → ssh.exchange conn u ≡ (r, w)
        → Plain r
        → Ends (connected ssh deadline cmd input (offered ssh deadline t conn signer (r, w)))
    unfolding exit_status
    offered-Ends conn signer (err e) u w shown plain = inl plain
    offered-Ends conn signer (ok key) u w shown plain =
        elim (Bool-cases (accepts_host_key t (fingerprint ssh.crypto key))) [
          | inl good ↦ rw good (
              shaken-Ends conn signer key (ssh.authenticate conn (effective_user t) signer w).0 u w
                (ssh.authenticate conn (effective_user t) signer w).1 shown
                (accepts_host_key-Trusted t (fingerprint ssh.crypto key) good) refl
                (exits.authenticate conn (effective_user t) signer w))
          | inr bad ↦ rw bad (inl (exits.rejected _))
        ]

    dialled-Ends :
        (signer : Signer) (r : Result Error Conn) (w : W)
        → Plain r
        → Ends (connected ssh deadline cmd input (dialled ssh deadline t signer (r, w)))
    unfolding exit_status
    dialled-Ends signer (err e) w plain = inl plain
    dialled-Ends signer (ok conn) w plain =
        let v = ssh.set_deadline conn (some (handshake_deadline (ssh.now w) deadline)) w in
        offered-Ends conn signer (ssh.exchange conn v).0 v (ssh.exchange conn v).1 refl
          (exits.exchange conn v)

    keyed-Ends :
        (r : Result Error Signer) (w : W)
        → Plain r
        → Ends (connected ssh deadline cmd input (keyed ssh deadline t r w))
    unfolding exit_status
    keyed-Ends (err e) w plain = inl plain
    keyed-Ends (ok signer) w plain =
        dialled-Ends signer (ssh.dial dial_timeout deadline (address t) w).0
          (ssh.dial dial_timeout deadline (address t) w).1
          (exits.dial dial_timeout deadline (address t) w)

    connected-Ends : (w : W) → Ends (connected ssh deadline cmd input (connect ssh deadline t w))
    unfolding connect
    connected-Ends w =
        keyed-Ends (ssh.parse_private_key t.private_key) w (exits.parse t.private_key)

  -- The ends of a call that builds the input first.
  abbrev pub SentBuilt : Target → String → Result Error Bytes → Report (Unit {0}) → Type 0
  SentBuilt t cmd (ok input) report = Sent t cmd input report
  SentBuilt t cmd (err e) report = (report ≡ (none, err e)) × (exit_status e ≡ none)

  send-SentBuilt :
      (exits : ExitErrors) (t : Target) (cmd : String) (input : Result Error Bytes) (w : W)
      → Plain input
      → SentBuilt t cmd input (send ssh deadline t cmd input w).0
  send-SentBuilt exits t cmd (err e) w plain = (refl, plain)
  send-SentBuilt exits t cmd (ok input) w plain = connected-Ends exits t cmd input w

  -- However `Run` ends: without an error, the shell of the login user has read the preamble and the
  -- script and exited with zero, in a session of a client that authenticated only after its host had
  -- shown, in the handshake, the pinned key, if one is pinned, and the result has the fingerprint of
  -- that shown key; with an error that carries an exit status, the shell has ended with that status in
  -- such a session; and an invalid variable name is reported without a result.
  pub run-SentBuilt :
      (exits : ExitErrors) (t : Target) (script : String) (env : Dict String) (w : W)
      → SentBuilt t (run_command t) (run_input script env) (run ssh deadline t script env w).0
  unfolding run
  run-SentBuilt exits t script env w =
      send-SentBuilt exits t (run_command t) (run_input script env) w (run_input-Plain script env)

  -- The same of `RunShim`: the command is the shim, which has read the envelope, and an envelope that
  -- cannot be built is reported without a result.
  pub run_shim-SentBuilt :
      (exits : ExitErrors) (t : Target) (e : Envelope) (w : W)
      → SentBuilt t (shim_command t) (built (marshal e)) (run_shim ssh deadline t e w).0
  unfolding run_shim
  run_shim-SentBuilt exits t e w =
      send-SentBuilt exits t (shim_command t) (built (marshal e)) w
        (built-Plain (marshal e) (marshal-Plain e))
