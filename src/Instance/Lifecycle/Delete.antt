-- ===== src/Instance/Lifecycle/Delete.antt =====
-- `Delete` and `Reboot`: the fence against a host that somebody else has claimed since, and what a
-- `Delete` that succeeds has done.
use karpenter_provider_ssh.Common.{
  ◌≡◌, refl, sym, ◌∙◌, Bool, true, false, Option, none, some, ◌==◌, Bool-cases, inl, inr, arith,
}
use karpenter_provider_ssh.Exec.{Result, ok, err}
use karpenter_provider_ssh.Api.Errors.{Error}
use karpenter_provider_ssh.Api.Host.{Host, ClaimReference}
use karpenter_provider_ssh.Api.NodeClaim.{NodeClaim}
use karpenter_provider_ssh.Kube.{Session}
use karpenter_provider_ssh.Pool.{claim_held_by}
use karpenter_provider_ssh.Instance.{Deps, node_claim_not_found}
use karpenter_provider_ssh.Instance.Phases.{leave_host}
use karpenter_provider_ssh.Instance.Join.{delete_bootstrap_token}
use karpenter_provider_ssh.Instance.Lifecycle.{
  delete, reboot, teardown, teardown_on, delete_found, claim_refusal, reboot_refusal, leave_ok,
}

unheld : (h : Host) (nc : NodeClaim) → h.status.claim_ref ≡ none → claim_held_by h nc ≡ true → ⊥
unfolding claim_held_by
unheld h nc e held = ground arith

module _ {W : Type 0} (deps : Deps W) (nc : NodeClaim) where
  found_unheld :
      (w1 : W) (h : Host) (o : Option ClaimReference)
      → claim_held_by h nc ≡ false
      → delete_found deps nc h o w1 ≡ (err (node_claim_not_found (claim_refusal h nc o)), w1)
  unfolding delete_found
  found_unheld w1 h none other = refl
  found_unheld w1 h (some ref) other = rw other refl

  -- A `Delete` or a `Reboot` whose providerID resolves to a host that the NodeClaim does not hold
  -- finds no NodeClaim, and ends in the world that the lookup left: it runs nothing on the host,
  -- deletes no token and writes nothing.
  pub delete-fenced :
      (w w' : W) (h : Host)
      → deps.pool.by_provider_id nc.provider_id w ≡ (ok h, w')
      → claim_held_by h nc ≡ false
      → ((e : Error) × (delete deps nc w ≡ (err (node_claim_not_found e), w')))
        × ((e : Error) × (reboot deps nc w ≡ (err (node_claim_not_found e), w')))
  unfolding delete reboot
  delete-fenced w w' h found other = (
    (claim_refusal h nc h.status.claim_ref, rw found (found_unheld w' h h.status.claim_ref other)),
    (reboot_refusal h nc, rw found (rw other refl)),
  )

  -- The release that a `Delete` ended with.
  pub record Released (w : W) (w' : W) : Type 0 where
    pub host : Host
    pub looked : W
    pub found : deps.pool.by_provider_id nc.provider_id w ≡ (ok host, looked)
    pub held : claim_held_by host nc ≡ true
    pub healthy : Bool
    pub before : W
    pub after : Session W
    pub released :
        deps.pool.release healthy "leave phase did not complete cleanly"
          (record { host = host; world = before })
        ≡ (ok tt, after)
    pub ends : after.world ≡ w'
    pub clean :
        healthy ≡ true
        → ((host.status.installed_profile == "") ≡ false)
          × ((left : W) × (leave_host deps host looked ≡ (ok tt, left)))

  abbrev CleanAfter : Host → W → Bool → Type 0
  CleanAfter h w healthy =
      healthy ≡ true
      → ((h.status.installed_profile == "") ≡ false)
        × ((left : W) × (leave_host deps h w ≡ (ok tt, left)))

  leave_ok_lem :
      (h : Host) (w : W)
      → (healthy : Bool) × (v : W) × (leave_ok deps (record { host = h; world = w })
          ≡ (ok healthy, record { host = h; world = v }))
        × CleanAfter h w healthy
  unfolding leave_ok
  leave_ok_lem h w = elim (Bool-cases (h.status.installed_profile == "")) [
    | inl bare ↦ (false, w, rw bare refl, λ e. cc)
    | inr installed ↦ ran installed (leave_host deps h w) refl
  ]
    where
      ran :
          (h.status.installed_profile == "") ≡ false
          → (r : Result Error (Unit {0}) × W) → leave_host deps h w ≡ r
          → (healthy : Bool) × (v : W) × (leave_ok deps (record { host = h; world = w })
              ≡ (ok healthy, record { host = h; world = v }))
            × CleanAfter h w healthy
      ran installed (ok a, v) q = (true, v, rw installed (rw q refl), λ e. (installed, (v, q)))
      ran installed (err x, v) q = (false, v, rw installed (rw q refl), λ e. cc)

  delete_bootstrap_token_keeps :
      (h : Host) (w : W)
      → (v : W) × (delete_bootstrap_token deps (record { host = h; world = w })
          ≡ (ok tt, record { host = h; world = v }))
  unfolding delete_bootstrap_token
  delete_bootstrap_token_keeps h w = elim (Bool-cases (h.status.bootstrap_token_id == "")) [
    | inl none_left ↦ (w, rw none_left refl)
    | inr minted ↦
        ((deps.bootstrap.delete_token_by_id h.status.bootstrap_token_id w).1, rw minted refl)
  ]

  teardown-Released :
      (w w1 w' : W) (h : Host)
      → deps.pool.by_provider_id nc.provider_id w ≡ (ok h, w1)
      → claim_held_by h nc ≡ true
      → (t : Session W) → teardown deps (record { host = h; world = w1 }) ≡ (ok tt, t)
      → t.world ≡ w'
      → Released w w'
  unfolding teardown
  teardown-Released w w1 w' h found held t torn ends =
      let (healthy, v, left, clean) = leave_ok_lem h w1 in
      let (v', deleted) = delete_bootstrap_token_keeps h v in
      record {
        host = h;
        looked = w1;
        found = found;
        held = held;
        healthy = healthy;
        before = v';
        after = t;
        released = rw deleted at (rw left at torn);
        ends = ends;
        clean = clean;
      }

  found_held :
      (w1 : W) (h : Host) (o : Option ClaimReference)
      → h.status.claim_ref ≡ o
      → claim_held_by h nc ≡ true
      → delete_found deps nc h o w1 ≡ teardown_on deps h w1
  unfolding delete_found
  found_held w1 h none q held = absurd (unheld h nc q held)
  found_held w1 h (some ref) q held = rw held refl

  delete-held :
      (w w1 : W) (h : Host)
      → deps.pool.by_provider_id nc.provider_id w ≡ (ok h, w1)
      → claim_held_by h nc ≡ true
      → delete deps nc w ≡ teardown_on deps h w1
  unfolding delete
  delete-held w w1 h found held = rw found (found_held w1 h h.status.claim_ref refl held)

  teardown_on-ok :
      (h : Host) (w1 w' : W)
      → teardown_on deps h w1 ≡ (ok tt, w')
      → (t : Session W) × (teardown deps (record { host = h; world = w1 }) ≡ (ok tt, t))
        × (t.world ≡ w')
  unfolding teardown_on
  teardown_on-ok h w1 w' e = torn (teardown deps (record { host = h; world = w1 })) refl
    where
      torn :
          (r : Result Error (Unit {0}) × Session W)
          → teardown deps (record { host = h; world = w1 }) ≡ r
          → (t : Session W) × (teardown deps (record { host = h; world = w1 }) ≡ (ok tt, t))
            × (t.world ≡ w')
      torn (ok a, t) p = (t, p, ground arith)
      torn (err x, t) p = absurd (ground arith)

  -- A `Delete` that succeeds found a host that the NodeClaim holds and released it, with the status
  -- that it had found; and it released the host as healthy only after the leave phase of the host's
  -- installed profile had succeeded.
  pub delete-Released : (w w' : W) → delete deps nc w ≡ (ok tt, w') → Released w w'
  unfolding delete
  delete-Released w w' e = looked (deps.pool.by_provider_id nc.provider_id w) refl
    where
      looked :
          (r : Result Error Host × W)
          → deps.pool.by_provider_id nc.provider_id w ≡ r
          → Released w w'
      looked (err x, w1) q = absurd (ground arith)
      looked (ok h, w1) q = elim (Bool-cases (claim_held_by h nc)) [
        | inl held ↦
            let (t, torn, ends) = teardown_on-ok h w1 w' (sym (delete-held w w1 h q held) ∙ e) in
            teardown-Released w w1 w' h q held t torn ends
        | inr other ↦ absurd (refused (delete-fenced w w1 h q other).0)
      ]
        where
          refused : ((x : Error) × (delete deps nc w ≡ (err (node_claim_not_found x), w1))) → ⊥
          refused (x, p) = cc
