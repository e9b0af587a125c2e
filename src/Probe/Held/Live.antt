-- ===== src/Probe/Held/Live.antt =====
-- The claim of a host under the reconciler: a live one stays, a stale one goes.
use karpenter_provider_ssh.Common.{
  ℕ, String, ◌≡◌, refl, sym, subst, ap, ◌∙◌, Option, none, some, false, not, ◌&&◌, Bool-cases, inl,
  inr, ◌==◌, arith, eq_iff,
}
use karpenter_provider_ssh.Exec.{Result, ok, err}
use karpenter_provider_ssh.Api.Errors.{Error}
use karpenter_provider_ssh.Api.Meta.{Node}
use karpenter_provider_ssh.Api.Host.{Host, ClaimReference, node_ip}
use karpenter_provider_ssh.Api.NodeClaim.{NodeClaim}
use karpenter_provider_ssh.Kube.{Session}
use karpenter_provider_ssh.Kube.Lock.{OptimisticLock}
use karpenter_provider_ssh.Pool.{claim_held_by, cas_patch}
use karpenter_provider_ssh.Instance.{Deps}
use karpenter_provider_ssh.Probe.Facts.{ready_condition}
use karpenter_provider_ssh.Probe.{
  patch_changed, after_cas, set_ready_condition, is_stale, patch_status, node_by_internal_ip,
}
use karpenter_provider_ssh.Probe.Held.{spend_at_node, reconcile_claimed, collect_token, check_claim}

-- The reconciler takes a claim for stale, once it has read the NodeClaim of its name, exactly if the
-- pool would not take the host for held by that NodeClaim.
pub is_stale-claim_held_by :
    (h : Host) (ref : ClaimReference) (nc : NodeClaim)
    → h.status.claim_ref ≡ some ref
    → nc.meta.name ≡ ref.name
    → is_stale ref (ok nc) ≡ ok (not (claim_held_by h nc))
unfolding is_stale claim_held_by
is_stale-claim_held_by h ref nc held named = rw held (ground (arith, eq_iff ref.name nc.meta.name))

-- What an instance provider relies on while it launches a node on a host or backs one with it.
abbrev pub KeepsClaim : Host → Host → Type 0
KeepsClaim h g =
    (g.status.claim_ref ≡ h.status.claim_ref)
    × (g.status.state ≡ h.status.state)
    × (g.status.provider_id ≡ h.status.provider_id)

module _ {W : Type 0} (deps : Deps W) {Seen : Host → Type 0}
    {current : String → String → W → Option Host}
    (lock : OptimisticLock deps.client Seen current) where
  cas_patch-KeepsClaim :
      (orig : Host) (seen : Seen orig) (s : Session W)
      → KeepsClaim s.host (cas_patch deps.client orig s).1.host
  unfolding cas_patch
  cas_patch-KeepsClaim orig seen s =
      patched (deps.client.patch_host_status s.host orig s.world) refl
    where
      patched :
          (r : Result Error Host × W)
          → deps.client.patch_host_status s.host orig s.world ≡ r
          → KeepsClaim s.host (cas_patch deps.client orig s).1.host
      patched (ok h', w') q =
          let (cur, stored, version, same) = lock.patch_current s.host orig h' s.world w' seen q in
          rw (q, cas_patch)
            (ap (λ x. x.claim_ref) same, ap (λ x. x.state) same, ap (λ x. x.provider_id) same)
      patched (err e, w') q = rw (q, cas_patch) (refl, refl, refl)

  KeepsClaim-trans : (h g k : Host) → KeepsClaim h g → KeepsClaim g k → KeepsClaim h k
  KeepsClaim-trans h g k (a, b, c) (x, y, z) = (x ∙ a, y ∙ b, z ∙ c)

  after_cas-state :
      (r : Result Error (Unit {0})) (result : ℕ) (t : Session W)
      → (after_cas deps r (λ u. (ok result, u)) t).1 ≡ t
  unfolding after_cas
  after_cas-state (ok a) result t = refl
  after_cas-state (err e) result t = ground arith

  abbrev ready : Host → Host
  ready h = record h {
    status = record h.status {
      conditions = deps.client.set_status_condition h.status.conditions (ready_condition h);
    };
  }

  patched :
      (orig : Host) (seen : Seen orig) (result : ℕ) (h : Host) (w : W)
      → KeepsClaim h (patch_changed deps orig result (record { host = h; world = w })).1.host
  patched orig seen result h w =
      let (r, t) = cas_patch deps.client orig (record { host = h; world = w }) in
      subst (λ (u : Session W). KeepsClaim h u.host) (sym (after_cas-state r result t))
        (cas_patch-KeepsClaim orig seen (record { host = h; world = w }))

  patch_status-KeepsClaim :
      (orig : Host) (seen : Seen orig) (result : ℕ) (s : Session W)
      → KeepsClaim s.host (patch_status deps orig result s).1.host
  unfolding patch_status set_ready_condition
  patch_status-KeepsClaim orig seen result s =
      elim (Bool-cases (deps.client.status_equal orig.status (ready s.host).status)) [
        | inl same ↦ rw same (refl, refl, refl)
        | inr changed ↦ rw changed (patched orig seen result (ready s.host) s.world)
      ]

  collect_token-KeepsClaim :
      (orig : Host) (seen : Seen orig) (s : Session W)
      → KeepsClaim s.host (collect_token deps orig s).1.host
  unfolding collect_token
  collect_token-KeepsClaim orig seen s =
      elim (Bool-cases
        (not (s.host.status.bootstrap_token_id == "") && not (s.host.status.provider_id == ""))) [
          | inl spent ↦
              rw spent (found (node_by_internal_ip deps (node_ip s.host.spec) s.world) refl)
          | inr kept ↦ rw kept (patch_status-KeepsClaim orig seen _ s)
        ]
    where
      found :
          (r : Result Error (Option Node) × W)
          → node_by_internal_ip deps (node_ip s.host.spec) s.world ≡ r
          → KeepsClaim s.host (spend_at_node deps orig s.host s).1.host
      found (err e, w) q = rw q (refl, refl, refl)
      found (ok none, w) q =
          rw q (patch_status-KeepsClaim orig seen _ (record { host = s.host; world = w }))
      found (ok (some n), w) q =
          deleted (deps.bootstrap.delete_token_by_id s.host.status.bootstrap_token_id w) refl
        where
          deleted :
              (r : Result Error (Unit {0}) × W)
              → deps.bootstrap.delete_token_by_id s.host.status.bootstrap_token_id w ≡ r
              → KeepsClaim s.host (spend_at_node deps orig s.host s).1.host
          deleted (err e, v) p = rw q (rw p (refl, refl, refl))
          deleted (ok a, v) p = rw q (
              rw p (
                patch_status-KeepsClaim orig seen _ (record {
                  host = record s.host {
                    status = record s.host.status { bootstrap_token_id = "" };
                  };
                  world = v;
                })))

  -- A reconcile of a claimed host that was stored, whose claim it does not find stale, leaves the
  -- host with the claim, the state and the providerID that it had, however it ends.
  pub reconcile_claimed-KeepsClaim :
      (orig : Host) (seen : Seen orig) (s : Session W) (w : W)
      → check_claim deps s.host.status.claim_ref s.world ≡ (ok false, w)
      → KeepsClaim s.host (reconcile_claimed deps orig s).1.host
  unfolding reconcile_claimed
  reconcile_claimed-KeepsClaim orig seen s w live =
      rw live (collect_token-KeepsClaim orig seen (record { host = s.host; world = w }))
