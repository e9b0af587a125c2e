-- ===== src/HostStates/Deletes.antt =====
-- `Delete` of pkg/providers/instance over the host provider of pkg/providers/host: its write is a
-- step of the life of the host.
use karpenter_provider_ssh.Common.{
  String, ap, ◌≡◌, refl, sym, ◌∙◌, subst, Bool, true, false, Option, none, some, List, [], ◌∷◌,
  ◌==◌, Bool-cases, inl, inr, first, cut, cut_prefix, All,
}
use karpenter_provider_ssh.Exec.{Result, ok, err}
use karpenter_provider_ssh.Exec.Keep.{Keeps}
use karpenter_provider_ssh.Api.Errors.{Error}
use karpenter_provider_ssh.Api.Host.{Host, ClaimReference, provider_prefix}
use karpenter_provider_ssh.Api.NodeClaim.{NodeClaim}
use karpenter_provider_ssh.Kube.{Session, HostExec}
use karpenter_provider_ssh.Pool.{
  by_provider_id, by_prefixed, by_path, by_adopted_id, found, list, claim_held_by, is_some,
}
use karpenter_provider_ssh.Pool.Interface.{default_provider}
use karpenter_provider_ssh.Instance.{Deps}
use karpenter_provider_ssh.Instance.Phases.{leave_host}
use karpenter_provider_ssh.Instance.Join.{delete_bootstrap_token}
use karpenter_provider_ssh.Instance.Lifecycle.{
  left, leave_ok, teardown, teardown_on, delete_found, delete,
}
use karpenter_provider_ssh.HostStates.{owned}
use karpenter_provider_ssh.HostStates.Server.{Server}
use karpenter_provider_ssh.HostStates.Calm.{leave_host-Keeps}
use karpenter_provider_ssh.HostStates.Write.{Sound}
use karpenter_provider_ssh.HostStates.Owners.{release-Sound}

module _ {W : Type 0} {deps : Deps W} {Known : Host → Type 0} {Inv : W → Type 0}
    (server : Server deps Known Inv) (ns : String)
    (pooled : deps.pool ≡ default_provider deps.client ns) where
  -- A read of a host gives one that was stored.
  abbrev Given : {E : Type 0} → Result E Host × W → Type 0
  Given (ok h, w) = Inv w × Known h
  Given (err e, w) = Inv w

  found-Given :
      (id : String) (p : Host → Bool) (hosts : List Host) (w : W)
      → All Known hosts
      → Inv w
      → Given (found deps.client ns id (first p hosts) w)
  unfolding first
  found-Given id p [] w known i = i
  found-Given id p (h ∷ hs) w (k, ks) i = elim (Bool-cases (p h)) [
    | inl hit ↦ rw hit (i, k)
    | inr miss ↦ rw miss (found-Given id p hs w ks i)
  ]

  by_adopted_id-Given : (id : String) (w : W) → Inv w → Given (by_adopted_id deps.client ns id w)
  unfolding by_adopted_id list
  by_adopted_id-Given id w i = split (deps.client.list_hosts ns none w) refl
    where
      split :
          (r : Result Error (List Host) × W)
          → deps.client.list_hosts ns none w ≡ r
          → Given (by_adopted_id deps.client ns id w)
      split (err e, v) q = rw q (subst (λ z. Inv z.1) q (server.list-Inv ns none w i))
      split (ok hosts, v) q = rw q (
          found-Given id (λ h. h.status.provider_id == id) hosts v
            (server.list_known ns none w v hosts i q)
            (subst (λ z. Inv z.1) q (server.list-Inv ns none w i)))

  get-Given : (space name : String) (w : W) → Inv w → Given (deps.client.get_host space name w)
  get-Given space name w i = split (deps.client.get_host space name w) refl
    where
      split :
          (r : Result Error Host × W)
          → deps.client.get_host space name w ≡ r
          → Given (deps.client.get_host space name w)
      split (err e, v) q = rw q (subst (λ z. Inv z.1) q (server.get-Inv space name w i))
      split (ok h, v) q = rw q (
        subst (λ z. Inv z.1) q (server.get-Inv space name w i),
        server.get_known space name w v h i q,
      )

  by_prefixed-Given :
      (id : String) (o : Option String) (w : W) → Inv w → Given (by_prefixed deps.client ns id o w)
  by_prefixed-Given id none w i = by_adopted_id-Given id w i
  by_prefixed-Given id (some rest) w i = path (cut b'/' rest)
    where
      path : (o : Option (String × String)) → Given (by_path deps.client ns id o w)
      path none = i
      path (some (space, name)) = get-Given space name w i

  by_provider_id-Given : (id : String) (w : W) → Inv w → Given (by_provider_id deps.client ns id w)
  unfolding by_provider_id
  by_provider_id-Given id w i = elim (Bool-cases (id == "")) [
    | inl empty ↦ rw empty i
    | inr full ↦ rw full (by_prefixed-Given id (cut_prefix provider_prefix id) w i)
  ]

  -- An action that does not fail, leaves the host in hand alone and keeps the invariant.
  abbrev Spares : {A : Type 0} → HostExec W A → Type 0
  Spares {A} m =
      (s : Session W)
      → Inv s.world
      → (a : A) × (w : W) × (m s ≡ (ok a, record { host = s.host; world = w })) × Inv w

  leave_ok-Spares : Spares (leave_ok deps)
  unfolding leave_ok
  leave_ok-Spares s i = elim (Bool-cases (s.host.status.installed_profile == "")) [
    | inl bare ↦ (false, s.world, rw bare refl, i)
    | inr installed ↦ (
      left deps (leave_host deps s.host s.world).0,
      (leave_host deps s.host s.world).1,
      rw installed refl,
      leave_host-Keeps server s.host s.world i,
    )
  ]

  delete_bootstrap_token-Spares : Spares (delete_bootstrap_token deps)
  unfolding delete_bootstrap_token
  delete_bootstrap_token-Spares s i = elim (Bool-cases (s.host.status.bootstrap_token_id == "")) [
    | inl bare ↦ (tt, s.world, rw bare refl, i)
    | inr issued ↦
        (tt, _, rw issued refl, server.token-Inv s.host.status.bootstrap_token_id s.world i)
  ]

  teardown-Sound :
      (s : Session W)
      → Known s.host
      → owned s.host.status.state ≡ true
      → Inv s.world
      → Sound server (teardown deps s).1
  unfolding teardown
  teardown-Sound s known held i =
      let (clean, w, q, j) = leave_ok-Spares s i in
      let (t, v, p, k) = delete_bootstrap_token-Spares (record { host = s.host; world = w }) j in
      rw q (
        rw p (
          subst
            (λ provider.
              Inv
                (provider.release clean "leave phase did not complete cleanly"
                  (record { host = s.host; world = v })).1.world)
            (sym pooled)
            (release-Sound server clean "leave phase did not complete cleanly"
              (record { host = s.host; world = v }) known held k)))

  delete_found-Keeps :
      (nc : NodeClaim) (h : Host) → Known h → Keeps Inv (delete_found deps nc h h.status.claim_ref)
  unfolding delete_found teardown_on
  delete_found-Keeps nc h known w i = by_claim h.status.claim_ref refl
    where
      by_claim :
          (o : Option ClaimReference) → h.status.claim_ref ≡ o → Inv (delete_found deps nc h o w).1
      by_claim none q = i
      by_claim (some ref) q = elim (Bool-cases (claim_held_by h nc)) [
        | inl mine ↦ rw mine (
            teardown-Sound (record { host = h; world = w }) known
              (sym (server.known-WellFormed h known).0 ∙ ap is_some q) i)
        | inr other ↦ rw other i
      ]

  -- `Delete` writes nothing but the release of the host that the NodeClaim holds, along an edge of the
  -- state machine.
  pub delete-Keeps : (nc : NodeClaim) → Keeps Inv (delete deps nc)
  unfolding delete
  delete-Keeps nc w i = split (deps.pool.by_provider_id nc.provider_id w) refl (
      subst (λ p. Given (p.by_provider_id nc.provider_id w)) (sym pooled)
        (by_provider_id-Given nc.provider_id w i))
    where
      split :
          (r : Result Error Host × W)
          → deps.pool.by_provider_id nc.provider_id w ≡ r
          → Given r
          → Inv (delete deps nc w).1
      split (err e, v) q j = rw q j
      split (ok h, v) q (j, known) = rw q (delete_found-Keeps nc h known v j)
