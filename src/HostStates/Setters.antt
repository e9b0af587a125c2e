-- ===== src/HostStates/Setters.antt =====
-- `setStatus` of pkg/providers/host, by which the setters of a claimed host write: each of its
-- writes, those after a lost race included, is a step of the life of the host.
use karpenter_provider_ssh.Common.{
  ℕ, zero, suc, String, ◌≡◌, refl, sym, ◌∙◌, subst, true, Option, none, some, Bool-cases, inl, inr,
}
use karpenter_provider_ssh.Exec.{Result, ok, err}
use karpenter_provider_ssh.Api.Errors.{Error, is_conflict}
use karpenter_provider_ssh.Api.Host.{Host, HostStatus, ClaimReference, in_use}
use karpenter_provider_ssh.Kube.{Session}
use karpenter_provider_ssh.Pool.{
  is_some, same_claim, set_status_once, set_status, retry_on_conflict, after_patch, refetch,
  cas_patch, retry_step, mark_in_use, set_installed, set_provider_id, set_bootstrap_token_id,
}
use karpenter_provider_ssh.Instance.{Deps}
use karpenter_provider_ssh.HostStates.{stay, same, Step, owned}
use karpenter_provider_ssh.HostStates.Server.{Server}
use karpenter_provider_ssh.HostStates.Claimed.{claimed-IsClean}
use karpenter_provider_ssh.HostStates.Owners.{register-Edge, stored-Sound}
use karpenter_provider_ssh.HostStates.Write.{Sound, moved}
use mathlib.Core.Bool.{false≢true}

same-owned :
    (a b : Option ClaimReference) → same_claim a b ≡ true → is_some a ≡ true → is_some b ≡ true
unfolding same_claim
same-owned none b h k = cc
same-owned (some a) none h k = cc
same-owned (some a) (some b) h k = refl

module _ {W : Type 0} {deps : Deps W} {Known : Host → Type 0} {Inv : W → Type 0}
    (server : Server deps Known Inv) where
  -- A stored host that a claim has.
  abbrev pub Claimed : Host → Type 0
  Claimed h = Known h × (owned h.status.state ≡ true)

  -- A change of the status that is a step for every claimed host.
  abbrev pub Moves : (HostStatus → HostStatus) → Type 0
  Moves mutate = (h : Host) → Claimed h → Step h.status (mutate h.status)

  -- After a try, the host in hand is a claimed one if the try was lost to a conflict.
  abbrev After : Result Error (Unit {0}) × Session W → Type 0
  After (ok a, s) = Inv s.world
  After (err e, s) = Inv s.world × (is_conflict e ≡ true → Claimed s.host)

  After-Sound : (p : Result Error (Unit {0}) × Session W) → After p → Sound server p.1
  After-Sound (ok a, s) i = i
  After-Sound (err e, s) (i, lost) = i

  refetch-After :
      (expect : Option ClaimReference) (e : Error) (s : Session W)
      → is_some expect ≡ true
      → Inv s.world
      → After (refetch deps.client expect e s)
  unfolding refetch is_conflict
  refetch-After expect e s some_claim i =
      split (deps.client.get_host s.host.meta.namespace s.host.meta.name s.world) refl
    where
      kept :
          (r : Result Error Host) (v : W)
          → deps.client.get_host s.host.meta.namespace s.host.meta.name s.world ≡ (r, v)
          → Inv v
      kept r v q =
          subst (λ z. Inv z.1) q (server.get-Inv s.host.meta.namespace s.host.meta.name s.world i)

      split :
          (r : Result Error Host × W)
          → deps.client.get_host s.host.meta.namespace s.host.meta.name s.world ≡ r
          → After (refetch deps.client expect e s)
      split (err x, v) q =
          let read = server.get_no_conflict s.host.meta.namespace s.host.meta.name s.world v x q in
          rw q (kept (err x) v q, λ c. absurd (false≢true (sym read ∙ c)))
      split (ok fresh, v) q =
          let known = server.get_known s.host.meta.namespace s.host.meta.name s.world v fresh i q in
          let (shape, clean) = server.known-WellFormed fresh known in
          elim (Bool-cases (same_claim expect fresh.status.claim_ref)) [
            | inl a ↦ rw q (
                rw a (
                  kept (ok fresh) v q,
                  λ c. (known, sym shape ∙ same-owned expect fresh.status.claim_ref a some_claim),
                ))
            | inr a ↦ rw q (rw a (kept (ok fresh) v q, λ c. absurd (false≢true c)))
          ]

  after_patch-After :
      (expect : Option ClaimReference) (r : Result Error (Unit {0})) (s : Session W)
      → is_some expect ≡ true
      → Inv s.world
      → After (after_patch deps.client expect r s)
  unfolding after_patch
  after_patch-After expect (ok a) s some_claim i = i
  after_patch-After expect (err e) s some_claim i = elim (Bool-cases (is_conflict e)) [
    | inl a ↦ rw a (refetch-After expect e s some_claim i)
    | inr a ↦ rw a (i, λ c. absurd (false≢true (sym a ∙ c)))
  ]

  set_status_once-After :
      (expect : Option ClaimReference) (mutate : HostStatus → HostStatus) (s : Session W)
      → is_some expect ≡ true
      → Moves mutate
      → Claimed s.host
      → Inv s.world
      → After (set_status_once deps.client expect mutate s)
  unfolding set_status_once cas_patch
  set_status_once-After expect mutate s some_claim moves (known, held) i =
      after_patch-After expect _ _ some_claim (
        stored-Sound server
          (deps.client.patch_host_status (record s.host { status = mutate s.host.status }) s.host
            s.world).0
          (record s.host { status = mutate s.host.status }) _
          (server.patch-Inv (record s.host { status = mutate s.host.status }) s.host s.world known
            (moves s.host (known, held)) i))

  retry_step-After :
      (p rest : Result Error (Unit {0}) × Session W)
      → After p
      → (Claimed p.1.host → Inv p.1.world → After rest)
      → After (retry_step p.0 p.1 rest)
  retry_step-After (ok a, t) rest i onward = i
  retry_step-After (err e, t) rest (i, lost) onward = elim (Bool-cases (is_conflict e)) [
    | inl a ↦ rw a (onward (lost a) i)
    | inr a ↦ rw a (i, λ c. absurd (false≢true (sym a ∙ c)))
  ]

  retry-After :
      (n : ℕ) (expect : Option ClaimReference) (mutate : HostStatus → HostStatus) (s : Session W)
      → is_some expect ≡ true
      → Moves mutate
      → Claimed s.host
      → Inv s.world
      → After (retry_on_conflict n (set_status_once deps.client expect mutate) s)
  unfolding retry_on_conflict
  retry-After zero expect mutate s some_claim moves held i =
      set_status_once-After expect mutate s some_claim moves held i
  retry-After (suc n) expect mutate s some_claim moves held i =
      retry_step-After (set_status_once deps.client expect mutate s) _
        (set_status_once-After expect mutate s some_claim moves held i)
        (λ again j. retry-After n expect mutate _ some_claim moves again j)

  set_status-Sound :
      (mutate : HostStatus → HostStatus) (s : Session W)
      → Moves mutate
      → Claimed s.host
      → Inv s.world
      → Sound server (set_status deps.client mutate s).1
  unfolding set_status
  set_status-Sound mutate s moves (known, held) i =
      let (shape, clean) = server.known-WellFormed s.host known in
      After-Sound _ (
        retry-After deps.client.conflict_retries s.host.status.claim_ref mutate s (shape ∙ held)
          moves (known, held) i)

  -- A change that leaves the state and the claim alone.
  keeps-Step :
      (h : Host) (id token : String)
      → Claimed h
      → Step h.status (record h.status { provider_id = id; bootstrap_token_id = token })
  keeps-Step h id token (known, held) =
      let (shape, clean) = server.known-WellFormed h known in
      (stay, same, (shape, claimed-IsClean h.status.claim_ref id token (shape ∙ held)))

  pub mark_in_use-Sound :
      (s : Session W) → Claimed s.host → Inv s.world → Sound server (mark_in_use deps.client s).1
  unfolding mark_in_use
  mark_in_use-Sound s held i =
      set_status-Sound (λ t. record t { state = in_use }) s
        (λ h c.
          moved h.status in_use (server.known-WellFormed h c.0) (register-Edge h.status.state c.1)
            (sym c.1))
        held i

  pub set_installed-Sound :
      (marker : String) (s : Session W)
      → Claimed s.host
      → Inv s.world
      → Sound server (set_installed deps.client marker s).1
  unfolding set_installed
  set_installed-Sound marker s held i =
      set_status-Sound (λ t. record t { installed_profile = marker }) s
        (λ h c. (stay, same, server.known-WellFormed h c.0)) held i

  pub set_provider_id-Sound :
      (id : String) (s : Session W)
      → Claimed s.host
      → Inv s.world
      → Sound server (set_provider_id deps.client id s).1
  unfolding set_provider_id
  set_provider_id-Sound id s held i =
      set_status-Sound (λ t. record t { provider_id = id }) s
        (λ h c. keeps-Step h id h.status.bootstrap_token_id c) held i

  pub set_bootstrap_token_id-Sound :
      (id : String) (s : Session W)
      → Claimed s.host
      → Inv s.world
      → Sound server (set_bootstrap_token_id deps.client id s).1
  unfolding set_bootstrap_token_id
  set_bootstrap_token_id-Sound id s held i =
      set_status-Sound (λ t. record t { bootstrap_token_id = id }) s
        (λ h c. keeps-Step h h.status.provider_id id c) held i
