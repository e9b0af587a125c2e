-- ===== src/Pool/Fence.antt =====
-- The fence on the field setters: `setStatus` writes under the claim that it was issued under, also
-- when it retries a lost race.
use karpenter_provider_ssh.Common.{
  ℕ, zero, suc, String, ◌≡◌, refl, sym, ap, ◌∙◌, subst, inl, inr, true, Option, none, some,
  Bool-cases, arith, eq_iff,
}
use karpenter_provider_ssh.Exec.{Result, ok, err}
use karpenter_provider_ssh.Api.Errors.{Error, text, is_conflict}
use karpenter_provider_ssh.Api.Host.{Host, HostStatus, ClaimReference}
use karpenter_provider_ssh.Kube.{Client, Session}
use karpenter_provider_ssh.Kube.Lock.{OptimisticLock}
use karpenter_provider_ssh.Pool.{
  same_claim, set_status, set_status_once, retry_on_conflict, after_patch, refetch,
}

pub same_claim→eq : (a b : Option ClaimReference) → same_claim a b ≡ true → a ≡ b
unfolding same_claim
same_claim→eq none none h = refl
same_claim→eq none (some b) h = cc
same_claim→eq (some a) none h = cc
same_claim→eq (some a) (some b) h = ground (arith, eq_iff a.name b.name, eq_iff a.uid b.uid)

text_not_conflict : (m : String) → is_conflict (text m) ≡ true → ⊥
unfolding is_conflict
text_not_conflict m h = cc

module _ {W : Type 0} {c : Client W} {Seen : Host → Type 0}
    {current : String → String → W → Option Host} (lock : OptimisticLock c Seen current)
    (mutate : HostStatus → HostStatus) (expect : Option ClaimReference) where
  -- The host in hand is an object that the server stored, with the claim.
  abbrev Fresh : Host → Type 0
  Fresh h = Seen h × (h.status.claim_ref ≡ expect)

  -- The write that a call ended with, and what the server stored when it took it.
  abbrev pub WroteUnder : Session W → Type 0
  WroteUnder t =
      (orig : Host) × (w : W) × (cur : Host) × (c.patch_host_status
          (record orig { status = mutate orig.status }) orig w
        ≡ (ok t.host, t.world))
      × (current orig.meta.namespace orig.meta.name w ≡ some cur)
      × (cur.status.claim_ref ≡ expect)
      × (t.host.status ≡ mutate orig.status)

  abbrev Outcome : Result Error (Unit {0}) → Session W → Type 0
  Outcome (ok a) t = WroteUnder t
  Outcome (err e) t = is_conflict e ≡ true → Fresh t.host

  wrote :
      (s : Session W) (h' : Host) (w' : W)
      → Fresh s.host
      → c.patch_host_status (record s.host { status = mutate s.host.status }) s.host s.world
        ≡ (ok h', w')
      → WroteUnder (record { host = h'; world = w' })
  wrote s h' w' (seen, held) e =
      let (cur, stored, version, status) = lock.patch_current _ s.host h' s.world w' seen e in
      let (cur_seen, cur_ns, cur_name) =
        lock.current_seen s.host.meta.namespace s.host.meta.name s.world cur stored in
      let same : cur ≡ s.host =
        lock.version_unique cur s.host cur_seen seen (cur_ns, cur_name) version in
      (s.host, s.world, cur, e, stored, ap (λ h. h.status.claim_ref) same ∙ held, status)

  refetched :
      (e : Error) (t : Session W) → Outcome (refetch c expect e t).0 (refetch c expect e t).1
  unfolding refetch
  refetched e t = read (c.get_host t.host.meta.namespace t.host.meta.name t.world) refl
    where
      read :
          (r : Result Error Host × W)
          → c.get_host t.host.meta.namespace t.host.meta.name t.world ≡ r
          → Outcome (refetch c expect e t).0 (refetch c expect e t).1
      read (err x, w') q =
          let calm = lock.get_no_conflict t.host.meta.namespace t.host.meta.name t.world w' x q in
          rw (q, refetch) (λ h. absurd (ground arith))
      read (ok fresh, w') q = elim (Bool-cases (same_claim expect fresh.status.claim_ref)) [
        | inl same ↦
            let (seen, ns, name) =
              lock.get_seen t.host.meta.namespace t.host.meta.name t.world w' fresh q in
            let held = sym (same_claim→eq expect fresh.status.claim_ref same) in
            rw (q, refetch) (rw same (λ h. (seen, held)))
        | inr other ↦ rw (q, refetch) (rw other (λ h. absurd (text_not_conflict _ h)))
      ]

  settled :
      (e : Error) (t : Session W)
      → Outcome (after_patch c expect (err e) t).0 (after_patch c expect (err e) t).1
  settled e t = elim (Bool-cases (is_conflict e)) [
    | inl lost ↦ unfold after_patch in rw lost (refetched e t)
    | inr final ↦ unfold after_patch in rw final (λ h. cc)
  ]

  once :
      (s : Session W)
      → Fresh s.host
      → Outcome (set_status_once c expect mutate s).0 (set_status_once c expect mutate s).1
  unfolding set_status_once
  once s f =
      patched (c.patch_host_status (record s.host { status = mutate s.host.status }) s.host s.world)
        refl
    where
      patched :
          (r : Result Error Host × W)
          → c.patch_host_status (record s.host { status = mutate s.host.status }) s.host s.world ≡ r
          → Outcome (set_status_once c expect mutate s).0 (set_status_once c expect mutate s).1
      patched (ok h', w') q = rw (q, set_status_once) (wrote s h' w' f q)
      patched (err e, w') q = rw (q, set_status_once) (settled e _)

  ended :
      (r : Result Error (Unit {0}) × Session W) (t : Session W)
      → Outcome r.0 r.1
      → r ≡ (ok tt, t)
      → WroteUnder t
  ended r t o e = subst (λ (p : Result Error (Unit {0}) × Session W). Outcome p.0 p.1) e o

  retried :
      (n : ℕ) (s t : Session W)
      → Fresh s.host
      → retry_on_conflict n (set_status_once c expect mutate) s ≡ (ok tt, t)
      → WroteUnder t
  unfolding retry_on_conflict
  retried zero s t f e = ended _ t (once s f) e
  retried (suc n) s t f e =
      step (λ u. retried n u t) (set_status_once c expect mutate s) refl (once s f)
    where
      step :
          ((u : Session W)
            → Fresh u.host
            → retry_on_conflict n (set_status_once c expect mutate) u ≡ (ok tt, t)
            → WroteUnder t)
          → (r : Result Error (Unit {0}) × Session W) → set_status_once c expect mutate s ≡ r
          → Outcome r.0 r.1
          → WroteUnder t
      step rec (ok a, u) q o = ended (ok tt, t) t (subst WroteUnder (ground arith) o) refl
      step rec (err x, u) q o = elim (Bool-cases (is_conflict x)) [
        | inl lost ↦ rec u (o lost) (ground arith)
        | inr final ↦ absurd (ground arith)
      ]

  -- A setter that succeeds ended with a patch that the server applied to an object whose claim was
  -- the one that the setter was called under, and it changed nothing but what it was asked to.
  pub set_status_fenced :
      (s t : Session W)
      → Seen s.host
      → s.host.status.claim_ref ≡ expect
      → set_status c mutate s ≡ (ok tt, t)
      → WroteUnder t
  unfolding set_status
  set_status_fenced s t seen held e =
      retried c.conflict_retries s t (seen, held)
        (subst
          (λ x. retry_on_conflict c.conflict_retries (set_status_once c x mutate) s ≡ (ok tt, t))
          held e)
