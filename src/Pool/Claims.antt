-- ===== src/Pool/Claims.antt =====
-- `Claim`: what a claim that succeeds has taken, and what a failed one leaves.
use mathlib.Core.List.{Mem, mem-cons, not-mem-nil}
use mathlib.Core.Logic.Or
use karpenter_provider_ssh.Common.{
  String, ◌≡◌, refl, sym, subst, true, false, Option, none, some, List, [], ◌∷◌, All, arith,
}
use karpenter_provider_ssh.Exec.{Result, ok, err}
use karpenter_provider_ssh.Api.Errors.{Error, is_conflict}
use karpenter_provider_ssh.Api.Meta.{LabelSelector}
use karpenter_provider_ssh.Api.Host.{Host}
use karpenter_provider_ssh.Api.NodeClaim.{NodeClaim}
use karpenter_provider_ssh.Kube.{Client, Session}
use karpenter_provider_ssh.Kube.Lock.{OptimisticLock}
use karpenter_provider_ssh.Pool.{claim, claim_status, list, available_hosts}
use karpenter_provider_ssh.Pool.Available.{IsClaimable, available_hosts_lem}

All-mem :
    {P : Host → Type 0} (p : (h : Host) → IsProp (P h)) (h : Host) (hosts : List Host)
    → All P hosts
    → Mem h hosts
    → P h
All-mem p h [] a m = absurd (not-mem-nil m)
All-mem {P} p h (x ∷ hosts) a m =
    Or.elim (p h) (mem-cons.0 m) (λ e. subst P (sym e) a.0) (All-mem p h hosts a.1)

abbrev claimed_host : NodeClaim → Host → Host
claimed_host nc h = record h { status = claim_status nc h.status }

module _ {W : Type 0} (c : Client W) where
  -- A claim that returns true comes from an update that succeeded.
  pub claim_true :
      (nc : NodeClaim) (s t : Session W)
      → claim c nc s ≡ (ok true, t)
      → c.update_host_status (claimed_host nc s.host) s.world ≡ (ok t.host, t.world)
  unfolding claim
  claim_true nc s t e = ground arith

  -- A lost race returns false, and no other failure does.
  pub claim_false :
      (nc : NodeClaim) (s t : Session W)
      → claim c nc s ≡ (ok false, t)
      → (e : Error) × (c.update_host_status (claimed_host nc s.host) s.world ≡ (err e, t.world))
        × (is_conflict e ≡ true)
  unfolding claim
  claim_false nc s t h = lost (c.update_host_status (claimed_host nc s.host) s.world) refl
    where
      lost :
          (r : Result Error Host × W)
          → c.update_host_status (claimed_host nc s.host) s.world ≡ r
          → (e : Error) × (c.update_host_status (claimed_host nc s.host) s.world ≡ (err e, t.world))
            × (is_conflict e ≡ true)
      lost (ok h', w) q = absurd (ground arith)
      lost (err e, w) q = (e, ground arith, ground arith)

module _ {W : Type 0} {c : Client W} {Seen : Host → Type 0}
    {current : String → String → W → Option Host} (lock : OptimisticLock c Seen current)
    (ns : String) where
  list_seen :
      (selector : Option LabelSelector) (w w' : W) (hosts : List Host)
      → list c ns selector w ≡ (ok hosts, w')
      → All Seen hosts
  unfolding list
  list_seen none w w' hosts e = lock.list_seen ns none w w' hosts e
  list_seen (some selector) w w' hosts e = checked (c.selector_error selector) refl
    where
      checked : (o : Option Error) → c.selector_error selector ≡ o → All Seen hosts
      checked none q = lock.list_seen ns (some selector) w w' hosts (ground arith)
      checked (some x) q = absurd (ground arith)

  -- Under the optimistic lock, a claim of a host that `Available` listed, made at any later time,
  -- returns true only if the server still stored the very object that was listed: Available,
  -- unclaimed, not in maintenance and of the class. It writes nothing but the claim.
  pub claim_exclusive :
      (selector : Option LabelSelector) (class : String) (nc : NodeClaim) (hosts out : List Host)
      (h : Host) (w w' : W) (v : W) (t : Session W)
      → list c ns selector w ≡ (ok hosts, w')
      → available_hosts c ns selector class w ≡ (ok out, w')
      → Mem h out
      → claim c nc (record { host = h; world = v }) ≡ (ok true, t)
      → (current h.meta.namespace h.meta.name v ≡ some h)
        × IsClaimable class h
        × (t.host.status ≡ claim_status nc h.status)
  claim_exclusive selector class nc hosts out h w w' v t listed avail m won =
      let (all, e, spec, sorted) = available_hosts_lem c ns selector class w w' hosts listed in
      let m' : Mem h all = subst (Mem h) (ground arith) m in
      let (in_hosts, claimable) = (spec h).0 m' in
      let seen = All-mem lock.Seen-prop h hosts (list_seen selector w w' hosts listed) in_hosts in
      let (cur, stored, version, status) =
        lock.update_current (claimed_host nc h) t.host v t.world
          (claim_true c nc (record { host = h; world = v }) t won) in
      let (cur_seen, cur_ns, cur_name) =
        lock.current_seen h.meta.namespace h.meta.name v cur stored in
      let same : cur ≡ h = lock.version_unique cur h cur_seen seen (cur_ns, cur_name) version in
      (subst (λ x. current h.meta.namespace h.meta.name v ≡ some x) same stored, claimable, status)
