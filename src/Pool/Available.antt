-- ===== src/Pool/Available.antt =====
-- `Available`: which hosts it lists, and in which order.
use mathlib.Core.List.{Mem}
use mathlib.Core.List.Perm
use karpenter_provider_ssh.Common.{
  String, ◌≡◌, ◌↔◌, ◌⊎◌, true, false, Option, none, List, [], ◌∷◌, All, ◌<◌, text_le, keep,
  mem-keep, lookup, sort_by, text_le_total, text_le_trans, sort_by-perm, IsSorted, sort_by-IsSorted,
  arith, eq_iff,
}
use karpenter_provider_ssh.Exec.{ok}
use karpenter_provider_ssh.Api.Meta.{LabelSelector}
use karpenter_provider_ssh.Api.Host.{Host, HostState, available, host_class, maintenance_annotation}
use karpenter_provider_ssh.Kube.{Client}
use karpenter_provider_ssh.Pool.{claimable, older, list, available_hosts, is_available}

-- A host that may be claimed: Available, unclaimed, not annotated for maintenance, and of the host
-- class that is asked for.
pub record IsClaimable (class : String) (h : Host) : Type 0 where
  pub is_ready : h.status.state ≡ available
  pub unclaimed : h.status.claim_ref ≡ none
  pub serviced : lookup maintenance_annotation h.meta.annotations ≡ none
  pub classed : (class ≡ "") ⊎ (host_class h ≡ class)

is_available→eq : (s : HostState) → is_available s ≡ true → s ≡ available
is_available→eq s h = ground arith

claimable→IsClaimable : (class : String) (h : Host) → claimable class h ≡ true → IsClaimable class h
unfolding claimable
claimable→IsClaimable class h e = ground (arith, eq_iff class "", eq_iff (host_class h) class)

IsClaimable→claimable : (class : String) (h : Host) → IsClaimable class h → claimable class h ≡ true
unfolding claimable
IsClaimable→claimable class h v = ground (arith, eq_iff class "", eq_iff (host_class h) class)

older_total : (a b : Host) → older a b ≡ false → older b a ≡ true
unfolding older
older_total a b h = ground (arith, text_le_total a.meta.name b.meta.name)

older_trans : (a b c : Host) → older a b ≡ true → older b c ≡ true → older a c ≡ true
unfolding older
older_trans a b c h k = ground (arith, text_le_trans a.meta.name b.meta.name c.meta.name)

-- The first host is the older one, or of the same age and with no later name.
abbrev pub Precedes : Host → Host → Type 0
Precedes a b =
    (a.meta.creation_timestamp < b.meta.creation_timestamp)
    ⊎ ((a.meta.creation_timestamp ≡ b.meta.creation_timestamp)
        × (text_le a.meta.name b.meta.name ≡ true))

abbrev pub OldestFirst : List Host → Type 0
OldestFirst [] = Unit
OldestFirst (h ∷ hs) = All (Precedes h) hs × OldestFirst hs

older→Precedes : (a b : Host) → older a b ≡ true → Precedes a b
unfolding older
older→Precedes a b h = ground arith

IsSorted-OldestFirst : (hosts : List Host) → IsSorted older hosts → OldestFirst hosts
IsSorted-OldestFirst [] s = tt
IsSorted-OldestFirst (h ∷ hs) (first, rest) = (all hs first, IsSorted-OldestFirst hs rest)
  where
    all : (bs : List Host) → All (λ b. older h b ≡ true) bs → All (Precedes h) bs
    all [] a = tt
    all (b ∷ bs) (a, as') = (older→Precedes h b a, all bs as')

module _ {W : Type 0} (c : Client W) (ns : String) where
  -- `Available` lists the hosts of the namespace and the selector that may be claimed, all of them
  -- and no other, the older ones first and hosts of one age by name; it fails only when the listing does.
  pub available_hosts_lem :
      (selector : Option LabelSelector) (class : String) (w w' : W) (hosts : List Host)
      → list c ns selector w ≡ (ok hosts, w')
      → (out : List Host) × (available_hosts c ns selector class w ≡ (ok out, w'))
        × ((h : Host) → Mem h out ↔ (Mem h hosts × IsClaimable class h))
        × OldestFirst out
  unfolding available_hosts
  available_hosts_lem selector class w w' hosts listed = (
    sort_by older (keep (claimable class) hosts),
    rw listed,
    λ h. (
      λ m.
          let m' =
            (mem-keep (claimable class) h hosts).0
              ((Perm.mem_iff (sort_by-perm older (keep (claimable class) hosts))).0 m) in
          (m'.0, claimable→IsClaimable class h m'.1),
      λ (m, v).
          (Perm.mem_iff (sort_by-perm older (keep (claimable class) hosts))).1
            ((mem-keep (claimable class) h hosts).1 (m, IsClaimable→claimable class h v)),
    ),
    IsSorted-OldestFirst (sort_by older (keep (claimable class) hosts))
        (sort_by-IsSorted older older_total older_trans (keep (claimable class) hosts)),
  )
