-- ===== src/Kube/Lock.antt =====
-- The optimistic lock that the API server documents: a write of a host's status succeeds only if
-- the stored object has the resourceVersion that the write carries, and two objects that were ever
-- stored under one name and one resourceVersion are the same. A patch writes what differs from the
-- original, so the stored status is the new one if the original is an object that was stored.
use karpenter_provider_ssh.Common.{String, ◌≡◌, false, Option, some, List, All}
use karpenter_provider_ssh.Exec.{ok, err}
use karpenter_provider_ssh.Api.Errors.{Error, is_conflict}
use karpenter_provider_ssh.Api.Meta.{LabelSelector}
use karpenter_provider_ssh.Api.Host.{Host}
use karpenter_provider_ssh.Kube.{Client}

abbrev pub SameKey : Host → Host → Type 0
SameKey a b = (a.meta.namespace ≡ b.meta.namespace) × (a.meta.name ≡ b.meta.name)

abbrev pub SameVersion : Host → Host → Type 0
SameVersion a b = a.meta.resource_version ≡ b.meta.resource_version

-- `Seen` holds of the objects that the server has stored at some time; `current` is what it stores
-- when it handles a call that is made in a world.
pub record OptimisticLock {W : Type 0} (c : Client W) (Seen : Host → Type 0)
    (current : String → String → W → Option Host) : Type 0 where
  pub Seen-prop : (h : Host) → IsProp (Seen h)
  pub list_seen :
      (ns : String) (selector : Option LabelSelector) (w w' : W) (hosts : List Host)
      → c.list_hosts ns selector w ≡ (ok hosts, w')
      → All Seen hosts
  pub get_seen :
      (ns name : String) (w w' : W) (h : Host)
      → c.get_host ns name w ≡ (ok h, w')
      → Seen h × (h.meta.namespace ≡ ns) × (h.meta.name ≡ name)
  pub current_seen :
      (ns name : String) (w : W) (h : Host)
      → current ns name w ≡ some h
      → Seen h × (h.meta.namespace ≡ ns) × (h.meta.name ≡ name)
  pub version_unique : (a b : Host) → Seen a → Seen b → SameKey a b → SameVersion a b → a ≡ b
  pub update_current :
      (h h' : Host) (w w' : W)
      → c.update_host_status h w ≡ (ok h', w')
      → (cur : Host) × (current h.meta.namespace h.meta.name w ≡ some cur)
        × SameVersion cur h
        × (h'.status ≡ h.status)
  pub patch_current :
      (h orig h' : Host) (w w' : W)
      → Seen orig
      → c.patch_host_status h orig w ≡ (ok h', w')
      → (cur : Host) × (current h.meta.namespace h.meta.name w ≡ some cur)
        × SameVersion cur orig
        × (h'.status ≡ h.status)
  -- A read is no write that could be lost.
  pub get_no_conflict :
      (ns name : String) (w w' : W) (e : Error)
      → c.get_host ns name w ≡ (err e, w')
      → is_conflict e ≡ false
