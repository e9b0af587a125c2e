-- ===== src/HostStates/Server.antt =====
-- What the theorems on the life of a host rely on: the API server keeps an invariant of the world
-- under every call that writes a transition, and hands out the objects that it stores.
use karpenter_provider_ssh.Common.{String, ◌≡◌, false, Option, List, All}
use karpenter_provider_ssh.Common.Int.{ℤ}
use karpenter_provider_ssh.Exec.{ok, err}
use karpenter_provider_ssh.Api.Errors.{Error, is_conflict}
use karpenter_provider_ssh.Exec.Keep.{Keeps}
use karpenter_provider_ssh.Api.Meta.{Node, LabelSelector}
use karpenter_provider_ssh.Api.Host.{Host, HostStatus}
use karpenter_provider_ssh.Instance.{Deps}
use karpenter_provider_ssh.Sshexec.Envelope.{Envelope}
use karpenter_provider_ssh.Sshexec.Runner.{Target}
use karpenter_provider_ssh.Common.{Dict}
use karpenter_provider_ssh.HostStates.{WellFormed, Step}

-- `Known` holds of the objects that the server has stored. Under the optimistic lock a write against a
-- known original succeeds only if the server still stores it, and makes the new status its status.
pub record Server {W : Type 0} (deps : Deps W) (Known : Host → Type 0) (Inv : W → Type 0)
    : Type 0 where
  pub known-WellFormed : (h : Host) → Known h → WellFormed h.status
  pub get_known :
      (ns name : String) (w v : W) (h : Host)
      → Inv w
      → deps.client.get_host ns name w ≡ (ok h, v)
      → Known h
  pub list_known :
      (ns : String) (selector : Option LabelSelector) (w v : W) (hosts : List Host)
      → Inv w
      → deps.client.list_hosts ns selector w ≡ (ok hosts, v)
      → All Known hosts
  pub patch-Inv :
      (h orig : Host) (w : W)
      → Known orig
      → Step orig.status h.status
      → Inv w
      → Inv (deps.client.patch_host_status h orig w).1
  pub patch_known :
      (h orig h' : Host) (w v : W)
      → Known orig
      → Step orig.status h.status
      → deps.client.patch_host_status h orig w ≡ (ok h', v)
      → Known h' × (h'.status ≡ h.status)
  -- The update of `Claim`, which carries the resourceVersion of the host that was read.
  pub update-Inv :
      (orig : Host) (status : HostStatus) (w : W)
      → Known orig
      → Step orig.status status
      → Inv w
      → Inv (deps.client.update_host_status (record orig { status = status }) w).1
  -- A read is no write that could be lost.
  pub get_no_conflict :
      (ns name : String) (w v : W) (e : Error)
      → deps.client.get_host ns name w ≡ (err e, v)
      → is_conflict e ≡ false
  pub get-Inv : (ns name : String) → Keeps Inv (deps.client.get_host ns name)
  pub list-Inv :
      (ns : String) (selector : Option LabelSelector)
      → Keeps Inv (deps.client.list_hosts ns selector)
  pub profile-Inv : (name : String) → Keeps Inv (deps.client.get_profile name)
  pub claim-Inv : (name : String) → Keeps Inv (deps.client.get_node_claim name)
  pub nodes-Inv : (ip : String) → Keeps Inv (deps.client.nodes_by_ip ip)
  pub delete-Inv : (n : Node) → Keeps Inv (deps.client.delete_node n)
  pub secret-Inv : (ns name : String) → Keeps Inv (deps.client.get_secret ns name)
  pub token-Inv : (id : String) → Keeps Inv (deps.bootstrap.delete_token_by_id id)
  pub run-Inv :
      (limit : ℤ) (t : Target) (script : String) (env : Dict String)
      → Keeps Inv (deps.runners.run limit t script env)
  pub shim-Inv :
      (limit : ℤ) (t : Target) (e : Envelope) → Keeps Inv (deps.runners.run_shim limit t e)
