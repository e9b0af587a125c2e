-- ===== src/Pool/Lookup.antt =====
-- How a host is found by its providerID.
use Prim.Native.String.{◌++◌}
use text.Mathlib.TextLemmas.{nil-append, cons-append}
use karpenter_provider_ssh.Common.{
  sym, ap, ◌∙◌, Bool-cases, String, ◌≡◌, refl, inl, inr, false, none, some, cut-append, cut_prefix,
  cut_prefix-append, contains_byte, ◌==◌, eq_iff,
}
use karpenter_provider_ssh.Api.Host.{Host, provider_prefix}
use karpenter_provider_ssh.Kube.{Client}
use karpenter_provider_ssh.Pool.{provider_id, by_provider_id}

slash-append : (s : String) → "/" ++ s ≡ String.◌∷◌ "/" s
slash-append s = cons-append "/" "" s ∙ ap (String.◌∷◌ "/") (nil-append s)

provider_id-ne-empty : (h : Host) → (provider_id h == "") ≡ false
unfolding provider_id cut_prefix
provider_id-ne-empty h = elim (Bool-cases (provider_id h == "")) [
  | inl e ↦ absurd (
      ne (
        sym (cut_prefix-append provider_prefix (h.meta.namespace ++ ("/" ++ h.meta.name)))
        ∙ ap (cut_prefix provider_prefix) ((eq_iff (provider_id h) "").0 e)))
  | inr e ↦ e
]
  where
    ne : some (h.meta.namespace ++ ("/" ++ h.meta.name)) ≡ none → ⊥
    ne q = cc

module _ {W : Type 0} (c : Client W) (ns : String) where
  -- The providerID that the pool renders for a host resolves to the read of that host, if its
  -- namespace holds no slash, as a Kubernetes name never does.
  pub by_provider_id-provider_id :
      (h : Host) (w : W)
      → contains_byte b'/' h.meta.namespace ≡ false
      → by_provider_id c ns (provider_id h) w ≡ c.get_host h.meta.namespace h.meta.name w
  unfolding by_provider_id provider_id
  by_provider_id-provider_id h w plain =
      rw (cut_prefix-append provider_prefix (h.meta.namespace ++ ("/" ++ h.meta.name))) (
        rw (provider_id-ne-empty h) (
          rw (
            slash-append h.meta.name,
            cut-append b'/' "/" h.meta.namespace h.meta.name refl plain,
          )))
