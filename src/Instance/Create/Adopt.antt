-- ===== src/Instance/Create/Adopt.antt =====
-- The wait of `adoptProviderID` for the node of a host that has joined.
use mathlib.Core.List.{Mem, mem-cons_self, mem-cons_of_mem}
use karpenter_provider_ssh.Common.{
  ℕ, zero, suc, ◌≤◌, String, ◌≡◌, refl, inl, inr, false, Bool-cases, Option-cases, subst, none,
  some, List, [], ◌∷◌, ◌==◌, arith,
}
use karpenter_provider_ssh.Exec.{Result, ok, err}
use karpenter_provider_ssh.Api.Errors.{Error}
use karpenter_provider_ssh.Api.Meta.{Node}
use karpenter_provider_ssh.Api.Host.{Host, node_ip}
use karpenter_provider_ssh.Instance.{Deps}
use karpenter_provider_ssh.Instance.Create.{adopted_id, adopt_polling, polled}

abbrev Identified : List Node → String → Type 0
Identified nodes id = (n : Node) × Mem n nodes × (n.provider_id ≡ id) × ((id == "") ≡ false)

adopted_id-Identified :
    (nodes : List Node) (id : String) → adopted_id nodes ≡ some id → Identified nodes id
unfolding adopted_id
adopted_id-Identified [] id e = cc
adopted_id-Identified (n ∷ ns) id e = elim (Bool-cases (n.provider_id == "")) [
  | inl blank ↦
      let (m, mem, same, set) = adopted_id-Identified ns id (ground arith) in
      (m, mem-cons_of_mem n mem, same, set)
  | inr set ↦ (n, mem-cons_self, ground arith, ground arith)
]

module _ {W : Type 0} (deps : Deps W) (h : Host) where
  -- A poll that ended in the world given, and listed a node with the id.
  abbrev pub SawNode : String → W → Type 0
  SawNode id w' =
      (v : W) × (nodes : List Node) × (deps.client.nodes_by_ip (node_ip h.spec) v ≡ (ok nodes, w'))
      × Identified nodes id

  -- A number of polls in a row that saw no node with a providerID, failed lists included.
  pub data Missed : ℕ → W → W → Type 0 where
    missed_none : {w : W} → Missed zero w w
    missed :
        {k : ℕ} {w v : W}
        → polled deps (deps.client.nodes_by_ip (node_ip h.spec) w).0 ≡ none
        → Missed k (deps.client.nodes_by_ip (node_ip h.spec) w).1 v
        → Missed (suc k) w v

  polled-SawNode :
      (w : W) (r : Result Error (List Node) × W)
      → deps.client.nodes_by_ip (node_ip h.spec) w ≡ r
      → (id : String) → polled deps r.0 ≡ some id
      → SawNode id r.1
  polled-SawNode w (ok nodes, w') q id e = (w, nodes, q, adopted_id-Identified nodes id e)
  polled-SawNode w (err x, w') q id e = cc

  -- A providerID that is adopted is not empty, and is that of a node which the last poll listed under
  -- the address of the host.
  pub adopt_polling-SawNode :
      (n : ℕ) (w w' : W) (id : String) → adopt_polling deps n h w ≡ (ok id, w') → SawNode id w'
  unfolding adopt_polling
  adopt_polling-SawNode zero w w' id e = last (deps.client.nodes_by_ip (node_ip h.spec) w) refl
    where
      last :
          (r : Result Error (List Node) × W)
          → deps.client.nodes_by_ip (node_ip h.spec) w ≡ r
          → SawNode id w'
      last r q = elim (Option-cases (polled deps r.0)) [
        | inl miss ↦ absurd (ground arith)
        | inr (found, hit) ↦
            subst (SawNode id) (ground arith) (polled-SawNode w r q id (ground arith))
      ]
  adopt_polling-SawNode (suc n) w w' id e =
      next (λ v. adopt_polling-SawNode n v w' id) (deps.client.nodes_by_ip (node_ip h.spec) w) refl
    where
      next :
          ((v : W) → adopt_polling deps n h v ≡ (ok id, w') → SawNode id w')
          → (r : Result Error (List Node) × W) → deps.client.nodes_by_ip (node_ip h.spec) w ≡ r
          → SawNode id w'
      next rec r q = elim (Option-cases (polled deps r.0)) [
        | inl miss ↦ rec r.1 (ground arith)
        | inr (found, hit) ↦
            subst (SawNode id) (ground arith) (polled-SawNode w r q id (ground arith))
      ]

  -- The wait outlasts misses: if fewer polls than the timeout allows see no node and the next one
  -- sees one, its providerID is adopted.
  pub adopt_polling-finds :
      (n k : ℕ) (w v : W) (id : String)
      → Missed k w v
      → k ≤ n
      → polled deps (deps.client.nodes_by_ip (node_ip h.spec) v).0 ≡ some id
      → adopt_polling deps n h w ≡ (ok id, (deps.client.nodes_by_ip (node_ip h.spec) v).1)
  unfolding adopt_polling
  adopt_polling-finds zero k w _ id missed_none le hit = rw (hit, adopt_polling) refl
  adopt_polling-finds (suc n) k w _ id missed_none le hit = rw (hit, adopt_polling) refl
  adopt_polling-finds zero (suc k) w v id (missed miss rest) le hit = absurd (ground arith)
  adopt_polling-finds (suc n) (suc k) w v id (missed miss rest) le hit =
      rw (miss, adopt_polling) (adopt_polling-finds n k _ v id rest (ground arith) hit)
