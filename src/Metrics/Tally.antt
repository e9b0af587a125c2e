-- ===== src/Metrics/Tally.antt =====
-- What the gauges of `Collect` add up to.
use mathlib.Core.Bool.{false≢true}
use karpenter_provider_ssh.Common.{
  ℕ, suc, ◌+◌, String, ◌≡◌, refl, Bool, true, false, Bool-cases, inl, inr, List, [], ◌∷◌, none,
  ◌==◌, ◌&&◌, eq_iff, arith, length, ap, sym, subst, ◌∙◌, if◌then◌else◌,
}
use karpenter_provider_ssh.Exec.{ok}
use karpenter_provider_ssh.Api.Host.{Host}
use karpenter_provider_ssh.Kube.{Client}
use karpenter_provider_ssh.Metrics.{Key, host_key, same_key, bump, tally, collect}

-- The value of a gauge, and the sum of all.
unfoldable pub value : Key → List (Key × ℕ) → ℕ
value k [] = 0
value k ((j, n) ∷ counts) = let rest = value k counts in if same_key j k then n else rest

unfoldable pub total : List (Key × ℕ) → ℕ
total [] = 0
total ((j, n) ∷ counts) = n + total counts

-- How many hosts of a list have a state and a class.
unfoldable pub hosts_of : Key → List Host → ℕ
hosts_of k [] = 0
hosts_of k (h ∷ hosts) =
    let rest = hosts_of k hosts in if same_key (host_key h) k then suc rest else rest

same_key_path : (a b : Key) → same_key a b ≡ true → a ≡ b
same_key_path (a, x) (b, y) h =
    let (p, q) = and_both (a == b) (x == y) h in
    ap (λ z. (z, x)) ((eq_iff a b).0 p) ∙ ap (λ z. (b, z)) ((eq_iff x y).0 q)
  where
    and_both : (b c : Bool) → b && c ≡ true → (b ≡ true) × (c ≡ true)
    and_both b c h = ground arith

same_key_refl : (a : Key) → same_key a a ≡ true
same_key_refl (a, x) = rw ((eq_iff a a).1 refl) ((eq_iff x x).1 refl)

same_key_join : (i j k : Key) → same_key i k ≡ true → same_key j k ≡ true → same_key i j ≡ true
same_key_join i j k p q =
    subst (λ z. same_key i z ≡ true) (same_key_path i k p ∙ sym (same_key_path j k q))
      (same_key_refl i)

bump-value :
    (k j : Key) (counts : List (Key × ℕ))
    → value k (bump j counts) ≡ (if same_key j k then suc (value k counts) else value k counts)
unfolding value bump
bump-value k j [] = ground arith
bump-value k j ((i, n) ∷ counts) = elim (Bool-cases (same_key i j)) [
  | inl same ↦ rw same (rw (ap (λ z. same_key z k) (same_key_path i j same)) (ground arith))
  | inr other ↦ rw other (apart other (bump-value k j counts))
]
  where
    apart :
        same_key i j ≡ false
        → value k (bump j counts) ≡ (if same_key j k then suc (value k counts) else value k counts)
        → (if same_key i k then n else value k (bump j counts)) ≡ (
            if same_key j k
            then suc (if same_key i k then n else value k counts)
            else if same_key i k
            then n
            else value k counts)
    apart other rest = elim (Bool-cases (same_key i k)) [
      | inl here ↦ elim (Bool-cases (same_key j k)) [
        | inl there ↦ absurd (false≢true (sym other ∙ same_key_join i j k here there))
        | inr there ↦ rw here (rw there refl)
      ]
      | inr here ↦ rw here rest
    ]

bump-total : (j : Key) (counts : List (Key × ℕ)) → total (bump j counts) ≡ suc (total counts)
unfolding total bump
bump-total j [] = refl
bump-total j ((i, n) ∷ counts) = ground (arith, bump-total j counts)

tally-value :
    (k : Key) (hosts : List Host) (counts : List (Key × ℕ))
    → value k (tally counts hosts) ≡ value k counts + hosts_of k hosts
unfolding tally hosts_of
tally-value k [] counts = omega arith
tally-value k (h ∷ hosts) counts =
    ground (arith, tally-value k hosts (bump (host_key h) counts), bump-value k (host_key h) counts)

tally-total :
    (hosts : List Host) (counts : List (Key × ℕ))
    → total (tally counts hosts) ≡ total counts + length hosts
unfolding tally
tally-total [] counts = omega arith
tally-total (h ∷ hosts) counts =
    ground (arith, tally-total hosts (bump (host_key h) counts), bump-total (host_key h) counts)

-- A scrape that lists the hosts sends for each state and class the number of the hosts that have
-- them, where a host without a state counts as pending, and the gauges add up to all hosts.
pub collect-counts :
    {W : Type 0} (c : Client W) (namespace : String) (w v : W) (hosts : List Host)
    → c.list_hosts namespace none w ≡ (ok hosts, v)
    → ((k : Key) → value k (collect c namespace w).0 ≡ hosts_of k hosts)
      × (total (collect c namespace w).0 ≡ length hosts)
unfolding collect value total
collect-counts c namespace w v hosts listed =
    rw listed (λ k. from_zero (tally-value k hosts []), from_zero (tally-total hosts []))
  where
    from_zero : {m n : ℕ} → m ≡ 0 + n → m ≡ n
    from_zero h = omega arith
