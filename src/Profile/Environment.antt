-- ===== src/Profile/Environment.antt =====
-- The environment of a phase: each secret arrives under its name.
use karpenter_provider_ssh.Common.{
  String, ◌≡◌, ◌∙◌, ap, inl, inr, Bool-cases, Option, none, some, Option-cases, List, [], ◌∷◌, Dict,
  insert, lookup, lookup-insert, lookup-insert_other, or_empty, All, sort_by, text_le, ◌==◌, eq_iff,
  arith,
}
use karpenter_provider_ssh.Exec.{ok}
use karpenter_provider_ssh.Profile.{Context, environment, add_secrets, secret_env_name, keys}

module _ (secrets : Dict String) where
  -- A name that some key has taken is never written again.
  add_secrets_keeps :
      (ks : List String) (seen env out : Dict String) (n p : String)
      → lookup n seen ≡ some p
      → add_secrets secrets ks seen env ≡ ok out
      → lookup n out ≡ lookup n env
  unfolding add_secrets
  add_secrets_keeps [] seen env out n p taken e = ground arith
  add_secrets_keeps (k ∷ ks) seen env out n p taken e =
      elim (Option-cases (lookup (secret_env_name k) seen)) [
        | inr (prev, dup) ↦ absurd (ground arith)
        | inl fresh ↦ elim (Bool-cases (secret_env_name k == n)) [
          | inl same ↦ absurd (
              clash fresh (ap (λ x. lookup x seen) ((eq_iff (secret_env_name k) n).0 same) ∙ taken))
          | inr other ↦
              add_secrets_keeps ks (insert (secret_env_name k) k seen)
                (insert (secret_env_name k) (or_empty (lookup k secrets)) env) out n p
                (lookup-insert_other n (secret_env_name k) k seen other ∙ taken) (ground arith)
              ∙ lookup-insert_other n (secret_env_name k) (or_empty (lookup k secrets)) env other
        ]
      ]
    where
      clash : {o : Option String} → o ≡ none → o ≡ some p → ⊥
      clash a b = cc

  -- Each key's value, under its name.
  abbrev pub Arrives : Dict String → String → Type 0
  Arrives out k = lookup (secret_env_name k) out ≡ some (or_empty (lookup k secrets))

  add_secrets-Arrives :
      (ks : List String) (seen env out : Dict String)
      → add_secrets secrets ks seen env ≡ ok out
      → All (Arrives out) ks
  unfolding add_secrets
  add_secrets-Arrives [] seen env out e = tt
  add_secrets-Arrives (k ∷ ks) seen env out e =
      elim (Option-cases (lookup (secret_env_name k) seen)) [
        | inr (prev, dup) ↦ absurd (ground arith)
        | inl fresh ↦
            let rest : add_secrets secrets ks (insert (secret_env_name k) k seen)
                  (insert (secret_env_name k) (or_empty (lookup k secrets)) env)
                ≡ ok out =
              ground arith in
            (
              add_secrets_keeps ks _ _ out (secret_env_name k) k
                    (lookup-insert (secret_env_name k) k seen) rest
                  ∙ lookup-insert (secret_env_name k) (or_empty (lookup k secrets)) env,
              add_secrets-Arrives ks _ _ out rest,
            )
      ]

-- An environment that is built holds the value of every secret key under the name of the key: so no
-- two keys that have one name are merged, and no secret is lost or taken from another key.
pub environment-Arrives :
    (c : Context) (env : Dict String)
    → environment c ≡ ok env
    → All (Arrives c.secrets env) (sort_by text_le (keys c.secrets))
unfolding environment
environment-Arrives c env e = add_secrets-Arrives c.secrets _ _ _ env e
