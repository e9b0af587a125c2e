-- ===== src/Bootstrap/Tokens.antt =====
-- A token and the secret that holds it.
use Prim.Native.String.{◌++◌}
use karpenter_provider_ssh.Common.{
  String, ◌≡◌, refl, subst, false, Bool-cases, inl, inr, Option, none, some, Dict, lookup, cut,
  ◌==◌, if◌then◌else◌, arith,
}
use karpenter_provider_ssh.Common.Int.{ℤ}
use karpenter_provider_ssh.Exec.{Result, ok, err}
use karpenter_provider_ssh.Api.Errors.{Error, is_not_found}
use karpenter_provider_ssh.Instance.Join.{token_id}
use karpenter_provider_ssh.Bootstrap.{
  TokenClient, store_token, create_token, delete_token, delete_token_by_id, token_data,
}

-- The data of a secret by which the API server takes a token, until it expires.
abbrev pub Usable : String → String → String → Dict String → Type 0
Usable id secret expires content =
    (lookup "token-id" content ≡ some id)
    × (lookup "token-secret" content ≡ some secret)
    × (lookup "expiration" content ≡ some expires)
    × (lookup "usage-bootstrap-authentication" content ≡ some "true")
    × (lookup "auth-extra-groups" content ≡ some "system:bootstrappers:kpssh")

token_data-Usable :
    (id secret expires description : String)
    → Usable id secret expires (token_data id secret expires description)
unfolding lookup
token_data-Usable id secret expires description = (refl, refl, refl, refl, refl)

module _ {W : Type 0} (c : TokenClient W) where
  -- The outcome of a deletion that takes a missing object for a deleted one.
  abbrev pub missing_ok : Result Error (Unit {0}) × W → Result Error (Unit {0}) × W
  missing_ok (ok a, w) = (ok tt, w)
  missing_ok (err e, w) = if is_not_found e then (ok tt, w) else (err e, w)

  -- The secret of a token, under the name of its id, was created last, and both ways to delete the
  -- token delete the secret of that name.
  abbrev pub Stored : ℤ → String → String → W → Type 0
  Stored ttl description token w' =
      (id secret : String) × (content : Dict String) × (v : W) × (cut b'.' token
        ≡ some (id, secret))
      × Usable id secret (c.expiration ttl v) content
      × (c.create_secret ("bootstrap-token-" ++ id) content v ≡ (ok tt, w'))
      × ((u : W)
          → (delete_token c token u ≡ missing_ok (c.delete_secret ("bootstrap-token-" ++ id) u))
            × (delete_token_by_id c (token_id token) u
                ≡ missing_ok (c.delete_secret ("bootstrap-token-" ++ id) u)))

  delete_by_id :
      (id : String) (u : W)
      → (id == "") ≡ false
      → delete_token_by_id c id u ≡ missing_ok (c.delete_secret ("bootstrap-token-" ++ id) u)
  unfolding delete_token_by_id
  delete_by_id id u named = ended (c.delete_secret ("bootstrap-token-" ++ id) u) refl
    where
      ended :
          (r : Result Error (Unit {0}) × W)
          → c.delete_secret ("bootstrap-token-" ++ id) u ≡ r
          → delete_token_by_id c id u ≡ missing_ok (c.delete_secret ("bootstrap-token-" ++ id) u)
      ended (ok a, v) q = rw named (rw q refl)
      ended (err e, v) q = elim (Bool-cases (is_not_found e)) [
        | inl gone ↦ rw named (rw q (rw gone refl))
        | inr other ↦ rw named (rw q (rw other refl))
      ]

  stored :
      (ttl : ℤ) (description token id secret : String) (v w' : W)
      → (token_id token == "") ≡ false
      → cut b'.' token ≡ some (id, secret)
      → c.create_secret
          ("bootstrap-token-" ++ id)
          (token_data id secret (c.expiration ttl v) description)
          v
        ≡ (ok tt, w')
      → Stored ttl description token w'
  unfolding delete_token token_id
  stored ttl description token id secret v w' named parts created =
      let known : (id == "") ≡ false = ground arith in
      (
        id,
        secret,
        token_data id secret (c.expiration ttl v) description,
        v,
        parts,
        token_data-Usable id secret (c.expiration ttl v) description,
        created,
        λ u. (rw parts (delete_by_id id u known), rw (parts, token_id) (delete_by_id id u known)),
      )

  store_token-Stored :
      (ttl : ℤ) (description token : String) (o : Option (String × String)) (v w' : W)
      (out : String)
      → (token_id out == "") ≡ false
      → cut b'.' token ≡ o
      → store_token c ttl description token o v ≡ (ok out, w')
      → Stored ttl description token w' × (token ≡ out)
  store_token-Stored ttl description token none v w' out named q e = absurd (ground arith)
  store_token-Stored ttl description token (some (id, secret)) v w' out named q e =
      created
        (c.create_secret ("bootstrap-token-" ++ id)
          (token_data id secret (c.expiration ttl v) description) v)
        refl
    where
      created :
          (r : Result Error (Unit {0}) × W)
          → c.create_secret
              ("bootstrap-token-" ++ id)
              (token_data id secret (c.expiration ttl v) description)
              v
            ≡ r
          → Stored ttl description token w' × (token ≡ out)
      created (err x, u) p = absurd (ground arith)
      created (ok a, u) p =
          let same : token ≡ out = ground arith in
          (stored ttl description token id secret v w' (rw same named) q (ground arith), same)

  -- Where a token is created and has an id: the secret `bootstrap-token-<id>` of that id was created
  -- last, with the id and the secret of the token, its expiration, and its use for authentication in
  -- the group of the program; and the deletion of the token, and that of the id that a host records,
  -- each delete the secret of that very name, and succeed as well where it is gone.
  pub create_token-Stored :
      (ttl : ℤ) (description token : String) (w w' : W)
      → (token_id token == "") ≡ false
      → create_token c ttl description w ≡ (ok token, w')
      → Stored ttl description token w'
  unfolding create_token
  create_token-Stored ttl description token w w' named e = generated (c.generate_token w) refl
    where
      generated :
          (r : Result Error String × W) → c.generate_token w ≡ r → Stored ttl description token w'
      generated (err x, v) q = absurd (ground arith)
      generated (ok g, v) q =
          let (held, same) =
            store_token-Stored ttl description g (cut b'.' g) v w' token named refl
              (ground arith) in
          subst (λ t. Stored ttl description t w') same held
