-- ===== src/Bootstrap.antt =====
-- `DefaultProvider` of pkg/providers/bootstrap/bootstrap.go: bootstrap tokens as secrets of
-- kube-system, and what a kubelet needs to know of the cluster.
pub mod Tokens
use Prim.Native.String.{◌++◌}
use karpenter_provider_ssh.Common.{
  ℕ, ◌+◌, ◌*◌, ◌/◌, ◌%◌, String, Bool, true, false, not, Option, none, some, List, [], ◌∷◌, Dict,
  cut, lookup, map, sort_by, text_le, bytes, ◌==◌, if◌then◌else◌,
}
use karpenter_provider_ssh.Common.Int.{ℤ}
use karpenter_provider_ssh.Exec.{
  Result, ok, err, Exec, pure, raise, attempt, map_error, ◌>>=◌, ◌>>◌,
}
use karpenter_provider_ssh.Api.Errors.{Error, text, wrapped, is_not_found}
use karpenter_provider_ssh.Api.NodeClass.{NodeClass, ClusterAccess}
use karpenter_provider_ssh.Sshexec.Wire.{Bytes}
use karpenter_provider_ssh.Sshexec.HostKey.{sextet}
use karpenter_provider_ssh.Instance.{ClusterInfo, BootstrapProvider}

abbrev pub bootstrap_group : String
bootstrap_group = "system:bootstrappers:kpssh"

-- A cluster of a kubeconfig.
pub record KubeCluster : Type 0 where
  pub server : String
  pub ca_data : Bytes

-- The clientset, and the libraries for tokens and kubeconfigs.
pub record TokenClient (W : Type 0) : Type 0 where
  -- `bootstraputil.GenerateBootstrapToken`
  pub generate_token : Exec W Error String
  -- The time after a number of nanoseconds from now, in RFC 3339.
  pub expiration : ℤ → W → String
  -- A secret of kube-system of the type for bootstrap tokens, by name and data.
  pub create_secret : String → Dict String → Exec W Error (Unit {0})
  pub delete_secret : String → Exec W Error (Unit {0})
  -- The data of kube-public/cluster-info.
  pub cluster_info_data : Exec W Error (Dict String)
  -- The clusters that `clientcmd.Load` finds in a kubeconfig.
  pub load_clusters : String → Result Error (Dict KubeCluster)

-- `bootstraputil.BootstrapTokenSecretName`
abbrev pub token_secret_name : String → String
token_secret_name id = "bootstrap-token-" ++ id

-- `base64.StdEncoding`
unfoldable pub base64_text : Bytes → String
unfolding sextet
base64_text [] = ""
base64_text (a ∷ []) = sextet (a / 4) (sextet (a % 4 * 16) "==")
base64_text (a ∷ b ∷ []) = sextet (a / 4) (sextet (a % 4 * 16 + b / 16) (sextet (b % 16 * 4) "="))
base64_text (a ∷ b ∷ c ∷ rest) = sextet (a / 4) (
    sextet (a % 4 * 16 + b / 16)
      (sextet (b % 16 * 4 + c / 64) (sextet (c % 64) (base64_text rest))))

-- The data of the secret that `CreateToken` writes.
abbrev pub token_data : String → String → String → String → Dict String
token_data id secret expires description =
    ("token-id", id)
    ∷ ("token-secret", secret)
    ∷ ("usage-bootstrap-authentication", "true")
    ∷ ("usage-bootstrap-signing", "true")
    ∷ ("auth-extra-groups", bootstrap_group)
    ∷ ("expiration", expires)
    ∷ ("description", description)
    ∷ []

module _ {W : Type 0} (c : TokenClient W) where
  abbrev store_token : ℤ → String → String → Option (String × String) → Exec W Error String
  store_token ttl description token none w =
      (err (text "generated bootstrap token has unexpected format"), w)
  store_token ttl description token (some (id, secret)) w =
      (map_error (wrapped "creating bootstrap token secret: ") (
            c.create_secret (token_secret_name id)
              (token_data id secret (c.expiration ttl w) description))
          >> pure token)
        w

  -- `CreateToken`
  unfoldable pub create_token : ℤ → String → Exec W Error String
  create_token ttl description = do
    token ← map_error (wrapped "generating bootstrap token: ") c.generate_token
    store_token ttl description token (cut b'.' token)

  abbrev deleted : Result Error (Unit {0}) → Exec W Error (Unit {0})
  deleted (ok a) = pure tt
  deleted (err e) = if is_not_found e then pure tt else raise e

  -- `DeleteTokenByID`
  unfoldable pub delete_token_by_id : String → Exec W Error (Unit {0})
  delete_token_by_id id =
      if id == ""
      then raise (text "empty bootstrap token id")
      else do r ← attempt (c.delete_secret (token_secret_name id)); deleted r

  abbrev delete_cut : Option (String × String) → Exec W Error (Unit {0})
  delete_cut none = raise (text "malformed bootstrap token")
  delete_cut (some (id, secret)) = delete_token_by_id id

  -- `DeleteToken`
  unfoldable pub delete_token : String → Exec W Error (Unit {0})
  unfolding delete_token_by_id
  delete_token token = delete_cut (cut b'.' token)

  abbrev first_name : List String → Option String
  first_name [] = none
  first_name (n ∷ ns) = some n

  abbrev no_clusters : Error
  no_clusters = text "cluster-info kubeconfig has no clusters"

  abbrev info_of : Option KubeCluster → Result Error ClusterInfo
  info_of none = err no_clusters
  info_of (some k) = ok (record { endpoint = k.server; ca_cert_b64 = base64_text k.ca_data })

  abbrev named_cluster : Dict KubeCluster → Option String → Result Error ClusterInfo
  named_cluster clusters none = err no_clusters
  named_cluster clusters (some name) = info_of (lookup name clusters)

  -- The first cluster by name.
  unfoldable pub first_cluster : Dict KubeCluster → Result Error ClusterInfo
  unfolding base64_text
  first_cluster clusters =
      named_cluster clusters (first_name (sort_by text_le (map (λ e. e.0) clusters)))

  abbrev from_clusters : Result Error (Dict KubeCluster) → Result Error ClusterInfo
  from_clusters (err e) = err (wrapped "parsing cluster-info kubeconfig: " e)
  from_clusters (ok clusters) = first_cluster clusters

  abbrev from_kubeconfig : Option String → Result Error ClusterInfo
  from_kubeconfig none = err (text "cluster-info has no kubeconfig key")
  from_kubeconfig (some kubeconfig) = from_clusters (c.load_clusters kubeconfig)

  -- The lookup of `ClusterInfo` where the node class says nothing.
  unfoldable pub published_info : Exec W Error ClusterInfo
  unfolding first_cluster
  published_info w =
      let (r, t) =
        map_error
          (wrapped "reading kube-public/cluster-info (set nodeClass.spec.cluster to override): ")
          c.cluster_info_data w in
      (elim r [ err e ↦ err e | ok data' ↦ from_kubeconfig (lookup "kubeconfig" data') ], t)

  abbrev info_by_access : Option ClusterAccess → Exec W Error ClusterInfo
  info_by_access none = published_info
  info_by_access (some a) =
      if not (a.endpoint == "")
      then pure (record { endpoint = a.endpoint; ca_cert_b64 = base64_text a.ca_bundle })
      else published_info

  -- `ClusterInfo`
  unfoldable pub cluster_info : NodeClass → Exec W Error ClusterInfo
  unfolding published_info
  cluster_info class = info_by_access class.spec.cluster

  -- `NewDefaultProvider`
  abbrev pub default_bootstrap : BootstrapProvider W
  default_bootstrap = record {
    create_token = create_token;
    delete_token = delete_token;
    delete_token_by_id = delete_token_by_id;
    cluster_info = cluster_info;
  }
