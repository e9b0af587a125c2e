-- ===== src/Tests/Bootstrap.antt =====
-- The theorem on bootstrap tokens at one token.
use karpenter_provider_ssh.Common.{refl, Bool, true, false, [], cut}
use karpenter_provider_ssh.Common.Int.{pos}
use karpenter_provider_ssh.Exec.{ok}
use karpenter_provider_ssh.Bootstrap.{TokenClient, create_token}
use karpenter_provider_ssh.Instance.Join.{token_id}
use karpenter_provider_ssh.Bootstrap.Tokens.{create_token-Stored, Stored}

-- A server that stores one secret.
abbrev server : TokenClient Bool
server = record {
  generate_token = λ w. (ok "abcdef.0123456789abcdef", w);
  expiration = λ ttl w. "2026-01-01T00:00:00Z";
  create_secret = λ name secret w. (ok tt, true);
  delete_secret = λ name w. (ok tt, false);
  cluster_info_data = λ w. (ok [], w);
  load_clusters = λ kubeconfig. ok [];
}

create_token-Stored_example : Stored server (pos 3600) "for web-1" "abcdef.0123456789abcdef" true
unfolding create_token cut token_id
create_token-Stored_example =
    create_token-Stored server (pos 3600) "for web-1" "abcdef.0123456789abcdef" false true refl refl
