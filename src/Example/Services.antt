-- ===== src/Example/Services.antt =====
-- Services that answer every call, over a pool that hands out one host.
use karpenter_provider_ssh.Common.{Bool, true, none, some, [], ◌∷◌, ◌++◌, bytes}
use karpenter_provider_ssh.Exec.{ok, err}
use karpenter_provider_ssh.Api.Errors.{text}
use karpenter_provider_ssh.Api.Host.{Host}
use karpenter_provider_ssh.Kube.{Client}
use karpenter_provider_ssh.Pool.Interface.{HostProvider}
use karpenter_provider_ssh.Profile.{Templates}
use karpenter_provider_ssh.Sshexec.Wire.{Bytes, append_ssh_string}
use karpenter_provider_ssh.Sshexec.Runner.{Runners}
use karpenter_provider_ssh.Sshexec.Signature.{Crypto, sshsig_magic}
use karpenter_provider_ssh.Instance.{Deps, BootstrapProvider}
use karpenter_provider_ssh.Example.Cluster.{client}

abbrev pub pool : {W : Type 0} → Host → HostProvider W
pool h = record {
  available = λ selector class w. (ok (h ∷ []), w);
  all = λ selector w. (ok (h ∷ []), w);
  claim = λ nc s. (ok true, s);
  release = λ healthy reason s. (ok tt, s);
  mark_in_use = λ s. (ok tt, s);
  set_installed = λ marker s. (ok tt, s);
  by_provider_id = λ id w. (ok h, w);
  set_provider_id = λ id s. (ok tt, s);
  set_bootstrap_token_id = λ id s. (ok tt, s);
  by_claim = λ nc w. (ok none, w);
  claimed = λ w. (ok (h ∷ []), w);
}

abbrev pub bootstrap : {W : Type 0} → BootstrapProvider W
bootstrap = record {
  create_token = λ ttl description w. (ok "abcdef.0123456789abcdef", w);
  delete_token = λ token w. (ok tt, w);
  delete_token_by_id = λ id w. (ok tt, w);
  cluster_info =
      λ class w. (ok (record { endpoint = "https://10.0.0.1:6443"; ca_cert_b64 = "" }), w);
}

abbrev pub runners : {W : Type 0} → Runners W
runners = record {
  run = λ limit target script env w.
      (ok (record { stdout = ""; stderr = ""; host_key_fingerprint = "SHA256:x" }), w);
  run_shim = λ limit target envelope w.
      (ok (record { stdout = ""; stderr = ""; host_key_fingerprint = "SHA256:x" }), w);
}

abbrev pub templates : Templates
templates = record { parse_error = λ name script. none; execute = λ name script context. ok script }

abbrev str : Bytes → Bytes
str = append_ssh_string []

-- A signature by the key "k" in the namespace of the program.
abbrev pub blob : Bytes
blob =
    sshsig_magic
    ++ (0 ∷ 0 ∷ 0 ∷ 1 ∷ [])
    ++ (str (bytes "k")
        ++ (str (bytes "kpssh")
            ++ (str []
                ++ (str (bytes "sha256") ++ str (str (bytes "ssh-ed25519") ++ str (bytes "sig"))))))

abbrev pub crypto : Crypto
crypto = record {
  parse_known_hosts = λ line. err (text "no known_hosts line");
  parse_authorized_key = λ line. ok (bytes "k");
  parse_public_key = λ key. ok key;
  pem_decode = λ armored. some (record { kind = "SSH SIGNATURE"; content = blob });
  sha256 = λ message. message;
  sha512 = λ message. message;
  verify = λ key signed format sig. ok tt;
  trim_space = λ line. line;
}

-- Services whose API server is a parameter, so that some of its calls may fail.
abbrev pub services_with : {W : Type 0} → Client W → Host → Deps W
services_with c h = record {
  client = c;
  pool = pool h;
  bootstrap = bootstrap;
  runners = runners;
  templates = templates;
  crypto = crypto;
  adopt_polls = 48;
}

abbrev pub services : Host → Deps Bool
services h = services_with (client h) h
