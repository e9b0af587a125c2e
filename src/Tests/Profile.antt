-- ===== src/Tests/Profile.antt =====
-- The theorems on join profiles at one profile.
use karpenter_provider_ssh.Common.{
  String, ◌≡◌, refl, ◌⊎◌, true, [], ◌∷◌, Dict, All, sort_by, text_le, ◌==◌, insert, lookup,
  map_text, upper_char,
}
use karpenter_provider_ssh.Profile.{
  Context, empty_context, environment, keys, script, phase_install, phase_join, phase_leave,
  phase_uninstall, phase_reboot, secret_env_name,
}
use karpenter_provider_ssh.Profile.Environment.{environment-Arrives, Arrives}
use karpenter_provider_ssh.Profile.Render.{validate, render}
use karpenter_provider_ssh.Profile.Render.Valid.{validate_lem, Parses, Renders}
use karpenter_provider_ssh.Example.{kubeadm}
use karpenter_provider_ssh.Example.Services.{templates}

abbrev context : Context
context = record empty_context { secrets = ("b", "two") ∷ ("a", "one") ∷ [] }

abbrev variables : Dict String
variables =
    ("KPSSH_CLUSTER_ENDPOINT", "")
    ∷ ("KPSSH_CLUSTER_CA_B64", "")
    ∷ ("KPSSH_BOOTSTRAP_TOKEN", "")
    ∷ ("KPSSH_NODE_NAME", "")
    ∷ ("KPSSH_PROVIDER_ID", "")
    ∷ ("KPSSH_NODE_LABELS", "")
    ∷ ("KPSSH_TAINTS", "")
    ∷ ("KPSSH_HOST_ADDRESS", "")
    ∷ ("KPSSH_NODE_ADDRESS", "")
    ∷ ("KPSSH_SECRET_A", "one")
    ∷ ("KPSSH_SECRET_B", "two")
    ∷ []

environment-Arrives_example :
    All (Arrives context.secrets variables) (sort_by text_le (keys context.secrets))
unfolding environment sort_by text_le lookup insert secret_env_name map_text upper_char
environment-Arrives_example = environment-Arrives context variables refl

validate_lem_example :
    Parses templates kubeadm phase_install
    × Parses templates kubeadm phase_join
    × Parses templates kubeadm phase_leave
    × (((script kubeadm phase_uninstall == "") ≡ true) ⊎ Parses templates kubeadm phase_uninstall)
    × (((script kubeadm phase_reboot == "") ≡ true) ⊎ Parses templates kubeadm phase_reboot)
    × Renders templates kubeadm phase_leave
    × (((script kubeadm phase_reboot == "") ≡ true) ⊎ Renders templates kubeadm phase_reboot)
unfolding validate script render
validate_lem_example = validate_lem templates kubeadm refl
