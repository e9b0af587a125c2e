-- ===== src/Profile/Render/Valid.antt =====
-- What `Validate` promises of a profile that it accepts.
use karpenter_provider_ssh.Common.{
  String, ◌≡◌, refl, ◌⊎◌, inl, inr, true, false, none, List, [], ◌∷◌, Bool-cases, ◌==◌, arith,
}
use karpenter_provider_ssh.Exec.{Result, ok, err}
use karpenter_provider_ssh.Api.Errors.{Error}
use karpenter_provider_ssh.Api.JoinProfile.{JoinProfile}
use karpenter_provider_ssh.Profile.{
  Templates, empty_context, script, phase_install, phase_join, phase_leave, phase_uninstall,
  phase_reboot,
}
use karpenter_provider_ssh.Profile.Render.{
  validate, validate_phases, validate_phase, validate_bare, render, renders, parse,
}

module _ (templates : Templates) (p : JoinProfile) where
  -- A phase has a script that parses.
  abbrev pub Parses : String → Type 0
  Parses phase = ((script p phase == "") ≡ false) × (parse templates phase (script p phase) ≡ none)

  -- A phase renders without a node class.
  abbrev pub Renders : String → Type 0
  Renders phase = (out : String) × (render templates p phase empty_context ≡ ok out)

  needed :
      (phase : String)
      → ((phase == phase_uninstall) ≡ false)
      → ((phase == phase_reboot) ≡ false)
      → validate_phase templates p phase ≡ none
      → Parses phase
  unfolding validate_phase
  needed phase a b e = ground arith

  optional :
      (phase : String)
      → validate_phase templates p phase ≡ none
      → ((script p phase == "") ≡ true) ⊎ Parses phase
  unfolding validate_phase
  optional phase e = ground arith

  all_phases :
      (phase : String) (rest : List String)
      → validate_phases templates p (phase ∷ rest) ≡ none
      → (validate_phase templates p phase ≡ none) × (validate_phases templates p rest ≡ none)
  unfolding validate_phases
  all_phases phase rest e = ground arith

  bare :
      validate_bare templates p ≡ none
      → Renders phase_leave × (((script p phase_reboot == "") ≡ true) ⊎ Renders phase_reboot)
  unfolding validate_bare
  bare e = leave (render templates p phase_leave empty_context) refl
    where
      reboot :
          (script p phase_reboot == "") ≡ false
          → (r : Result Error String) → render templates p phase_reboot empty_context ≡ r
          → renders templates
              "reboot script must render without a node class (repair runs it with the host alone): "
              r
            ≡ none
          → Renders phase_reboot
      reboot there (ok out) q k = (out, q)
      reboot there (err x) q k = cc

      leave :
          (r : Result Error String)
          → render templates p phase_leave empty_context ≡ r
          → Renders phase_leave × (((script p phase_reboot == "") ≡ true) ⊎ Renders phase_reboot)
      leave (err x) q = absurd (ground arith)
      leave (ok out) q = elim (Bool-cases (script p phase_reboot == "")) [
        | inl empty ↦ ((out, q), inl empty)
        | inr there ↦ (
          (out, q),
          inr (reboot there (render templates p phase_reboot empty_context) refl (ground arith)),
        )
      ]

  -- A profile that `Validate` accepts has install, join and leave scripts that parse, an uninstall and
  -- a reboot script that parse if they are there, and a leave script, and a reboot script if it is
  -- there, that render without a node class.
  pub validate_lem :
      validate templates p ≡ none
      → Parses phase_install
        × Parses phase_join
        × Parses phase_leave
        × (((script p phase_uninstall == "") ≡ true) ⊎ Parses phase_uninstall)
        × (((script p phase_reboot == "") ≡ true) ⊎ Parses phase_reboot)
        × Renders phase_leave
        × (((script p phase_reboot == "") ≡ true) ⊎ Renders phase_reboot)
  unfolding validate
  validate_lem e =
      let (install, e1) =
        all_phases phase_install (phase_join ∷ phase_leave ∷ phase_uninstall ∷ phase_reboot ∷ [])
          (ground arith) in
      let (join, e2) =
        all_phases phase_join (phase_leave ∷ phase_uninstall ∷ phase_reboot ∷ []) e1 in
      let (leave, e3) = all_phases phase_leave (phase_uninstall ∷ phase_reboot ∷ []) e2 in
      let (uninstall, e4) = all_phases phase_uninstall (phase_reboot ∷ []) e3 in
      let (reboot, e5) = all_phases phase_reboot [] e4 in
      let (leaves, reboots) = bare (ground arith) in
      (
        needed phase_install refl refl install,
        needed phase_join refl refl join,
        needed phase_leave refl refl leave,
        optional phase_uninstall uninstall,
        optional phase_reboot reboot,
        leaves,
        reboots,
      )
