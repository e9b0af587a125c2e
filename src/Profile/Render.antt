-- ===== src/Profile/Render.antt =====
-- `Render` and `Validate` of internal/profile/profile.go.
pub mod Valid
use Prim.Native.Char.{Char, code}
use Prim.Native.String.{◌++◌, len}
use karpenter_provider_ssh.Common.{
  ℕ, String, Bool, not, ◌||◌, Option, none, some, List, [], ◌∷◌, Dict, insert, lookup, or_empty,
  map, cut, contains, replace_all, upper_char, map_text, sort_by, text_le, eqb, leb, ltb, ◌==◌,
  if◌then◌else◌,
}
use karpenter_provider_ssh.Common.Int.{ℤ, is_positive}
use karpenter_provider_ssh.Exec.{Result, ok, err}
use karpenter_provider_ssh.Api.Errors.{Error, text, wrapped}
use karpenter_provider_ssh.Api.JoinProfile.{JoinProfile, ProfileTimeouts, ProfileSignatures}
use karpenter_provider_ssh.Profile.{
  Context, empty_context, Templates, script, known_phase, phase_install, phase_join, phase_leave,
  phase_uninstall, phase_reboot,
}

module _ (templates : Templates) where
  -- `parse`
  abbrev pub parse : String → String → Option Error
  parse phase raw = elim (templates.parse_error phase raw) [
    | none ↦ none
    | some e ↦ some (wrapped ("parsing " ++ (phase ++ " script: ")) e)
  ]

  abbrev no_script : JoinProfile → String → Error
  no_script p phase = text ("profile " ++ (p.name ++ (" has no " ++ (phase ++ " script"))))

  unfoldable pub execute_parsed :
      JoinProfile → String → Context → Option Error → Result Error String
  execute_parsed p phase c (some e) = err (wrapped ("profile " ++ (p.name ++ ": ")) e)
  execute_parsed p phase c none = elim (templates.execute phase (script p phase) c) [
    | ok out ↦ ok out
    | err e ↦
        err (wrapped ("rendering " ++ (phase ++ (" script of profile " ++ (p.name ++ ": ")))) e)
  ]

  -- `Render`
  unfoldable pub render : JoinProfile → String → Context → Result Error String
  unfolding execute_parsed
  render p phase c =
      if not (known_phase phase)
      then err (text ("unknown phase " ++ phase))
      else if script p phase == ""
      then err (no_script p phase)
      else execute_parsed p phase c (parse phase (script p phase))

  -- One round of the first loop of `Validate`.
  unfoldable pub validate_phase : JoinProfile → String → Option Error
  validate_phase p phase =
      if script p phase == ""
      then if phase == phase_uninstall || phase == phase_reboot
        then none
        else some (no_script p phase)
      else parse phase (script p phase)

  unfoldable pub validate_phases : JoinProfile → List String → Option Error
  unfolding validate_phase
  validate_phases p [] = none
  validate_phases p (phase ∷ phases) =
      let rest = validate_phases p phases in
      elim (validate_phase p phase) [ some e ↦ some e | none ↦ rest ]

  abbrev renders : String → Result Error String → Option Error
  renders why (ok out) = none
  renders why (err e) = some (wrapped why e)

  unfoldable pub validate_bare : JoinProfile → Option Error
  validate_bare p = elim (render p phase_leave empty_context) [
    | err e ↦ some (
        wrapped
          "leave script must render without a node class (it runs on release and zombie-guard paths): "
          e)
    | ok out ↦
        if script p phase_reboot == ""
        then none
        else renders
            "reboot script must render without a node class (repair runs it with the host alone): "
            (render p phase_reboot empty_context)
  ]

  -- `Validate`: why a profile cannot be used, if there is a reason.
  unfoldable pub validate : JoinProfile → Option Error
  unfolding validate_phases validate_bare
  validate p =
      elim (validate_phases p
        (phase_install ∷ phase_join ∷ phase_leave ∷ phase_uninstall ∷ phase_reboot ∷ [])) [
          | some e ↦ some e
          | none ↦ validate_bare p
        ]
