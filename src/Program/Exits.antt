-- ===== src/Program/Exits.antt =====
-- The mode that main runs, and how the process exits.
use agent_smith_go.Base.{
  ◌≡◌, ◌⊎◌, ap, refl, sym, subst, Option, none, some, List, Bytes, inl, inr, arith,
}
use agent_smith_go.Interpreter.Message.{Except-cases}
use agent_smith_go.Cli.Flags.{OperationalMode, diagnostic, uninstall, config, service, update}
use agent_smith_go.Cli.Flags.Parse.{Scalars}
use agent_smith_go.Cli.Contexts.{
  new_diagnostic_context, new_uninstall_context, new_config_context, new_service_context,
  new_update_context,
}
use agent_smith_go.Cli.Dispatch.{dispatch, first_without_error, mode_error, error_of}
use agent_smith_go.Install.Config.{run_config}
use agent_smith_go.Install.Act.{Outcome}
use agent_smith_go.Program.{
  World, Part, no_mode, diagnosed, uninstalled, updated, configured, served, Exited, error_exit,
  run_modes, main,
}

-- The mode of what ran.
abbrev pub mode_of : Part → Option OperationalMode
mode_of no_mode = none
mode_of (diagnosed session) = some diagnostic
mode_of (uninstalled o) = some uninstall
mode_of (configured o) = some config
mode_of (served x) = some service
mode_of (updated o) = some update

-- A mode whose failure is in its outcome.
abbrev pub failure_of : Part → Option Bytes
failure_of (uninstalled o) = error_of o.result
failure_of (updated o) = error_of o.result
failure_of (configured o) = error_of o.result
failure_of _ = none

-- Where a failure shows in the exit code.
abbrev pub IsShown : Exited → Type 0
IsShown x =
    (failure_of x.part ≡ none)
    ⊎ ((mode_of x.part ≡ some config) × (x.exit_code ≡ some 1))
    ⊎ ((mode_of x.part ≡ some uninstall) × (x.exit_code ≡ some 0))
    ⊎ ((mode_of x.part ≡ some update) × (x.exit_code ≡ some 0))

abbrev IsSelected : Option OperationalMode → Exited → Type 0
IsSelected mode x = (mode_of x.part ≡ mode) × IsShown x

configured_shows :
    (o : Outcome (Unit {0}))
    → IsShown (record { part = configured o; exit_code = some (error_exit o.result) })
configured_shows o = elim (Except-cases o.result) [
  | inl (u, h) ↦ inl (ap error_of h)
  | inr (e, h) ↦ inr (inl (refl, ap (λ r. some (error_exit r)) h))
]

run_modes-mode :
    (w : World) (scalars : Scalars) (args : List Bytes)
    → IsSelected (dispatch scalars args) (run_modes w scalars args)
unfolding run_modes dispatch first_without_error mode_error
run_modes-mode w scalars args = elim (Except-cases (new_diagnostic_context scalars args)) [
  | inl (c, a) ↦ rw (a, run_modes, dispatch, first_without_error) (refl, inl refl)
  | inr (e, a) ↦ elim (Except-cases (new_uninstall_context scalars args)) [
    | inl (c, b) ↦
        rw (a, b, run_modes, dispatch, first_without_error) (refl, inr (inr (inl (refl, refl))))
    | inr (e, b) ↦ elim (Except-cases (new_config_context scalars args)) [
      | inl (c, d) ↦
          rw (a, b, d, run_modes, dispatch, first_without_error)
            (
              refl,
              configured_shows
                  (run_config w.fetching w.files w.manager w.codec (w.service_name_of c) c),
            )
      | inr (e, d) ↦ elim (Except-cases (new_service_context scalars args)) [
        | inl (c, f) ↦ rw (a, b, d, f, run_modes, dispatch, first_without_error) (refl, inl refl)
        | inr (e, f) ↦ elim (Except-cases (new_update_context scalars args)) [
          | inl (c, g) ↦
              rw (a, b, d, f, g, run_modes, dispatch, first_without_error)
                (refl, inr (inr (inr (refl, refl))))
          | inr (e, g) ↦
              rw (a, b, d, f, g, run_modes, dispatch, first_without_error) (refl, inl refl)
        ]
      ]
    ]
  ]
]

main_valid :
    (w : World) (scalars : Scalars) (args : List Bytes)
    → w.environment_error ≡ none
    → main w scalars args ≡ run_modes w scalars args
unfolding main
main_valid w scalars args h = ground arith

-- In a valid environment the mode that main runs is the first one whose context the arguments make.
-- Where this mode fails, config mode exits with 1, but uninstall mode and update mode exit with 0.
pub main-mode :
    (w : World) (scalars : Scalars) (args : List Bytes)
    → w.environment_error ≡ none
    → (mode_of (main w scalars args).part ≡ dispatch scalars args) × IsShown (main w scalars args)
main-mode w scalars args valid =
    subst (IsSelected (dispatch scalars args)) (sym (main_valid w scalars args valid))
      (run_modes-mode w scalars args)
