-- ===== src/Cli/Dispatch.antt =====
-- main of cmd/agent_smith/main.go: the mode that runs, and the exit code of reportUsage in usage.go.
pub mod Compatible
pub mod Selected
pub mod Exclusive
use agent_smith_go.Base.{
  ℕ, Bool, true, false, Option, none, some, List, [], ◌∷◌, Bytes, if◌then◌else◌,
}
use agent_smith_go.Interpreter.Message.{Except, done, failed}
use agent_smith_go.Cli.Flags.{
  OperationalMode, diagnostic, uninstall, config, service, update, operational_modes, has_help_flag,
  detect_mode,
}
use agent_smith_go.Cli.Flags.Parse.{Scalars}
use agent_smith_go.Cli.Contexts.{
  new_diagnostic_context, new_uninstall_context, new_config_context, new_service_context,
  new_update_context,
}

abbrev pub error_of {ℓ} : {A : Type ℓ} → Except A → Option Bytes
error_of (done a) = none
error_of (failed e) = some e

-- modeErrs: the error of a mode's constructor.
unfoldable pub mode_error : Scalars → List Bytes → OperationalMode → Option Bytes
mode_error scalars args diagnostic = error_of (new_diagnostic_context scalars args)
mode_error scalars args uninstall = error_of (new_uninstall_context scalars args)
mode_error scalars args config = error_of (new_config_context scalars args)
mode_error scalars args service = error_of (new_service_context scalars args)
mode_error scalars args update = error_of (new_update_context scalars args)

-- The first mode without an error.
unfoldable pub first_without_error :
    Scalars → List Bytes → List OperationalMode → Option OperationalMode
first_without_error scalars args [] = none
first_without_error scalars args (mode ∷ modes) =
    let rest = first_without_error scalars args modes in
    elim (mode_error scalars args mode) [ none ↦ some mode | some e ↦ rest ]

-- The mode that main runs, none where it reports the usage.
unfoldable pub dispatch : Scalars → List Bytes → Option OperationalMode
dispatch scalars args = first_without_error scalars args operational_modes

-- What reportUsage writes: the whole usage on standard output, or on standard error the usage of the
-- selected mode with its error, or the whole usage with a hint.
pub data Usage : Type 0 where
  help : Usage
  mode_usage : OperationalMode → Option Bytes → Usage
  hint : Usage

abbrev pub selected_usage : Scalars → List Bytes → Option OperationalMode → Usage
selected_usage scalars args none = hint
selected_usage scalars args (some mode) = mode_usage mode (mode_error scalars args mode)

unfoldable pub report_usage : Scalars → List Bytes → Usage
report_usage scalars args =
    if has_help_flag args then help else selected_usage scalars args (detect_mode args)

unfoldable pub usage_exit_code : Usage → ℕ
usage_exit_code help = 0
usage_exit_code _ = 1
