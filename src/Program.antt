-- ===== src/Program.antt =====
-- main of cmd/agent_smith/main.go: the environment, the modes, and the exit code. What the modes call is
-- in Install, Service and Diagnostic.
pub mod Exits
use agent_smith_go.Base.{Bool, ◌∷◌, ℕ, Option, none, some, List, [], ◌∷◌, Bytes}
use agent_smith_go.Interpreter.Message.{Except, done, failed}
use agent_smith_go.Cli.Flags.Parse.{Scalars}
use agent_smith_go.Cli.Contexts.{
  ConfigContext, CommonFlags, ServiceContext, new_diagnostic_context, new_uninstall_context,
  new_config_context, new_service_context, new_update_context,
}
use agent_smith_go.Cli.Dispatch.{report_usage, usage_exit_code}
use agent_smith_go.Install.Act.{Outcome}
use agent_smith_go.Install.Host.{Manager, Files, Codec}
use agent_smith_go.Install.Fetch.{Fetching}
use agent_smith_go.Install.Config.{run_config}
use agent_smith_go.Install.Update.{run_update}
use agent_smith_go.Install.Uninstall.{run_uninstall}
use agent_smith_go.Service.Startup.{Launching, Executed, execute_service}
use agent_smith_go.Agent.Installation.{UnixPlatform}
use agent_smith_go.Diagnostic.Scan.{AgentInfo, Machine, RootEntry}
use agent_smith_go.Diagnostic.Session.{SessionEvent, Stage, left, panicked, run_diagnostic_full}

-- What the process meets: the result of ValidateInstallationEnvironment, the answers that the modes
-- get, and what the start of the service meets.
pub record World : Type 0 where
  pub environment_error : Option Bytes
  pub files : Files
  pub manager : Manager
  pub codec : Codec
  pub fetching : Fetching
  pub paths_error : Option Bytes
  pub service_name_of : ConfigContext → Bytes
  pub launching : ServiceContext → Launching
  -- The machine that diagnostic mode looks at, how many prompts it is followed for, and its input.
  pub platform : UnixPlatform
  pub machine : Machine
  pub log_comes_back : AgentInfo → Bool
  pub data_root_entries : Option (List RootEntry)
  pub prompts : ℕ
  pub input : List Bytes

-- The mode that ran, with its outcome.
pub data Part : Type 0 where
  no_mode : Part
  diagnosed : List SessionEvent × Stage → Part
  uninstalled updated configured : Outcome (Unit {0}) → Part
  served : Executed → Part

-- What ran, and the exit code; none where the process does not exit.
pub record Exited : Type 0 where
  pub part : Part
  pub exit_code : Option ℕ

abbrev pub error_exit : Except (Unit {0}) → ℕ
error_exit (done u) = 0
error_exit (failed e) = 1

-- main returns behind a session that was left; a panic exits with 2. Another session still reads its
-- input or follows a log.
abbrev pub session_exit : Stage → Option ℕ
session_exit left = some 0
session_exit panicked = some 2
session_exit _ = none

abbrev run_diagnostic_mode : World → Bytes → Exited
run_diagnostic_mode w org =
    let session =
      run_diagnostic_full w.platform w.machine w.log_comes_back org w.data_root_entries w.prompts
        w.input in
    record { part = diagnosed session; exit_code = session_exit session.1 }

abbrev run_uninstall_mode : World → Exited
run_uninstall_mode w = record {
  part = uninstalled (run_uninstall w.files w.manager);
  exit_code = some 0;
}

abbrev run_config_mode : World → ConfigContext → Exited
run_config_mode w c =
    let outcome = run_config w.fetching w.files w.manager w.codec (w.service_name_of c) c in
    record { part = configured outcome; exit_code = some (error_exit outcome.result) }

abbrev run_service : World → ServiceContext → Exited
run_service w c =
    let executed = execute_service (w.launching c) in
    record { part = served executed; exit_code = some executed.code }

abbrev run_update_mode : World → CommonFlags → Exited
run_update_mode w c = record {
  part = updated (run_update w.paths_error w.files w.manager w.codec c);
  exit_code = some 0;
}

unfoldable pub run_modes : World → Scalars → List Bytes → Exited
run_modes w scalars args = elim (new_diagnostic_context scalars args) [
  | done org ↦ run_diagnostic_mode w org
  | failed e ↦ elim (new_uninstall_context scalars args) [
    | done c ↦ run_uninstall_mode w
    | failed e ↦ elim (new_config_context scalars args) [
      | done c ↦ run_config_mode w c
      | failed e ↦ elim (new_service_context scalars args) [
        | done c ↦ run_service w c
        | failed e ↦ elim (new_update_context scalars args) [
          | done c ↦ run_update_mode w c
          | failed e ↦ record {
            part = no_mode;
            exit_code = some (usage_exit_code (report_usage scalars args));
          }
        ]
      ]
    ]
  ]
]

unfoldable pub main : World → Scalars → List Bytes → Exited
unfolding run_modes
main w scalars args = elim w.environment_error [
  | some e ↦ record { part = no_mode; exit_code = some 1 }
  | none ↦ run_modes w scalars args
]
