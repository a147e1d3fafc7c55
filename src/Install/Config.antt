-- ===== src/Install/Config.antt =====
-- runConfig of cmd/agent_smith/config.go.
pub mod Legal
pub mod Installs
use agent_smith_go.Base.{Bool, true, false, Option, none, some, if◌then◌else◌, Bytes, codes, ◌++◌}
use agent_smith_go.Interpreter.Message.{Except, done, failed}
use agent_smith_go.Agent.Device.{Device}
use agent_smith_go.Cli.Contexts.{ConfigContext}
use agent_smith_go.Install.Act.{
  Call, open_service, stop, delete, close, create, start, sleep, make_data_dir, make_program_dir,
  write_config, write_program, Outcome, Act, ◌>>=◌, ◌>>◌, lift, perform, attempt, same, deferring,
}
use agent_smith_go.Install.Host.{Manager, Files, Codec, wrap, wrapped}
use agent_smith_go.Install.Fetch.{Fetching, fetch_configuration}
use agent_smith_go.Install.Settings.{configure_device}

abbrev now_held : Bool → Bool
now_held live = true

-- The text of a nil error under %w.
abbrev pub nil_text : Bytes
nil_text = codes "%!w(<nil>)"

abbrev pub stop_text : Bytes → Bytes
stop_text name = codes "failed to stop service " ++ name

abbrev pub close_text : Bytes → Bytes
close_text name = codes "failed to close service " ++ name

-- Stop of the existing service; behind a failure `err` is what Close returns.
unfoldable pub stop_existing : Manager → Bytes → Option Bytes → Act (Unit {0})
stop_existing svc name none = perform stop none (wrap (stop_text name)) same
stop_existing svc name (some e) = do
  attempt stop (some e) same
  perform close svc.close_error (wrap (close_text name)) same
  lift (failed (wrap (stop_text name) nil_text))

unfoldable pub stop_if_active : Manager → Bytes → Bool → Act (Unit {0})
stop_if_active svc name true = stop_existing svc name svc.stop_error
stop_if_active svc name false = lift (done tt)

unfoldable pub delete_existing : Manager → Bytes → Act (Unit {0})
delete_existing svc name = do
  perform delete svc.delete_error (wrap (codes "failed to delete service")) same
  perform close svc.close_error (wrap (close_text name)) same
  attempt sleep none same

-- An existing service is stopped and deleted.
unfoldable pub replace_existing : Manager → Bytes → Option Bytes → Act (Unit {0})
replace_existing svc name (some e) = attempt open_service (some e) same
replace_existing svc name none = do
  attempt open_service none same
  stop_if_active svc name svc.is_active
  delete_existing svc name

-- The configuration file.
unfoldable pub save_configuration : Files → Except Bytes → Act (Unit {0})
save_configuration files printed = do
  perform make_data_dir files.data_dir_error (wrap (codes "failed to create data directory")) same
  config_bytes ← lift (wrapped (codes "failed to print config file") printed)
  perform (write_config config_bytes) files.write_config_error
      (wrap (codes "failed to save config")) same

-- The program file, a copy of the running executable.
unfoldable pub install_program : Files → Act (Unit {0})
install_program files = do
  perform make_program_dir files.program_dir_error
      (wrap (codes "failed to create program directory")) same
  path ← lift (wrapped (codes "failed to get executable") files.executable)
  bytes ← lift (wrapped (codes "failed to read executable file") (files.read_executable path))
  perform (write_program bytes) files.write_program_error
      (wrap (codes "failed to create agent executable")) same

-- The new service, whose handle is closed in any case.
unfoldable pub create_and_start : Manager → Bytes → Act (Unit {0})
create_and_start svc name =
    perform create svc.create_error (wrap (codes "failed to create service")) now_held
    >> deferring svc.last_close_error
        (perform start svc.start_error (wrap (codes "failed to start service " ++ name)) same)

-- runConfig; nothing is held when it begins.
unfoldable pub run_config :
    Fetching → Files → Manager → Codec → Bytes → ConfigContext → Outcome (Unit {0})
run_config x files svc json name c =
    (do
      device ← lift (fetch_configuration x)
      save_configuration files (json.print (configure_device c.common device))
      replace_existing svc name svc.open_error
      install_program files
      create_and_start svc name)
      false
