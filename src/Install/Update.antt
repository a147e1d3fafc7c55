-- ===== src/Install/Update.antt =====
-- runUpdate of cmd/agent_smith/update.go. It returns nothing; the result here is the error that it logs
-- before it returns.
pub mod Restarts
pub mod Whole
use agent_smith_go.Base.{Bool, true, false, not, Option, none, some, Bytes, codes, is_empty}
use agent_smith_go.Interpreter.Message.{Except, done, failed}
use agent_smith_go.Cli.Contexts.{CommonFlags}
use agent_smith_go.Install.Act.{
  open_service, stop, delete, close, create, start, sleep, write_config, write_program, Outcome,
  Act, ◌>>=◌, ◌>>◌, lift, perform, attempt, same, deferring,
}
use agent_smith_go.Install.Host.{Manager, Files, Codec, wrap, wrapped}
use agent_smith_go.Install.Reread.{updated_configuration}

abbrev pub held : Bool → Bool
held live = true

-- svc = nil
abbrev pub nil : Bool → Bool
nil live = false

unfoldable pub halt_if_active : Manager → Bool → Act (Unit {0})
halt_if_active svc true = do
  perform stop svc.stop_error (wrap (codes "Failed to stop service")) same
  attempt sleep none same
halt_if_active svc false = lift (done tt)

-- The program file, a copy of the running executable.
unfoldable pub copy_program : Files → Act (Unit {0})
copy_program files = do
  path ← lift (wrapped (codes "Failed to get executable") files.executable)
  bytes ← lift (wrapped (codes "Failed to read executable file") (files.read_executable path))
  perform (write_program bytes) files.write_program_error
      (wrap (codes "Failed to create agent executable")) same

-- A new registration, where the service runs under a new account.
unfoldable pub register_again : Manager → Bool → Act (Unit {0})
register_again svc true = do
  perform delete svc.delete_error (wrap (codes "Failed to delete service")) same
  attempt close svc.close_error nil
  attempt sleep none same
  perform create svc.create_error (wrap (codes "Failed to create service")) held
register_again svc false = lift (done tt)

-- What runUpdate does between Open and the deferred Close; `configuration` is the new content of the
-- configuration file, or the error of reading the old one or of printing.
unfoldable pub update_opened : Except Bytes → Files → Manager → Bool → Act (Unit {0})
update_opened configuration files svc new_account = do
  halt_if_active svc svc.is_active
  config_bytes ← lift configuration
  perform (write_config config_bytes) files.write_config_error
      (wrap (codes "Failed to save config")) same
  copy_program files
  register_again svc new_account
  perform start svc.start_error (wrap (codes "Failed to start service")) same

-- runUpdate; `svc` is nil when it begins.
unfoldable pub run_update :
    Option Bytes → Files → Manager → Codec → CommonFlags → Outcome (Unit {0})
run_update paths_error files svc json c =
    (perform open_service svc.open_error (wrap (codes "Failed to open service")) held
        >> deferring svc.last_close_error (
            update_opened (updated_configuration paths_error files json c) files svc
              (not (is_empty c.service_username))))
      false
