-- ===== src/Install/Uninstall.antt =====
-- runUninstall of cmd/agent_smith/uninstall.go. It returns nothing; the result here is the error that it
-- logs before it returns.
pub mod Removes
use agent_smith_go.Base.{Bool, true, false, Option, none, some, Bytes, codes}
use agent_smith_go.Interpreter.Message.{Except, done, failed}
use agent_smith_go.Install.Act.{
  open_service, stop, delete, sleep, remove_data, remove_program, remove_scripts, Outcome, Act,
  ◌>>=◌, ◌>>◌, lift, perform, attempt, same, deferring,
}
use agent_smith_go.Install.Host.{Manager, Files, wrap}

abbrev pub opened : Bool → Bool
opened live = true

abbrev pub delete_text : Bytes → Bytes
delete_text = wrap (codes "Failed to delete directory")

unfoldable pub halt_if_active : Manager → Bool → Act (Unit {0})
halt_if_active svc true = perform stop svc.stop_error (wrap (codes "Failed to stop service")) same
halt_if_active svc false = lift (done tt)

-- The data, program and scripts directories, in this order.
unfoldable pub remove_directories : Files → Act (Unit {0})
remove_directories files = do
  perform remove_data files.remove_data_error delete_text same
  perform remove_program files.remove_program_error delete_text same
  perform remove_scripts files.remove_scripts_error delete_text same

-- What runUninstall does between Open and the deferred Close.
unfoldable pub uninstall_opened : Files → Manager → Act (Unit {0})
uninstall_opened files svc = do
  halt_if_active svc svc.is_active
  perform delete svc.delete_error (wrap (codes "Failed to delete service")) same
  attempt sleep none same
  remove_directories files

unfoldable pub run_uninstall : Files → Manager → Outcome (Unit {0})
run_uninstall files svc =
    (perform open_service svc.open_error (wrap (codes "Failed to open service")) opened
        >> deferring svc.last_close_error (uninstall_opened files svc))
      false
