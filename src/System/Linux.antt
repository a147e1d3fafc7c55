-- ===== src/System/Linux.antt =====
-- internal/service/service_linux.go: systemd.
pub mod Words
use agent_smith_go.Base.{
  Bool, true, false, Option, none, some, List, [], ◌∷◌, ◌++◌, if◌then◌else◌, Bytes, codes, is_empty,
}
use agent_smith_go.Interpreter.Message.{Except, done, failed, ◌>>=◌, ◌>>◌, try}
use agent_smith_go.Install.Host.{Manager}
use agent_smith_go.System.{AgentParams}

-- systemctl by its arguments, and the file of the unit: an error, or none.
pub record SystemCtl : Type 0 where
  pub run : List Bytes → Option Bytes
  pub write_unit : Bytes → Option Bytes
  pub remove_unit : Option Bytes

-- What stands behind ExecStart=
unfoldable pub exec_start : AgentParams → Bytes
exec_start p =
    p.agent_executable_path
    ++ (codes " --org-id "
        ++ (p.org_id
            ++ (codes " --config-file "
                ++ (p.config_file_path ++ (codes " --log-file " ++ p.log_file_path)))))

abbrev pub user_lines : Bytes → Bytes
user_lines user =
    if is_empty user
    then []
    else codes "User=" ++ (user ++ (codes "\nGroup=" ++ (user ++ codes "\n")))

-- The text of the unit.
unfoldable pub unit_text : AgentParams → Bytes
unit_text p =
    codes "[Unit]\nDescription="
    ++ (p.name
        ++ (codes "\n\n[Service]\nExecStart="
            ++ (exec_start p
                ++ (codes "\nRestart=always\n"
                    ++ (user_lines p.service_username
                        ++ codes "\n[Install]\nWantedBy=multi-user.target\n")))))

unfoldable pub create_service : SystemCtl → AgentParams → Except (Unit {0})
create_service system p = do
  try (system.write_unit (unit_text p))
  try (system.run (codes "daemon-reload" ∷ []))
  try (system.run (codes "enable" ∷ p.name ∷ []))

-- Whether the service is registered, not whether it runs.
unfoldable pub open_service : SystemCtl → Bytes → Except (Unit {0})
open_service system name = try (system.run (codes "is-enabled" ∷ name ∷ []))

unfoldable pub start_service : SystemCtl → Bytes → Except (Unit {0})
start_service system name = try (system.run (codes "start" ∷ name ∷ []))

unfoldable pub stop_service : SystemCtl → Bytes → Except (Unit {0})
stop_service system name = try (system.run (codes "stop" ∷ name ∷ []))

unfoldable pub delete_service : SystemCtl → Bytes → Except (Unit {0})
delete_service system name = do
  try (system.run (codes "disable" ∷ name ∷ []))
  try system.remove_unit

abbrev is_none : Option Bytes → Bool
is_none none = true
is_none (some e) = false

unfoldable pub is_active : SystemCtl → Bytes → Bool
is_active system name = is_none (system.run (codes "is-active" ∷ name ∷ []))

abbrev error_of : Except (Unit {0}) → Option Bytes
error_of (done u) = none
error_of (failed e) = some e

-- The service manager that the modes of cmd/agent_smith meet on Linux; Close never fails.
unfoldable pub linux_manager : SystemCtl → AgentParams → Manager
linux_manager system p = record {
  open_error = error_of (open_service system p.name);
  is_active = is_active system p.name;
  stop_error = error_of (stop_service system p.name);
  delete_error = error_of (delete_service system p.name);
  close_error = none;
  create_error = error_of (create_service system p);
  start_error = error_of (start_service system p.name);
  last_close_error = none;
}
