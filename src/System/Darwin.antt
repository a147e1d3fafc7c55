-- ===== src/System/Darwin.antt =====
-- internal/service/service_darwin.go: launchd.
use agent_smith_go.Base.{
  Bool, false, ◌&&◌, ◌||◌, Option, none, some, List, [], ◌∷◌, ◌++◌, if◌then◌else◌, Bytes, codes,
  is_empty, eq_bytes, trim_space, split_byte,
}
use agent_smith_go.Interpreter.Message.{Except, done, failed, ◌>>◌, try}
use agent_smith_go.Install.Host.{Manager}
use agent_smith_go.System.{AgentParams, service_arguments}

-- launchctl by its arguments: its output, or an error; and the property list.
pub record LaunchCtl : Type 0 where
  pub run : List Bytes → Except Bytes
  pub plist_path : Bytes
  pub write_plist : Bytes → Option Bytes
  pub remove_plist : Option Bytes

abbrev pub string_element : Bytes → Bytes
string_element s = codes "<string>" ++ (s ++ codes "</string>\n")

unfoldable pub string_elements : List Bytes → Bytes
string_elements [] = []
string_elements (s ∷ ss) = string_element s ++ string_elements ss

abbrev pub user_element : Bytes → Bytes
user_element user =
    if is_empty user then [] else codes "<key>UserName</key>\n" ++ string_element user

-- The ProgramArguments of the property list.
unfoldable pub program_arguments : AgentParams → Bytes
program_arguments p =
    codes "<key>ProgramArguments</key>\n<array>\n"
    ++ (string_elements (p.agent_executable_path ∷ service_arguments p) ++ codes "</array>\n")

unfoldable pub ignore : Except Bytes → Except (Unit {0})
ignore (done out) = done tt
ignore (failed e) = failed e

unfoldable pub start_service : LaunchCtl → Bytes → Except (Unit {0})
start_service system name = do
  ignore (system.run (codes "load" ∷ system.plist_path ∷ []))
  ignore (system.run (codes "start" ∷ name ∷ []))

unfoldable pub stop_service : LaunchCtl → Bytes → Except (Unit {0})
stop_service system name = do
  ignore (system.run (codes "stop" ∷ name ∷ []))
  ignore (system.run (codes "unload" ∷ system.plist_path ∷ []))

unfoldable pub delete_service : LaunchCtl → Bytes → Except (Unit {0})
delete_service system name = do
  ignore (system.run (codes "unload" ∷ name ∷ []))
  try system.remove_plist

unfoldable pub open_service : LaunchCtl → Bytes → Except (Unit {0})
open_service system name = ignore (system.run (codes "print" ∷ (codes "system/" ++ name) ∷ []))

-- The text of the property list.
unfoldable pub plist_text : AgentParams → Bytes
plist_text p =
    codes
      "<?xml version=\"1.0\" encoding=\"UTF-8\"?>\n<!DOCTYPE plist PUBLIC \"-//Apple//DTD PLIST 1.0//EN\"\n\"http://www.apple.com/DTDs/PropertyList-1.0.dtd\">\n"
    ++ (codes "<plist version=\"1.0\">\n<dict>\n"
        ++ (codes "<key>Label</key>\n"
            ++ (string_element p.name
                ++ (program_arguments p
                    ++ (user_element p.service_username
                        ++ (codes "<key>RunAtLoad</key>\n<false/>\n"
                            ++ (codes
                                  "<key>KeepAlive</key>\n<dict>\n<key>SuccessfulExit</key>\n<false/>\n</dict>\n"
                                ++ (codes
                                      "<key>EnvironmentVariables</key>\n<dict>\n<key>PATH</key>\n<string>/usr/local/bin:/usr/bin:/bin:/usr/sbin:/sbin</string>\n</dict>\n"
                                    ++ codes "</dict>\n</plist>\n"))))))))

unfoldable pub create_service : LaunchCtl → AgentParams → Except (Unit {0})
create_service system p = try (system.write_plist (plist_text p))

-- Whether launchctl prints a state of the service that is running.
abbrev pub is_state : List Bytes → Bool
is_state (name ∷ value ∷ []) =
    eq_bytes (trim_space name) (codes "state") && eq_bytes (trim_space value) (codes "running")
is_state _ = false

unfoldable pub any_running : List Bytes → Bool
any_running [] = false
any_running (line ∷ lines) = is_state (split_byte b'=' (trim_space line)) || any_running lines

abbrev pub reports_running : Except Bytes → Bool
reports_running (done out) = any_running (split_byte 10 out)
reports_running (failed e) = false

unfoldable pub is_active : LaunchCtl → Bytes → Bool
is_active system name =
    reports_running (system.run (codes "print" ∷ (codes "system/" ++ name) ∷ []))

abbrev error_of : Except (Unit {0}) → Option Bytes
error_of (done u) = none
error_of (failed e) = some e

-- The service manager that the modes of cmd/agent_smith meet on macOS; Close never fails.
unfoldable pub darwin_manager : LaunchCtl → AgentParams → Manager
darwin_manager system p = record {
  open_error = error_of (open_service system p.name);
  is_active = is_active system p.name;
  stop_error = error_of (stop_service system p.name);
  delete_error = error_of (delete_service system p.name);
  close_error = none;
  create_error = error_of (create_service system p);
  start_error = error_of (start_service system p.name);
  last_close_error = none;
}
