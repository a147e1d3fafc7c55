-- ===== src/Agent/Installation.antt =====
-- internal/agent/installation_linux.go and installation_darwin.go: where an agent is installed.
pub mod Element
pub mod Places
pub mod Environment
use agent_smith_go.Base.{List, [], ◌∷◌, ◌++◌, Bytes, codes, Option, none}
use agent_smith_go.Utils.Filepath.{join}

pub data UnixPlatform : Type 0 where
  linux darwin : UnixPlatform

-- ValidateInstallationEnvironment, which is a no-op on both.
abbrev pub validate_installation_environment : UnixPlatform → Option Bytes
validate_installation_environment platform = none

abbrev pub program_files_dir : Bytes
program_files_dir = codes "/usr/local/bin"

abbrev pub program_data_dir : UnixPlatform → Bytes
program_data_dir linux = codes "/etc/"
program_data_dir darwin = codes "/Library/Application Support"

abbrev pub executable_name : UnixPlatform → Bytes
executable_name linux = codes "agent_smith.linux.bin"
executable_name darwin = codes "agent_smith.mac-os.bin"

unfoldable pub get_program_directory : UnixPlatform → Bytes → Bytes
get_program_directory platform org =
    join (program_files_dir ∷ (codes "rewst_remote_agent/" ++ org) ∷ [])

unfoldable pub get_data_directory : UnixPlatform → Bytes → Bytes
get_data_directory platform org =
    join (program_data_dir platform ∷ (codes "rewst_remote_agent/" ++ org) ∷ [])

-- The directory of temporary files is what os.TempDir returns.
unfoldable pub get_scripts_directory : Bytes → Bytes → Bytes
get_scripts_directory temp_dir org =
    join (temp_dir ∷ (codes "rewst_remote_agent/scripts/" ++ org) ∷ [])

unfoldable pub get_agent_executable_path : UnixPlatform → Bytes → Bytes
unfolding get_program_directory
get_agent_executable_path platform org =
    join (get_program_directory platform org ∷ executable_name platform ∷ [])

-- The service executable and the service manager are the agent itself.
abbrev pub get_service_executable_path : UnixPlatform → Bytes → Bytes
get_service_executable_path = get_agent_executable_path

abbrev pub get_service_manager_path : UnixPlatform → Bytes → Bytes
get_service_manager_path = get_agent_executable_path

unfoldable pub get_config_file_path : UnixPlatform → Bytes → Bytes
unfolding get_data_directory
get_config_file_path platform org =
    join (get_data_directory platform org ∷ codes "config.json" ∷ [])

unfoldable pub get_log_file_path : UnixPlatform → Bytes → Bytes
unfolding get_data_directory
get_log_file_path platform org =
    join (get_data_directory platform org ∷ codes "rewst_agent.log" ∷ [])

unfoldable pub get_service_name : UnixPlatform → Bytes → Bytes
get_service_name linux org = codes "rewst_remote_agent_" ++ org
get_service_name darwin org = codes "io.rewst.remote_agent_" ++ org
