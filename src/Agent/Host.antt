-- ===== src/Agent/Host.antt =====
-- internal/agent/host.go, with NewPathsData of installation.go.
pub mod Providers
pub mod Reported
use agent_smith_go.Base.{
  ℕ, ◌+◌, ◌/◌, Bool, true, false, ◌&&◌, Option, none, some, List, [], ◌∷◌, ◌++◌, leb, if◌then◌else◌,
  Bytes, codes,
}
use agent_smith_go.Interpreter.Message.{Except, done, failed, ◌>>=◌}
use agent_smith_go.Service.Spool.Name.{digits, digit_count}
use agent_smith_go.Agent.Installation.{
  UnixPlatform, get_agent_executable_path, get_service_executable_path, get_config_file_path,
  get_service_manager_path,
}

pub record HostInfo : Type 0 where
  pub agent_version : Bytes
  pub agent_executable_path : Bytes
  pub service_executable_path : Bytes
  pub host_name : Bytes
  pub mac_address : Option Bytes
  pub operating_system : Bytes
  pub cpu_model : Bytes
  pub ram_gb : Bytes
  pub ad_domain : Option Bytes
  pub is_ad_domain_controller : Bool
  pub is_entra_connect_server : Bool
  pub entra_domain : Option Bytes
  pub org_id : Bytes

pub record SystemInfo : Type 0 where
  pub hostname : Except Bytes
  pub host_platform : Except Bytes
  pub cpu_model_name : Except Bytes
  pub total_memory_bytes : Except ℕ
  pub mac_address : Except (Option Bytes)

-- A value that is used also where it comes with an error.
abbrev pub Queried : Type 0 → Type 0
Queried A = A × Option Bytes

pub record DomainInfo : Type 0 where
  pub ad_domain : Queried (Option Bytes)
  pub is_ad_domain_controller : Queried Bool
  pub is_entra_connect_server : Queried Bool
  pub entra_domain : Queried (Option Bytes)

-- strings.ToLower on ASCII text.
unfoldable pub to_lower : Bytes → Bytes
to_lower [] = []
to_lower (c ∷ s) = (if leb b'A' c && leb c b'Z' then c + 32 else c) ∷ to_lower s

-- %d of a number of gigabytes, which is below 2^34.
unfoldable pub ram_gb : ℕ → Bytes
ram_gb bytes = let n = bytes / 1024 / 1024 / 1024 in digits (digit_count 19 n) n

unfoldable pub new_host_info :
    UnixPlatform → Bytes → Bytes → SystemInfo → DomainInfo → Except HostInfo
unfolding to_lower ram_gb
new_host_info platform version org sys domain = do
  host_platform ← sys.host_platform
  cpu_model_name ← sys.cpu_model_name
  hostname ← sys.hostname
  mac_address ← sys.mac_address
  memory_bytes ← sys.total_memory_bytes
  done record {
    agent_version = version;
    agent_executable_path = get_agent_executable_path platform org;
    service_executable_path = get_service_executable_path platform org;
    host_name = to_lower hostname;
    mac_address = mac_address;
    operating_system = host_platform;
    cpu_model = cpu_model_name;
    ram_gb = ram_gb memory_bytes;
    ad_domain = domain.ad_domain.0;
    is_ad_domain_controller = domain.is_ad_domain_controller.0;
    is_entra_connect_server = domain.is_entra_connect_server.0;
    entra_domain = domain.entra_domain.0;
    org_id = org;
  }

pub record PathsData : Type 0 where
  pub service_executable_path : Bytes
  pub agent_executable_path : Bytes
  pub config_file_path : Bytes
  pub service_manager_path : Bytes
  pub tags : HostInfo

unfoldable pub new_paths_data :
    UnixPlatform → Bytes → Bytes → SystemInfo → DomainInfo → Except PathsData
unfolding new_host_info
new_paths_data platform version org sys domain = do
  host_info ← new_host_info platform version org sys domain
  done record {
    service_executable_path = get_service_executable_path platform org;
    agent_executable_path = get_agent_executable_path platform org;
    config_file_path = get_config_file_path platform org;
    service_manager_path = get_service_manager_path platform org;
    tags = host_info;
  }
