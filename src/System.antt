-- ===== src/System.antt =====
-- The service managers of internal/service: what a service is registered with.
pub mod Linux
pub mod Darwin
pub mod Windows
pub mod Starts
use agent_smith_go.Base.{List, [], ◌∷◌, Bytes, codes}

pub record AgentParams : Type 0 where
  pub name : Bytes
  pub agent_executable_path : Bytes
  pub org_id : Bytes
  pub config_file_path : Bytes
  pub log_file_path : Bytes
  pub service_username : Bytes
  pub service_password : Bytes

-- The arguments that every service manager registers behind the executable.
abbrev pub service_arguments : AgentParams → List Bytes
service_arguments p =
    codes "--org-id"
    ∷ p.org_id
    ∷ codes "--config-file"
    ∷ p.config_file_path
    ∷ codes "--log-file"
    ∷ p.log_file_path
    ∷ []
