-- ===== src/Diagnostic/Scan.antt =====
-- The agents that cmd/agent_smith/diagnostic.go finds, with diagnostic_scanner_linux.go and
-- diagnostic_scanner_darwin.go.
pub mod Installed
pub mod Named
pub mod Fallback
use agent_smith_go.Base.{
  ℕ, Bool, true, false, not, ◌&&◌, ◌||◌, Option, none, some, List, [], ◌∷◌, ◌++◌, if◌then◌else◌,
  Bytes, codes, contains, is_empty, eq_bytes, trim_space, split_byte,
}
use agent_smith_go.Interpreter.Message.{Except, done, failed}
use agent_smith_go.Agent.Device.{Device}
use agent_smith_go.Agent.Installation.{
  UnixPlatform, linux, darwin, get_config_file_path, get_log_file_path, get_service_name,
}
use agent_smith_go.Diagnostic.OrgId.{is_valid_org_id}
use agent_smith_go.Utils.Filepath.{join}

pub record AgentInfo : Type 0 where
  pub org_id : Bytes
  pub config_file : Bytes
  pub log_file : Bytes
  pub service_name : Bytes
  pub is_running : Bool
  pub device : Option Device

unfoldable pub get_agent_data_root : UnixPlatform → Bytes
get_agent_data_root linux = join (codes "/etc" ∷ codes "rewst_remote_agent" ∷ [])
get_agent_data_root darwin =
    join (codes "/Library" ∷ codes "Application Support" ∷ codes "rewst_remote_agent" ∷ [])

unfoldable pub format_service_name : UnixPlatform → Bytes → Bytes
format_service_name linux org = codes "rewst_remote_agent_" ++ org
format_service_name darwin org = codes "io.rewst.remote_agent_" ++ org

-- An entry of the data root.
pub record RootEntry : Type 0 where
  pub name : Bytes
  pub is_dir : Bool

-- What the file system, encoding/json and the service manager answer: a file by its path, and the
-- output of the query for a service.
pub record Machine : Type 0 where
  pub exists : Bytes → Bool
  pub read_file : Bytes → Except Bytes
  pub parse_device : Bytes → Option Device
  pub query : Bytes → Except Bytes

-- queryServiceStatus of Linux on the output of systemctl show: whether the service is installed, and
-- whether it runs.
unfoldable pub status_of_show : Except Bytes → Bool × Bool
status_of_show (done out) =
    (contains out (codes "LoadState=loaded"), contains out (codes "ActiveState=active"))
status_of_show (failed e) = (false, false)

-- strings.SplitN(s, "=", 2)
unfoldable pub split_pair : Bytes → Option (Bytes × Bytes)
split_pair [] = none
split_pair (c ∷ s) =
    let rest = split_pair s in
    if eq_bytes (c ∷ []) (codes "=")
    then some ([], s)
    else elim rest [ none ↦ none | some (name, value) ↦ some (c ∷ name, value) ]

abbrev pub state_value : Option (Bytes × Bytes) → Option Bytes
state_value none = none
state_value (some (name, value)) =
    if eq_bytes (trim_space name) (codes "state") then some (trim_space value) else none

-- The first line that names a state decides.
unfoldable pub first_state : List Bytes → Option Bytes
first_state [] = none
first_state (line ∷ lines) =
    let rest = first_state lines in
    elim (state_value (split_pair (trim_space line))) [ none ↦ rest | some value ↦ some value ]

unfoldable pub is_running_state : Option Bytes → Bool
is_running_state none = false
is_running_state (some value) = eq_bytes value (codes "running")

-- queryServiceStatus of macOS; the first argument tells whether the property list is there.
unfoldable pub status_of_print : Bool → Except Bytes → Bool × Bool
unfolding first_state is_running_state split_pair
status_of_print false out = (false, false)
status_of_print true (failed e) = (true, false)
status_of_print true (done out) = (true, is_running_state (first_state (split_byte 10 out)))

abbrev pub plist_file : Bytes → Bytes
plist_file name = join (codes "/Library/LaunchDaemons" ∷ (name ++ codes ".plist") ∷ [])

unfoldable pub query_service_status : UnixPlatform → Machine → Bytes → Bool × Bool
unfolding status_of_show status_of_print
query_service_status linux machine name = status_of_show (machine.query name)
query_service_status darwin machine name =
    status_of_print (machine.exists (plist_file name)) (machine.query name)

unfoldable pub load_device : Machine → Except Bytes → Option Device
load_device machine (failed e) = none
load_device machine (done bytes) = machine.parse_device bytes

abbrev pub found_config : Bytes → Bytes → Bytes
found_config root org = join (root ∷ org ∷ codes "config.json" ∷ [])

unfoldable pub agent_info : UnixPlatform → Machine → Bytes → Bytes → AgentInfo
unfolding query_service_status load_device format_service_name
agent_info platform machine root org = record {
  org_id = org;
  config_file = get_config_file_path platform org;
  log_file = get_log_file_path platform org;
  service_name = format_service_name platform org;
  is_running = (query_service_status platform machine (format_service_name platform org)).1;
  device = load_device machine (machine.read_file (found_config root org));
}

-- Whether the loop of scanAgentsFrom comes to the end of its body.
unfoldable pub is_agent_directory : Machine → Bytes → RootEntry → Bool
is_agent_directory machine root entry =
    entry.is_dir && (is_valid_org_id entry.name && machine.exists (found_config root entry.name))

unfoldable pub scan_entries : UnixPlatform → Machine → Bytes → List RootEntry → List AgentInfo
unfolding is_agent_directory agent_info
scan_entries platform machine root [] = []
scan_entries platform machine root (entry ∷ entries) =
    let rest = scan_entries platform machine root entries in
    if is_agent_directory machine root entry
    then agent_info platform machine root entry.name ∷ rest
    else rest

-- scanAgentsFrom: the entries are none where the root cannot be read.
unfoldable pub scan_agents_from :
    UnixPlatform → Machine → Bytes → Option (List RootEntry) → List AgentInfo
unfolding scan_entries
scan_agents_from platform machine root none = []
scan_agents_from platform machine root (some entries) = scan_entries platform machine root entries

unfoldable pub is_listed : Bytes → List AgentInfo → Bool
is_listed org [] = false
is_listed org (a ∷ agents) = eq_bytes a.org_id org || is_listed org agents

-- What is known of an agent that was only named.
unfoldable pub named_agent : UnixPlatform → Bytes → AgentInfo
unfolding format_service_name
named_agent platform org = record {
  org_id = org;
  config_file = get_config_file_path platform org;
  log_file = get_log_file_path platform org;
  service_name = format_service_name platform org;
  is_running = false;
  device = none;
}

-- The agents of runDiagnosticFull in front of its menu; none where it returns at once.
unfoldable pub listed_agents : UnixPlatform → Bytes → List AgentInfo → Option (List AgentInfo)
unfolding is_listed named_agent
listed_agents platform org [] = if is_empty org then none else some (named_agent platform org ∷ [])
listed_agents platform org (a ∷ agents) =
    if is_empty org || is_listed org (a ∷ agents)
    then some (a ∷ agents)
    else some ((a ∷ agents) ++ (named_agent platform org ∷ []))
