-- ===== src/Tests/DiagnosticTest.antt =====
-- The diagnostic mode, the installation paths, the host information and the Windows service.
use agent_smith_go.Base.{
  ◌<◌, ◌≡◌, ◌↔◌, ◌⊎◌, ◌^◌, refl, arith, Bool, true, false, Option, none, some, List, [], ◌∷◌, ◌++◌,
  pos, Bytes, codes, eq_bytes, has_prefix, split_byte, trim_space, contains,
}
use agent_smith_go.Interpreter.Message.{done, failed}
use agent_smith_go.Agent.Installation.{
  linux, get_config_file_path, get_data_directory, get_scripts_directory,
}
use agent_smith_go.Utils.Filepath.{
  join, clean, slash_join, resolve, join_stack, push_element, go_back,
}
use agent_smith_go.Agent.Installation.Places.{get_config_file_path-apart}
use agent_smith_go.Diagnostic.OrgId.{
  is_hex, in_class, matches, is_valid_org_id, is_valid_org_id-IsElement,
}
use agent_smith_go.Diagnostic.OrgId.Groups.{hex_groups, is_valid_org_id-hex_groups}
use agent_smith_go.Diagnostic.Scan.{
  AgentInfo, Machine, RootEntry, status_of_print, first_state, is_running_state, split_pair,
}
use agent_smith_go.Diagnostic.Session.{
  ran, exiting, selecting, left, watching, diagnosing, connectivity, converse, run_diagnostic_full,
  select_agent,
}
use agent_smith_go.Diagnostic.Session.Ends.{converse_spins, converse_ends}
use agent_smith_go.Diagnostic.Session.Targets.{Keeps, IsTarget, run_diagnostic_full-Keeps}
use agent_smith_go.Diagnostic.Checks.{Surroundings, run_all_checks_with, test_content}
use agent_smith_go.Diagnostic.Checks.Healthy.{all_pass, IsHealthy, run_all_checks_with_iff}
use agent_smith_go.Agent.Host.{HostInfo, to_lower, new_host_info, ram_gb}
use agent_smith_go.Agent.Host.Providers.{
  mac_address, Queries, unix_system, unix_domain, windows_entra_domain, answered, panics,
}
use agent_smith_go.Agent.Host.Reported.{memory_error_hidden}
use agent_smith_go.System.Windows.{stop_pending, stopped, stop_service, exit_response}
use agent_smith_go.System.Windows.Stops.{Waits, stop_service-Waits, exit_response_lem}
use agent_smith_go.Service.Cycle.{generic_error}
use agent_smith_go.Syslog.{level_of, info, extract_message, index_of_bracket}
use agent_smith_go.System.Darwin.{reports_running, any_running}
use agent_smith_go.Service.Spool.Name.{digits, digit_count}
use agent_smith_go.Agent.Host.Providers.{scan_lines, names_domain, second_part}
use agent_smith_go.Diagnostic.Session.{
  prompt, read_line, answer_prompt, answer_menu, answer_selection, at_index, nth, menu_choice,
  is_leave, stays_in,
}
use agent_smith_go.Utils.Sscanf.{scan_int, digits_value}
use agent_smith_go.Tests.Sample.{device}

abbrev org_a : Bytes
org_a = codes "0123abcd-0000-4000-8000-00000000000A"

abbrev org_b : Bytes
org_b = codes "0123abcd-0000-4000-8000-00000000000B"

valid_a : is_valid_org_id org_a ≡ true
unfolding is_valid_org_id matches in_class is_hex
valid_a = refl

is_valid_org_id-hex_groups_example :
    is_valid_org_id org_a ≡ hex_groups (8 ∷ 4 ∷ 4 ∷ 4 ∷ 12 ∷ []) (split_byte b'-' org_a)
is_valid_org_id-hex_groups_example = is_valid_org_id-hex_groups org_a

get_config_file_path-apart_example : org_a ≡ org_a
unfolding get_config_file_path get_data_directory join clean slash_join resolve join_stack
    push_element go_back split_byte eq_bytes has_prefix
get_config_file_path-apart_example =
    get_config_file_path-apart linux org_a org_a (is_valid_org_id-IsElement org_a valid_a)
      (is_valid_org_id-IsElement org_a valid_a) refl

-- A path is cleaned as it is joined.
scripts_run :
    get_scripts_directory (codes "/var//tmp/../scratch/") (codes "o")
    ≡ codes "/var/scratch/rewst_remote_agent/scripts/o"
unfolding get_scripts_directory join clean slash_join resolve join_stack push_element go_back
    split_byte eq_bytes
scripts_run = refl

abbrev agent : Bytes → AgentInfo
agent org = record {
  org_id = org;
  config_file = [];
  log_file = [];
  service_name = codes "s";
  is_running = false;
  device = some device;
}

abbrev returns : AgentInfo → Bool
returns a = true

abbrev zero_line : Bytes
zero_line = codes "0\n"

converse_ends_example :
    let last =
      (converse returns
        (agent org_a ∷ agent org_b ∷ [])
        4
        selecting
        ((codes "2\n" ∷ codes " 3 \n" ∷ []) ++ (zero_line ∷ zero_line ∷ []))).1 in
    (last ≡ left) ⊎ (last ≡ watching)
unfolding trim_space
converse_ends_example =
    converse_ends returns (agent org_a ∷ agent org_b ∷ []) 4 selecting
      (codes "2\n" ∷ codes " 3 \n" ∷ []) [] zero_line zero_line (λ e. absurd cc) refl refl
      (omega arith)

-- The second agent is chosen, its connections are checked, and the program is left.
converse_run :
    converse returns
      (agent org_a ∷ agent org_b ∷ [])
      4
      selecting
      (codes "2\n" ∷ codes " 3 \n" ∷ codes "q\n" ∷ zero_line ∷ [])
    ≡ (ran connectivity (agent org_b) ∷ exiting ∷ [], left)
unfolding converse prompt read_line answer_prompt answer_menu answer_selection select_agent at_index
    nth scan_int digits_value menu_choice is_leave stays_in trim_space eq_bytes
converse_run = refl

-- The end of the input is not the end of the program.
converse_spins_example :
    (converse returns (agent org_a ∷ []) 1000 (diagnosing (agent org_a)) (codes "3\n" ∷ [])).1
    ≡ (converse returns (agent org_a ∷ []) 1 (diagnosing (agent org_a)) (codes "3\n" ∷ [])).1
unfolding converse prompt read_line answer_prompt answer_menu answer_selection select_agent at_index
    nth scan_int digits_value menu_choice is_leave stays_in trim_space eq_bytes
converse_spins_example =
    converse_spins returns (agent org_a ∷ []) 1000 (diagnosing (agent org_a)) (codes "3\n" ∷ [])
      (omega arith) refl

abbrev machine : Machine
machine = record {
  exists = λ path. true;
  read_file = λ path. done (codes "{}");
  parse_device = λ bytes. some device;
  query = λ name. done (codes "LoadState=loaded\nActiveState=active\n");
}

abbrev entries : Option (List RootEntry)
entries = some (
    record { name = org_a; is_dir = true }
    ∷ record { name = codes "lost+found"; is_dir = true }
    ∷ [])

run_diagnostic_full-Keeps_example :
    Keeps
      (IsTarget linux machine org_b)
      (run_diagnostic_full linux machine returns org_b entries 5 (codes "2\n" ∷ codes "6\n" ∷ []))
run_diagnostic_full-Keeps_example =
    run_diagnostic_full-Keeps linux machine returns org_b entries 5 (codes "2\n" ∷ codes "6\n" ∷ [])

abbrev queries : Queries
queries = record {
  hostname = done (codes "HOST-1");
  host_platform = done (codes "debian");
  cpus = done (codes " Some CPU ", []);
  virtual_memory = failed (codes "no /proc");
  interfaces = done ([] ∷ codes "00:1a:2b:3c:4d:5e" ∷ []);
}

memory_error_hidden_example :
    (info : HostInfo) × (new_host_info linux
        (codes "v1.0.0")
        org_a
        (unix_system queries)
        unix_domain
      ≡ done info)
    × (info.ram_gb ≡ codes "0")
    × (info.operating_system ≡ codes "debian")
    × (info.cpu_model ≡ trim_space (codes " Some CPU "))
    × (info.host_name ≡ to_lower (codes "HOST-1"))
    × (mac_address (done ([] ∷ codes "00:1a:2b:3c:4d:5e" ∷ [])) ≡ done info.mac_address)
memory_error_hidden_example =
    memory_error_hidden linux (codes "v1.0.0") org_a queries unix_domain (codes "debian")
      (codes " Some CPU ") (codes "HOST-1") (codes "no /proc") []
      ([] ∷ codes "00:1a:2b:3c:4d:5e" ∷ []) refl refl refl refl refl refl

ram_run : ram_gb 17_179_869_184 ≡ codes "16"
unfolding ram_gb digits digit_count
ram_run = refl

abbrev surroundings : Surroundings
surroundings = record {
  services = λ name. some true;
  command = done (codes "3ms");
  dial = λ host port. true;
  directories = record {
    mkdir_error = none;
    write_error = none;
    read_back = done test_content;
    data_dir = done true;
  };
  host = none;
}

run_all_checks_with_iff_example :
    (all_pass (run_all_checks_with surroundings (agent org_a)) ≡ true)
    ↔ IsHealthy surroundings (agent org_a)
run_all_checks_with_iff_example = run_all_checks_with_iff surroundings (agent org_a)

stop_service-Waits_example :
    Waits
      (done stop_pending ∷ done stop_pending ∷ done stopped ∷ [])
      (stop_service (done stop_pending) (done stop_pending ∷ done stopped ∷ []))
stop_service-Waits_example =
    stop_service-Waits (done stop_pending) (done stop_pending ∷ done stopped ∷ [])

exit_response_lem_example :
    ((exit_response (pos 4_294_967_296)).1 < 2 ^ 32)
    × (((exit_response (pos 4_294_967_296)).1 ≡ 0) ↔ (pos 4_294_967_296 ≡ pos 0))
    × ((pos 4_294_967_296 ≡ pos (exit_response (pos 4_294_967_296)).1)
        ⊎ ((exit_response (pos 4_294_967_296)).1 ≡ generic_error))
    × (((exit_response (pos 4_294_967_296)).0 ≡ true) ↔ (pos 4_294_967_296 ≡ pos 0))
exit_response_lem_example = exit_response_lem (pos 4_294_967_296)

-- A warning of the logger in use has the priority of an information.
warning_run : level_of (codes "2026-01-02T03:04:05.000Z [WARN]  agent: queue is full") ≡ info
unfolding level_of contains has_prefix
warning_run = refl

message_run : extract_message (codes "2026-01-02 [ERROR] agent: lost") ≡ codes "agent: lost"
unfolding extract_message index_of_bracket
message_run = refl

-- A line without a colon ends the scan of dsregcmd's output.
entra_run :
    (windows_entra_domain (codes "AzureAdJoined : YES\nDomainName : contoso\n")
      ≡ answered (some (codes "contoso")))
    × (windows_entra_domain (codes "DomainName\n") ≡ panics)
unfolding windows_entra_domain scan_lines names_domain second_part contains has_prefix split_byte
    trim_space
entra_run = (refl, refl)

-- The first state decides here, and any state where the service is tested otherwise.
state_run :
    (status_of_print true (done (codes "state = waiting\nstate = running\n")) ≡ (true, false))
    × (reports_running (done (codes "state = waiting\nstate = running\n")) ≡ true)
unfolding status_of_print first_state is_running_state split_pair split_byte trim_space eq_bytes
    any_running
state_run = (refl, refl)
