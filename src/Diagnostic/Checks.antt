-- ===== src/Diagnostic/Checks.antt =====
-- The checks of cmd/agent_smith/diagnostic.go and the results that they print. The headings, the hints
-- and the paths that they print besides are left out.
pub mod Healthy
pub mod Logs
use agent_smith_go.Base.{
  ℕ, ◌==◌, Bool, true, false, not, ◌&&◌, ◌||◌, Option, none, some, List, [], ◌∷◌, ◌++◌,
  if◌then◌else◌, Bytes, codes, is_empty, eq_bytes, trim_space,
}
use agent_smith_go.Interpreter.Message.{Except, done, failed}
use agent_smith_go.Agent.Device.{Device}
use agent_smith_go.Agent.Host.{HostInfo}
use agent_smith_go.Diagnostic.Scan.{AgentInfo}

-- A line of printResult: whether it passed, and its message.
pub record Verdict : Type 0 where
  pub pass : Bool
  pub message : Bytes

abbrev pub verdict : Bool → Bytes → Verdict
verdict pass message = record { pass = pass; message = message }

-- "[PASS]" or "[FAIL]" in front of the message.
unfoldable pub print_result : Verdict → Bytes
print_result v =
    codes "    "
    ++ ((if v.pass then codes "[PASS] " else codes "[FAIL] ") ++ (v.message ++ codes "\n"))

unfoldable pub str_or_na : Bytes → Bytes
str_or_na s = if is_empty s then codes "N/A" else s

unfoldable pub ptr_or_na : Option Bytes → Bytes
unfolding str_or_na
ptr_or_na none = codes "N/A"
ptr_or_na (some s) = str_or_na s

unfoldable pub service_verdicts : AgentInfo → Option Bool → List Verdict
service_verdicts a none =
    verdict false (codes "Service not found (" ++ (a.service_name ++ codes ")")) ∷ []
service_verdicts a (some running) =
    verdict running (
      a.org_id
      ++ (codes " - "
          ++ ((if running then codes "RUNNING" else codes "STOPPED")
              ++ (codes " (" ++ (a.service_name ++ codes ")")))))
    ∷ []

-- The service manager: none where Open fails, else whether the service is active.
unfoldable pub run_check_service_status : (Bytes → Option Bool) → AgentInfo → List Verdict
unfolding service_verdicts
run_check_service_status services a = service_verdicts a (services a.service_name)

abbrev pub test_command : List Bytes
test_command = codes "bash" ∷ codes "-c" ∷ codes "echo 'Agent Smith diagnostic test'" ∷ []

-- What the test command ends with: the time it took, or its error.
unfoldable pub run_command_test : Except Bytes → List Verdict
run_command_test (failed e) = verdict false (codes "Command execution failed: " ++ e) ∷ []
run_command_test (done elapsed) =
    verdict true (codes "Command executed successfully (" ++ (elapsed ++ codes ")")) ∷ []

-- Whether a TLS connection to a port of a host is made.
abbrev pub Dialer : Type 0
Dialer = Bytes → Bytes → Bool

unfoldable pub connectivity_to : Dialer → Bytes → List Verdict
connectivity_to dial host =
    if is_empty host
    then verdict false (codes "Azure IoT Hub host not configured") ∷ []
    else verdict (dial host (codes "8883"))
        (codes "MQTT TLS connection to " ++ (host ++ codes ":8883"))
      ∷ verdict (dial host (codes "443"))
          (codes "WebSocket connection to " ++ (host ++ codes ":443"))
      ∷ []

unfoldable pub connectivity_of : Dialer → Option Device → List Verdict
unfolding connectivity_to
connectivity_of dial none =
    verdict false (codes "No config loaded - cannot determine MQTT host") ∷ []
connectivity_of dial (some device) = connectivity_to dial device.azure_iot_hub_host

unfoldable pub run_connectivity_test_with : Dialer → AgentInfo → List Verdict
unfolding connectivity_of
run_connectivity_test_with dial a = connectivity_of dial a.device

-- What the file system does in the scripts directory, and what it says of the data directory: an
-- error, or whether it is a directory.
pub record Directories : Type 0 where
  pub mkdir_error : Option Bytes
  pub write_error : Option Bytes
  pub read_back : Except Bytes
  pub data_dir : Except Bool

abbrev pub test_content : Bytes
test_content = codes "agent_smith diagnostic test"

unfoldable pub read_verdict : Except Bytes → Verdict
read_verdict (failed e) = verdict false (codes "Cannot read back test file: " ++ e)
read_verdict (done bytes) =
    if not (eq_bytes bytes test_content)
    then verdict false (codes "File content mismatch after read-back")
    else verdict true (codes "File read-back verified")

unfoldable pub data_verdict : Except Bool → Verdict
data_verdict (failed e) = verdict false (codes "Data directory does not exist: " ++ e)
data_verdict (done is_dir) =
    if not is_dir
    then verdict false (codes "Data path exists but is not a directory")
    else verdict true (codes "Data directory exists")

-- The calls on the file system that runTempDirTest makes.
pub data FileCall : Type 0 where
  make_scripts_dir write_test_file read_test_file remove_test_file stat_data_dir : FileCall

unfoldable pub write_test : Directories → Option Bytes → List Verdict × List FileCall
unfolding read_verdict data_verdict
write_test dirs (some e) =
    (verdict false (codes "Cannot write to scripts directory: " ++ e) ∷ [], write_test_file ∷ [])
write_test dirs none = (
  verdict true (codes "File write successful")
      ∷ read_verdict dirs.read_back
      ∷ data_verdict dirs.data_dir
      ∷ [],
  write_test_file ∷ read_test_file ∷ remove_test_file ∷ stat_data_dir ∷ [],
)

unfoldable pub scripts_test : Directories → Option Bytes → List Verdict × List FileCall
unfolding write_test
scripts_test dirs (some e) =
    (verdict false (codes "Cannot create scripts directory: " ++ e) ∷ [], make_scripts_dir ∷ [])
scripts_test dirs none =
    let (verdicts, calls) = write_test dirs dirs.write_error in
    (verdict true (codes "Scripts directory created/exists") ∷ verdicts, make_scripts_dir ∷ calls)

unfoldable pub run_temp_dir_test : Directories → List Verdict × List FileCall
unfolding scripts_test
run_temp_dir_test dirs = scripts_test dirs dirs.mkdir_error

-- What NewHostInfo returns; none where a provider is missing.
unfoldable pub run_host_info : Option (Except HostInfo) → List Verdict
run_host_info none = verdict false (codes "System or domain provider not available") ∷ []
run_host_info (some (failed e)) =
    verdict false (codes "Failed to gather host information: " ++ e) ∷ []
run_host_info (some (done info)) = verdict true (codes "Host information collected") ∷ []

abbrev bool_text : Bool → Bytes
bool_text true = codes "true"
bool_text false = codes "false"

-- The information that runHostInfo prints: each line's label and its value.
unfoldable pub host_lines : HostInfo → List (Bytes × Bytes)
unfolding str_or_na ptr_or_na
host_lines info =
    (codes "Hostname", str_or_na info.host_name)
    ∷ (codes "MAC Address", ptr_or_na info.mac_address)
    ∷ (codes "Operating System", str_or_na info.operating_system)
    ∷ (codes "CPU Model", str_or_na info.cpu_model)
    ∷ (codes "RAM (GB)", str_or_na info.ram_gb)
    ∷ (codes "Agent Version", str_or_na info.agent_version)
    ∷ (codes "Agent Executable Path", str_or_na info.agent_executable_path)
    ∷ (codes "Service Executable Path", str_or_na info.service_executable_path)
    ∷ (codes "AD Domain", ptr_or_na info.ad_domain)
    ∷ (codes "AD Domain Controller", bool_text info.is_ad_domain_controller)
    ∷ (codes "Entra Connect Server", bool_text info.is_entra_connect_server)
    ∷ (codes "Entra Domain", ptr_or_na info.entra_domain)
    ∷ (codes "Org ID", str_or_na info.org_id)
    ∷ []

-- What the checks meet.
pub record Surroundings : Type 0 where
  pub services : Bytes → Option Bool
  pub command : Except Bytes
  pub dial : Dialer
  pub directories : Directories
  pub host : Option (Except HostInfo)

unfoldable pub run_all_checks_with : Surroundings → AgentInfo → List Verdict
unfolding run_check_service_status run_command_test run_connectivity_test_with run_temp_dir_test
    run_host_info
run_all_checks_with s a =
    run_check_service_status s.services a
    ++ (run_command_test s.command
        ++ (run_connectivity_test_with s.dial a
            ++ ((run_temp_dir_test s.directories).0 ++ run_host_info s.host)))

-- ReadString('\n') until its error: the lines, each with its end.
unfoldable pub split_lines : Bytes → List Bytes
split_lines [] = []
split_lines (c ∷ s) =
    let rest = split_lines s in
    if c == 10
    then (c ∷ []) ∷ rest
    else elim rest [ [] ↦ (c ∷ []) ∷ [] | line ∷ lines ↦ (c ∷ line) ∷ lines ]

unfoldable pub indented : List Bytes → List Bytes
indented [] = []
indented (text ∷ texts) =
    let rest = indented texts in if is_empty text then rest else (codes "    " ++ text) ∷ rest

-- The log viewer: a failure where the log cannot be opened, else the lines that it holds and what each
-- later read brings until the context is cancelled.
unfoldable pub run_live_logs_with : Except Bytes → List Bytes → List Verdict × List Bytes
unfolding split_lines indented
run_live_logs_with (failed e) reads = (verdict false (codes "Cannot open log file: " ++ e) ∷ [], [])
run_live_logs_with (done content) reads = ([], indented (split_lines content) ++ indented reads)
