-- ===== src/Service/Startup.antt =====
-- The start-up of Execute in cmd/agent_smith/service.go, up to its reconnect loop, and what it releases
-- when it returns.
pub mod Nested
use agent_smith_go.Base.{
  ℕ, Bool, true, false, not, Option, none, some, List, [], ◌∷◌, ◌++◌, ltb, if◌then◌else◌, Bytes,
  codes, is_empty,
}
use agent_smith_go.Interpreter.Message.{Except, done, failed, ◌>>=◌, ◌>>◌}
use agent_smith_go.Agent.Device.{Device}
use agent_smith_go.Service.Spool.Name.{zero_padded}

unfoldable pub check_qos : Option ℕ → Except (Unit {0})
check_qos none = done tt
check_qos (some q) =
    if ltb 1 q then failed (codes "mqtt_qos must be 0 or 1; got " ++ zero_padded 0 q) else done tt

-- loadConfig: `file` is what os.ReadFile returns, `parse` is json.Unmarshal.
unfoldable pub load_config : Except Bytes → (Bytes → Except Device) → Except Device
load_config file parse = do
  config_bytes ← file
  device ← parse config_bytes
  check_qos device.mqtt_qos
  done device

-- scriptsOrgId
unfoldable pub scripts_org_id : Bytes → Device → Bytes
scripts_org_id org_id device =
    if not (is_empty device.rewst_org_id) then device.rewst_org_id else org_id

-- What Execute acquires and has deferred the release of: the context of the commands, the log file, the
-- system logger, the update runner, the plugins and their monitor.
pub data Resource : Type 0 where
  command_context log_file sys_logger update_runner plugin_set plugin_monitor : Resource

pub data StartEvent : Type 0 where
  acquires releases : Resource → StartEvent
  signals_running notifies_started runs_loop : StartEvent
  sweeps : Bytes → StartEvent

-- What the start-up meets: the configuration, whether the log can be opened, how many plugins were
-- loaded, and the exit code of the reconnect loop.
pub record Launching : Type 0 where
  pub org_id : Bytes
  pub config : Except Device
  pub log_fails : Bool
  pub syslog_fails : Bool
  pub plugin_count : ℕ
  pub loop_exit : ℕ

-- What Execute does, and the exit code.
pub record Executed : Type 0 where
  pub events : List StartEvent
  pub code : ℕ

-- The call of Execute: what it has done, and its deferred calls, the last one first.
pub record Frame : Type 0 where
  pub events : List StartEvent
  pub deferred : List StartEvent

abbrev pub does : StartEvent → Frame → Frame
does e f = record f { events = f.events ++ (e ∷ []) }

abbrev pub defers : StartEvent → Frame → Frame
defers e f = record f { deferred = e ∷ f.deferred }

-- A return runs the deferred calls.
unfoldable pub returns : ℕ → Frame → Executed
returns code f = record { events = f.events ++ f.deferred; code = code }

-- The monitor of the plugins, which runs only where a plugin was loaded.
abbrev pub monitor : Launching → Frame → Frame
monitor s f =
    if ltb 0 s.plugin_count
    then defers (releases plugin_monitor) (does (acquires plugin_monitor) f)
    else f

-- With the plugins loaded: the service reports itself running, and goes on with the sweep of the
-- scripts and the reconnect loop.
unfoldable pub serve : Launching → Device → Frame → Executed
unfolding returns
serve s device f =
    let reported = does notifies_started (does signals_running f) in
    returns s.loop_exit
      (does runs_loop (does (sweeps (scripts_org_id s.org_id device)) (monitor s reported)))

abbrev pub run_updater : Device → Frame → Frame
run_updater device f =
    if device.disable_auto_updates
    then f
    else defers (releases update_runner) (does (acquires update_runner) f)

-- With the log open.
unfoldable pub execute_logged : Launching → Device → Frame → Executed
unfolding serve
execute_logged s device f =
    let loaded = does (acquires plugin_set) (run_updater device f) in
    serve s device (defers (releases plugin_set) loaded)

unfoldable pub execute_loaded : Launching → Device → Frame → Executed
unfolding execute_logged returns
execute_loaded s device f =
    let opened = defers (releases log_file) (does (acquires log_file) f) in
    let logging = defers (releases sys_logger) (does (acquires sys_logger) opened) in
    if s.log_fails
    then returns 3 f
    else if device.use_syslog
    then if s.syslog_fails then returns 3 opened else execute_logged s device logging
    else execute_logged s device opened

abbrev pub execute_with : Launching → Except Device → Frame → Executed
unfolding execute_loaded returns
execute_with s (failed e) f = returns 2 f
execute_with s (done device) f = execute_loaded s device f

-- Execute
unfoldable pub execute_service : Launching → Executed
execute_service s = execute_with s s.config (
    defers (releases command_context)
      (does (acquires command_context) (record { events = []; deferred = [] })))
