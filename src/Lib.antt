-- ===== src/Lib.antt =====
-- A model of the agent: a Go service that receives commands over MQTT, runs them as scripts, posts
-- their results back to an engine, notifies plugins of its state, and updates itself.
--
-- The parts and how they meet. Execute (cmd/agent_smith/service.go) loads the device configuration
-- and runs connection cycles until it is told to stop; between two cycles it waits as long as the
-- reconnect generator says. A cycle connects, subscribes and fills a bounded queue from which
-- workers take messages. A worker has the interpreter run the command of a message and posts the
-- answer back; a result that cannot be delivered goes to a spool on disk, which a later cycle
-- flushes. Plugins run as subprocesses under supervision, and an updater looks for releases. The same
-- program installs, updates and removes itself, and diagnoses an installation from a menu.
--
-- Which file models which part:
--   Base                    integers with the wrap-around of int64, lists, bytes, durations
--   Agent/Device            internal/agent/device.go: Device and its resolved settings
--   Agent/Updater           internal/agent/updater.go and its builds for each platform; Runner is the
--                           timer loop of AutoUpdateRunner, Defaults its settings
--   Agent/Installation      internal/agent/installation_linux.go and installation_darwin.go: the paths;
--                           Element and Places say where they lie
--   Agent/Host              internal/agent/host.go with the providers of the platforms, NewPathsData
--   Utils/Filepath          filepath.Join and Clean on Unix
--   Utils/Reconnect         internal/utils/time.go: ReconnectTimeoutGenerator, SasTokenRenewMargin
--   Interpreter             internal/interpreter: boundedWriter and truncationOf in BoundedWriter, the
--                           answers of result.go in Result, Message in Message, Execute of
--                           base_executor.go in Executor, script_sweep.go in Sweep, the
--                           executors of the platforms in Shells
--   Service/Spool           cmd/agent_smith/postback_spool.go; Name has the file names
--   Service/Backoff         postbackRetryBackoff of cmd/agent_smith/service.go
--   Service/Postback        attemptPostback, sendPostbackWithRetry, flushPostbackSpool,
--                           processMessage and the notification of service.go
--   Service/Cycle           runCycle and WaitToken (internal/mqtt/common.go); Loop is the loop of
--                           Execute, Queue is enqueueMessage with the workers
--   Service/Startup         loadConfig and the start-up of Execute in front of its loop
--   Plugins/Supervisor      optionalNotifierWrapper of plugins/loader.go
--   Plugins/Set             notifierSetWrapper of the same file
--   Cli/Flags               the flag names and the mode detection of cmd/agent_smith/usage.go; Parse is
--                           what its flag sets use of package flag
--   Cli/Contexts            the contexts of the modes and their checks (config_context.go and the like);
--                           Tuning has the tuning flags
--   Cli/Dispatch            the choice of the mode in main.go, and reportUsage of usage.go
--   Cli/UsageText           the texts of usage.go
--   Program                 main of main.go: the modes and the exit code
--   Install                 runConfig, runUpdate and runUninstall (config.go, update.go, uninstall.go) in
--                           Config, Update and Uninstall; Act has their calls, Fetch the request of
--                           runConfig, Settings and Reread what they write, AutoUpdate the command line
--                           of an automatic update, Loads what the service makes of a saved file
--   Mqtt                    internal/mqtt: AzureIotHub is azure_iot_hub.go, Common is common.go
--   System                  internal/service: the managers of systemd (service_linux.go), launchd
--                           (service_darwin.go) and Windows (service_windows.go); Starts is what a
--                           registered service is started with
--   Diagnostic              cmd/agent_smith/diagnostic.go and its scanners: OrgId is isValidOrgId, Scan
--                           finds the agents, Session is the menu, Checks what its options do
--   Syslog                  internal/syslog
--   Install/Machine         an abstract machine with one service and the calls that it allows
--   Tests                   concrete runs
--
-- State is a record that the operations take and return: the spool with its directory, the writer,
-- the generator, the plugin wrapper. Where several goroutines share a state (the queue, the plugin
-- wrapper) the locked sections are steps of a relation, and a run is any sequence of them. A cycle
-- is the list of the events it causes, a mode that installs or removes is the list of its calls
-- with their outcome; an error is a value. Durations and times are nanoseconds; an int or a
-- Duration is an integer, and its arithmetic wraps as in int64.
--
-- What comes from outside is a parameter: encoding/json and the text decoders, the HTTP exchanges,
-- the file system's failures, the process that a command starts, the jitter (within a quarter of
-- its argument, exact below 2^53), the MQTT library, go-plugin. Each failure is a field or an
-- argument, so that a theorem holds for every behaviour that it does not exclude by a hypothesis.
-- systemctl, launchctl, the service control manager and gopsutil are parameters, and so is the way in which systemd splits a command line.
-- Of package flag the parsers of numbers and booleans are parameters.
--
-- Loops are structural: over the names of a directory, over the attempts left. Only the reconnect
-- loop, the timer loop of the updater and the menu of the diagnostic mode have fuel, the number of
-- cycles, ticks or prompts; when a cycle returns, fuel for the cycles up to it is enough, and a menu
-- that is left needs fuel for the lines up to that. The digit counts have fuel 19 and 20, since an
-- int64 has at most 19 digits and a uint64 at most 20.
--
-- Not modelled: logging; the recovery of panics but in the updater; the headings and hints of
-- diagnostic mode; the installation paths of Windows; the RPC glue of the
-- plugins; the entry point of the Unix service, which turns a signal into the stop of the runner;
-- the wrapper that recovers a panic of the message handler. The HTTP headers of a request and the
-- TLS settings are left out.
-- The temporary file of a
-- spool entry, which no operation of the spool lists, is not kept. A wait on a token is described by
-- what comes first. Lower case and white space are those of ASCII text.
pub mod Base
pub mod Utils
pub mod Agent
pub mod Interpreter
pub mod Service
pub mod Plugins
pub mod Cli
pub mod Install
pub mod Diagnostic
pub mod Mqtt
pub mod System
pub mod Program
pub mod Syslog
pub mod Tests
