-- ===== src/Service/Startup/Nested.antt =====
-- What Execute acquires it releases, in the opposite order.
use agent_smith_go.Base.{
  ℕ, ◌≡◌, refl, Bool, true, false, ◌&&◌, Option, none, some, List, [], ◌∷◌, ltb, if◌then◌else◌,
  if_holds,
}
use agent_smith_go.Interpreter.Message.{Except, done, failed}
use agent_smith_go.Agent.Device.{Device}
use agent_smith_go.Service.Startup.{
  Resource, command_context, log_file, sys_logger, update_runner, plugin_set, plugin_monitor,
  StartEvent, acquires, releases, Launching, Executed, Frame, does, defers, returns, serve,
  execute_logged, execute_loaded, execute_with, execute_service,
}

-- The place of a resource in the order of the start-up.
abbrev pub rank : Resource → ℕ
rank command_context = 0
rank log_file = 1
rank sys_logger = 2
rank update_runner = 3
rank plugin_set = 4
rank plugin_monitor = 5

-- Every release is of a resource with a lower place than the one before.
abbrev pub descends : ℕ → List StartEvent → Bool
descends bound [] = true
descends bound (releases r ∷ events) = ltb (rank r) bound && descends (rank r) events
descends bound (_ ∷ events) = descends bound events

abbrev pub eq_resource : Resource → Resource → Bool
eq_resource command_context command_context = true
eq_resource log_file log_file = true
eq_resource sys_logger sys_logger = true
eq_resource update_runner update_runner = true
eq_resource plugin_set plugin_set = true
eq_resource plugin_monitor plugin_monitor = true
eq_resource _ _ = false

-- The resources held, the last one first: only that one can be released.
unfoldable pub release : Resource → List Resource → Option (List Resource)
release r [] = none
release r (s ∷ held) = if eq_resource r s then some held else none

unfoldable pub holding : List StartEvent → Option (List Resource) → Option (List Resource)
holding events none = none
holding [] (some held) = some held
holding (acquires r ∷ events) (some held) = holding events (some (r ∷ held))
holding (releases r ∷ events) (some held) = holding events (release r held)
holding (_ ∷ events) (some held) = holding events (some held)

-- Behind the events nothing is held, and the releases came in the order of the places.
abbrev pub IsNested : Executed → Type 0
IsNested x = (holding x.events (some []) ≡ some []) × (descends 6 x.events ≡ true)

-- The call of Execute in front of the updater, with or without the system logger.
abbrev context_open : Frame
context_open = record {
  events = acquires command_context ∷ [];
  deferred = releases command_context ∷ [];
}

abbrev log_open : Frame
log_open = defers (releases log_file) (does (acquires log_file) context_open)

abbrev logging : Bool → Frame
logging true = defers (releases sys_logger) (does (acquires sys_logger) log_open)
logging false = log_open

decided-IsNested :
    (s : Launching) (device : Device) (syslog disabled has_plugins : Bool)
    → device.disable_auto_updates ≡ disabled
    → ltb 0 s.plugin_count ≡ has_plugins
    → IsNested (execute_logged s device (logging syslog))
unfolding execute_logged serve returns holding release
decided-IsNested s device true true true e f = rw (e, f) (refl, refl)
decided-IsNested s device true true false e f = rw (e, f) (refl, refl)
decided-IsNested s device true false true e f = rw (e, f) (refl, refl)
decided-IsNested s device true false false e f = rw (e, f) (refl, refl)
decided-IsNested s device false true true e f = rw (e, f) (refl, refl)
decided-IsNested s device false true false e f = rw (e, f) (refl, refl)
decided-IsNested s device false false true e f = rw (e, f) (refl, refl)
decided-IsNested s device false false false e f = rw (e, f) (refl, refl)

logged-IsNested :
    (s : Launching) (device : Device) (syslog : Bool)
    → IsNested (execute_logged s device (logging syslog))
logged-IsNested s device syslog = decided-IsNested s device syslog _ _ refl refl

returns-IsNested :
    (code : ℕ) → IsNested (returns code context_open) × IsNested (returns code log_open)
unfolding returns holding release
returns-IsNested code = ((refl, refl), (refl, refl))

with-IsNested :
    (s : Launching) (config : Except Device) → IsNested (execute_with s config context_open)
unfolding execute_loaded
with-IsNested s (failed e) = (returns-IsNested 2).0
with-IsNested s (done device) =
    if_holds IsNested s.log_fails _ _ (λ e. (returns-IsNested 3).0)
      (λ e.
        if_holds IsNested device.use_syslog _ _
          (λ e.
            if_holds IsNested s.syslog_fails _ _ (λ e. (returns-IsNested 3).1)
              (λ e. logged-IsNested s device true))
          (λ e. logged-IsNested s device false))

-- Wherever the start-up of the service ends, Execute has released exactly what it had acquired, the
-- last one first; and of those that it had acquired, the monitor of the plugins goes before the
-- plugins, these before the update runner, then the system logger and the log file, and the context of
-- the commands last.
pub execute_service-IsNested : (s : Launching) → IsNested (execute_service s)
unfolding execute_service
execute_service-IsNested s = with-IsNested s s.config
