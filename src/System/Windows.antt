-- ===== src/System/Windows.antt =====
-- internal/service/service_windows.go: the service control manager.
pub mod Stops
use agent_smith_go.Base.{
  ℕ, ◌-◌, ◌^◌, Bool, true, false, not, ◌||◌, ◌==◌, Option, none, some, List, [], ◌∷◌, ◌++◌, ltb,
  if◌then◌else◌, ℤ, pos, negsuc, Bytes, codes, is_empty,
}
use agent_smith_go.Interpreter.Message.{Except, done, failed}
use agent_smith_go.Service.Cycle.{generic_error}
use agent_smith_go.System.{AgentParams, service_arguments}

pub data State : Type 0 where
  stopped start_pending stop_pending running other : State

unfoldable pub is_stopped : State → Bool
is_stopped stopped = true
is_stopped _ = false

unfoldable pub is_running_status : State → Bool
is_running_status running = true
is_running_status _ = false

-- How Stop ends, or that it still waits behind the answers.
pub data Stopping : Type 0 where
  has_stopped waiting : Stopping
  stop_failed : Bytes → Stopping

-- The loop of Stop from the last status on, with the answers of the queries to come.
unfoldable pub wait_stopped : State → List (Except State) → Stopping
unfolding is_stopped
wait_stopped state [] = if is_stopped state then has_stopped else waiting
wait_stopped state (failed e ∷ answers) = if is_stopped state then has_stopped else stop_failed e
wait_stopped state (done next ∷ answers) =
    let rest = wait_stopped next answers in if is_stopped state then has_stopped else rest

unfoldable pub stop_service : Except State → List (Except State) → Stopping
unfolding wait_stopped
stop_service (failed e) answers = stop_failed e
stop_service (done state) answers = wait_stopped state answers

unfoldable pub is_active : Except State → Bool
unfolding is_running_status
is_active (failed e) = false
is_active (done state) = is_running_status state

-- mgr.Config as Create fills it; it starts automatically, and later than the others.
pub record ServiceConfig : Type 0 where
  pub description : Bytes
  pub service_start_name : Bytes
  pub password : Bytes

unfoldable pub service_config : AgentParams → ServiceConfig
service_config p = record {
  description = codes "Rewst Remote Agent for Org " ++ p.org_id;
  service_start_name = if is_empty p.service_username then [] else p.service_username;
  password = if is_empty p.service_username then [] else p.service_password;
}

pub data ManagerCall : Type 0 where
  connect disconnect : ManagerCall
  create_service : Bytes → Bytes → ServiceConfig → List Bytes → ManagerCall
  open_service : Bytes → ManagerCall

-- Connect, one call, and the deferred Disconnect: the calls, and the error if there is one.
unfoldable pub while_connected :
    Option Bytes → ManagerCall → Option Bytes → List ManagerCall × Option Bytes
while_connected (some e) call error = (connect ∷ [], some e)
while_connected none call error = (connect ∷ call ∷ disconnect ∷ [], error)

unfoldable pub create : Option Bytes → AgentParams → Option Bytes → List ManagerCall × Option Bytes
unfolding while_connected service_config
create connect_error p create_error =
    while_connected connect_error
      (create_service p.name p.agent_executable_path (service_config p) (service_arguments p))
      create_error

unfoldable pub open_existing : Option Bytes → Bytes → Option Bytes → List ManagerCall × Option Bytes
unfolding while_connected
open_existing connect_error name open_error =
    while_connected connect_error (open_service name) open_error

-- What the service control manager asks of the service.
pub data Command : Type 0 where
  stop shutdown interrogate : Command

-- Whether the monitor of the requests tells the runner to stop: at the first Stop or Shutdown.
unfoldable pub asks_to_stop : List Command → Bool
asks_to_stop [] = false
asks_to_stop (stop ∷ requests) = true
asks_to_stop (shutdown ∷ requests) = true
asks_to_stop (interrogate ∷ requests) = asks_to_stop requests

-- What Execute returns for the exit code of the runner: whether the code is specific to the service,
-- and the code.
unfoldable pub exit_response : ℤ → Bool × ℕ
exit_response (negsuc n) = (false, generic_error)
exit_response (pos n) = if ltb (2 ^ 32 - 1) n then (false, generic_error) else (n == 0, n)

-- The statuses that Execute sends; `reported` tells whether the monitor comes to report that the
-- runner is running before the runner ends.
unfoldable pub statuses : Bool → List State
statuses reported = start_pending ∷ ((if reported then running ∷ [] else []) ++ (stopped ∷ []))

-- Execute: the statuses and the response, for a runner that ends with an exit code when it is told to
-- stop, or by itself when it is not.
unfoldable pub execute_runner : (Bool → ℤ) → List Command → Bool → List State × Bool × ℕ
unfolding asks_to_stop statuses exit_response
execute_runner runner requests reported =
    let (specific, code) = exit_response (runner (asks_to_stop requests)) in
    (statuses reported, specific, code)

-- Run: the exit code and the error, from IsWindowsService, the exit code that the runner ended with
-- and the error of Run. The exit code is 0 where Run did not come to the runner.
unfoldable pub run_with_factory : Except Bool → Option ℤ → Option Bytes → ℤ × Option Bytes
run_with_factory (failed e) ended run_error = (pos generic_error, some e)
run_with_factory (done false) ended run_error =
    (pos generic_error, some (codes "executable should be run as a service"))
run_with_factory (done true) none run_error = (pos 0, run_error)
run_with_factory (done true) (some code) run_error = (code, run_error)
