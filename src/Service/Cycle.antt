-- ===== src/Service/Cycle.antt =====
-- runCycle of cmd/agent_smith/service.go, with WaitToken of internal/mqtt/common.go.
pub mod Teardown
pub mod Loop
pub mod Queue
use agent_smith_go.Base.{
  ℕ, ◌*◌, Bool, true, false, not, ◌&&◌, ◌||◌, Option, none, some, List, [], ◌∷◌, ◌++◌, ℤ, pos,
  add_i64, sub_i64, if◌then◌else◌, Bytes, codes, second,
}
use agent_smith_go.Agent.Device.{
  Device, resolved_worker_count, mqtt_connect_timeout, mqtt_subscribe_timeout, sas_token_lifetime,
}
use agent_smith_go.Utils.Reconnect.{sas_token_renew_margin}

pub data TokenWaitResult : Type 0 where
  completed timed_out interrupted : TokenWaitResult

-- A token: whether it has resolved when the wait starts, which case of the blocking select comes up
-- first otherwise, and whether it then holds an error.
pub record Token : Type 0 where
  pub is_done : Bool
  pub first : TokenWaitResult
  pub error : Bool

unfoldable pub wait_token : Token → TokenWaitResult
wait_token t = if t.is_done then completed else t.first

abbrev pub mqtt_connect_wait_margin : ℤ
mqtt_connect_wait_margin = pos (5 * second)

abbrev pub generic_error : ℕ
generic_error = 1

-- What a cycle does to its surroundings, in order. Waits are nanoseconds.
pub data Event : Type 0 where
  starts_workers connects subscribes arms_renewal : ℤ → Event
  notifies : Bytes → Event
  publishes_twin starts_flush : Event
  closes_draining unsubscribes disconnects cancels closes_queue joins_workers : Event

-- Which case of the last select comes up.
pub data CycleEnd : Type 0 where
  stopped lost renewal_due : CycleEnd

-- How the MQTT library and the service manager behave during one cycle.
pub record Surroundings : Type 0 where
  pub options_fail : Bool
  pub connect : Token
  pub subscribe : Token
  pub cycle_end : CycleEnd
  pub is_connected : Bool  -- of the client, at the teardown

-- The events of the body, what it returns, and how far it came.
pub record Cycle : Type 0 where
  pub events : List Event
  pub should_return : Bool
  pub clear_backoff : Bool
  pub exit_code : ℕ
  pub connected : Bool
  pub subscribed : Bool

abbrev pub leaves : List Event → Bool → Bool → Cycle
leaves events should_return connected = record {
  events = events;
  should_return = should_return;
  clear_backoff = false;
  exit_code = 0;
  connected = connected;
  subscribed = false;
}

abbrev pub status : Bytes → Event
status s = notifies (codes "AgentStatus:" ++ s)

-- The last select.
unfoldable pub listen : CycleEnd → Event × Bool
listen stopped = (status (codes "Stopped"), true)
listen lost = (status (codes "Offline"), false)
listen renewal_due = (status (codes "Reconnecting"), false)

unfoldable pub renew_after : ℤ → ℤ
renew_after lifetime = sub_i64 lifetime (sas_token_renew_margin lifetime)

-- From the acknowledged subscription on.
unfoldable pub online : ℤ → CycleEnd → List Event × Bool
online lifetime e =
    let (last, returns) = listen e in
    (
      status (codes "Online") ∷ starts_flush ∷ arms_renewal (renew_after lifetime) ∷ last ∷ [],
      returns,
    )

-- From the call of Subscribe on.
unfoldable pub subscribing : ℤ → Surroundings → TokenWaitResult → Cycle
subscribing lifetime env timed_out = leaves [] false true
subscribing lifetime env interrupted = leaves (status (codes "Stopped") ∷ []) true true
subscribing lifetime env completed =
    let (events, returns) = online lifetime env.cycle_end in
    if env.subscribe.error then leaves [] false true else record {
      events = events;
      should_return = returns;
      clear_backoff = true;
      exit_code = 0;
      connected = true;
      subscribed = true;
    }

-- From the call of Connect on.
unfoldable pub connecting : ℤ → Device → Surroundings → TokenWaitResult → Cycle
connecting lifetime device env timed_out = leaves [] false false
connecting lifetime device env interrupted = leaves (status (codes "Stopped") ∷ []) true false
connecting lifetime device env completed =
    let c = subscribing lifetime env (wait_token env.subscribe) in
    if env.connect.error then leaves [] false false else record c {
      events = publishes_twin ∷ subscribes (mqtt_subscribe_timeout device) ∷ c.events;
    }

-- The body without its deferred calls.
unfoldable pub cycle_body : ℤ → Device → Surroundings → Cycle
cycle_body lifetime device env =
    let c = connecting lifetime device env (wait_token env.connect) in
    if env.options_fail
    then record (leaves [] true false) { exit_code = generic_error }
    else record c {
      events = connects (add_i64 (mqtt_connect_timeout device) mqtt_connect_wait_margin) ∷ c.events;
    }

-- The deferred calls that the body registered, the last one first.
unfoldable pub teardown : Surroundings → Cycle → List Event
teardown env c =
    (if c.connected then closes_draining ∷ [] else [])
    ++ ((if c.subscribed && env.is_connected then unsubscribes ∷ [] else [])
        ++ ((if env.options_fail then [] else disconnects ∷ [])
            ++ (cancels ∷ closes_queue ∷ joins_workers ∷ [])))

-- The first argument is the link-time override of the token lifetime.
unfoldable pub run_cycle : Option ℤ → Device → Surroundings → Cycle
run_cycle override device env =
    let c = cycle_body (sas_token_lifetime override device) device env in
    record c {
      events = starts_workers (resolved_worker_count device) ∷ (c.events ++ teardown env c);
    }
