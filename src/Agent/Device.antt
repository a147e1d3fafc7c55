-- ===== src/Agent/Device.antt =====
-- internal/agent/device.go: the device configuration and the settings resolved from it.
pub mod Settings
use agent_smith_go.Base.{
  ℕ, ◌*◌, Bool, Option, none, some, List, ℤ, pos, ltb_ℤ, mul_i64, if◌then◌else◌, second, hour,
  Bytes,
}

pub record Plugin : Type 0 where
  pub name : Bytes
  pub executable_path : Bytes

-- A pointer field is an `Option`; an int is an integer in the int64 range.
pub record Device : Type 0 where
  pub device_id : Bytes
  pub rewst_org_id : Bytes
  pub rewst_engine_host : Bytes
  pub shared_access_key : Bytes
  pub azure_iot_hub_host : Bytes
  pub broker : Bytes
  pub logging_level : Bytes
  pub use_syslog : Bool
  pub plugins : List Plugin
  pub disable_agent_postback : Bool
  pub disable_auto_updates : Bool
  pub github_token : Bytes
  pub mqtt_qos : Option ℕ
  pub mqtt_connect_timeout_seconds : Option ℤ
  pub mqtt_subscribe_timeout_seconds : Option ℤ
  pub worker_count : Option ℤ
  pub message_queue_size : Option ℤ
  pub postback_max_attempts : Option ℤ
  pub postback_base_retry_backoff_seconds : Option ℤ
  pub command_timeout_seconds : Option ℤ
  pub max_output_bytes : Option ℤ
  pub sas_token_lifetime_hours : Option ℤ

abbrev pub default_worker_count : ℤ
default_worker_count = pos 10

abbrev pub default_message_queue_size : ℤ
default_message_queue_size = pos 100

abbrev pub default_postback_max_attempts : ℤ
default_postback_max_attempts = pos 3

abbrev pub default_postback_base_retry_backoff : ℤ
default_postback_base_retry_backoff = pos second

abbrev pub default_postback_max_retry_backoff : ℤ
default_postback_max_retry_backoff = pos (64 * second)

abbrev pub default_max_output_bytes : ℤ
default_max_output_bytes = pos (10 * 1024 * 1024)

abbrev pub default_mqtt_connect_timeout : ℤ
default_mqtt_connect_timeout = pos (30 * second)

abbrev pub default_mqtt_subscribe_timeout : ℤ
default_mqtt_subscribe_timeout = pos (30 * second)

abbrev pub default_sas_token_lifetime : ℤ
default_sas_token_lifetime = pos (24 * hour)

-- `if field != nil && *field > 0 { return *field }; return fallback`
abbrev positive_or : Option ℤ → ℤ → ℤ
positive_or none fallback = fallback
positive_or (some x) fallback = if ltb_ℤ (pos 0) x then x else fallback

-- The same with `time.Duration(*field) * unit`, an int64 product.
abbrev duration_or : Option ℤ → ℕ → ℤ → ℤ
duration_or none unit fallback = fallback
duration_or (some x) unit fallback = if ltb_ℤ (pos 0) x then mul_i64 x (pos unit) else fallback

unfoldable pub resolved_worker_count : Device → ℤ
resolved_worker_count d = positive_or d.worker_count default_worker_count

unfoldable pub resolved_message_queue_size : Device → ℤ
resolved_message_queue_size d = positive_or d.message_queue_size default_message_queue_size

unfoldable pub resolved_postback_max_attempts : Device → ℤ
resolved_postback_max_attempts d = positive_or d.postback_max_attempts default_postback_max_attempts

unfoldable pub resolved_postback_base_retry_backoff : Device → ℤ
resolved_postback_base_retry_backoff d =
    duration_or d.postback_base_retry_backoff_seconds second default_postback_base_retry_backoff

-- `none` is the result with `false`: no timeout is configured.
command_timeout_of : Option ℤ → Option ℤ
command_timeout_of none = none
command_timeout_of (some x) = if ltb_ℤ (pos 0) x then some (mul_i64 x (pos second)) else none

unfoldable pub resolved_command_timeout : Device → Option ℤ
unfolding command_timeout_of
resolved_command_timeout d = command_timeout_of d.command_timeout_seconds

unfoldable pub resolved_max_output_bytes : Device → ℤ
resolved_max_output_bytes d = positive_or d.max_output_bytes default_max_output_bytes

unfoldable pub mqtt_connect_timeout : Device → ℤ
mqtt_connect_timeout d =
    duration_or d.mqtt_connect_timeout_seconds second default_mqtt_connect_timeout

unfoldable pub mqtt_subscribe_timeout : Device → ℤ
mqtt_subscribe_timeout d =
    duration_or d.mqtt_subscribe_timeout_seconds second default_mqtt_subscribe_timeout

-- The link-time override is `none` where it is empty or time.ParseDuration refuses it.
unfoldable pub sas_token_lifetime : Option ℤ → Device → ℤ
sas_token_lifetime none d = duration_or d.sas_token_lifetime_hours hour default_sas_token_lifetime
sas_token_lifetime (some lifetime) d =
    if ltb_ℤ (pos 0) lifetime
    then lifetime
    else duration_or d.sas_token_lifetime_hours hour default_sas_token_lifetime
