-- ===== src/Install/Settings.antt =====
-- The settings that config and update mode write into a device configuration: config.go, update.go.
use agent_smith_go.Base.{
  ℕ, ◌-◌, ◌%◌, not, Option, none, some, ℤ, pos, negsuc, eq_ℤ, if◌then◌else◌, codes, is_empty,
}
use agent_smith_go.Interpreter.Message.{Except, ◌>>◌}
use agent_smith_go.Agent.Device.{Device}
use agent_smith_go.Cli.Contexts.{CommonFlags, require}
use agent_smith_go.Cli.Contexts.Tuning.{tuning_ptr, tuning_flag_unset}

-- byte(n)
unfoldable pub to_byte : ℤ → ℕ
to_byte (pos n) = n % 256
to_byte (negsuc n) = 255 - n % 256

unfoldable pub validate_configuration : Device → Except (Unit {0})
validate_configuration d = do
  require (not (is_empty d.device_id)) (codes "missing required field: device_id")
  require (not (is_empty d.rewst_engine_host)) (codes "missing required field: rewst_engine_host")
  require (not (is_empty d.shared_access_key)) (codes "missing required field: shared_access_key")
  require (not (is_empty d.azure_iot_hub_host)) (codes "missing required field: azure_iot_hub_host")

-- The fields that both modes set in the same way.
unfoldable pub set_common : CommonFlags → Device → Device
set_common c d = record d {
  logging_level = c.logging_level;
  use_syslog = c.use_syslog;
  disable_agent_postback = c.disable_agent_postback;
  disable_auto_updates = c.no_auto_updates;
  github_token = c.github_token;
}

-- The device that runConfig saves, from the one that it received.
unfoldable pub configure_device : CommonFlags → Device → Device
configure_device c d =
    let t = c.tuning in
    record (set_common c d) {
      mqtt_qos = if eq_ℤ c.mqtt_qos (negsuc 0) then d.mqtt_qos else some (to_byte c.mqtt_qos);
      mqtt_connect_timeout_seconds = tuning_ptr t.mqtt_connect_timeout_seconds;
      mqtt_subscribe_timeout_seconds = tuning_ptr t.mqtt_subscribe_timeout_seconds;
      worker_count = tuning_ptr t.worker_count;
      message_queue_size = tuning_ptr t.message_queue_size;
      postback_max_attempts = tuning_ptr t.postback_max_attempts;
      postback_base_retry_backoff_seconds = tuning_ptr t.postback_base_retry_backoff_seconds;
      command_timeout_seconds = tuning_ptr t.command_timeout_seconds;
      sas_token_lifetime_hours = tuning_ptr t.sas_token_lifetime_hours;
      max_output_bytes = tuning_ptr t.max_output_bytes;
    }

-- A field that keeps its old value where the flag was omitted.
abbrev pub kept_or : ℤ → Option ℤ → Option ℤ
kept_or value old = if eq_ℤ value tuning_flag_unset then old else tuning_ptr value

-- The device that runUpdate saves, from the one in the file.
unfoldable pub update_device : CommonFlags → Device → Device
update_device c d =
    let t = c.tuning in
    record (set_common c d) {
      mqtt_qos = if eq_ℤ c.mqtt_qos (negsuc 0) then none else some (to_byte c.mqtt_qos);
      mqtt_connect_timeout_seconds =
          kept_or t.mqtt_connect_timeout_seconds d.mqtt_connect_timeout_seconds;
      mqtt_subscribe_timeout_seconds =
          kept_or t.mqtt_subscribe_timeout_seconds d.mqtt_subscribe_timeout_seconds;
      worker_count = kept_or t.worker_count d.worker_count;
      message_queue_size = kept_or t.message_queue_size d.message_queue_size;
      postback_max_attempts = kept_or t.postback_max_attempts d.postback_max_attempts;
      postback_base_retry_backoff_seconds =
          kept_or t.postback_base_retry_backoff_seconds d.postback_base_retry_backoff_seconds;
      command_timeout_seconds = kept_or t.command_timeout_seconds d.command_timeout_seconds;
      sas_token_lifetime_hours = kept_or t.sas_token_lifetime_hours d.sas_token_lifetime_hours;
      max_output_bytes = kept_or t.max_output_bytes d.max_output_bytes;
    }
