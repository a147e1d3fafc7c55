-- ===== src/Agent/Device/Settings.antt =====
-- The settings resolved from a device configuration (internal/agent/device.go).
use agent_smith_go.Base.{
  ℕ, ◌/◌, ◌-◌, ◌^◌, ◌≤◌, ◌≡◌, arith, Option, none, some, ℤ, pos, ◌<ℤ◌, ◌≤ℤ◌, mul_i64, second, hour,
}
use agent_smith_go.Agent.Device.{
  Device, resolved_worker_count, resolved_message_queue_size, resolved_postback_max_attempts,
  resolved_postback_base_retry_backoff, resolved_max_output_bytes, mqtt_connect_timeout,
  mqtt_subscribe_timeout, sas_token_lifetime,
}

-- Whatever the configuration says, the pool has a worker, the queue a place, a result is sent at
-- least once and some output is kept.
pub resolved_counts_positive :
    (d : Device)
    → (pos 0 <ℤ resolved_worker_count d)
      × (pos 0 <ℤ resolved_message_queue_size d)
      × (pos 0 <ℤ resolved_postback_max_attempts d)
      × (pos 0 <ℤ resolved_max_output_bytes d)
unfolding resolved_worker_count resolved_message_queue_size resolved_postback_max_attempts
    resolved_max_output_bytes
resolved_counts_positive d = ground arith

-- A configured number of units whose product with the unit fits an int64, if there is one.
abbrev pub Fits : Option ℤ → ℕ → Type 0
Fits none unit = Unit {0}
Fits (some x) unit = x ≤ℤ pos ((2 ^ 63 - 1) / unit)

-- Every configured number of seconds or hours fits its duration.
pub record IsRepresentable (d : Device) : Type 0 where
  pub connect : Fits d.mqtt_connect_timeout_seconds second
  pub subscribe : Fits d.mqtt_subscribe_timeout_seconds second
  pub backoff : Fits d.postback_base_retry_backoff_seconds second
  pub lifetime : Fits d.sas_token_lifetime_hours hour

-- If the configured durations are representable, every timeout, the retry delay and the token's
-- lifetime are positive.
pub resolved_durations_positive :
    (d : Device) (override : Option ℤ)
    → IsRepresentable d
    → (pos 0 <ℤ mqtt_connect_timeout d)
      × (pos 0 <ℤ mqtt_subscribe_timeout d)
      × (pos 0 <ℤ resolved_postback_base_retry_backoff d)
      × (pos 0 <ℤ sas_token_lifetime override d)
unfolding mqtt_connect_timeout mqtt_subscribe_timeout resolved_postback_base_retry_backoff
    sas_token_lifetime mul_i64
resolved_durations_positive d override r = ground arith

-- A lifetime of 2562048 to 5124095 hours overflows, and the resolved lifetime is negative.
pub sas_token_lifetime_overflows :
    (d : Device) (h : ℕ)
    → d.sas_token_lifetime_hours ≡ some (pos h)
    → 2_562_048 ≤ h
    → h ≤ 5_124_095
    → sas_token_lifetime none d <ℤ pos 0
unfolding sas_token_lifetime mul_i64
sas_token_lifetime_overflows d h e lo hi = ground arith
