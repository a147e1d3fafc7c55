-- ===== src/Mqtt/Common.antt =====
-- internal/mqtt/common.go: the options of a client, and the update of the device twin. WaitToken is in
-- Service/Cycle.
use agent_smith_go.Base.{
  ◌*◌, arith, Option, none, some, ◌++◌, ℤ, pos, leb_ℤ, ◌<ℤ◌, if◌then◌else◌, second, Bytes, codes,
}
use agent_smith_go.Interpreter.Message.{Except, done, failed, ◌>>=◌}
use agent_smith_go.Agent.Device.{Device, mqtt_connect_timeout}
use agent_smith_go.Mqtt.AzureIotHub.{Signing, ClientOptions, new_azure_iot_hub_client_options}

abbrev pub mqtt_publish_timeout : ℤ
mqtt_publish_timeout = pos (10 * second)

abbrev pub default_mqtt_keep_alive : ℤ
default_mqtt_keep_alive = pos (30 * second)

abbrev pub default_mqtt_ping_timeout : ℤ
default_mqtt_ping_timeout = pos (10 * second)

pub record Options : Type 0 where
  pub client : ClientOptions
  pub connect_timeout : ℤ
  pub keep_alive : ℤ
  pub ping_timeout : ℤ

unfoldable pub new_client_options : Signing → ℤ → Device → Except Options
new_client_options signing now device = do
  client ← new_azure_iot_hub_client_options signing now device
  done record {
    client = client;
    connect_timeout = mqtt_connect_timeout device;
    keep_alive = default_mqtt_keep_alive;
    ping_timeout = default_mqtt_ping_timeout;
  }

-- How a publish ends within a time: none where the time elapses, else its error.
abbrev pub Publish : Type 0
Publish = Bytes → Bytes → ℤ → Option (Option Bytes)

abbrev pub twin_topic : Bytes
twin_topic = codes "$iothub/twin/PATCH/properties/reported/?$rid=1"

unfoldable pub publish_timeout : ℤ → ℤ
publish_timeout timeout = if leb_ℤ timeout (pos 0) then mqtt_publish_timeout else timeout

abbrev published : (ℤ → Bytes) → ℤ → Option (Option Bytes) → Option Bytes
published show timeout none =
    some (
      codes "timed out after " ++ (show timeout ++ codes " waiting to publish reported properties"))
published show timeout (some none) = none
published show timeout (some (some e)) = some (codes "failed to publish reported properties: " ++ e)

-- The error of an update; the payload is what encoding/json makes of the properties.
unfoldable pub update_reported_properties : (ℤ → Bytes) → Publish → Except Bytes → ℤ → Option Bytes
unfolding publish_timeout
update_reported_properties show publish (failed e) timeout =
    some (codes "failed to marshal reported properties: " ++ e)
update_reported_properties show publish (done payload) timeout =
    let bound = publish_timeout timeout in published show bound (publish twin_topic payload bound)

-- The wait for the publish is always bounded by a positive time, whatever time was asked for.
pub publish_timeout-pos : (timeout : ℤ) → pos 0 <ℤ publish_timeout timeout
unfolding publish_timeout
publish_timeout-pos timeout = ground arith
